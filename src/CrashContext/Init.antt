-- ===== src/CrashContext/Init.antt =====
-- `log_init`: an empty log, its lock free, and no crash context.
use mathlib.Core.Path.{subst}
use kernel_panic_logger.Prelude.{
  ℕ, zero, suc, ◌≡◌, refl, List, [], arith, length, get_elem?, replicate, some,
}
use kernel_panic_logger.Outcome.{ok, and_then}
use kernel_panic_logger.Spinlock.{initlock}
use kernel_panic_logger.Spinlock.Laws.{IsSane}
use kernel_panic_logger.Kernel.{Kernel, LogEntry, log_size, log_msg_max, log_file_max, zero_context}
use kernel_panic_logger.LogBuffer.Ring.{contents, recent, going_back, IsEntry}
use kernel_panic_logger.LogBuffer.Add.{IsReady}
use kernel_panic_logger.CrashContext.{log_init}

-- The array of a static `logbuf`: LOG_SIZE entries, all bytes zero.
unfoldable pub blank_entry : LogEntry
blank_entry = record {
  ticks = 0;
  level = 0;
  file = replicate log_file_max 0;
  line = 0;
  msg = replicate log_msg_max 0;
}

-- Entries of the declared sizes in an array of the declared length.
pub record IsArray (es : List LogEntry) : Type 0 where
  pub slots : length es ≡ log_size
  pub sized : (i : ℕ) (e : LogEntry) → get_elem? es i ≡ some e → IsEntry e

blank-IsEntry : IsEntry blank_entry
unfolding blank_entry
blank-IsEntry = record { file_size = refl; msg_size = refl }

replicate_sized :
    (n i : ℕ) (e : LogEntry) → get_elem? (replicate n blank_entry) i ≡ some e → IsEntry e
replicate_sized zero i e h = cc
replicate_sized (suc n) zero e h = let p : blank_entry ≡ e = cc in subst IsEntry p blank-IsEntry
replicate_sized (suc n) (suc i) e h = replicate_sized n i e h

pub blank-IsArray : IsArray (replicate log_size blank_entry)
blank-IsArray = record { slots = refl; sized = replicate_sized log_size }

-- The state after `log_init`.
abbrev pub initialised : Kernel → Kernel
initialised k = record k {
  logbuf = record k.logbuf { lock = initlock "logbuf"; head = 0; count = 0 };
  saved_crash_ctx = zero_context;
}

-- `log_init` returns with an empty log that can be written at once, whatever it held, and with a
-- crash context that is not valid.
pub log_init_lem :
    (k : Kernel)
    → IsSane k.hart
    → IsArray k.logbuf.entries
    → (log_init k ≡ ok tt (initialised k))
      × (contents (initialised k).logbuf ≡ [])
      × IsReady (initialised k)
      × ((initialised k).saved_crash_ctx.magic ≡ 0)
unfolding log_init initlock contents recent going_back zero_context
log_init_lem k sane arr = (
  and_then _ _ refl (and_then _ _ refl (and_then _ _ refl (and_then _ _ refl refl))),
  refl,
  record {
    free = record { unlocked = refl; nobody = refl };
    sane = sane;
    valid = record {
      slots = arr.slots;
      head_in = omega arith;
      count_in = omega arith;
      sized = arr.sized;
    };
  },
  refl,
)
