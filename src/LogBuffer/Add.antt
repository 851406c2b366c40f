-- ===== src/LogBuffer/Add.antt =====
-- `log_add` as a whole, the lock included.
use mathlib.Core.Option
use kernel_panic_logger.Prelude.{
  ℕ, suc, ◌≡◌, refl, List, [], ◌∷◌, ◌++◌, true, some, arith, ap, ◌∙◌, length, take, map,
  length-append, length-map, length-take, length-drop, get_elem?, drop,
}
use kernel_panic_logger.Outcome.{
  Outcome, ok, panics, and_then, zoom_of_ok, panics_first, zoom_of_panics,
}
use kernel_panic_logger.Spinlock.{acquire, release, push_off, holding}
use kernel_panic_logger.Spinlock.Laws.{
  IsSane, IsFree, settle, settle_lem, taken, acquire_free, release_on_taken, acquire_held,
}
use kernel_panic_logger.CString.{safestrcpy, cstr}
use kernel_panic_logger.CString.Copy.{safestrcpy-IsCopy}
use kernel_panic_logger.Format.{Arg}
use kernel_panic_logger.Format.Vsnprintf.{vsnprintf}
use kernel_panic_logger.Format.Printf.{printf_codes}
use kernel_panic_logger.Format.Buffer.{vsnprintf-printf, low_byte, stored}
use kernel_panic_logger.Kernel.{Kernel, LogEntry, log_size, log_msg_max, log_file_max}
use kernel_panic_logger.LogBuffer.{basename, fill_entry, advance, insert_entry, log_add}
use kernel_panic_logger.LogBuffer.Ring.{
  View, view, contents, IsEntry, IsValid, slot_in, contents-advance, advance-IsValid,
}

-- The buffer can be written: nobody holds its lock, and the state of the hart and the buffer is good.
pub record IsReady (k : Kernel) : Type 0 where
  pub free : IsFree k.logbuf.lock
  pub sane : IsSane k.hart
  pub valid : IsValid k.logbuf

cstr-append : (xs ys : List ℕ) → cstr (xs ++ (0 ∷ ys)) ≡ cstr xs
unfolding cstr
cstr-append [] ys = refl
cstr-append (x ∷ xs) ys = ground (arith, cstr-append xs ys)

length-stored_array :
    (buf cs : List ℕ)
    → length buf ≡ log_msg_max
    → length (stored buf log_msg_max cs).0 ≡ log_msg_max
length-stored_array buf cs h = omega (
  arith,
  length-append (map low_byte (take 127 cs)) (0 ∷ drop (suc (length (take 127 cs))) buf),
  length-map (take 127 cs) low_byte,
  length-drop (suc (length (take 127 cs))) buf,
  length-take 127 cs,
)

-- The entry that `log_add` stores: `cs` is what `printf` would print of the message.
abbrev pub logged : ℕ → ℕ → List ℕ → ℕ → List ℕ → View
logged ticks level file line cs = record {
  ticks = ticks;
  level = level;
  file = cstr (take 31 (basename file));
  line = line;
  msg = cstr (map low_byte (take 127 cs));
}

abbrev pub added : Kernel → LogEntry → Kernel
added k e = record k { hart = settle k.hart; logbuf = advance k.logbuf e }

-- The outcome of a call on state k that returns with an entry that reads as v in front of the
-- contents, the oldest one dropped from a full buffer, and a buffer that is ready for the next call.
abbrev pub Adds : View → Outcome Kernel (Unit {0}) → Kernel → Type 0
Adds v r k =
    (e : LogEntry) × (r ≡ ok tt (added k e))
    × (contents (added k e).logbuf ≡ take log_size (some v ∷ contents k.logbuf))
    × IsReady (added k e)

module _ (level : ℕ) (file : List ℕ) (line : ℕ) (fmt : List ℕ) (args : List Arg) {cs : List ℕ}
    (prints : printf_codes fmt args ≡ some cs) where
  formatted :
      (slot : LogEntry)
      → IsEntry slot
      → vsnprintf slot.msg log_msg_max fmt args ≡ some (stored slot.msg log_msg_max cs)
  formatted slot s =
      vsnprintf-printf slot.msg log_msg_max fmt args (omega arith) (omega (arith, s.msg_size))
      ∙ ap (Option.map (stored slot.msg log_msg_max)) prints

  fill_entry_lem :
      (slot : LogEntry) (ticks : ℕ)
      → IsEntry slot
      → (e : LogEntry) × (fill_entry slot ticks level file line fmt args ≡ some e)
        × IsEntry e
        × (view e ≡ logged ticks level file line cs)
  unfolding fill_entry view
  fill_entry_lem slot ticks s =
      let copy =
        safestrcpy-IsCopy slot.file (basename file) 32 (omega arith) (omega arith)
          (omega (arith, s.file_size)) in
      let msg : List ℕ = (stored slot.msg log_msg_max cs).0 in
      (
        record {
          ticks = ticks;
          level = level;
          file = safestrcpy slot.file (basename file) log_file_max;
          line = line;
          msg = msg;
        },
        rw (formatted slot s, fill_entry) refl,
        record {
          file_size = copy.size ∙ s.file_size;
          msg_size = length-stored_array slot.msg cs s.msg_size;
        },
        λ i. record {
          ticks = ticks;
          level = level;
          file = copy.text i;
          line = line;
          msg =
              cstr-append (map low_byte (take 127 cs)) (drop (suc (length (take 127 cs))) slot.msg)
                i;
        },
      )

  -- The state of the kernel inside the critical section.
  abbrev inside : Kernel → Kernel
  inside k =
      let p = taken (record { hart = k.hart; lock = k.logbuf.lock }) in
      record k { hart = p.hart; logbuf = record k.logbuf { lock = p.lock } }

  insert_entry_lem :
      (k : Kernel) (slot e : LogEntry)
      → get_elem? k.logbuf.entries k.logbuf.head ≡ some slot
      → fill_entry slot k.ticks level file line fmt args ≡ some e
      → insert_entry level file line fmt args k ≡ ok tt (record k { logbuf = advance k.logbuf e })
  unfolding insert_entry
  insert_entry_lem k slot e p q = rw (p, q, insert_entry) refl

  -- With the lock free, a valid buffer and a message that prints as `cs`, `log_add` returns: the new
  -- entry stands first in the buffer, the older ones follow as far as the LOG_SIZE slots hold them,
  -- the lock is free again, and nothing else changes but the hart's `intena`.
  pub log_add_lem :
      (k : Kernel)
      → IsReady k
      → Adds (logged k.ticks level file line cs) (log_add level file line fmt args k) k
  unfolding log_add
  log_add_lem k ready =
      let (slot, found) = slot_in ready.valid in
      let (e, fill, sized, seen) =
        fill_entry_lem slot k.ticks (ready.valid.sized k.logbuf.head slot found) in
      (
        e,
        and_then _ _ (zoom_of_ok _ _ acquire (acquire_free _ ready.free)) (
            and_then _ _ (insert_entry_lem (inside k) slot e found fill) (
              zoom_of_ok _ _ release (
                release_on_taken (record { hart = k.hart; lock = k.logbuf.lock }) ready.sane
                  ready.free))),
        contents-advance k.logbuf e ready.valid
            ∙ ap (λ v. take log_size (some v ∷ contents k.logbuf)) seen,
        record {
          free = ready.free;
          sane = (settle_lem k.hart ready.sane).0;
          valid = advance-IsValid k.logbuf e ready.valid sized;
        },
      )

  -- A hart that holds the buffer's lock already and logs calls panic, with nothing logged.
  pub log_add_held :
      (k : Kernel)
      → holding k.hart k.logbuf.lock ≡ true
      → log_add level file line fmt args k ≡ panics "acquire" (record k { hart = push_off k.hart })
  unfolding log_add
  log_add_held k held = panics_first _ _ (zoom_of_panics _ _ acquire (acquire_held _ held))
