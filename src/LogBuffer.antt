-- ===== src/LogBuffer.antt =====
-- The circular log buffer of xv6-riscv/kernel/paniclog.c: `lvlstr`, `log_add`, the four public
-- loggers, `log_flush` and the buffer's part of `log_init`.
pub mod Basename
pub mod Ring
pub mod Add
pub mod Flush
use kernel_panic_logger.Prelude.{
  ℕ, zero, suc, ◌+◌, ◌-◌, ◌%◌, ◌^◌, List, [], ◌∷◌, ◌++◌, Option, none, some, Bool, true, false,
  ◌||◌, if◌then◌else◌, ◌==◌, ltb, get_elem?, set,
}
use kernel_panic_logger.Outcome.{Outcome, ok, panics, spins, undefined, ◌>>=◌, ◌>>◌, modify}
use kernel_panic_logger.Spinlock.{Cpu, Spinlock, Pair, acquire, release, initlock}
use kernel_panic_logger.CString.{safestrcpy, cstr}
use kernel_panic_logger.Format.{Arg, word, text}
use kernel_panic_logger.Format.Vsnprintf.{vsnprintf}
use kernel_panic_logger.Kernel.{
  Kernel, LogBuf, LogEntry, chars, log_size, log_msg_max, log_file_max, on_logbuf_lock,
}
use kernel_panic_logger.Printk.{printf}

-- `LOG_INFO` … `LOG_DEBUG`
abbrev pub log_info_level : ℕ
log_info_level = 0

abbrev pub log_warn_level : ℕ
log_warn_level = 1

abbrev pub log_panic_level : ℕ
log_panic_level = 2

abbrev pub log_debug_level : ℕ
log_debug_level = 3

unfoldable pub lvlstr : ℕ → List ℕ
lvlstr level =
    if level == log_info_level
    then chars "INFO"
    else (if level == log_warn_level
        then chars "WARN"
        else (if level == log_panic_level
            then chars "PANIC"
            else (if level == log_debug_level then chars "DEBUG" else chars "????")))

abbrev pub is_separator : ℕ → Bool
is_separator c = c == b'/' || c == b'\\'

-- `for (p = file; *p; p++) if (*p == '/' || *p == '\\') basename = p + 1;` from p on
unfoldable pub basename_loop : List ℕ → List ℕ → List ℕ
basename_loop [] base = base
basename_loop (c ∷ p) base = basename_loop p (if is_separator c then p else base)

unfoldable pub basename : List ℕ → List ℕ
unfolding basename_loop
basename file = basename_loop file file

-- The stores into the slot `e`; `none` where the formatter's behaviour is undefined.
unfoldable pub fill_entry : LogEntry → ℕ → ℕ → List ℕ → ℕ → List ℕ → List Arg → Option LogEntry
fill_entry e ticks level file line fmt args = elim (vsnprintf e.msg log_msg_max fmt args) [
  | none ↦ none
  | some (msg, n) ↦ some (record {
    ticks = ticks;
    level = level;
    file = safestrcpy e.file (basename file) log_file_max;
    line = line;
    msg = msg;
  })
]

-- `logbuf.head = (logbuf.head + 1) % LOG_SIZE; if (logbuf.count < LOG_SIZE) logbuf.count++;`
unfoldable pub advance : LogBuf → LogEntry → LogBuf
advance b e = record b {
  entries = set b.entries b.head e;
  head = (b.head + 1) % log_size;
  count = if ltb b.count log_size then b.count + 1 else b.count;
}

-- The body of `log_add`, under the lock. A slot outside the array is undefined behaviour.
unfoldable pub insert_entry :
    ℕ → List ℕ → ℕ → List ℕ → List Arg → Kernel → Outcome Kernel (Unit {0})
unfolding fill_entry advance
insert_entry level file line fmt args k = elim (get_elem? k.logbuf.entries k.logbuf.head) [
  | none ↦ undefined
  | some slot ↦ elim (fill_entry slot k.ticks level file line fmt args) [
    | none ↦ undefined
    | some e ↦ ok tt (record k { logbuf = advance k.logbuf e })
  ]
]

unfoldable pub log_add : ℕ → List ℕ → ℕ → List ℕ → List Arg → Kernel → Outcome Kernel (Unit {0})
unfolding insert_entry
log_add level file line fmt args = do
  on_logbuf_lock acquire
  insert_entry level file line fmt args
  on_logbuf_lock release

unfoldable pub log_info : List ℕ → ℕ → List ℕ → List Arg → Kernel → Outcome Kernel (Unit {0})
unfolding log_add
log_info file line fmt args = log_add log_info_level file line fmt args

unfoldable pub log_warn : List ℕ → ℕ → List ℕ → List Arg → Kernel → Outcome Kernel (Unit {0})
unfolding log_add
log_warn file line fmt args = log_add log_warn_level file line fmt args

unfoldable pub log_debug : List ℕ → ℕ → List ℕ → List Arg → Kernel → Outcome Kernel (Unit {0})
unfolding log_add
log_debug file line fmt args = log_add log_debug_level file line fmt args

unfoldable pub log_panic_prep : List ℕ → ℕ → List ℕ → List Arg → Kernel → Outcome Kernel (Unit {0})
unfolding log_add
log_panic_prep file line fmt args = log_add log_panic_level file line fmt args

-- One round of the loop of `log_flush`: the two calls of `printf` for the slot `idx`.
unfoldable pub print_entry : ℕ → Kernel → Outcome Kernel (Unit {0})
print_entry idx k = elim (get_elem? k.logbuf.entries idx) [
  | none ↦ undefined
  | some e ↦
      (printf (chars "[%d][%s] %s:%d ") (
            word e.ticks
            ∷ text (some (lvlstr e.level))
            ∷ text (some (cstr e.file))
            ∷ word e.line
            ∷ [])
          >> printf (chars "%s\n") (text (some (cstr e.msg)) ∷ []))
        k
]

-- `idx = (idx - 1 + LOG_SIZE) % LOG_SIZE`
abbrev pub previous : ℕ → ℕ
previous idx = (idx + log_size - 1) % log_size

-- The loop from `idx` with `rounds` rounds left; it returns `printed`.
unfoldable pub flush_loop : ℕ → ℕ → ℕ → Kernel → Outcome Kernel ℕ
flush_loop zero idx printed k = ok printed k
flush_loop (suc rounds) idx printed k =
    (print_entry (previous idx) >> flush_loop rounds (previous idx) (printed + 1)) k

unfoldable pub print_if_empty : ℕ → Kernel → Outcome Kernel (Unit {0})
print_if_empty printed k =
    if printed == 0 then printf (chars "(log buffer empty)\n") [] k else ok tt k

abbrev pub set_flushing : Bool → Kernel → Kernel
set_flushing b k = record k { flushing = b }

-- The lock is taken before `flushing` is set, and released after it is cleared.
unfoldable pub flush_body : Kernel → Outcome Kernel (Unit {0})
unfolding flush_loop print_entry print_if_empty
flush_body = do
  on_logbuf_lock acquire
  modify (set_flushing true)
  printf (chars "\n--- LOG FLUSH (most recent first) ---\n") []
  printed ← λ k. flush_loop k.logbuf.count k.logbuf.head 0 k
  print_if_empty printed
  printf (chars "--- END LOG FLUSH ---\n") []
  modify (set_flushing false)
  on_logbuf_lock release

unfoldable pub log_flush : Kernel → Outcome Kernel (Unit {0})
unfolding flush_body
log_flush k = if k.flushing then ok tt k else flush_body k
