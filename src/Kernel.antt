-- ===== src/Kernel.antt =====
-- The state that the logging parts of the kernel share: the structures of
-- xv6-riscv/kernel/paniclog.h, the static variables of paniclog.c, printf.c and trap.c, and the
-- hart that runs. C integers are kept as bit patterns, char arrays as lists of bytes.
use Prim.Native.Char.{code}
use kernel_panic_logger.Prelude.{ℕ, List, [], ◌∷◌, Option, Bool, String, replicate}
use kernel_panic_logger.Outcome.{Outcome, zoom}
use kernel_panic_logger.Spinlock.{Cpu, Spinlock, Pair}

-- A text literal as the bytes of a C string.
abbrev pub chars : String → List ℕ
chars String.[] = []
chars (String.◌∷◌ c s) = code c ∷ chars s

-- `LOG_SIZE`, `LOG_MSG_MAX`, `LOG_FILE_MAX`, `CRASH_MAGIC`
abbrev pub log_size : ℕ
log_size = 64

abbrev pub log_msg_max : ℕ
log_msg_max = 128

abbrev pub log_file_max : ℕ
log_file_max = 32

abbrev pub crash_magic : ℕ
crash_magic = 0xDEADBEEF

-- `struct log_entry`
pub record LogEntry : Type 0 where
  pub ticks : ℕ
  pub level : ℕ
  pub file : List ℕ
  pub line : ℕ
  pub msg : List ℕ

-- `logbuf`
pub record LogBuf : Type 0 where
  pub lock : Spinlock
  pub entries : List LogEntry
  pub head : ℕ
  pub count : ℕ

-- The general registers that `struct crash_context` keeps.
pub record Regs : Type 0 where
  pub ra : ℕ
  pub sp : ℕ
  pub gp : ℕ
  pub tp : ℕ
  pub t0 : ℕ
  pub t1 : ℕ
  pub t2 : ℕ
  pub s0 : ℕ
  pub s1 : ℕ
  pub a0 : ℕ
  pub a1 : ℕ
  pub a2 : ℕ
  pub a3 : ℕ
  pub a4 : ℕ
  pub a5 : ℕ
  pub a6 : ℕ
  pub a7 : ℕ
  pub s2 : ℕ
  pub s3 : ℕ
  pub s4 : ℕ
  pub s5 : ℕ
  pub s6 : ℕ
  pub s7 : ℕ
  pub s8 : ℕ
  pub s9 : ℕ
  pub s10 : ℕ
  pub s11 : ℕ
  pub t3 : ℕ
  pub t4 : ℕ
  pub t5 : ℕ
  pub t6 : ℕ

-- The supervisor registers that it keeps.
pub record Csrs : Type 0 where
  pub sepc : ℕ
  pub scause : ℕ
  pub stval : ℕ
  pub sstatus : ℕ

-- `struct crash_context`
pub record CrashContext : Type 0 where
  pub regs : Regs
  pub csrs : Csrs
  pub pid : ℕ
  pub pname : List ℕ
  pub pstate : ℕ
  pub stacktrace : List ℕ
  pub stack_depth : ℕ
  pub cpu : ℕ
  pub panic_msg : List ℕ
  pub panic_ticks : ℕ
  pub magic : ℕ

-- The three fields of `struct proc` that the crash context copies; no other one is kept.
pub record Proc : Type 0 where
  pub pid : ℕ
  pub name : List ℕ
  pub state : ℕ

-- What the machine holds when a crash context is captured: the registers as the inline assembly
-- reads them, the process of the hart (`none` where it runs none), the 64-bit words in memory, with
-- `none` at an address where a load faults, and the supervisor registers as such a fault sets them.
pub record Machine : Type 0 where
  pub regs : Regs
  pub csrs : Csrs
  pub proc : Option Proc
  pub load : ℕ → Option ℕ
  pub trap : ℕ → Csrs

-- `console` is the list of the codes that the kernel hands to `consputc`; that one turns BACKSPACE
-- into three bytes of the serial port (Console.antt) and leaves every other code.
pub record Kernel : Type 0 where
  pub hart : Cpu
  pub logbuf : LogBuf
  pub flushing : Bool
  pub saved_crash_ctx : CrashContext
  pub tickslock : Spinlock
  pub ticks : ℕ
  pub pr_lock : Spinlock
  pub panicking : Bool
  pub panicked : Bool
  pub console : List ℕ

-- `memset(&saved_crash_ctx, 0, sizeof(saved_crash_ctx))`
abbrev pub zero_regs : Regs
zero_regs = record {
  ra = 0;
  sp = 0;
  gp = 0;
  tp = 0;
  t0 = 0;
  t1 = 0;
  t2 = 0;
  s0 = 0;
  s1 = 0;
  a0 = 0;
  a1 = 0;
  a2 = 0;
  a3 = 0;
  a4 = 0;
  a5 = 0;
  a6 = 0;
  a7 = 0;
  s2 = 0;
  s3 = 0;
  s4 = 0;
  s5 = 0;
  s6 = 0;
  s7 = 0;
  s8 = 0;
  s9 = 0;
  s10 = 0;
  s11 = 0;
  t3 = 0;
  t4 = 0;
  t5 = 0;
  t6 = 0;
}

abbrev pub zero_csrs : Csrs
zero_csrs = record { sepc = 0; scause = 0; stval = 0; sstatus = 0 }

unfoldable pub zero_context : CrashContext
zero_context = record {
  regs = zero_regs;
  csrs = zero_csrs;
  pid = 0;
  pname = replicate 16 0;
  pstate = 0;
  stacktrace = replicate 10 0;
  stack_depth = 0;
  cpu = 0;
  panic_msg = replicate 128 0;
  panic_ticks = 0;
  magic = 0;
}

-- A lock routine on one of the locks of the state.
abbrev pub on_logbuf_lock : {A : Type 0} → (Pair → Outcome Pair A) → Kernel → Outcome Kernel A
on_logbuf_lock =
    zoom (λ k. record { hart = k.hart; lock = k.logbuf.lock })
      (λ k p. record k { hart = p.hart; logbuf = record k.logbuf { lock = p.lock } })

abbrev pub on_tickslock : {A : Type 0} → (Pair → Outcome Pair A) → Kernel → Outcome Kernel A
on_tickslock =
    zoom (λ k. record { hart = k.hart; lock = k.tickslock })
      (λ k p. record k { hart = p.hart; tickslock = p.lock })

abbrev pub on_pr_lock : {A : Type 0} → (Pair → Outcome Pair A) → Kernel → Outcome Kernel A
on_pr_lock =
    zoom (λ k. record { hart = k.hart; lock = k.pr_lock })
      (λ k p. record k { hart = p.hart; pr_lock = p.lock })

abbrev pub on_hart : {A : Type 0} → (Cpu → Outcome Cpu A) → Kernel → Outcome Kernel A
on_hart = zoom (λ k. k.hart) (λ k c. record k { hart = c })
