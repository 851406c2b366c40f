-- ===== src/Panic.antt =====
-- `panic` of xv6-riscv/kernel/printf.c with its calls into the logger. `panic` does not return; its
-- fate is the state in which it spins for good. A routine that panics under way runs `panic` again
-- from its start, on the stack of the first; `depth` bounds how often, and a run that needs more is
-- the fate `overflows`. The machine, with its registers and its memory, is taken as the same at each
-- attempt.
pub mod Repeats
pub mod Faulting
pub mod Halts
pub mod Recursion
use kernel_panic_logger.Prelude.{ℕ, zero, suc, List, [], ◌∷◌, true, false, some}
use kernel_panic_logger.Outcome.{Outcome, ok, panics, spins, undefined, ◌>>=◌, ◌>>◌, modify}
use kernel_panic_logger.Format.{Arg, text}
use kernel_panic_logger.Kernel.{Kernel, Machine, chars}
use kernel_panic_logger.Printk.{printf}
use kernel_panic_logger.LogBuffer.{log_flush}
use kernel_panic_logger.CrashContext.{log_save_crash_context, log_dump_crash_context}

pub data Fate : Type 0 where
  halted : Kernel → Fate
  waits : Kernel → Fate
  faulty : Fate
  overflows : Fate

-- The output of the message and the context, up to the final loop.
unfoldable pub panic_tail : List ℕ → Kernel → Outcome Kernel (Unit {0})
panic_tail s = do
  printf (chars "panic: ") []
  printf (chars "%s\n") (text (some s) ∷ [])
  log_dump_crash_context
  modify (λ k. record k { panicked = true })

-- The body up to the final loop.
unfoldable pub panic_body : Machine → List ℕ → Kernel → Outcome Kernel (Unit {0})
unfolding panic_tail
panic_body m s = do
  modify (λ k. record k { panicking = true })
  log_save_crash_context m s
  log_flush
  panic_tail s

unfoldable pub panic : ℕ → Machine → List ℕ → Kernel → Fate
unfolding panic_body
panic zero m s k = overflows
panic (suc depth) m s k = elim (panic_body m s k) [
  | ok _ k' ↦ halted k'
  | panics w k' ↦ panic depth m (chars w) k'
  | spins k' ↦ waits k'
  | undefined ↦ faulty
]
