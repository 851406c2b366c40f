-- ===== src/LogTest.antt =====
-- `log_test` of xv6-riscv/kernel/paniclog.c. `__FILE__`, which the preprocessor gives, is a parameter;
-- an argument of type int is the 64-bit word that its slot holds.
pub mod Runs
use kernel_panic_logger.Prelude.{ℕ, zero, suc, ◌+◌, ◌-◌, ◌^◌, List, [], ◌∷◌, some}
use kernel_panic_logger.Outcome.{Outcome, ok, panics, spins, undefined, ◌>>=◌, ◌>>◌, pure}
use kernel_panic_logger.Format.{Arg, word, text}
use kernel_panic_logger.Kernel.{Kernel, Machine, chars, log_size}
use kernel_panic_logger.Printk.{printf}
use kernel_panic_logger.LogBuffer.{log_info, log_warn, log_debug, log_panic_prep, log_flush}
use kernel_panic_logger.CrashContext.{log_save_crash_context}

-- The bit pattern of -n in 64 bits.
abbrev minus : ℕ → ℕ
minus n = 2 ^ 64 - n

unfoldable pub test_levels : List ℕ → Kernel → Outcome Kernel (Unit {0})
test_levels file = do
  log_info file 415 (chars "log_test: INFO message (pid=42)") []
  log_warn file 416 (chars "log_test: WARN message (x=%x)") (word 0xDEAD ∷ [])
  log_debug file 417 (chars "log_test: DEBUG message (str=%s)") (text (some (chars "hello")) ∷ [])
  log_panic_prep file 418 (chars "log_test: PANIC prep (num=%d)") (word (minus 1) ∷ [])

-- The loop from round i with `rounds` rounds left.
unfoldable pub test_wrap : List ℕ → ℕ → ℕ → Kernel → Outcome Kernel (Unit {0})
test_wrap file zero i = pure tt
test_wrap file (suc rounds) i = do
  log_debug file 421 (chars "wrap test i=%d") (word i ∷ [])
  test_wrap file rounds (i + 1)

unfoldable pub test_formats : List ℕ → Kernel → Outcome Kernel (Unit {0})
test_formats file = do
  log_info file 424 (chars "fmt d=%d ld=%ld lld=%lld")
      (word (minus 1) ∷ word (minus 2) ∷ word (minus 3) ∷ [])
  log_info file 425 (chars "fmt u=%u lu=%lu llu=%llu") (word 1 ∷ word 2 ∷ word 3 ∷ [])
  log_info file 426 (chars "fmt x=%x lx=%lx llx=%llx") (word 0xFF ∷ word 0xFFF ∷ word 0xFFFF ∷ [])
  log_info file 427 (chars "fmt s=\"%s\" c='%c' p=%p")
      (text (some (chars "test")) ∷ word b'A' ∷ word 0x80000000 ∷ [])
  log_info file 428 (chars "fmt %%") []

-- The result is `failed`, which nothing sets after its initialisation with 0.
unfoldable pub log_test : List ℕ → Machine → Kernel → Outcome Kernel ℕ
unfolding test_levels test_wrap test_formats
log_test file m = do
  test_levels file
  test_wrap file (log_size + 5) 0
  test_formats file
  log_flush
  log_save_crash_context m (chars "log_test: simulated panic for dumppanic")
  printf (chars "log_test: all tests completed.\n") []
  pure 0
