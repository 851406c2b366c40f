-- ===== src/Tests/Text.antt =====
-- Texts, digits, memory routines and locks at concrete states.
use kernel_panic_logger.Prelude.{
  ℕ, ◌+◌, ◌-◌, ◌^◌, ◌≡◌, refl, List, [], ◌∷◌, true, some, if◌then◌else◌, arith, replicate, reverse,
}
use kernel_panic_logger.Outcome.{ok, ◌>>◌}
use kernel_panic_logger.Spinlock.{acquire, release}
use kernel_panic_logger.Spinlock.Laws.{settle, acquire-release}
use kernel_panic_logger.Digits.{digit_loop, is_negative64, negate64}
use kernel_panic_logger.Digits.Bounds.{value, Converts, digit_loop_lem}
use kernel_panic_logger.CString.{memmove, safestrcpy}
use kernel_panic_logger.CString.Memory.{in_block, memmove_lem}
use kernel_panic_logger.CString.Copy.{IsCopy, safestrcpy-IsCopy}
use kernel_panic_logger.Format.{word, peek, skip, next_word}
use kernel_panic_logger.Format.Printf.{printf_branch, printint, printf_codes}
use kernel_panic_logger.Format.Total.{fits, takes, printf_total, printint_signed}
use kernel_panic_logger.Kernel.{chars}
use kernel_panic_logger.LogBuffer.{basename}
use kernel_panic_logger.LogBuffer.Basename.{IsSplit, basename_lem}
use kernel_panic_logger.Tests.{quiet, free_lock, free_lock-IsFree, quiet-IsSane, memory}

basename_lem_example :
    (dir : List ℕ) × IsSplit (chars "kernel/main.c") dir (basename (chars "kernel/main.c"))
basename_lem_example = basename_lem (chars "kernel/main.c")

printf_total_example : (cs : List ℕ) × (printf_codes (chars "pid %d") (word 5 ∷ []) ≡ some cs)
unfolding printf_branch peek next_word skip fits takes
printf_total_example = printf_total (chars "pid %d") (word 5 ∷ []) pid_fits
  where
    pid_fits : fits (chars "pid %d") 0 (word 5 ∷ []) ≡ true
    pid_fits = refl

printint_signed_example :
    (ds : List ℕ) × (printint (2 ^ 63) 10 true
      ≡ some (if is_negative64 (2 ^ 63) then b'-' ∷ reverse ds else reverse ds))
    × (value 10 ds ≡ (if is_negative64 (2 ^ 63) then negate64 (2 ^ 63) else 2 ^ 63))
printint_signed_example = printint_signed (2 ^ 63) (omega arith)

digit_loop_lem_example : Converts 20 10 (2 ^ 64 - 1) (digit_loop 20 10 (2 ^ 64 - 1))
digit_loop_lem_example =
    digit_loop_lem 20 10 (2 ^ 64 - 1) (omega arith, omega arith) (omega arith) (omega arith)

memmove_lem_example :
    memmove memory 12 10 4 13 ≡ (if in_block 13 12 4 then memory (10 + (13 - 12)) else memory 13)
memmove_lem_example = memmove_lem memory 12 10 4 13

safestrcpy-IsCopy_example :
    IsCopy (replicate 4 88) (chars "kernel") 4 (safestrcpy (replicate 4 88) (chars "kernel") 4)
safestrcpy-IsCopy_example =
    safestrcpy-IsCopy (replicate 4 88) (chars "kernel") 4 (omega arith) (omega arith) (omega arith)

acquire-release_example :
    (acquire >> release) (record { hart = quiet; lock = free_lock })
    ≡ ok tt (record { hart = settle quiet; lock = free_lock })
acquire-release_example =
    acquire-release (record { hart = quiet; lock = free_lock }) quiet-IsSane free_lock-IsFree
