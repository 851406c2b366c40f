-- ===== src/Tests/Logger.antt =====
-- The panic path and the log buffer at concrete states.
use kernel_panic_logger.Prelude.{◌≡◌, refl, [], ◌∷◌, ◌++◌, false, inr}
use kernel_panic_logger.Outcome.{ok}
use kernel_panic_logger.Spinlock.{holding}
use kernel_panic_logger.Spinlock.Laws.{settle}
use kernel_panic_logger.Format.{word}
use kernel_panic_logger.Kernel.{chars}
use kernel_panic_logger.LogBuffer.{log_add, log_flush}
use kernel_panic_logger.LogBuffer.Add.{Adds, logged, log_add_lem}
use kernel_panic_logger.LogBuffer.Flush.{flush_text, log_flush_lem}
use kernel_panic_logger.Panic.{panic, overflows}
use kernel_panic_logger.Panic.Repeats.{Repeats}
use kernel_panic_logger.Panic.Recursion.{Silent, SavesOnly, panic_ticks_held, panic_log_held}
use kernel_panic_logger.Tests.{
  quiet, free_lock-IsFree, busy-IsSane, one_entry, running, adding, in_clock, running-IsReady,
  machine, two_frames, stack-Walks, seven_prints,
}

panic_ticks_held_example :
    (panic 5 machine (chars "kerneltrap") in_clock ≡ overflows)
    × Repeats machine Silent 5 (chars "kerneltrap") in_clock
panic_ticks_held_example =
    panic_ticks_held 5 machine (chars "kerneltrap") in_clock (unfold holding in refl)

panic_log_held_example :
    (panic 5 machine (chars "kerneltrap") adding ≡ overflows)
    × Repeats machine (SavesOnly machine) 5 (chars "kerneltrap") adding
panic_log_held_example =
    panic_log_held 5 machine (chars "kerneltrap") adding two_frames stack-Walks
      (unfold holding in refl) refl free_lock-IsFree busy-IsSane

log_add_lem_example :
    Adds
      (logged 7 0 (chars "kernel/main.c") 12 (chars "boot 7"))
      (log_add 0 (chars "kernel/main.c") 12 (chars "boot %d") (word 7 ∷ []) running)
      running
log_add_lem_example =
    log_add_lem 0 (chars "kernel/main.c") 12 (chars "boot %d") (word 7 ∷ []) seven_prints running
      running-IsReady

log_flush_lem_example :
    log_flush running
    ≡ ok tt (record running {
      hart = settle quiet;
      flushing = false;
      console = chars "$ " ++ flush_text one_entry;
    })
log_flush_lem_example = log_flush_lem running refl running-IsReady (inr free_lock-IsFree)
