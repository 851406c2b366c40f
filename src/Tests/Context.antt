-- ===== src/Tests/Context.antt =====
-- The crash context and the ring at concrete states.
use kernel_panic_logger.Prelude.{◌≡◌, ◌⊎◌, none, refl, [], ◌∷◌, arith, replicate, inl}
use kernel_panic_logger.Outcome.{ok}
use kernel_panic_logger.Kernel.{Kernel, CrashContext, chars}
use kernel_panic_logger.Printk.{Says}
use kernel_panic_logger.LogBuffer.Ring.{contents}
use kernel_panic_logger.LogBuffer.Add.{IsReady}
use kernel_panic_logger.CrashContext.{
  log_save_crash_context, log_dump_crash_context, log_init, save_stack,
}
use kernel_panic_logger.CrashContext.Walk.{save_stack-Chain}
use kernel_panic_logger.CrashContext.Save.{Saves, Traps, log_save_lem}
use kernel_panic_logger.CrashContext.Dump.{dump_text, log_dump_lem}
use kernel_panic_logger.CrashContext.Init.{blank-IsArray, initialised, log_init_lem}
use kernel_panic_logger.Tests.{
  free_lock-IsFree, quiet-IsSane, running, crashed, stack, machine, two_frames, stack-Chain,
}

log_save_lem_example :
    Saves machine (chars "oops") running (log_save_crash_context machine (chars "oops") running)
    ⊎ Traps machine running (log_save_crash_context machine (chars "oops") running)
log_save_lem_example = log_save_lem machine (chars "oops") running free_lock-IsFree quiet-IsSane

abbrev before : CrashContext
before = record crashed.saved_crash_ctx { regs = machine.regs }

save_stack-Chain_example :
    ((save_stack stack before).1 ≡ none)
    × ((save_stack stack before).0.stack_depth ≡ 2)
    × ((save_stack stack before).0.stacktrace ≡ 0x80001000 ∷ 0x80002000 ∷ replicate 8 0)
save_stack-Chain_example = save_stack-Chain stack before two_frames refl stack-Chain

log_dump_lem_example : Says log_dump_crash_context crashed (dump_text crashed.saved_crash_ctx)
log_dump_lem_example = log_dump_lem crashed (inl refl) refl (omega arith) refl

abbrev panicking_early : Kernel
panicking_early = record crashed { saved_crash_ctx = record crashed.saved_crash_ctx { magic = 0 } }

log_init_lem_example :
    (log_init running ≡ ok tt (initialised running))
    × (contents (initialised running).logbuf ≡ [])
    × IsReady (initialised running)
    × ((initialised running).saved_crash_ctx.magic ≡ 0)
log_init_lem_example = log_init_lem running quiet-IsSane blank-IsArray
