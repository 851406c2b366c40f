-- ===== src/Tests/System.antt =====
-- The self-test and the system calls at concrete states.
use kernel_panic_logger.Prelude.{ℕ, ◌+◌, ◌^◌, refl, List, [], ◌∷◌, true, false, if◌then◌else◌, ltb}
use kernel_panic_logger.Spinlock.Laws.{settle}
use kernel_panic_logger.CString.{Memory, write}
use kernel_panic_logger.Kernel.{chars}
use kernel_panic_logger.LogTest.{log_test}
use kernel_panic_logger.LogTest.Runs.{TestRuns, log_test_lem}
use kernel_panic_logger.Sysproc.{UserSpace, sys_crashme}
use kernel_panic_logger.Sysproc.Dump.{CrashShown, sys_crashme_lem}
use kernel_panic_logger.Tests.{
  free_lock-IsFree, running, running-IsReady, machine, two_frames, stack-Walks,
}

log_test_lem_example :
    TestRuns machine running (log_test (chars "kernel/paniclog.c") machine running)
log_test_lem_example =
    log_test_lem (chars "kernel/paniclog.c") machine running two_frames running-IsReady refl
      free_lock-IsFree free_lock-IsFree stack-Walks

sys_crashme_lem_example : CrashShown machine running (sys_crashme machine running)
unfolding settle
sys_crashme_lem_example =
    sys_crashme_lem machine running two_frames running-IsReady refl free_lock-IsFree
      free_lock-IsFree refl stack-Walks

-- A user's memory as a function, into which the bytes are stored one by one, below address 2 ^ 38.
abbrev store : ℕ → List ℕ → Memory → Memory
store va [] u = u
store va (b ∷ bs) u = write (store (va + 1) bs u) va b

abbrev user : UserSpace Memory
user = record {
  copyout = λ va bs u. if ltb va (2 ^ 38) then (store va bs u, true) else (u, false);
  bytes_of = λ c. c.panic_msg;
  size_bytes = 128 ∷ 0 ∷ 0 ∷ 0 ∷ 0 ∷ 0 ∷ 0 ∷ 0 ∷ [];
}
