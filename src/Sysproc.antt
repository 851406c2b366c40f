-- ===== src/Sysproc.antt =====
-- The system calls of xv6-riscv/kernel/sysproc.c that the logger adds, and `sys_uptime`. `copyout` of
-- vm.c is a parameter, as are the user's memory and the bytes of the stored context.
pub mod Dump
use kernel_panic_logger.Prelude.{
  ℕ, ◌+◌, ◌-◌, ◌^◌, List, [], ◌∷◌, Bool, true, false, Option, none, some, if◌then◌else◌,
}
use kernel_panic_logger.Outcome.{Outcome, ok, panics, spins, undefined, ◌>>=◌, ◌>>◌, pure}
use kernel_panic_logger.Spinlock.{acquire, release}
use kernel_panic_logger.Kernel.{Kernel, Machine, CrashContext, Proc, chars, on_tickslock}
use kernel_panic_logger.Printk.{printf}
use kernel_panic_logger.LogBuffer.{log_flush}
use kernel_panic_logger.LogTest.{log_test}
use kernel_panic_logger.CrashContext.{log_save_crash_context, log_dump_crash_context, myproc}

-- `(uint64)-1`
abbrev pub failure : ℕ
failure = 2 ^ 64 - 1

-- `ticks` as it stands inside the critical section.
unfoldable pub sys_uptime : Kernel → Outcome Kernel ℕ
sys_uptime = do on_tickslock acquire; xticks ← λ k. ok k.ticks k; on_tickslock release; pure xticks

unfoldable pub sys_logtest : List ℕ → Machine → Kernel → Outcome Kernel ℕ
sys_logtest file m = log_test file m

unfoldable pub sys_crashme : Machine → Kernel → Outcome Kernel ℕ
sys_crashme m = do
  printf (chars "crashme: simulating kernel panic...\n") []
  log_save_crash_context m (chars "crashme: user-initiated crash")
  log_flush
  log_dump_crash_context
  pure 0

-- `copyout(p->pagetable, va, src, len)` on the user's memory U: the memory after it, and whether it
-- succeeds. `bytes_of` is the representation of the context in memory, `size_bytes` that of its size.
pub record UserSpace (U : Type 0) : Type 0 where
  pub copyout : ℕ → List ℕ → U → U × Bool
  pub bytes_of : CrashContext → List ℕ
  pub size_bytes : List ℕ

-- The two copies of `sys_dumppanic`, with its arguments dst and len_addr.
unfoldable pub dump_copies : {U : Type 0} → UserSpace U → ℕ → ℕ → CrashContext → U → U × ℕ
dump_copies us dst len_addr c u =
    let (u1, size_copied) = us.copyout len_addr us.size_bytes u in
    let (u2, copied) = us.copyout dst (us.bytes_of c) u1 in
    if size_copied then (u2, if copied then 0 else failure) else (u1, failure)

-- A call of a hart that runs no process reads the page table through a null pointer.
unfoldable pub sys_dumppanic :
    {U : Type 0} → UserSpace U → Machine → ℕ → ℕ → U → Kernel → Outcome Kernel (U × ℕ)
unfolding dump_copies
sys_dumppanic us m dst len_addr u = do
  p ← myproc m
  λ k. elim p [ none ↦ undefined | some _ ↦ ok (dump_copies us dst len_addr k.saved_crash_ctx u) k ]
