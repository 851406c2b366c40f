-- ===== src/Sysproc/Dump.antt =====
-- `sys_dumppanic` against what `copyout` promises, and `sys_crashme` and `sys_uptime` as a whole.
use kernel_panic_logger.Prelude.{
  ℕ, ◌+◌, ◌≡◌, refl, ◌≤◌, ◌⊎◌, inr, List, [], ◌∷◌, ◌++◌, true, false, arith, sym, length,
  append_assoc,
}
use kernel_panic_logger.Outcome.{Outcome, ok, and_then, zoom_of_ok}
use kernel_panic_logger.Spinlock.{acquire, release}
use kernel_panic_logger.Spinlock.Laws.{
  IsSane, IsFree, settle, settle_lem, acquire_free, release_on_taken,
}
use kernel_panic_logger.Format.Steps.{Prints-text}
use kernel_panic_logger.Kernel.{Kernel, CrashContext, Machine, chars}
use kernel_panic_logger.Printk.{printf-Prints, CanPrint, say}
use kernel_panic_logger.LogBuffer.Add.{IsReady}
use kernel_panic_logger.LogBuffer.Flush.{flush_text, log_flush_lem}
use kernel_panic_logger.CrashContext.Capture.{Captures}
use kernel_panic_logger.CrashContext.Save.{log_save-Saves}
use kernel_panic_logger.CrashContext.Walk.{Walks, length-Walks}
use kernel_panic_logger.CrashContext.Dump.{dump_text, log_dump_lem}
use kernel_panic_logger.Sysproc.{UserSpace, sys_crashme, sys_uptime, failure}

module _ {U : Type 0} (us : UserSpace U) (byte : U → ℕ → ℕ) where
  -- The user's memory holds these bytes from address a on.
  abbrev pub Holds : U → ℕ → List ℕ → Type 0
  Holds u a [] = Unit {0}
  Holds u a (b ∷ bs) = (byte u a ≡ b) × Holds u (a + 1) bs

  -- Two blocks that do not overlap.
  abbrev pub Apart : ℕ → ℕ → ℕ → ℕ → Type 0
  Apart a n b m = (a + n ≤ b) ⊎ (b + m ≤ a)

  -- What `copyout` promises: where it succeeds it has written the bytes, and it writes nowhere else.
  pub record CopyLaws : Type 0 where
    pub stored :
        (va : ℕ) (bs : List ℕ) (u : U)
        → (us.copyout va bs u).1 ≡ true
        → Holds (us.copyout va bs u).0 va bs
    pub kept :
        (va : ℕ) (bs : List ℕ) (u : U) (a : ℕ) (cs : List ℕ)
        → Apart a (length cs) va (length bs)
        → Holds u a cs
        → Holds (us.copyout va bs u).0 a cs

  -- The result of a dump of context c: 0 with both copies in the user's memory, or the failure.
  abbrev pub Dumped : CrashContext → ℕ → ℕ → U × ℕ → Type 0
  Dumped c dst len_addr (u, r) =
      ((r ≡ 0) × Holds u dst (us.bytes_of c) × Holds u len_addr us.size_bytes) ⊎ (r ≡ failure)

-- What `sys_crashme` leaves: it prints its banner, the log and the whole new context.
abbrev pub crash_msg : List ℕ
crash_msg = chars "crashme: user-initiated crash"

abbrev pub banner : List ℕ
banner = chars "crashme: simulating kernel panic...\n"

abbrev pub CrashShown : Machine → Kernel → Outcome Kernel ℕ → Type 0
CrashShown m k r =
    (c : CrashContext) × (r
      ≡ ok 0 (record k {
        hart = settle k.hart;
        saved_crash_ctx = c;
        console = k.console ++ (banner ++ (flush_text k.logbuf ++ dump_text c));
      }))
    × Captures m crash_msg k c

-- On a settled hart with the three locks free, a buffer that is ready and a machine on which every
-- word that the walk of the stack reads is mapped, `sys_crashme` returns 0 and does not halt the
-- kernel. It has saved a context of the caller and printed the banner, the
-- log and the whole context, and `panicking` and `panicked` are as they were.
pub sys_crashme_lem :
    (m : Machine) (k : Kernel) (pcs : List ℕ)
    → IsReady k
    → k.flushing ≡ false
    → IsFree k.tickslock
    → IsFree k.pr_lock
    → settle k.hart ≡ k.hart
    → Walks m.load 10 m.regs.s0 pcs
    → CrashShown m k (sys_crashme m k)
unfolding sys_crashme
sys_crashme_lem m k pcs ready idle ticks_free pr_free quiet mapped =
    let k1 = say k banner in
    let (c, saves, cap) = log_save-Saves m crash_msg k1 ticks_free ready.sane pcs mapped in
    let sane = (settle_lem k.hart ready.sane).0 in
    let once = (settle_lem k.hart ready.sane).4 in
    let k2 : Kernel = record k1 { hart = settle k.hart; saved_crash_ctx = c } in
    let k3 : Kernel = record k2 {
      hart = settle (settle k.hart);
      flushing = false;
      console = k1.console ++ flush_text k.logbuf;
    } in
    let can3 : CanPrint k3 = inr (record {
      free = pr_free;
      sane = (settle_lem (settle k.hart) sane).0;
      settled = (settle_lem (settle k.hart) sane).4;
    }) in
    let ready2 : IsReady k2 = record { free = ready.free; sane = sane; valid = ready.valid } in
    (
      c,
      and_then _ _
          (printf-Prints k (inr (record { free = pr_free; sane = ready.sane; settled = quiet }))
            (Prints-text banner refl))
          (and_then _ _ saves (
            and_then _ _ (log_flush_lem k2 idle ready2 (inr pr_free)) (
              and_then _ _
                (log_dump_lem k3 can3 cap.magic (omega (arith, cap.depth, length-Walks cap.walks))
                  cap.trace_size)
                λ i. ok 0 (record k {
                  hart = once i;
                  flushing = sym idle i;
                  saved_crash_ctx = c;
                  console = regroup k.console banner (flush_text k.logbuf) (dump_text c) i;
                })))),
      record {
        regs = cap.regs;
        csrs = cap.csrs;
        process = cap.process;
        ticks = cap.ticks;
        cpu = cap.cpu;
        message = cap.message;
        pcs = cap.pcs;
        walks = cap.walks;
        depth = cap.depth;
        trace = cap.trace;
        trace_size = cap.trace_size;
        magic = cap.magic;
      },
    )
  where
    regroup : (w a b c : List ℕ) → ((w ++ a) ++ b) ++ c ≡ w ++ (a ++ (b ++ c))
    regroup w a b c = simp append_assoc

-- With the ticks' lock free `sys_uptime` returns the ticks and gives the lock back.
pub sys_uptime_lem :
    (k : Kernel)
    → IsSane k.hart
    → IsFree k.tickslock
    → sys_uptime k ≡ ok k.ticks (record k { hart = settle k.hart })
unfolding sys_uptime
sys_uptime_lem k sane free = and_then _ _ (zoom_of_ok _ _ acquire (acquire_free _ free)) (
    and_then _ _ refl (
      and_then _ _
        (zoom_of_ok _ _ release
          (release_on_taken (record { hart = k.hart; lock = k.tickslock }) sane free))
        refl))
