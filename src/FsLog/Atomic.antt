-- ===== src/FsLog/Atomic.antt =====
-- A transaction is on the disk as a whole or not at all, wherever the machine stops.
use mathlib.Core.Path.{subst}
use kernel_panic_logger.Prelude.{
  ℕ, ◌+◌, ◌*◌, ◌≡◌, ◌≢◌, refl, ◌<◌, ◌∙◌, sym, List, [], ◌∷◌, true, false, ◌==◌, arith, ◌⊎◌, inl,
  inr, Bool-cases,
}
use kernel_panic_logger.FsLog.{
  Blocks, FsLog, log_blocks, bwrite, install_trans, write_head, write_log, recover_from_log, commit,
  rounds_of, restart,
}
use kernel_panic_logger.FsLog.Disk.{
  Out, Layout, Empty, Logging, write_log_loop-Logging, rounds_of_few,
}
use kernel_panic_logger.FsLog.Install.{Installs}
use kernel_panic_logger.FsLog.Crash.{
  IsImage, Empty-IsImage, SameLog, write_log_loop-SameLog, install_trans-Installs,
  write_head-Installs, Ends, clear, clear-Ends,
}
use kernel_panic_logger.FsLog.Recovery.{
  write_head-start, install_trans-SameLog, Ends-at, recover_lem,
}

-- A transaction that is ready to be committed: its blocks are different and outside of the log, the
-- other blocks outside of the log are on the disk as in the cache, and the log on the disk is empty.
pub record IsReady (k : FsLog) : Type 0 where
  pub lay : Layout k.start k.n k.block
  pub empty : k.disk k.start 0 ≡ 0
  pub clean : (b : ℕ) → Out k.start b → ((i : ℕ) → i < k.n → b ≢ k.block i) → k.disk b ≡ k.buf b

-- What a commit leaves on the disk: the old contents or an image of the new ones, and with enough
-- power the new ones.
pub record Commits (k k' : FsLog) : Type 0 where
  pub start : k'.start ≡ k.start
  pub one_of : Empty k.start k.disk k'.disk ⊎ IsImage k.start k.buf k'.disk
  pub done : 2 * k.n + 1 < k.power → Empty k.start k.buf k'.disk

write_log-Logging :
    (k : FsLog)
    → IsReady k
    → Logging k.buf k.disk (write_log k).n (write_log k) × SameLog k.n k (write_log k)
unfolding write_log
write_log-Logging k ready = (
  subst (λ (j : ℕ). Logging k.buf k.disk j (write_log k)) (sym same.n)
      (write_log_loop-Logging k.buf k.disk (rounds_of k.n) 0 k
        (omega (arith, rounds_of_few k.n ready.lay.few))
        (record {
          lay = ready.lay;
          homes = λ i h. refl;
          logs = λ i h. absurd (omega (arith, h));
          on_disk = inr (λ i h. absurd (omega (arith, h)));
          old = record { head = ready.empty; blocks = λ b out. refl };
          clean = ready.clean;
        })),
  same,
)
  where
    same : SameLog k.n k (write_log k)
    same =
        subst (λ (r : ℕ). SameLog r k (write_log k)) (rounds_of_few k.n ready.lay.few)
          (write_log_loop-SameLog (rounds_of k.n) 0 k)

write_head-SameLog : (k : FsLog) → SameLog 1 k (write_head k)
unfolding write_head bwrite
write_head-SameLog k = record { start = refl; n = refl; power = refl }

-- A commit ends with the old contents on the disk or an image of the new ones, and with the
-- new ones if there is power for all of its writes.
commit_lem : (k : FsLog) → IsReady k → Commits k (commit k)
unfolding commit clear
commit_lem k ready = elim (Bool-cases (rounds_of k.n == 0)) [
  | inl nothing ↦ rw nothing (record {
    start = refl;
    one_of = inl (record { head = ready.empty; blocks = λ b out. refl });
    done = λ h. record {
      head = ready.empty;
      blocks = λ b out. ready.clean b out (λ i small.
          absurd (empty (rounds_of k.n) nothing (rounds_of_few k.n ready.lay.few) small));
    };
  })
  | inr some_blocks ↦ rw some_blocks (record {
    start = write_head-start (record (install_trans false k2) { n = 0 }) ∙ at;
    one_of = ends.one_of;
    done = λ h.
        ends.done
          (omega (arith, h, written.1.power, headed.power, installed.power, headed.n, written.1.n));
  })
]
  where
    empty : {i n : ℕ} (r : ℕ) → (r == 0) ≡ true → r ≡ n → i < n → ⊥
    empty r h e small = ground (arith, h, e, small)

    written : Logging k.buf k.disk (write_log k).n (write_log k) × SameLog k.n k (write_log k)
    written = write_log-Logging k ready

    k2 : FsLog
    k2 = write_head (write_log k)

    installing : Installs k.buf k.disk 0 k2
    installing = write_head-Installs k.buf k.disk (write_log k) written.0

    headed : SameLog 1 (write_log k) k2
    headed = write_head-SameLog (write_log k)

    installed : SameLog k2.n k2 (install_trans false k2)
    installed = install_trans-SameLog false k2 installing.lay.few

    at : (install_trans false k2).start ≡ k.start
    at = installed.start ∙ (headed.start ∙ written.1.start)

    ends :
        Ends k.buf k.disk k.start
          (install_trans false k2).power
          (clear (install_trans false k2)).disk
    ends = Ends-at k.buf k.disk at (
        clear-Ends k.buf k.disk (install_trans false k2)
          (install_trans-Installs k.buf k.disk false k2 installing))

-- Recoveries that are cut off, each with power for so many writes.
unfoldable pub recoveries : List ℕ → FsLog → FsLog
recoveries [] k = k
recoveries (power ∷ ps) k = recoveries ps (recover_from_log (restart power k))

recoveries_lem :
    (v : Blocks) (ps : List ℕ) (k : FsLog)
    → IsImage k.start v k.disk
    → IsImage k.start v (recoveries ps k).disk × ((recoveries ps k).start ≡ k.start)
unfolding recoveries
recoveries_lem v [] k image = (image, refl)
recoveries_lem v (power ∷ ps) k image =
    let one = recover_lem v power k image in
    let (later, at) = recoveries_lem v ps (recover_from_log (restart power k)) (
      subst (λ (a : ℕ). IsImage a v (recover_from_log (restart power k)).disk) (sym one.start)
        one.image) in
    (
      subst (λ (a : ℕ). IsImage a v (recoveries (power ∷ ps) k).disk) one.start later,
      at ∙ one.start,
    )

-- What the last recovery, which is not cut off, leaves outside of the log.
pub Restored : Blocks → ℕ → FsLog → Type 0
Restored v start k = (b : ℕ) → Out start b → k.disk b ≡ v b

recovered :
    (v : Blocks) (ps : List ℕ) (power : ℕ) (k : FsLog)
    → log_blocks < power
    → IsImage k.start v k.disk
    → Restored v k.start (recover_from_log (restart power (recoveries ps k)))
unfolding Restored
recovered v ps power k enough image b out =
    let (later, at) = recoveries_lem v ps k image in
    let last =
      recover_lem v power (recoveries ps k)
        (subst (λ (a : ℕ). IsImage a v (recoveries ps k).disk) (sym at) later) in
    (last.done enough).blocks b (subst (λ (a : ℕ). Out a b) (sym at) out)

-- A transaction of different blocks outside of the log, on a disk whose log is empty and whose
-- other blocks are as in the cache, is atomic: however many of the writes of `commit` reach the
-- disk before the machine stops, and however often it stops again during recovery, a recovery with
-- power for all of its writes leaves every block outside of the log as it was before the commit, or
-- every such block as it is in the cache.
pub commit_atomic :
    (k : FsLog) (ps : List ℕ) (power : ℕ)
    → IsReady k
    → log_blocks < power
    → Restored k.disk k.start (recover_from_log (restart power (recoveries ps (commit k))))
      ⊎ Restored k.buf k.start (recover_from_log (restart power (recoveries ps (commit k))))
unfolding Restored
commit_atomic k ps power ready enough = elim c.one_of [
  | inl old ↦ inl (restored k.disk (Empty-IsImage k.start k.disk (commit k).disk old))
  | inr new ↦ inr (restored k.buf new)
]
  where
    c : Commits k (commit k)
    c = commit_lem k ready

    restored :
        (v : Blocks)
        → IsImage k.start v (commit k).disk
        → Restored v k.start (recover_from_log (restart power (recoveries ps (commit k))))
    restored v image b out =
        recovered v ps power (commit k) enough
          (subst (λ (a : ℕ). IsImage a v (commit k).disk) (sym c.start) image) b
          (subst (λ (a : ℕ). Out a b) (sym c.start) out)

-- A transaction is durable: on a disk whose log is empty, a commit of different blocks outside
-- of the log, the other blocks being as in the cache, with power for all of its writes leaves an
-- empty log and every block outside of it as in the cache.
pub commit_durable :
    (k : FsLog)
    → IsReady k
    → 2 * k.n + 1 < k.power
    → ((commit k).disk k.start 0 ≡ 0) × Restored k.buf k.start (commit k)
unfolding Restored
commit_durable k ready enough = let m = (commit_lem k ready).done enough in (m.head, m.blocks)
