-- ===== src/FsLog/Recovery.antt =====
-- Recovery from the image of a transaction.
use mathlib.Core.Path.{subst}
use kernel_panic_logger.Prelude.{
  ℕ, ◌+◌, ◌≡◌, refl, ◌<◌, ◌≤◌, ◌∙◌, ap, sym, Bool, true, arith, inl, inr,
}
use kernel_panic_logger.FsLog.{
  Blocks, FsLog, log_blocks, bwrite, read_names, install_trans, read_head, write_head,
  recover_from_log, rounds_of, restart,
}
use kernel_panic_logger.FsLog.Disk.{Out, Layout, Empty, Full, rounds_of_few}
use kernel_panic_logger.FsLog.Install.{read_names_at, Installing, Installs}
use kernel_panic_logger.FsLog.Crash.{
  IsImage, Empty-IsImage, SameLog, install_loop-SameLog, install_trans-Installs, Ends, clear,
  clear-Ends,
}

-- The same transaction by another name.
Layout-same :
    (start n : ℕ) (block block' : ℕ → ℕ)
    → ((i : ℕ) → i < n → block' i ≡ block i)
    → Layout start n block
    → Layout start n block'
Layout-same start n block block' e lay = record {
  few = lay.few;
  out = λ i h. subst (Out start) (sym (e i h)) (lay.out i h);
  different = λ i j hi hj same. lay.different i j hi hj (sym (e i hi) ∙ (same ∙ e j hj));
}

Full-same :
    (start n : ℕ) (block block' : ℕ → ℕ) (v d : Blocks)
    → ((i : ℕ) → i < n → block' i ≡ block i)
    → Full start n block v d
    → Full start n block' v d
Full-same start n block block' v d e m = record {
  head = m.head;
  names = λ i h. m.names i h ∙ sym (e i h);
  logs = λ i h. m.logs i h ∙ ap v (sym (e i h));
  others = λ b out other. m.others b out (λ i h same. other i h (same ∙ sym (e i h)));
}

-- What `read_head` finds on a restart.
started :
    (v : Blocks) (power start n : ℕ) (block block' : ℕ → ℕ) (d : Blocks)
    → ((i : ℕ) → i < n → block' i ≡ d start (i + 1))
    → Layout start n block
    → Full start n block v d
    → Installing v v 0 start n block' d d power
started v power start n block block' d e lay m = record {
  lay = Layout-same start n block block' same lay;
  logs = m'.logs;
  on_disk = inr (m', inr (λ i h. absurd (omega (arith, h))));
}
  where
    same : (i : ℕ) → i < n → block' i ≡ block i
    same i h = e i h ∙ m.names i h

    m' : Full start n block' v d
    m' = Full-same start n block block' v d same m

read_head-Installs :
    (v : Blocks) (power : ℕ) (k : FsLog)
    → IsImage k.start v k.disk
    → Installs v v 0 (read_head (restart power k))
unfolding read_head restart
read_head-Installs v power k image =
    subst (λ (n : ℕ). Installing v v 0 k.start n (names (k.disk k.start 0)) k.disk k.disk power)
      (sym image.full.head)
      (started v power k.start image.n image.block (names (k.disk k.start 0)) k.disk found image.lay
        image.full)
  where
    names : ℕ → ℕ → ℕ
    names n = read_names (rounds_of n) 0 (k.disk k.start) (λ i. 0)

    found : (i : ℕ) → i < image.n → names (k.disk k.start 0) i ≡ k.disk k.start (i + 1)
    found i h =
        ap (λ (n : ℕ). names n i) image.full.head
        ∙ (ap (λ (r : ℕ). read_names r 0 (k.disk k.start) (λ j. 0) i)
              (rounds_of_few image.n image.lay.few)
            ∙ read_names_at image.n 0 (k.disk k.start) (λ j. 0) i (omega arith) (omega (arith, h)))

-- A recovery from an image of v, with power for so many writes.
pub record Recovers (v : Blocks) (power : ℕ) (k k' : FsLog) : Type 0 where
  pub start : k'.start ≡ k.start
  pub image : IsImage k.start v k'.disk
  pub done : log_blocks < power → Empty k.start v k'.disk

pub write_head-start : (k : FsLog) → (write_head k).start ≡ k.start
unfolding write_head bwrite
write_head-start k = refl

pub install_trans-SameLog :
    (recovering : Bool) (k : FsLog) → k.n ≤ log_blocks → SameLog k.n k (install_trans recovering k)
unfolding install_trans
install_trans-SameLog recovering k few =
    subst (λ (r : ℕ). SameLog r k (install_trans recovering k)) (rounds_of_few k.n few)
      (install_loop-SameLog recovering (rounds_of k.n) 0 k)

read_head_keeps :
    (power : ℕ) (k : FsLog)
    → ((read_head (restart power k)).start ≡ k.start)
      × ((read_head (restart power k)).power ≡ power)
unfolding read_head restart
read_head_keeps power k = (refl, refl)

pub Ends-at : (v w : Blocks) {a b p : ℕ} {d : Blocks} → a ≡ b → Ends v w a p d → Ends v w b p d
Ends-at v w {p = p} {d = d} e = subst (λ (x : ℕ). Ends v w x p d) e

pub recover_lem :
    (v : Blocks) (power : ℕ) (k : FsLog)
    → IsImage k.start v k.disk
    → Recovers v power k (recover_from_log (restart power k))
unfolding recover_from_log clear
recover_lem v power k image = record {
  start = write_head-start (record (install_trans true k1) { n = 0 }) ∙ at;
  image = elim ends.one_of [ inl m ↦ Empty-IsImage k.start v _ m | inr m ↦ m ];
  done =
      λ h. ends.done (omega (arith, h, same.power, (read_head_keeps power k).1, reading.lay.few));
}
  where
    k1 : FsLog
    k1 = read_head (restart power k)

    reading : Installs v v 0 k1
    reading = read_head-Installs v power k image

    same : SameLog k1.n k1 (install_trans true k1)
    same = install_trans-SameLog true k1 reading.lay.few

    at : (install_trans true k1).start ≡ k.start
    at = same.start ∙ (read_head_keeps power k).0

    ends : Ends v v k.start (install_trans true k1).power (clear (install_trans true k1)).disk
    ends =
        Ends-at v v at
          (clear-Ends v v (install_trans true k1) (install_trans-Installs v v true k1 reading))
