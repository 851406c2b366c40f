-- ===== src/FsLog/Crash.antt =====
-- Commit and recovery of a machine that may stop at any write.
use mathlib.Core.Path.{subst}
use kernel_panic_logger.Prelude.{
  ℕ, zero, suc, ◌+◌, ◌-◌, ◌≡◌, refl, ◌<◌, ◌∙◌, ap, sym, Bool, true, false, if◌then◌else◌, ◌==◌,
  arith, ◌⊎◌, inl, inr, if_true, ==_iff, Bool-cases,
}
use kernel_panic_logger.FsLog.{
  Block, Blocks, FsLog, put_block, put_word, bwrite, copy_block, note_install, unpin_installed,
  install_block, install_loop, install_trans, write_names, write_head, log_block, write_log_loop,
  rounds_of,
}
use kernel_panic_logger.FsLog.Disk.{
  put_same, put_other, Layout, Empty, Full, Logged, Installed, Logging, rounds_of_few,
}
use kernel_panic_logger.FsLog.Install.{
  head_block, put_head-Full, put_head-Empty, Installs, install_block-Installs,
}

-- A disk from which recovery restores the contents v: its log holds a transaction, of no block
-- perhaps, and the other blocks are those of v.
pub record IsImage (start : ℕ) (v d : Blocks) : Type 0 where
  pub n : ℕ
  pub block : ℕ → ℕ
  pub lay : Layout start n block
  pub full : Full start n block v d

pub Empty-IsImage : (start : ℕ) (v d : Blocks) → Empty start v d → IsImage start v d
Empty-IsImage start v d m = record {
  n = 0;
  block = λ i. 0;
  lay = record {
    few = omega arith;
    out = λ i h. absurd (omega (arith, h));
    different = λ i j h. absurd (omega (arith, h));
  };
  full = record {
    head = m.head;
    names = λ i h. absurd (omega (arith, h));
    logs = λ i h. absurd (omega (arith, h));
    others = λ b out other. m.blocks b out;
  };
}

-- What the rounds leave alone.
pub record SameLog (rounds : ℕ) (k k' : FsLog) : Type 0 where
  pub start : k'.start ≡ k.start
  pub n : k'.n ≡ k.n
  pub power : k'.power ≡ k.power - rounds

install_block-SameLog :
    (recovering : Bool) (t : ℕ) (k : FsLog) → SameLog 1 k (install_block recovering t k)
unfolding install_block note_install unpin_installed bwrite copy_block
install_block-SameLog true t k = record { start = refl; n = refl; power = refl }
install_block-SameLog false t k = record { start = refl; n = refl; power = refl }

pub install_loop-SameLog :
    (recovering : Bool) (rounds t : ℕ) (k : FsLog)
    → SameLog rounds k (install_loop recovering rounds t k)
unfolding install_loop
install_loop-SameLog recovering zero t k = record { start = refl; n = refl; power = omega arith }
install_loop-SameLog recovering (suc rounds) t k =
    let one = install_block-SameLog recovering t k in
    let more = install_loop-SameLog recovering rounds (t + 1) (install_block recovering t k) in
    record {
      start = more.start ∙ one.start;
      n = more.n ∙ one.n;
      power = omega (arith, more.power, one.power);
    }

pub write_log_loop-SameLog :
    (rounds t : ℕ) (k : FsLog) → SameLog rounds k (write_log_loop rounds t k)
unfolding write_log_loop log_block bwrite copy_block
write_log_loop-SameLog zero t k = record { start = refl; n = refl; power = omega arith }
write_log_loop-SameLog (suc rounds) t k =
    let more = write_log_loop-SameLog rounds (t + 1) (log_block t k) in
    record { start = more.start; n = more.n; power = omega (arith, more.power) }

-- The end of commit and of recovery.
unfoldable pub clear : FsLog → FsLog
clear k = write_head (record k { n = 0 })

module _ (v w : Blocks) where
  install_loop-Installs :
      (recovering : Bool) (rounds t : ℕ) (k : FsLog)
      → t + rounds ≡ k.n
      → Installs v w t k
      → Installs v w (install_loop recovering rounds t k).n (install_loop recovering rounds t k)
  unfolding install_loop
  install_loop-Installs recovering zero t k e s =
      subst (λ (j : ℕ). Installs v w j k) (omega (arith, e)) s
  install_loop-Installs recovering (suc rounds) t k e s =
      install_loop-Installs recovering rounds (t + 1) (install_block recovering t k)
        (omega (arith, e, (install_block-SameLog recovering t k).n))
        (subst (λ (j : ℕ). Installs v w j (install_block recovering t k)) next
          (install_block-Installs v w recovering t k (omega (arith, e)) s))
    where
      next : ◌≡◌ {A = ℕ} (suc t) (t + 1)
      next = omega arith

  pub install_trans-Installs :
      (recovering : Bool) (k : FsLog)
      → Installs v w 0 k
      → Installs v w (install_trans recovering k).n (install_trans recovering k)
  unfolding install_trans
  install_trans-Installs recovering k s =
      install_loop-Installs recovering (rounds_of k.n) 0 k
        (omega (arith, rounds_of_few k.n s.lay.few)) s

  -- The write of the header that commits.
  committing :
      (start n : ℕ) (block : ℕ → ℕ) (p : ℕ) (d d' : Blocks)
      → Empty start w d
      → (p ≡ 0) ⊎ Logged start block v n d
      → (Logged start block v n d → Full start n block v d')
      → ((p - 1 ≡ 0) × Empty start w (if p == 0 then d else d'))
        ⊎ (Full start n block v (if p == 0 then d else d')
            × ((p - 1 ≡ 0) ⊎ Installed block v 0 (if p == 0 then d else d')))
  committing start n block p d d' old (inl off) f =
      inl (omega (arith, off), subst (Empty start w) (sym (if_true d d' ((==_iff p 0).1 off))) old)
  committing start n block p d d' old (inr logs) f = elim (Bool-cases (p == 0)) [
    | inl off ↦ rw off (inl (off_now p off, old))
    | inr going ↦ rw going (inr (f logs, inr (λ i h. absurd (omega (arith, h)))))
  ]
    where
      off_now : (p : ℕ) → (p == 0) ≡ true → p - 1 ≡ 0
      off_now p h = ground (arith, h)

  pub write_head-Installs : (k : FsLog) → Logging v w k.n k → Installs v w 0 (write_head k)
  unfolding write_head bwrite
  write_head-Installs k s = record {
    lay = s.lay;
    logs = λ i h. put_other k.buf k.start (k.start + i + 1) _ (omega arith) ∙ s.logs i h;
    on_disk = committing k.start k.n k.block k.power k.disk _ s.old s.on_disk (λ logs.
        subst (λ x. Full k.start k.n k.block v (put_block k.disk k.start x)) (sym written)
          (put_head-Full k.start k.n k.block v w k.disk (k.buf k.start) s.lay s.old s.clean logs));
  }
    where
      head : Block
      head = write_names (rounds_of k.n) 0 k.block (put_word (k.buf k.start) 0 k.n)

      written : put_block k.buf k.start head k.start ≡ head_block k.n k.block (k.buf k.start)
      written =
          put_same k.buf k.start head
          ∙ ap (λ (r : ℕ). write_names r 0 k.block (put_word (k.buf k.start) 0 k.n))
              (rounds_of_few k.n s.lay.few)

  -- The disk after the header is cleared, or is left as the machine has stopped.
  pub record Ends (start power : ℕ) (d : Blocks) : Type 0 where
    pub one_of : Empty start w d ⊎ IsImage start v d
    pub done : 0 < power → Empty start v d

  pub clear-Ends : (k : FsLog) → Installs v w k.n k → Ends k.start k.power (clear k).disk
  unfolding clear write_head bwrite rounds_of
  clear-Ends k s = elim (Bool-cases (k.power == 0)) [
    | inl off ↦ rw off (record {
      one_of = elim s.on_disk [
        | inl (none_left, old) ↦ inl old
        | inr (m, home) ↦ inr (record { n = k.n; block = k.block; lay = s.lay; full = m })
      ];
      done = λ h. absurd (stopped k.power off h);
    })
    | inr going ↦ rw going (elim s.on_disk [
      | inl (none_left, old) ↦ absurd (running k.power going none_left)
      | inr (m, inl none_left) ↦ absurd (running k.power going none_left)
      | inr (m, inr home) ↦ both (
          subst (λ x. Empty k.start v (put_block k.disk k.start x))
            (sym (put_same k.buf k.start (head_block 0 k.block (k.buf k.start))))
            (put_head-Empty k.start k.n k.block k.block v k.disk (k.buf k.start) m home))
    ])
  ]
    where
      stopped : (p : ℕ) → (p == 0) ≡ true → 0 < p → ⊥
      stopped p h lo = ground (arith, h, lo)

      running : (p : ℕ) → (p == 0) ≡ false → p ≡ 0 → ⊥
      running p h e = ground (arith, h, e)

      both : {start power : ℕ} {d : Blocks} → Empty start v d → Ends start power d
      both m = record { one_of = inr (Empty-IsImage _ v _ m); done = λ h. m }
