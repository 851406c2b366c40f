-- ===== src/FsLog/Install.antt =====
-- The header of the log, and the installation of a committed transaction.
use mathlib.Core.Path.{subst}
use kernel_panic_logger.Prelude.{
  ℕ, zero, suc, ◌+◌, ◌-◌, ◌≡◌, ◌≢◌, refl, ◌<◌, ◌≤◌, ◌∙◌, ap, sym, Bool, true, false, if◌then◌else◌,
  ◌==◌, arith, ◌⊎◌, inl, inr, if_true, if_false, ==_iff,
}
use kernel_panic_logger.FsLog.{
  Block, Blocks, FsLog, put_block, put_word, bwrite, copy_block, note_install, unpin_installed,
  install_block, read_names, write_names,
}
use kernel_panic_logger.FsLog.Disk.{
  put_same, put_other, either_way, with_power, Out, Layout, Empty, Full, apart_from_head, Logged,
  Installed, put_home-Logged, put-Installed, put_home-Full,
}

pub put_word_same : (f : ℕ → ℕ) (i x : ℕ) → put_word f i x i ≡ x
unfolding put_word
put_word_same f i x = if_true _ _ ((==_iff i i).1 refl)

pub put_word_other : (f : ℕ → ℕ) (i x j : ℕ) → j ≢ i → put_word f i x j ≡ f j
unfolding put_word
put_word_other f i x j ne = if_false _ _ (differs j i ne)
  where
    differs : (a b : ℕ) → a ≢ b → (a == b) ≡ false
    differs a b ne = ground (arith, ne)

-- The words up to i stay as the header is written from i on.
write_names_below :
    (rounds i : ℕ) (block : ℕ → ℕ) (head : Block) (j : ℕ)
    → j ≤ i
    → write_names rounds i block head j ≡ head j
unfolding write_names
write_names_below zero i block head j h = refl
write_names_below (suc rounds) i block head j h =
    write_names_below rounds (i + 1) block (put_word head (i + 1) (block i)) j (omega (arith, h))
    ∙ put_word_other head (i + 1) (block i) j (omega (arith, h))

write_names_at :
    (rounds i : ℕ) (block : ℕ → ℕ) (head : Block) (j : ℕ)
    → i ≤ j
    → j < i + rounds
    → write_names rounds i block head (j + 1) ≡ block j
unfolding write_names
write_names_at zero i block head j lo hi = absurd (omega (arith, lo, hi))
write_names_at (suc rounds) i block head j lo hi = elim (first_or i j lo) [
  | inl here ↦
      write_names_below rounds (i + 1) block (put_word head (i + 1) (block i)) (j + 1)
        (omega (arith, here))
      ∙ (ap (λ (x : ℕ). put_word head (i + 1) (block i) (x + 1)) here
          ∙ (put_word_same head (i + 1) (block i) ∙ ap block (sym here)))
  | inr later ↦
      write_names_at rounds (i + 1) block (put_word head (i + 1) (block i)) j (omega (arith, later))
        (omega (arith, hi))
]
  where
    first_or : (i j : ℕ) → i ≤ j → (j ≡ i) ⊎ (i < j)
    first_or i j h = ground (arith, h)

read_names_below :
    (rounds i : ℕ) (head : Block) (block : ℕ → ℕ) (j : ℕ)
    → j < i
    → read_names rounds i head block j ≡ block j
unfolding read_names
read_names_below zero i head block j h = refl
read_names_below (suc rounds) i head block j h =
    read_names_below rounds (i + 1) head (put_word block i (head (i + 1))) j (omega (arith, h))
    ∙ put_word_other block i (head (i + 1)) j (omega (arith, h))

pub read_names_at :
    (rounds i : ℕ) (head : Block) (block : ℕ → ℕ) (j : ℕ)
    → i ≤ j
    → j < i + rounds
    → read_names rounds i head block j ≡ head (j + 1)
unfolding read_names
read_names_at zero i head block j lo hi = absurd (omega (arith, lo, hi))
read_names_at (suc rounds) i head block j lo hi = elim (first_or i j lo) [
  | inl here ↦
      read_names_below rounds (i + 1) head (put_word block i (head (i + 1))) j (omega (arith, here))
      ∙ (ap (put_word block i (head (i + 1))) here
          ∙ (put_word_same block i (head (i + 1)) ∙ ap (λ (x : ℕ). head (x + 1)) (sym here)))
  | inr later ↦
      read_names_at rounds (i + 1) head (put_word block i (head (i + 1))) j (omega (arith, later))
        (omega (arith, hi))
]
  where
    first_or : (i j : ℕ) → i ≤ j → (j ≡ i) ⊎ (i < j)
    first_or i j h = ground (arith, h)

-- The block that `write_head` writes.
abbrev pub head_block : ℕ → (ℕ → ℕ) → Block → Block
head_block n block old = write_names n 0 block (put_word old 0 n)

pub head_block_count : (n : ℕ) (block : ℕ → ℕ) (old : Block) → head_block n block old 0 ≡ n
head_block_count n block old =
    write_names_below n 0 block (put_word old 0 n) 0 (omega arith) ∙ put_word_same old 0 n

-- Writing the header of a transaction whose blocks are in the log commits it.
pub put_head-Full :
    (start n : ℕ) (block : ℕ → ℕ) (v w d : Blocks) (old : Block)
    → Layout start n block
    → Empty start w d
    → ((b : ℕ) → Out start b → ((i : ℕ) → i < n → b ≢ block i) → w b ≡ v b)
    → Logged start block v n d
    → Full start n block v (put_block d start (head_block n block old))
put_head-Full start n block v w d old lay m clean logs = record {
  head = ap (λ y. y 0) new ∙ head_block_count n block old;
  names = λ i h.
      ap (λ y. y (i + 1)) new
      ∙ write_names_at n 0 block (put_word old 0 n) i (omega arith) (omega (arith, h));
  logs = λ i h. put_other d start (start + i + 1) (head_block n block old) (omega arith) ∙ logs i h;
  others = λ b out other.
      put_other d start b (head_block n block old) (apart_from_head start b out)
      ∙ (m.blocks b out ∙ clean b out other);
}
  where
    new : put_block d start (head_block n block old) start ≡ head_block n block old
    new = put_same d start (head_block n block old)

-- Whether a block belongs to a transaction.
find_block :
    (b n : ℕ) (block : ℕ → ℕ)
    → ((i : ℕ) × (i < n) × (b ≡ block i)) ⊎ ((i : ℕ) → i < n → b ≢ block i)
find_block b zero block = inr (λ i h. absurd (omega (arith, h)))
find_block b (suc n) block = elim (find_block b n block) [
  | inl (i, h, e) ↦ inl (i, omega (arith, h), e)
  | inr none_below ↦ elim (here b (block n)) [
    | inl e ↦ inl (n, omega arith, e)
    | inr ne ↦ inr (λ i h. elim (at_most i h) [
      | inl below ↦ none_below i below
      | inr last ↦ λ e. ne (e ∙ ap block last)
    ])
  ]
]
  where
    here : (a b : ℕ) → (a ≡ b) ⊎ (a ≢ b)
    here a b = ground arith

    at_most : (i : ℕ) → i < suc n → (i < n) ⊎ (i ≡ n)
    at_most i h = ground (arith, h)

-- Clearing the header of a transaction whose blocks are at home ends it.
pub put_head-Empty :
    (start n : ℕ) (block block' : ℕ → ℕ) (v d : Blocks) (old : Block)
    → Full start n block v d
    → Installed block v n d
    → Empty start v (put_block d start (head_block 0 block' old))
put_head-Empty start n block block' v d old m home = record {
  head = ap (λ y. y 0) (put_same d start (head_block 0 block' old)) ∙ head_block_count 0 block' old;
  blocks = λ b out.
      put_other d start b (head_block 0 block' old) (apart_from_head start b out)
      ∙ elim (find_block b n block) [
        | inl (i, h, e) ↦ ap d e ∙ (home i h ∙ ap v (sym e))
        | inr other ↦ m.others b out other
      ];
}

-- The state before round t of `install_trans`: the disk still has the contents w, as there was no
-- power for the commit; or the log holds the contents v, and is installed up to t if there is
-- power.
pub record Installing (v w : Blocks) (t start n : ℕ) (block : ℕ → ℕ) (buf disk : Blocks) (power : ℕ)
    : Type 0 where
  pub lay : Layout start n block
  pub logs : Logged start block v n buf
  pub on_disk :
      ((power ≡ 0) × Empty start w disk)
      ⊎ (Full start n block v disk × ((power ≡ 0) ⊎ Installed block v t disk))

abbrev pub Installs : Blocks → Blocks → ℕ → FsLog → Type 0
Installs v w t k = Installing v w t k.start k.n k.block k.buf k.disk k.power

no_power :
    (P : Blocks → Type 0) (p : ℕ) (d d' : Blocks)
    → (p ≡ 0) × P d
    → (p - 1 ≡ 0) × P (if p == 0 then d else d')
no_power P p d d' (off, h) =
    (omega (arith, off), subst P (sym (if_true d d' ((==_iff p 0).1 off))) h)

module _ (v w : Blocks) where
  install_round :
      (t start n : ℕ) (block : ℕ → ℕ) (buf disk : Blocks) (power : ℕ)
      → t < n
      → Installing v w t start n block buf disk power
      → Installing v w
          (suc t)
          start
          n
          block
          (put_block buf (block t) (buf (start + t + 1)))
          (if power == 0
            then disk
            else put_block disk (block t) (put_block buf (block t) (buf (start + t + 1)) (block t)))
          (power - 1)
  install_round t start n block buf disk power h s = record {
    lay = s.lay;
    logs =
        put_home-Logged start block v n t n buf (buf (start + t + 1)) s.lay (omega arith) h s.logs;
    on_disk = elim s.on_disk [
      | inl before ↦ inl (no_power (Empty start w) power _ _ before)
      | inr (m, home) ↦ inr (
        either_way (Full start n block v) power _ _ m
            (put_home-Full start block v n t disk _ s.lay h m),
        with_power (Installed block v t) (Installed block v (suc t)) power _ _ home (
            put-Installed start block v n t disk _ s.lay h
              (put_same buf (block t) (buf (start + t + 1)) ∙ s.logs t h)),
      )
    ];
  }

  pub install_block-Installs :
      (recovering : Bool) (t : ℕ) (k : FsLog)
      → t < k.n
      → Installs v w t k
      → Installs v w (suc t) (install_block recovering t k)
  unfolding install_block note_install unpin_installed bwrite copy_block
  install_block-Installs true t k h s = install_round t k.start k.n k.block k.buf k.disk k.power h s
  install_block-Installs false t k h s =
      install_round t k.start k.n k.block k.buf k.disk k.power h s
