-- ===== src/FsOps/Absorb.antt =====
-- Log absorption: a block is in the log once.
use mathlib.Core.Path.{subst}
use kernel_panic_logger.Prelude.{
  ℕ, zero, suc, ◌+◌, ◌≡◌, ◌≢◌, refl, ◌<◌, ◌≤◌, ◌∙◌, ap, sym, false, ◌==◌, arith, ◌⊎◌, inl, inr,
  if_true, if_false, ==_iff, Bool-cases,
}
use kernel_panic_logger.FsLog.{FsLog, log_blocks, put_word, rounds_of}
use kernel_panic_logger.FsLog.Disk.{Out, Layout, rounds_of_few}
use kernel_panic_logger.FsLog.Install.{put_word_same, put_word_other}
use kernel_panic_logger.FsOps.{find_slot, note_block}

-- The slot found is that of the block, or the first free one where it has none.
pub record Finds (n : ℕ) (block : ℕ → ℕ) (blockno slot : ℕ) : Type 0 where
  pub within : slot ≤ n
  pub here : slot < n → block slot ≡ blockno
  pub new : slot ≡ n → (i : ℕ) → i < n → block i ≢ blockno

find_slot-Finds :
    (rounds i n : ℕ) (block : ℕ → ℕ) (blockno : ℕ)
    → i + rounds ≡ n
    → ((j : ℕ) → j < i → block j ≢ blockno)
    → Finds n block blockno (find_slot rounds i block blockno)
unfolding find_slot
find_slot-Finds zero i n block blockno e before = record {
  within = omega (arith, e);
  here = λ h. absurd (omega (arith, e, h));
  new = λ at j h. before j (omega (arith, h, e));
}
find_slot-Finds (suc rounds) i n block blockno e before = elim (Bool-cases (block i == blockno)) [
  | inl found ↦ rw found (record {
    within = omega (arith, e);
    here = λ h. (==_iff (block i) blockno).0 found;
    new = λ at. absurd (omega (arith, e, at));
  })
  | inr other ↦ rw other (
      find_slot-Finds rounds (i + 1) n block blockno (omega (arith, e)) (λ j h. elim (up_to i j h) [
        | inl below ↦ before j below
        | inr last ↦ λ same. differs (block i) blockno other (sym (ap block last) ∙ same)
      ]))
]
  where
    up_to : (i j : ℕ) → j < i + 1 → (j < i) ⊎ (j ≡ i)
    up_to i j h = ground (arith, h)

    differs : (a b : ℕ) → (a == b) ≡ false → a ≢ b
    differs a b h = ground (arith, h)

-- The transaction after a block is noted: the block is in it, with those that were, each once. The
-- contents are as they were, and a block that is new is pinned.
pub record Notes (blockno : ℕ) (l l' : FsLog) : Type 0 where
  pub lay : Layout l.start l'.n l'.block
  pub few : l'.n ≤ l.n + 1
  pub holds : (i : ℕ) × (i < l'.n) × (l'.block i ≡ blockno)
  pub keeps : (i : ℕ) → i < l.n → (i < l'.n) × (l'.block i ≡ l.block i)
  pub start_is : l'.start ≡ l.start
  pub disk_is : l'.disk ≡ l.disk
  pub buf_is : l'.buf ≡ l.buf
  pub pinned :
      ((l'.n ≡ l.n) × (l'.pins ≡ l.pins))
      ⊎ ((l'.n ≡ l.n + 1) × (l'.pins ≡ put_word l.pins blockno (l.pins blockno + 1)))

-- The names with the block in its slot.
put_kept :
    (n slot blockno : ℕ) (block : ℕ → ℕ)
    → Finds n block blockno slot
    → (i : ℕ) → i < n
    → put_word block slot blockno i ≡ block i
put_kept n slot blockno block f i h = elim (eq_or i slot) [
  | inl same ↦
      ap (put_word block slot blockno) same
      ∙ (put_word_same block slot blockno
          ∙ (sym (f.here (omega (arith, same, h))) ∙ ap block (sym same)))
  | inr other ↦ put_word_other block slot blockno i other
]
  where
    eq_or : (a b : ℕ) → (a ≡ b) ⊎ (a ≢ b)
    eq_or a b = ground arith

module _ (l : FsLog) (blockno : ℕ) (lay : Layout l.start l.n l.block) (out : Out l.start blockno)
    (room : l.n < log_blocks) where
  absorbed :
      (slot : ℕ)
      → Finds l.n l.block blockno slot
      → slot < l.n
      → Notes blockno l (record l { block = put_word l.block slot blockno })
  absorbed slot f h = record {
    lay = record {
      few = lay.few;
      out = λ i small. subst (Out l.start) (sym (kept i small)) (lay.out i small);
      different = λ i j hi hj same. lay.different i j hi hj (sym (kept i hi) ∙ (same ∙ kept j hj));
    };
    few = omega arith;
    holds = (slot, h, put_word_same l.block slot blockno);
    keeps = λ i small. (small, kept i small);
    start_is = refl;
    disk_is = refl;
    buf_is = refl;
    pinned = inl (refl, refl);
  }
    where
      kept : (i : ℕ) → i < l.n → put_word l.block slot blockno i ≡ l.block i
      kept = put_kept l.n slot blockno l.block f

  appended :
      Finds l.n l.block blockno l.n
      → Notes blockno l (record l {
        block = put_word l.block l.n blockno;
        pins = put_word l.pins blockno (l.pins blockno + 1);
        n = l.n + 1;
      })
  appended f = record {
    lay = record { few = omega (arith, room); out = outs; different = apart };
    few = omega arith;
    holds = (l.n, omega arith, last);
    keeps = λ i small. (omega (arith, small), kept i small);
    start_is = refl;
    disk_is = refl;
    buf_is = refl;
    pinned = inr (refl, refl);
  }
    where
      kept : (i : ℕ) → i < l.n → put_word l.block l.n blockno i ≡ l.block i
      kept = put_kept l.n l.n blockno l.block f

      last : put_word l.block l.n blockno l.n ≡ blockno
      last = put_word_same l.block l.n blockno

      below_or : (i : ℕ) → i < l.n + 1 → (i < l.n) ⊎ (i ≡ l.n)
      below_or i h = ground (arith, h)

      outs : (i : ℕ) → i < l.n + 1 → Out l.start (put_word l.block l.n blockno i)
      outs i h = elim (below_or i h) [
        | inl below ↦ subst (Out l.start) (sym (kept i below)) (lay.out i below)
        | inr e ↦ subst (Out l.start) (sym (ap (put_word l.block l.n blockno) e ∙ last)) out
      ]

      not_new :
          (i j : ℕ)
          → i < l.n
          → j ≡ l.n
          → put_word l.block l.n blockno i ≢ put_word l.block l.n blockno j
      not_new i j hi ej same =
          f.new refl i hi (sym (kept i hi) ∙ (same ∙ (ap (put_word l.block l.n blockno) ej ∙ last)))

      apart :
          (i j : ℕ)
          → i < l.n + 1
          → j < l.n + 1
          → put_word l.block l.n blockno i ≡ put_word l.block l.n blockno j
          → i ≡ j
      apart i j hi hj same = elim (below_or i hi) [
        | inl below ↦ elim (below_or j hj) [
          | inl below' ↦
              lay.different i j below below' (sym (kept i below) ∙ (same ∙ kept j below'))
          | inr e ↦ absurd (not_new i j below e same)
        ]
        | inr e ↦ elim (below_or j hj) [
          | inl below' ↦ absurd (not_new j i below' e (sym same))
          | inr e' ↦ e ∙ sym e'
        ]
      ]

  -- In a transaction of different blocks outside of the log, with room for one more, noting a block that is
  -- outside of the log too leaves it in the transaction once, with all that were there, each in its
  -- place; the contents stay as they were, and the block is pinned once more just if it is new.
  pub note_block-Notes : Notes blockno l (note_block blockno l)
  unfolding note_block
  note_block-Notes = elim (at_end f.within) [
    | inl below ↦
        subst (Notes blockno l) (sym (if_false _ _ (not_last slot l.n below)))
          (absorbed slot f below)
    | inr e ↦
        subst (Notes blockno l) (sym (if_true _ _ ((==_iff slot l.n).1 e))) (new_slot slot e f)
  ]
    where
      slot : ℕ
      slot = find_slot (rounds_of l.n) 0 l.block blockno

      f : Finds l.n l.block blockno slot
      f =
          find_slot-Finds (rounds_of l.n) 0 l.n l.block blockno
            (omega (arith, rounds_of_few l.n lay.few)) (λ j h. absurd (omega (arith, h)))

      at_end : {s : ℕ} → s ≤ l.n → (s < l.n) ⊎ (s ≡ l.n)
      at_end h = ground (arith, h)

      not_last : (s n : ℕ) → s < n → (s == n) ≡ false
      not_last s n h = ground (arith, h)

      new_slot :
          (s : ℕ)
          → s ≡ l.n
          → Finds l.n l.block blockno s
          → Notes blockno l (record l {
            block = put_word l.block s blockno;
            pins = put_word l.pins blockno (l.pins blockno + 1);
            n = l.n + 1;
          })
      new_slot s e g =
          subst
            (λ (x : ℕ). Notes blockno l (record l {
              block = put_word l.block x blockno;
              pins = put_word l.pins blockno (l.pins blockno + 1);
              n = l.n + 1;
            }))
            (sym e) (appended (subst (λ (x : ℕ). Finds l.n l.block blockno x) e g))
