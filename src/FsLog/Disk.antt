-- ===== src/FsLog/Disk.antt =====
-- What the log leaves on the disk: the loops of commit and recovery, round by round, whether or not
-- the machine stops.
use mathlib.Core.Path.{subst}
use kernel_panic_logger.Prelude.{
  ℕ, zero, suc, ◌+◌, ◌-◌, ◌≡◌, ◌≢◌, refl, ◌<◌, ◌≤◌, ◌∙◌, ap, sym, true, false, if◌then◌else◌, ◌==◌,
  arith, ◌⊎◌, inl, inr, if_true, if_false, ==_iff, Bool-cases,
}
use kernel_panic_logger.FsLog.{
  Block, Blocks, FsLog, log_blocks, put_block, bwrite, copy_block, rounds_of, log_block,
  write_log_loop,
}

pub put_same : (d : Blocks) (b : ℕ) (x : Block) → put_block d b x b ≡ x
unfolding put_block
put_same d b x = if_true _ _ ((==_iff b b).1 refl)

pub put_other : (d : Blocks) (b a : ℕ) (x : Block) → a ≢ b → put_block d b x a ≡ d a
unfolding put_block
put_other d b a x ne = if_false _ _ (differs a b ne)
  where
    differs : (a b : ℕ) → a ≢ b → (a == b) ≡ false
    differs a b ne = ground (arith, ne)

-- What holds of the disk whether or not a write reaches it.
pub either_way :
    (P : Blocks → Type 0) (p : ℕ) (d d' : Blocks) → P d → P d' → P (if p == 0 then d else d')
either_way P p d d' x y = elim (Bool-cases (p == 0)) [ inl h ↦ rw h x | inr h ↦ rw h y ]

-- What holds of it once the write has reached it, or there is no power.
pub with_power :
    (P Q : Blocks → Type 0) (p : ℕ) (d d' : Blocks)
    → (p ≡ 0) ⊎ P d
    → (P d → Q d')
    → (p - 1 ≡ 0) ⊎ Q (if p == 0 then d else d')
with_power P Q p d d' (inl off) f = inl (omega (arith, off))
with_power P Q p d d' (inr h) f = elim (Bool-cases (p == 0)) [
  | inl off ↦ inl (gone p off)
  | inr going ↦ inr (rw going (f h))
]
  where
    gone : (p : ℕ) → (p == 0) ≡ true → p - 1 ≡ 0
    gone p h = ground (arith, h)

-- A block outside the log.
abbrev pub Out : ℕ → ℕ → Type 0
Out start b = (b < start) ⊎ (start + log_blocks < b)

-- The blocks of a transaction: different ones, outside the log.
pub record Layout (start n : ℕ) (block : ℕ → ℕ) : Type 0 where
  pub few : n ≤ log_blocks
  pub out : (i : ℕ) → i < n → Out start (block i)
  pub different : (i j : ℕ) → i < n → j < n → block i ≡ block j → i ≡ j

-- A disk whose log is empty and whose other blocks are these.
pub record Empty (start : ℕ) (v d : Blocks) : Type 0 where
  pub head : d start 0 ≡ 0
  pub blocks : (b : ℕ) → Out start b → d b ≡ v b

-- A disk whose log holds the new contents of n blocks, and whose other blocks are these.
pub record Full (start n : ℕ) (block : ℕ → ℕ) (v d : Blocks) : Type 0 where
  pub head : d start 0 ≡ n
  pub names : (i : ℕ) → i < n → d start (i + 1) ≡ block i
  pub logs : (i : ℕ) → i < n → d (start + i + 1) ≡ v (block i)
  pub others : (b : ℕ) → Out start b → ((i : ℕ) → i < n → b ≢ block i) → d b ≡ v b

pub apart_from_log : (start b i : ℕ) → i < log_blocks → Out start b → b ≢ start + i + 1
apart_from_log start b i h (inl lo) e = omega (arith, h, lo, e)
apart_from_log start b i h (inr hi) e = omega (arith, h, hi, e)

pub apart_from_head : (start b : ℕ) → Out start b → b ≢ start
apart_from_head start b (inl lo) e = omega (arith, lo, e)
apart_from_head start b (inr hi) e = omega (arith, hi, e)

eq_cases : (i t : ℕ) → (i ≡ t) ⊎ (i ≢ t)
eq_cases i t = ground arith

-- The log's blocks up to t, and the blocks at home up to t, in the cache or on the disk.
abbrev pub Logged : ℕ → (ℕ → ℕ) → Blocks → ℕ → Blocks → Type 0
Logged start block v t d = (i : ℕ) → i < t → d (start + i + 1) ≡ v (block i)

abbrev pub Installed : (ℕ → ℕ) → Blocks → ℕ → Blocks → Type 0
Installed block v t d = (i : ℕ) → i < t → d (block i) ≡ v (block i)

module _ (start : ℕ) (block : ℕ → ℕ) (v : Blocks) where
  put-Logged :
      (t : ℕ) (d : Blocks) (x : Block)
      → x ≡ v (block t)
      → Logged start block v t d
      → Logged start block v (suc t) (put_block d (start + t + 1) x)
  put-Logged t d x e h i small = elim (eq_cases i t) [
    | inl last ↦
        ap (λ (j : ℕ). put_block d (start + t + 1) x (start + j + 1)) last
        ∙ (put_same d (start + t + 1) x ∙ (e ∙ ap (λ (j : ℕ). v (block j)) (sym last)))
    | inr before ↦
        put_other d (start + t + 1) (start + i + 1) x (omega (arith, before))
        ∙ h i (omega (arith, before, small))
  ]

  put_log-Installed :
      (n t m : ℕ) (d : Blocks) (x : Block)
      → Layout start n block
      → m ≤ n
      → t < log_blocks
      → Installed block v m d
      → Installed block v m (put_block d (start + t + 1) x)
  put_log-Installed n t m d x lay le h home i small =
      put_other d (start + t + 1) (block i) x
        (apart_from_log start (block i) t h (lay.out i (omega (arith, le, small))))
      ∙ home i small

  pub put_home-Logged :
      (n t m : ℕ) (d : Blocks) (x : Block)
      → Layout start n block
      → m ≤ n
      → t < n
      → Logged start block v m d
      → Logged start block v m (put_block d (block t) x)
  put_home-Logged n t m d x lay le h logs i small =
      put_other d (block t) (start + i + 1) x (λ e.
        apart_from_log start (block t) i (omega (arith, le, small, lay.few)) (lay.out t h) (sym e))
      ∙ logs i small

  pub put-Installed :
      (n t : ℕ) (d : Blocks) (x : Block)
      → Layout start n block
      → t < n
      → x ≡ v (block t)
      → Installed block v t d
      → Installed block v (suc t) (put_block d (block t) x)
  put-Installed n t d x lay h e home i small = elim (eq_cases i t) [
    | inl last ↦
        ap (λ (j : ℕ). put_block d (block t) x (block j)) last
        ∙ (put_same d (block t) x ∙ (e ∙ ap (λ (j : ℕ). v (block j)) (sym last)))
    | inr before ↦
        put_other d (block t) (block i) x
          (λ same. before (lay.different i t (omega (arith, small, h)) h same))
        ∙ home i (omega (arith, before, small))
  ]

  pub put_home-Full :
      (n t : ℕ) (d : Blocks) (x : Block)
      → Layout start n block
      → t < n
      → Full start n block v d
      → Full start n block v (put_block d (block t) x)
  put_home-Full n t d x lay h m = record {
    head = ap (λ y. y 0) same_head ∙ m.head;
    names = λ i small. ap (λ y. y (i + 1)) same_head ∙ m.names i small;
    logs = put_home-Logged n t n d x lay (omega arith) h m.logs;
    others = λ b out new. put_other d (block t) b x (new t h) ∙ m.others b out new;
  }
    where
      same_head : put_block d (block t) x start ≡ d start
      same_head =
          put_other d (block t) start x (λ e. apart_from_head start (block t) (lay.out t h) (sym e))

put_log-Empty :
    (start : ℕ) (w : Blocks) (t : ℕ) (d : Blocks) (x : Block)
    → t < log_blocks
    → Empty start w d
    → Empty start w (put_block d (start + t + 1) x)
put_log-Empty start w t d x h m = record {
  head = ap (λ y. y 0) (put_other d (start + t + 1) start x (omega arith)) ∙ m.head;
  blocks =
      λ b out. put_other d (start + t + 1) b x (apart_from_log start b t h out) ∙ m.blocks b out;
}

-- The state of a commit of the contents v before round t of `write_log`, on a disk with contents w.
pub record Logging (v w : Blocks) (t : ℕ) (k : FsLog) : Type 0 where
  pub lay : Layout k.start k.n k.block
  pub homes : Installed k.block v k.n k.buf
  pub logs : Logged k.start k.block v t k.buf
  pub on_disk : (k.power ≡ 0) ⊎ Logged k.start k.block v t k.disk
  pub old : Empty k.start w k.disk
  pub clean : (b : ℕ) → Out k.start b → ((i : ℕ) → i < k.n → b ≢ k.block i) → w b ≡ v b

module _ (v w : Blocks) where
  log_block-Logging :
      (t : ℕ) (k : FsLog) → t < k.n → Logging v w t k → Logging v w (suc t) (log_block t k)
  unfolding log_block bwrite copy_block
  log_block-Logging t k h s = record {
    lay = s.lay;
    homes =
        put_log-Installed k.start k.block v k.n t k.n k.buf (k.buf (k.block t)) s.lay (omega arith)
          (omega (arith, h, s.lay.few)) s.homes;
    logs = put-Logged k.start k.block v t k.buf (k.buf (k.block t)) (s.homes t h) s.logs;
    on_disk =
        with_power (Logged k.start k.block v t) (Logged k.start k.block v (suc t)) k.power _ _
          s.on_disk
          (put-Logged k.start k.block v t k.disk _
            (put_same k.buf (k.start + t + 1) (k.buf (k.block t)) ∙ s.homes t h));
    old =
        either_way (Empty k.start w) k.power _ _ s.old
          (put_log-Empty k.start w t k.disk _ (omega (arith, h, s.lay.few)) s.old);
    clean = s.clean;
  }

  pub write_log_loop-Logging :
      (rounds t : ℕ) (k : FsLog)
      → t + rounds ≡ k.n
      → Logging v w t k
      → Logging v w k.n (write_log_loop rounds t k)
  unfolding write_log_loop log_block
  write_log_loop-Logging zero t k e s = subst (λ (j : ℕ). Logging v w j k) (omega (arith, e)) s
  write_log_loop-Logging (suc rounds) t k e s =
      write_log_loop-Logging rounds (t + 1) (log_block t k) (omega (arith, e)) (
        subst (λ (j : ℕ). Logging v w j (log_block t k)) next
          (log_block-Logging t k (omega (arith, e)) s))
    where
      next : ◌≡◌ {A = ℕ} (suc t) (t + 1)
      next = omega arith

pub rounds_of_few : (n : ℕ) → n ≤ log_blocks → rounds_of n ≡ n
unfolding rounds_of
rounds_of_few n h = ground (arith, h)
