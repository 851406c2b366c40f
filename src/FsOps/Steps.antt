-- ===== src/FsOps/Steps.antt =====
-- The runs of several operations as a step relation, and what they keep.
use kernel_panic_logger.Prelude.{
  ℕ, suc, ◌+◌, ◌*◌, ◌≡◌, ◌≤◌, List, [], ◌∷◌, ◌++◌, Bool, true, false, arith, length, length-append,
}
use kernel_panic_logger.Outcome.{Outcome, ok}
use kernel_panic_logger.FsLog.{log_blocks, max_op_blocks}
use kernel_panic_logger.FsLog.Disk.{Out, Layout}
use kernel_panic_logger.FsOps.{FsOps, begin_run, leave_run, finish_commit, log_write}
use kernel_panic_logger.FsOps.Calls.{IsIdle}

-- The log and, for each operation under way, how many more blocks it may write.
pub record System : Type 0 where
  pub ops : FsOps
  pub budgets : List ℕ

-- A step is a run of a call: an operation begins with its budget or sleeps, writes a block, leaves, or
-- the last one commits.
pub data Step : System → System → Type 0 where
  begins :
      {s : System} (k : FsOps)
      → begin_run s.ops ≡ ok true k
      → Step s (record { ops = k; budgets = max_op_blocks ∷ s.budgets })
  sleeps :
      {s : System} (k : FsOps)
      → begin_run s.ops ≡ ok false k
      → Step s (record { ops = k; budgets = s.budgets })
  writes :
      {s : System} (blockno : ℕ) (xs : List ℕ) (b : ℕ) (ys : List ℕ) (k : FsOps)
      → s.budgets ≡ xs ++ (suc b ∷ ys)
      → Out s.ops.log.start blockno
      → log_write blockno s.ops ≡ ok tt k
      → Step s (record { ops = k; budgets = xs ++ (b ∷ ys) })
  departs :
      {s : System} (xs : List ℕ) (b : ℕ) (ys : List ℕ) (last : Bool) (k : FsOps)
      → s.budgets ≡ xs ++ (b ∷ ys)
      → leave_run s.ops ≡ ok last k
      → Step s (record { ops = k; budgets = xs ++ ys })
  commits :
      {s : System} (k : FsOps)
      → s.ops.committing ≡ true
      → finish_commit s.ops ≡ ok tt k
      → Step s (record { ops = k; budgets = s.budgets })

pub data Reachable : System → Type 0 where
  starts :
      {s : System}
      → IsIdle s.ops
      → s.ops.outstanding ≡ 0
      → s.ops.committing ≡ false
      → s.ops.log.n ≡ 0
      → s.budgets ≡ []
      → Reachable s
  steps : {s t : System} → Reachable s → Step s t → Reachable t

-- What the operations may still write.
unfoldable pub sum : List ℕ → ℕ
sum [] = 0
sum (b ∷ bs) = b + sum bs

sum-append : (xs ys : List ℕ) → sum (xs ++ ys) ≡ sum xs + sum ys
unfolding sum
sum-append [] ys = omega arith
sum-append (x ∷ xs) ys = omega (arith, sum-append xs ys)

-- No operation has more than its budget.
abbrev pub Bounded : List ℕ → Type 0
Bounded [] = Unit
Bounded (b ∷ bs) = (b ≤ max_op_blocks) × Bounded bs

pub sum-Bounded : (bs : List ℕ) → Bounded bs → sum bs ≤ length bs * max_op_blocks
unfolding sum
sum-Bounded [] h = omega arith
sum-Bounded (b ∷ bs) (low, h) = omega (arith, low, sum-Bounded bs h)

pub change-Bounded :
    (xs : List ℕ) (b c : ℕ) (ys : List ℕ)
    → c ≤ b
    → Bounded (xs ++ (b ∷ ys))
    → Bounded (xs ++ (c ∷ ys))
change-Bounded [] b c ys le (low, h) = (omega (arith, le, low), h)
change-Bounded (x ∷ xs) b c ys le (low, h) = (low, change-Bounded xs b c ys le h)

pub remove-Bounded :
    (xs : List ℕ) (b : ℕ) (ys : List ℕ) → Bounded (xs ++ (b ∷ ys)) → Bounded (xs ++ ys)
remove-Bounded [] b ys (low, h) = h
remove-Bounded (x ∷ xs) b ys (low, h) = (low, remove-Bounded xs b ys h)

-- What the calls keep: the log has room for what the operations may still write.
pub record IsRoomy (s : System) : Type 0 where
  pub idle : IsIdle s.ops
  pub lay : Layout s.ops.log.start s.ops.log.n s.ops.log.block
  pub counted : s.ops.outstanding ≡ length s.budgets
  pub few : length s.budgets * max_op_blocks ≤ log_blocks
  pub bounded : Bounded s.budgets
  pub room : s.ops.log.n + sum s.budgets ≤ log_blocks
  pub calm : s.ops.committing ≡ true → s.budgets ≡ []

pub ok-inj :
    {A : Type 0} {a b : A} {k k' : FsOps}
    → ◌≡◌ {A = Outcome FsOps A} (ok a k) (ok b k')
    → (a ≡ b) × (k ≡ k')
ok-inj e = (cc, cc)

pub clash : true ≡ false → ⊥
clash e = cc

-- Budgets that hold that of an operation.
pub middle :
    (xs : List ℕ) (b : ℕ) (ys : List ℕ)
    → (length (xs ++ (b ∷ ys)) ≡ suc (length (xs ++ ys)))
      × (sum (xs ++ (b ∷ ys)) ≡ b + sum (xs ++ ys))
unfolding sum
middle xs b ys = (
  omega (arith, length-append xs (b ∷ ys), length-append xs ys),
  omega (arith, sum-append xs (b ∷ ys), sum-append xs ys),
)
