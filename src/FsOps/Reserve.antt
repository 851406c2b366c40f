-- ===== src/FsOps/Reserve.antt =====
-- Room in the log is set aside for every operation that has begun.
use mathlib.Core.Path.{subst}
use kernel_panic_logger.Prelude.{
  ℕ, suc, ◌+◌, ◌-◌, ◌*◌, ◌^◌, ◌≡◌, refl, ◌<◌, ◌≤◌, ◌∙◌, ap, sym, List, [], ◌∷◌, ◌++◌, Bool, true,
  false, not, inl, inr, if◌then◌else◌, ◌==◌, arith, ltb, length, Bool-cases, if_true, if_false,
  ==_iff,
}
use kernel_panic_logger.Outcome.{Outcome, ok}
use kernel_panic_logger.FsLog.{
  FsLog, log_blocks, max_op_blocks, rounds_of, write_head, bwrite, write_log, install_trans, commit,
}
use kernel_panic_logger.FsLog.Disk.{Out, Layout, rounds_of_few}
use kernel_panic_logger.FsLog.Crash.{write_log_loop-SameLog, install_loop-SameLog}
use kernel_panic_logger.FsOps.{FsOps, must_wait, leave_run, note_block, log_write}
use kernel_panic_logger.FsOps.Absorb.{Notes, note_block-Notes}
use kernel_panic_logger.FsOps.Calls.{
  after, after-IsIdle, begin_run_lem, log_write_lem, leave_run_lem, finish_commit_lem,
}
use kernel_panic_logger.FsOps.Steps.{
  System, Step, begins, sleeps, writes, departs, commits, Reachable, starts, steps, sum, Bounded,
  sum-Bounded, change-Bounded, remove-Bounded, IsRoomy, ok-inj, clash, middle,
}

module _ (s : System) (inv : IsRoomy s) where
  after_begin :
      must_wait s.ops ≡ false
      → IsRoomy (record {
        ops = after s.ops (s.ops.outstanding + 1) s.ops.committing s.ops.log s.ops.woken;
        budgets = max_op_blocks ∷ s.budgets;
      })
  unfolding must_wait sum
  after_begin goes = record {
    idle = after-IsIdle s.ops _ _ _ _ inv.idle;
    lay = inv.lay;
    counted = omega (arith, inv.counted);
    few = omega (arith, fits.1, inv.counted);
    bounded = (omega arith, inv.bounded);
    room = omega (arith, fits.1, inv.counted, sum-Bounded s.budgets inv.bounded);
    calm = λ busy. absurd (clash (sym busy ∙ fits.0));
  }
    where
      tests :
          (c : Bool) (n o : ℕ)
          → (if c then true else ltb log_blocks (n + (o + 1) * max_op_blocks)) ≡ false
          → (c ≡ false) × (n + (o + 1) * max_op_blocks ≤ log_blocks)
      tests c n o h = ground (arith, h)

      fits :
          (s.ops.committing ≡ false)
          × (s.ops.log.n + (s.ops.outstanding + 1) * max_op_blocks ≤ log_blocks)
      fits = tests s.ops.committing s.ops.log.n s.ops.outstanding goes

  -- The room for a block of an operation that has some of its budget left.
  room_left :
      (xs : List ℕ) (b : ℕ) (ys : List ℕ)
      → s.budgets ≡ xs ++ (suc b ∷ ys)
      → (s.ops.log.n + suc (b + sum (xs ++ ys)) ≤ log_blocks)
        × (0 < s.ops.outstanding)
        × (s.ops.outstanding < 2 ^ 31)
  room_left xs b ys e = (
    omega (arith, inv.room, ap sum e, (middle xs (suc b) ys).1),
    omega (arith, inv.counted, ap length e, (middle xs (suc b) ys).0),
    omega (arith, inv.counted, inv.few),
  )

  written :
      (blockno : ℕ) (xs : List ℕ) (b : ℕ) (ys : List ℕ)
      → s.budgets ≡ xs ++ (suc b ∷ ys)
      → log_write blockno s.ops
        ≡ ok tt (
            after s.ops s.ops.outstanding s.ops.committing
              (note_block blockno s.ops.log)
              s.ops.woken)
  written blockno xs b ys e =
      let r = room_left xs b ys e in
      log_write_lem blockno s.ops inv.idle (omega (arith, r.0)) r.1 r.2

  after_write :
      (blockno : ℕ) (xs : List ℕ) (b : ℕ) (ys : List ℕ)
      → s.budgets ≡ xs ++ (suc b ∷ ys)
      → Out s.ops.log.start blockno
      → IsRoomy (record {
        ops =
            after s.ops s.ops.outstanding s.ops.committing
              (note_block blockno s.ops.log)
              s.ops.woken;
        budgets = xs ++ (b ∷ ys);
      })
  after_write blockno xs b ys e out = record {
    idle = after-IsIdle s.ops _ _ _ _ inv.idle;
    lay =
        subst
          (λ (a : ℕ).
            Layout a (note_block blockno s.ops.log).n (note_block blockno s.ops.log).block)
          (sym noted.start_is) noted.lay;
    counted = omega (arith, inv.counted, ap length e, (middle xs (suc b) ys).0, (middle xs b ys).0);
    few = omega (arith, inv.few, ap length e, (middle xs (suc b) ys).0, (middle xs b ys).0);
    bounded = change-Bounded xs (suc b) b ys (omega arith) (subst Bounded e inv.bounded);
    room = omega (arith, noted.few, (room_left xs b ys e).0, (middle xs b ys).1);
    calm = λ busy. absurd (some_left xs (sym (inv.calm busy) ∙ e));
  }
    where
      noted : Notes blockno s.ops.log (note_block blockno s.ops.log)
      noted =
          note_block-Notes s.ops.log blockno inv.lay out (omega (arith, (room_left xs b ys e).0))

      some_left : (xs : List ℕ) → [] ≡ xs ++ (suc b ∷ ys) → ⊥
      some_left [] e = cc
      some_left (x ∷ xs) e = cc

  departed :
      (xs : List ℕ) (b : ℕ) (ys : List ℕ)
      → s.budgets ≡ xs ++ (b ∷ ys)
      → leave_run s.ops
        ≡ ok (s.ops.outstanding - 1 == 0) (
            after s.ops
              (s.ops.outstanding - 1)
              (s.ops.outstanding - 1 == 0)
              s.ops.log
              (if s.ops.outstanding - 1 == 0 then s.ops.woken else s.ops.woken + 1))
  departed xs b ys e =
      leave_run_lem s.ops inv.idle (not_busy s.ops.committing refl)
        (omega (arith, inv.counted, ap length e, (middle xs b ys).0))
        (omega (arith, inv.counted, inv.few))
    where
      one_left : (xs : List ℕ) → [] ≡ xs ++ (b ∷ ys) → ⊥
      one_left [] e = cc
      one_left (x ∷ xs) e = cc

      not_busy : (c : Bool) → s.ops.committing ≡ c → s.ops.committing ≡ false
      not_busy false h = h
      not_busy true h = absurd (one_left xs (sym (inv.calm h) ∙ e))

  after_leave :
      (xs : List ℕ) (b : ℕ) (ys : List ℕ)
      → s.budgets ≡ xs ++ (b ∷ ys)
      → IsRoomy (record {
        ops =
            after s.ops
              (s.ops.outstanding - 1)
              (s.ops.outstanding - 1 == 0)
              s.ops.log
              (if s.ops.outstanding - 1 == 0 then s.ops.woken else s.ops.woken + 1);
        budgets = xs ++ ys;
      })
  after_leave xs b ys e = record {
    idle = after-IsIdle s.ops _ _ _ _ inv.idle;
    lay = inv.lay;
    counted = count;
    few = omega (arith, inv.few, ap length e, (middle xs b ys).0);
    bounded = remove-Bounded xs b ys (subst Bounded e inv.bounded);
    room = omega (arith, inv.room, ap sum e, (middle xs b ys).1);
    calm = λ h. no_more (xs ++ ys) (count' ∙ (==_iff (s.ops.outstanding - 1) 0).0 h);
  }
    where
      count : s.ops.outstanding - 1 ≡ length (xs ++ ys)
      count = omega (arith, inv.counted, ap length e, (middle xs b ys).0)

      count' : length (xs ++ ys) ≡ s.ops.outstanding - 1
      count' = sym count

      no_more : (zs : List ℕ) → length zs ≡ 0 → zs ≡ []
      no_more [] h = refl
      no_more (z ∷ zs) h = absurd (omega (arith, h))

-- A commit empties the log.
commit_empties : (l : FsLog) → l.n ≤ log_blocks → ((commit l).n ≡ 0) × ((commit l).start ≡ l.start)
unfolding commit write_head bwrite write_log install_trans
commit_empties l few = elim (Bool-cases (rounds_of l.n == 0)) [
  | inl nothing ↦
      rw nothing (sym (rounds_of_few l.n few) ∙ (==_iff (rounds_of l.n) 0).0 nothing, refl)
  | inr some_blocks ↦ rw some_blocks (
    refl,
    (install_loop-SameLog false (rounds_of (write_head (write_log l)).n) 0
          (write_head (write_log l))).start
        ∙ (write_log_loop-SameLog (rounds_of l.n) 0 l).start,
  )
]

module _ (s : System) (inv : IsRoomy s) where
  after_commit :
      s.ops.committing ≡ true
      → IsRoomy (record {
        ops = after s.ops s.ops.outstanding false (commit s.ops.log) (s.ops.woken + 1);
        budgets = s.budgets;
      })
  unfolding sum
  after_commit busy = record {
    idle = after-IsIdle s.ops _ _ _ _ inv.idle;
    lay =
        subst (λ (n : ℕ). Layout (commit s.ops.log).start n (commit s.ops.log).block)
          (sym emptied.0)
          (record {
            few = omega arith;
            out = λ i h. absurd (omega (arith, h));
            different = λ i j h. absurd (omega (arith, h));
          });
    counted = inv.counted;
    few = inv.few;
    bounded = inv.bounded;
    room = omega (arith, emptied.0, ap sum (inv.calm busy));
    calm = λ h. inv.calm busy;
  }
    where
      emptied : ((commit s.ops.log).n ≡ 0) × ((commit s.ops.log).start ≡ s.ops.log.start)
      emptied = commit_empties s.ops.log inv.lay.few

abbrev moved :
    (budgets : List ℕ) {k k' : FsOps}
    → k ≡ k'
    → IsRoomy (record { ops = k; budgets = budgets })
    → IsRoomy (record { ops = k'; budgets = budgets })
moved budgets e = subst (λ k. IsRoomy (record { ops = k; budgets = budgets })) e

waiting :
    (s : System)
    → IsRoomy s
    → IsRoomy (record {
      ops = after s.ops s.ops.outstanding s.ops.committing s.ops.log s.ops.woken;
      budgets = s.budgets;
    })
waiting s inv = record {
  idle = after-IsIdle s.ops _ _ _ _ inv.idle;
  lay = inv.lay;
  counted = inv.counted;
  few = inv.few;
  bounded = inv.bounded;
  room = inv.room;
  calm = inv.calm;
}

preserved : {s t : System} → IsRoomy s → Step s t → IsRoomy t
preserved {s} inv (begins k runs) =
    let e = ok-inj (sym (begin_run_lem s.ops inv.idle) ∙ runs) in
    moved (max_op_blocks ∷ s.budgets)
      (ap (λ (o : ℕ). after s.ops o s.ops.committing s.ops.log s.ops.woken)
          (sym (if_false _ _ (negated (must_wait s.ops) e.0)))
        ∙ e.1)
      (after_begin s inv (negated (must_wait s.ops) e.0))
  where
    negated : (b : Bool) → not b ≡ true → b ≡ false
    negated b h = ground (arith, h)
preserved {s} inv (sleeps k runs) =
    let e = ok-inj (sym (begin_run_lem s.ops inv.idle) ∙ runs) in
    moved s.budgets
      (ap (λ (o : ℕ). after s.ops o s.ops.committing s.ops.log s.ops.woken)
          (sym (if_true _ _ (negated (must_wait s.ops) e.0)))
        ∙ e.1)
      (waiting s inv)
  where
    negated : (b : Bool) → not b ≡ false → b ≡ true
    negated b h = ground (arith, h)
preserved {s} inv (writes blockno xs b ys k e out runs) =
    moved (xs ++ (b ∷ ys)) (ok-inj (sym (written s inv blockno xs b ys e) ∙ runs)).1
      (after_write s inv blockno xs b ys e out)
preserved {s} inv (departs xs b ys last k e runs) =
    moved (xs ++ ys) (ok-inj (sym (departed s inv xs b ys e) ∙ runs)).1
      (after_leave s inv xs b ys e)
preserved {s} inv (commits k busy runs) =
    moved s.budgets (ok-inj (sym (finish_commit_lem s.ops inv.idle) ∙ runs)).1
      (after_commit s inv busy)

-- Under every order of calls in which an operation writes at most MAXOPBLOCKS blocks, all of them
-- outside of the log, from a state with no operation and an empty log, the log has room for all
-- that the operations under way may still write, holds each block once, and no operation is under
-- way during a commit.
pub always_room : (s : System) → Reachable s → IsRoomy s
unfolding sum
always_room s (starts idle none_out calm none_in none_there) = record {
  idle = idle;
  lay =
      subst (λ (n : ℕ). Layout s.ops.log.start n s.ops.log.block) (sym none_in)
        (record {
          few = omega arith;
          out = λ i h. absurd (omega (arith, h));
          different = λ i j h. absurd (omega (arith, h));
        });
  counted = none_out ∙ ap length (sym none_there);
  few = omega (arith, ap length none_there);
  bounded = subst Bounded (sym none_there) tt;
  room = omega (arith, none_in, ap sum none_there);
  calm = λ busy. absurd (clash (sym busy ∙ calm));
}
always_room s (steps before step) = preserved (always_room _ before) step
