-- ===== src/FsOps/Calls.antt =====
-- Calls of `begin_op`, `log_write` and `end_op` with the log's lock free.
use kernel_panic_logger.Prelude.{
  ℕ, ◌+◌, ◌-◌, ◌%◌, ◌^◌, ◌≡◌, refl, ◌<◌, ◌∙◌, ap, Bool, true, false, not, if◌then◌else◌, ◌==◌,
  arith, if_false, leb,
}
use kernel_panic_logger.Outcome.{Outcome, ok, and_then, zoom_of_ok}
use kernel_panic_logger.Spinlock.{acquire, release}
use kernel_panic_logger.Spinlock.Laws.{
  IsSane, IsFree, settle, settle_lem, taken, acquire_free, release_on_taken,
}
use kernel_panic_logger.CString.{is_not_positive}
use kernel_panic_logger.FsLog.{FsLog, log_blocks, rounds_of, commit}
use kernel_panic_logger.FsLog.Disk.{rounds_of_few}
use kernel_panic_logger.FsOps.{
  FsOps, on_log_lock, must_wait, begin_run, leave_op, leave_run, finish_commit, note_block,
  log_body, log_write,
}

-- The log between two runs.
pub record IsIdle (k : FsOps) : Type 0 where
  pub free : IsFree k.lock
  pub sane : IsSane k.hart

abbrev inside : FsOps → FsOps
inside k =
    let p = taken (record { hart = k.hart; lock = k.lock }) in
    record k { hart = p.hart; lock = p.lock }

-- Inside a critical section and after it, with these fields.
abbrev with_fields : FsOps → ℕ → Bool → FsLog → ℕ → FsOps
with_fields k o c l w = record k { outstanding = o; committing = c; log = l; woken = w }

abbrev pub after : FsOps → ℕ → Bool → FsLog → ℕ → FsOps
after k o c l w = record k {
  hart = settle k.hart;
  outstanding = o;
  committing = c;
  log = l;
  woken = w;
}

enters : (k : FsOps) → IsIdle k → on_log_lock acquire k ≡ ok tt (inside k)
enters k f = zoom_of_ok _ _ acquire (acquire_free _ f.free)

leaves :
    (k : FsOps) (o : ℕ) (c : Bool) (l : FsLog) (w : ℕ)
    → IsIdle k
    → on_log_lock release (with_fields (inside k) o c l w) ≡ ok tt (after k o c l w)
leaves k o c l w f =
    zoom_of_ok _ _ release
      (release_on_taken (record { hart = k.hart; lock = k.lock }) f.sane f.free)

pub after-IsIdle :
    (k : FsOps) (o : ℕ) (c : Bool) (l : FsLog) (w : ℕ) → IsIdle k → IsIdle (after k o c l w)
after-IsIdle k o c l w f = record { free = f.free; sane = (settle_lem k.hart f.sane).0 }

-- An operation begins unless it must wait.
pub begin_run_lem :
    (k : FsOps)
    → IsIdle k
    → begin_run k
      ≡ ok (not (must_wait k)) (
          after k
            (if must_wait k then k.outstanding else k.outstanding + 1)
            k.committing
            k.log
            k.woken)
unfolding begin_run must_wait
begin_run_lem k f = and_then _ _ (enters k f) (
    and_then _ _ refl (
      and_then _ _ (λ i. ok tt (pushed (must_wait k) i))
        (and_then _ _
          (leaves k (if must_wait k then k.outstanding else k.outstanding + 1) k.committing k.log
            k.woken f)
          refl)))
  where
    pushed :
        (b : Bool)
        → (if b then inside k else record (inside k) { outstanding = k.outstanding + 1 })
          ≡ with_fields
              (inside k)
              (if b then k.outstanding else k.outstanding + 1)
              k.committing
              k.log
              k.woken
    pushed true = refl
    pushed false = refl

-- With room in the log and an operation under way, a block is noted.
pub log_write_lem :
    (blockno : ℕ) (k : FsOps)
    → IsIdle k
    → k.log.n < log_blocks
    → 0 < k.outstanding
    → k.outstanding < 2 ^ 31
    → log_write blockno k
      ≡ ok tt (after k k.outstanding k.committing (note_block blockno k.log) k.woken)
unfolding log_write
log_write_lem blockno k f room some_op few_ops =
    and_then _ _ (enters k f) (
      and_then _ _ noted (leaves k k.outstanding k.committing (note_block blockno k.log) k.woken f))
  where
    has_room : (n r : ℕ) → r ≡ n → n < log_blocks → leb log_blocks r ≡ false
    has_room n r e h = ground (arith, e, h)

    positive : (n : ℕ) → 0 < n → n < 2 ^ 31 → is_not_positive n ≡ false
    positive n lo hi = unfold is_not_positive in ground (arith, lo, hi)

    noted :
        log_body blockno (inside k)
        ≡ ok tt
            (with_fields (inside k) k.outstanding k.committing (note_block blockno k.log) k.woken)
    noted =
        unfold log_body in
        if_false _ _
          (has_room k.log.n (rounds_of k.log.n) (rounds_of_few k.log.n (omega (arith, room))) room)
        ∙ if_false _ _ (positive k.outstanding some_op few_ops)

-- The last operation has to commit, another one wakes up those that wait.
pub leave_run_lem :
    (k : FsOps)
    → IsIdle k
    → k.committing ≡ false
    → 0 < k.outstanding
    → k.outstanding < 2 ^ 31
    → leave_run k
      ≡ ok (k.outstanding - 1 == 0) (
          after k
            (k.outstanding - 1)
            (k.outstanding - 1 == 0)
            k.log
            (if k.outstanding - 1 == 0 then k.woken else k.woken + 1))
unfolding leave_run
leave_run_lem k f calm some_op few_ops = and_then _ _ (enters k f) (
    and_then _ _ left (
      and_then _ _
        (leaves k (k.outstanding - 1) (k.outstanding - 1 == 0) k.log
          (if k.outstanding - 1 == 0 then k.woken else k.woken + 1) f)
        refl))
  where
    less : (k.outstanding + 2 ^ 32 - 1) % 2 ^ 32 ≡ k.outstanding - 1
    less = omega (arith, some_op, few_ops)

    chosen :
        (o : ℕ) (b : Bool)
        → ◌≡◌ {A = Outcome FsOps Bool}
            (if b
              then ok true (record (inside k) { outstanding = o; committing = true })
              else ok false (record (inside k) { outstanding = o; woken = k.woken + 1 }))
            (ok b (with_fields (inside k) o b k.log (if b then k.woken else k.woken + 1)))
    chosen o true = refl
    chosen o false = λ i.
        ok false (record (inside k) { outstanding = o; committing = calm i; woken = k.woken + 1 })

    left :
        leave_op (inside k)
        ≡ ok (k.outstanding - 1 == 0) (
            with_fields
              (inside k)
              (k.outstanding - 1)
              (k.outstanding - 1 == 0)
              k.log
              (if k.outstanding - 1 == 0 then k.woken else k.woken + 1))
    left =
        unfold leave_op in
        if_false _ _ calm
        ∙ (ap
              (λ (o : ℕ).
                if o == 0
                then ok true (record (inside k) { outstanding = o; committing = true })
                else ok false (record (inside k) { outstanding = o; woken = k.woken + 1 }))
              less
            ∙ chosen (k.outstanding - 1) (k.outstanding - 1 == 0))

pub finish_commit_lem :
    (k : FsOps)
    → IsIdle k
    → finish_commit k ≡ ok tt (after k k.outstanding false (commit k.log) (k.woken + 1))
unfolding finish_commit
finish_commit_lem k f =
    let k1 = record k { log = commit k.log } in
    let f1 : IsIdle k1 = record { free = f.free; sane = f.sane } in
    and_then _ _ refl (
      and_then _ _ (enters k1 f1) (
        and_then _ _ refl
          (and_then _ _ refl (leaves k1 k.outstanding false (commit k.log) (k.woken + 1) f1))))
