-- ===== src/FsOps.antt =====
-- The transactions of the file system, xv6-riscv/kernel/log.c: `begin_op`, `end_op` and `log_write`, as the calls
-- of several processes run one after the other. A call of `begin_op` runs from its start, or from where
-- it is woken up, until it has begun or sleeps. The copies of a commit are in FsLog.
pub mod Absorb
pub mod Calls
pub mod Steps
pub mod Reserve
use kernel_panic_logger.Prelude.{
  ℕ, zero, suc, ◌+◌, ◌-◌, ◌*◌, ◌%◌, ◌^◌, Bool, true, false, not, ◌||◌, if◌then◌else◌, ◌==◌, ltb,
  leb,
}
use kernel_panic_logger.Outcome.{
  Outcome, ok, panics, spins, undefined, ◌>>=◌, ◌>>◌, pure, modify, zoom,
}
use kernel_panic_logger.Spinlock.{Cpu, Spinlock, Pair, acquire, release}
use kernel_panic_logger.CString.{is_not_positive}
use kernel_panic_logger.FsLog.{FsLog, put_word, log_blocks, max_op_blocks, rounds_of, commit}

-- The fields of `struct log` besides `start` and `lh`, with the hart that runs a call, and how often
-- `wakeup(&log)` has been called.
pub record FsOps : Type 0 where
  pub hart : Cpu
  pub lock : Spinlock
  pub outstanding : ℕ
  pub committing : Bool
  pub log : FsLog
  pub woken : ℕ

abbrev pub on_log_lock : {A : Type 0} → (Pair → Outcome Pair A) → FsOps → Outcome FsOps A
on_log_lock =
    zoom (λ k. record { hart = k.hart; lock = k.lock })
      (λ k p. record k { hart = p.hart; lock = p.lock })

abbrev pub wakeup : FsOps → Outcome FsOps (Unit {0})
wakeup = modify (λ k. record k { woken = k.woken + 1 })

-- Whether a new operation has to wait: for a commit, or for room in the log.
unfoldable pub must_wait : FsOps → Bool
must_wait k =
    if k.committing then true else ltb log_blocks (k.log.n + (k.outstanding + 1) * max_op_blocks)

-- A run of `begin_op`: whether the operation has begun; otherwise it sleeps, which gives up the lock.
unfoldable pub begin_run : FsOps → Outcome FsOps Bool
unfolding must_wait
begin_run = do
  on_log_lock acquire
  waits ← λ k. ok (must_wait k) k
  modify (λ k. if waits then k else record k { outstanding = k.outstanding + 1 })
  on_log_lock release
  pure (not waits)

-- `log.outstanding -= 1;` and the choice that follows, with the result `do_commit`.
unfoldable pub leave_op : FsOps → Outcome FsOps Bool
leave_op k =
    let left = (k.outstanding + 2 ^ 32 - 1) % 2 ^ 32 in
    let k1 = record k { outstanding = left } in
    if k.committing
    then panics "log.committing" k1
    else (if left == 0
        then ok true (record k1 { committing = true })
        else ok false (record k1 { woken = k1.woken + 1 }))

-- The first critical section of `end_op`.
unfoldable pub leave_run : FsOps → Outcome FsOps Bool
unfolding leave_op
leave_run = do on_log_lock acquire; do_commit ← leave_op; on_log_lock release; pure do_commit

-- What it does then if it has to commit.
unfoldable pub finish_commit : FsOps → Outcome FsOps (Unit {0})
finish_commit = do
  modify (λ k. record k { log = commit k.log })
  on_log_lock acquire
  modify (λ k. record k { committing = false })
  wakeup
  on_log_lock release

unfoldable pub end_op : FsOps → Outcome FsOps (Unit {0})
unfolding leave_run finish_commit
end_op = do do_commit ← leave_run; if do_commit then finish_commit else pure tt

-- The loop of log absorption, from round i on with so many rounds left.
unfoldable pub find_slot : ℕ → ℕ → (ℕ → ℕ) → ℕ → ℕ
find_slot zero i block blockno = i
find_slot (suc rounds) i block blockno =
    if block i == blockno then i else find_slot rounds (i + 1) block blockno

-- `log.lh.block[i] = b->blockno;`, and `bpin(b); log.lh.n++;` for a new block.
unfoldable pub note_block : ℕ → FsLog → FsLog
unfolding find_slot rounds_of put_word
note_block blockno l =
    let i = find_slot (rounds_of l.n) 0 l.block blockno in
    let l1 = record l { block = put_word l.block i blockno } in
    if i == l.n
    then record l1 { pins = put_word l1.pins blockno (l1.pins blockno + 1); n = l.n + 1 }
    else l1

unfoldable pub log_body : ℕ → FsOps → Outcome FsOps (Unit {0})
unfolding note_block is_not_positive rounds_of
log_body blockno k =
    if leb log_blocks (rounds_of k.log.n)
    then panics "too big a transaction" k
    else (if is_not_positive k.outstanding
        then panics "log_write outside of trans" k
        else ok tt (record k { log = note_block blockno k.log }))

unfoldable pub log_write : ℕ → FsOps → Outcome FsOps (Unit {0})
unfolding log_body
log_write blockno = do on_log_lock acquire; log_body blockno; on_log_lock release
