-- ===== src/Tests/Fs.antt =====
-- A transaction of one block, and an operation that has begun.
use kernel_panic_logger.Prelude.{
  ◌≡◌, refl, sym, [], ◌∷◌, true, false, inr, ◌⊎◌, arith, if◌then◌else◌, ◌==◌,
}
use kernel_panic_logger.Outcome.{ok, ◌>>=◌, zoom}
use kernel_panic_logger.Spinlock.{acquire, release, holding, push_off, pop_off}
use kernel_panic_logger.FsLog.{FsLog, put_block, max_op_blocks, recover_from_log, restart, commit}
use kernel_panic_logger.FsLog.Disk.{Layout, put_other}
use kernel_panic_logger.FsLog.Atomic.{IsReady, Restored, recoveries, commit_atomic, commit_durable}
use kernel_panic_logger.FsOps.{FsOps, begin_run, must_wait, note_block}
use kernel_panic_logger.FsOps.Absorb.{Notes, note_block-Notes}
use kernel_panic_logger.FsOps.Steps.{System, Reachable, starts, steps, begins, IsRoomy}
use kernel_panic_logger.FsOps.Reserve.{always_room}
use kernel_panic_logger.Tests.{quiet, quiet-IsSane, free_lock, free_lock-IsFree}

abbrev one_block : FsLog
one_block = record {
  start = 2;
  n = 1;
  block = λ i. 50;
  disk = λ b w. 0;
  buf = put_block (λ b w. 0) 50 (λ w. 9);
  pins = λ b. if b == 50 then 1 else 0;
  printed = [];
  power = 3;
}

one_block-Layout : Layout one_block.start one_block.n one_block.block
one_block-Layout = record {
  few = omega arith;
  out = λ i h. inr (omega arith);
  different = λ i j hi hj e. omega (arith, hi, hj);
}

one_block-IsReady : IsReady one_block
one_block-IsReady = record {
  lay = one_block-Layout;
  empty = refl;
  clean = λ b out ne. sym (put_other (λ c w. 0) 50 b (λ w. 9) (ne 0 (omega arith)));
}

commit_atomic_example :
    Restored one_block.disk 2
      (recover_from_log (restart 40 (recoveries (0 ∷ 1 ∷ []) (commit one_block))))
    ⊎ Restored one_block.buf 2
        (recover_from_log (restart 40 (recoveries (0 ∷ 1 ∷ []) (commit one_block))))
commit_atomic_example = commit_atomic one_block (0 ∷ 1 ∷ []) 40 one_block-IsReady (omega arith)

abbrev powered : FsLog
powered = record one_block { power = 4 }

powered-IsReady : IsReady powered
powered-IsReady = record { lay = one_block-Layout; empty = refl; clean = one_block-IsReady.clean }

commit_durable_example :
    ((commit powered).disk powered.start 0 ≡ 0) × Restored powered.buf 2 (commit powered)
commit_durable_example = commit_durable powered powered-IsReady (omega arith)

note_block-Notes_example : Notes 51 one_block (note_block 51 one_block)
note_block-Notes_example =
    note_block-Notes one_block 51 one_block-Layout (inr (omega arith)) (omega arith)

abbrev idle_ops : FsOps
idle_ops = record {
  hart = quiet;
  lock = free_lock;
  outstanding = 0;
  committing = false;
  log = record one_block { n = 0 };
  woken = 0;
}

abbrev begun_ops : FsOps
begun_ops = record idle_ops { hart = record quiet { intena = true }; outstanding = 1 }

begun : begin_run idle_ops ≡ ok true begun_ops
unfolding begin_run must_wait acquire release holding push_off pop_off ◌>>=◌ zoom
begun = refl

abbrev begun_system : System
begun_system = record { ops = begun_ops; budgets = max_op_blocks ∷ [] }

abbrev idle_system : System
idle_system = record { ops = idle_ops; budgets = [] }

begun_system-Reachable : Reachable begun_system
begun_system-Reachable =
    steps
      (starts {s = idle_system} (record { free = free_lock-IsFree; sane = quiet-IsSane }) refl refl
        refl refl)
      (begins begun_ops begun)

always_room_example : IsRoomy begun_system
always_room_example = always_room begun_system begun_system-Reachable
