-- ===== src/Pipe/Critical.antt =====
-- The critical section around a run, on a pipe whose lock is free.
use kernel_panic_logger.Prelude.{◌≡◌, ◌∙◌, ap, List}
use kernel_panic_logger.Outcome.{ok, zoom_of_ok}
use kernel_panic_logger.Spinlock.{acquire, release}
use kernel_panic_logger.Spinlock.Laws.{
  IsSane, IsFree, settle, settle_lem, taken, acquire_free, release_on_taken,
}
use kernel_panic_logger.Pipe.{Pipe, Site, Channel, on_pipe_lock}
use kernel_panic_logger.Pipe.Queue.{IsPipe, filled}

-- A pipe between two runs.
pub record IsSite (k : Site) : Type 0 where
  pub free : IsFree k.pipe.lock
  pub sane : IsSane k.hart
  pub ring : IsPipe k.pipe

-- The site inside the critical section.
abbrev pub inside : Site → Site
inside k =
    let p = taken (record { hart = k.hart; lock = k.pipe.lock }) in
    record k { hart = p.hart; pipe = record k.pipe { lock = p.lock } }

-- The site after it, with this pipe and these channels woken up.
abbrev pub outside : Site → Pipe → List Channel → Site
outside k pi ws = record k {
  hart = settle k.hart;
  pipe = record pi { lock = k.pipe.lock };
  woken = ws;
}

pub enters : (k : Site) → IsSite k → on_pipe_lock acquire k ≡ ok tt (inside k)
enters k f = zoom_of_ok _ _ acquire (acquire_free _ f.free)

pub leaves :
    (k : Site) (pi : Pipe) (ws : List Channel)
    → IsSite k
    → pi.lock ≡ (inside k).pipe.lock
    → on_pipe_lock release (record (inside k) { pipe = pi; woken = ws }) ≡ ok tt (outside k pi ws)
leaves k pi ws f e = zoom_of_ok _ _ release (
    ap (λ l. release (record { hart = (inside k).hart; lock = l })) e
    ∙ release_on_taken (record { hart = k.hart; lock = k.pipe.lock }) f.sane f.free)

relocked : (pi : Pipe) (k : Site) → IsPipe pi → IsPipe (record pi { lock = k.pipe.lock })
unfolding filled
relocked pi k f = record { nread_in = f.nread_in; nwrite_in = f.nwrite_in; room = f.room }

pub relocked_in : (k : Site) → IsPipe k.pipe → IsPipe (inside k).pipe
unfolding filled
relocked_in k f = record { nread_in = f.nread_in; nwrite_in = f.nwrite_in; room = f.room }

pub outside-IsSite :
    (k : Site) (pi : Pipe) (ws : List Channel) → IsSite k → IsPipe pi → IsSite (outside k pi ws)
outside-IsSite k pi ws f ring = record {
  free = f.free;
  sane = (settle_lem k.hart f.sane).0;
  ring = relocked pi k ring;
}
