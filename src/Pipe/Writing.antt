-- ===== src/Pipe/Writing.antt =====
-- Runs of `pipewrite` on a pipe whose lock is free.
use mathlib.Core.Path.{subst}
use kernel_panic_logger.Prelude.{
  ℕ, ◌+◌, ◌%◌, ◌^◌, ◌≡◌, refl, ◌<◌, ◌≤◌, List, ◌∷◌, ◌++◌, Bool, true, false, Option, none, arith,
  ◌⊎◌, length,
}
use kernel_panic_logger.Outcome.{Outcome, ok, and_then}
use kernel_panic_logger.Pipe.{
  Pipe, Site, Channel, reads, Verdict, returned, asleep, Stop, refused, full, finished, failure,
  pipe_size, write_loop, stop_writing, write_run,
}
use kernel_panic_logger.Pipe.Queue.{filled, contents}
use kernel_panic_logger.Pipe.Loops.{IsInput, SameEnds, Wrote, write_loop-Wrote, StopsAt}
use kernel_panic_logger.Pipe.Critical.{
  IsSite, inside, outside, enters, leaves, relocked_in, outside-IsSite,
}

module _ (killed : ℕ → Bool) (copyin : ℕ → Option ℕ) (addr total : ℕ) where
  -- How a run that comes to byte j ends: it gives up as the reading end is closed or the process is
  -- killed; it sleeps on a full ring; or it returns with all bytes done, or with the byte at fault
  -- next. The last two wake up the readers.
  pub data WriteEnds (j : ℕ) (k k' : Site) : Verdict → Type 0 where
    gives_up :
        j < total
        → (k'.pipe.readopen ≡ false) ⊎ (killed j ≡ true)
        → WriteEnds j k k' (returned failure)
    sleeps :
        {n : ℕ}
        → n ≡ j
        → j < total
        → filled k'.pipe ≡ pipe_size
        → k'.woken ≡ reads ∷ k.woken
        → WriteEnds j k k' (asleep n)
    returns :
        {n : ℕ}
        → n ≡ j
        → (j ≡ total) ⊎ (copyin ((addr + j) % 2 ^ 64) ≡ none)
        → k'.woken ≡ reads ∷ k.woken
        → WriteEnds j k k' (returned n)

  -- A run of `pipewrite` from byte i on ends, with some of the process's bytes behind those in the
  -- ring.
  pub record Writes (i : ℕ) (k : Site) (r : Outcome Site Verdict) : Type 0 where
    pub site : Site
    pub verdict : Verdict
    pub runs : r ≡ ok verdict site
    pub formed : IsSite site
    pub same : SameEnds k.pipe site.pipe
    pub bytes : List ℕ
    pub bounded : i + length bytes ≤ total
    pub input : IsInput copyin addr i bytes
    pub queue : contents site.pipe ≡ contents k.pipe ++ bytes
    pub ends : WriteEnds (i + length bytes) k site verdict

  module _ (i : ℕ) (k : Site) (f : IsSite k) where
    -- The run after the loop that has carried these bytes.
    module _ (stop : Stop) (pi : Pipe)
        (w : Wrote killed copyin addr total i (inside k).pipe stop pi) where
      run_of :
          (ws : List Channel) (verdict : Verdict)
          → stop_writing stop (record (inside k) { pipe = pi }) ≡ ok verdict (outside k pi ws)
          → WriteEnds (i + length w.bytes) k (outside k pi ws) verdict
          → Writes i k (stop_writing stop (record (inside k) { pipe = pi }))
      unfolding contents filled
      run_of ws verdict runs ends = record {
        site = outside k pi ws;
        verdict = verdict;
        runs = runs;
        formed = outside-IsSite k pi ws f w.formed;
        same = record { lock = refl; readopen = w.same.readopen; writeopen = w.same.writeopen };
        bytes = w.bytes;
        bounded = omega (arith, w.counted, w.bounded);
        input = w.input;
        queue = w.queue;
        ends = ends;
      }

      at_end : StopsAt killed copyin addr total (i + length w.bytes) pi stop
      at_end = subst (λ (j : ℕ). StopsAt killed copyin addr total j pi stop) w.counted w.ends

    finishes :
        (stop : Stop) (pi : Pipe)
        → Wrote killed copyin addr total i (inside k).pipe stop pi
        → Writes i k (stop_writing stop (record (inside k) { pipe = pi }))
    unfolding stop_writing filled
    finishes refused pi w =
        run_of refused pi w k.woken (returned failure)
          (and_then _ _ (leaves k pi k.woken f w.same.lock) refl)
          (gives_up (at_end refused pi w).0 (at_end refused pi w).1)
    finishes (full n) pi w =
        run_of (full n) pi w (reads ∷ k.woken) (asleep n)
          (and_then _ _ refl (and_then _ _ (leaves k pi (reads ∷ k.woken) f w.same.lock) refl))
          (sleeps (at_end (full n) pi w).0 (at_end (full n) pi w).1 (at_end (full n) pi w).2 refl)
    finishes (finished n) pi w =
        run_of (finished n) pi w (reads ∷ k.woken) (returned n)
          (and_then _ _ refl (and_then _ _ (leaves k pi (reads ∷ k.woken) f w.same.lock) refl))
          (returns (at_end (finished n) pi w).0 (at_end (finished n) pi w).1 refl)

  pub write_run_lem :
      (i rest : ℕ) (k : Site)
      → i + rest ≡ total
      → IsSite k
      → Writes i k (write_run killed copyin addr i rest k)
  unfolding write_run
  write_run_lem i rest k e f =
      let r = write_loop killed copyin addr i rest (inside k).pipe in
      let done = finishes i k f r.0 r.1 (
        write_loop-Wrote killed copyin addr total i rest (inside k).pipe e
          (relocked_in k f.ring)) in
      record {
        site = done.site;
        verdict = done.verdict;
        runs = and_then _ _ (enters k f) (and_then _ _ refl done.runs);
        formed = done.formed;
        same = done.same;
        bytes = done.bytes;
        bounded = done.bounded;
        input = done.input;
        queue = done.queue;
        ends = done.ends;
      }
