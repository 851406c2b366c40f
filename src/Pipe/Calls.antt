-- ===== src/Pipe/Calls.antt =====
-- Runs of `piperead` and `pipeclose` on a pipe whose lock is free.
use mathlib.Core.Path.{subst}
use kernel_panic_logger.Prelude.{
  ℕ, ◌≡◌, ◌≢◌, ◌⊎◌, refl, ◌≤◌, ◌∙◌, ap, sym, List, [], ◌∷◌, ◌++◌, Bool, true, false, Option, not,
  ◌&&◌, ◌||◌, if◌then◌else◌, arith, inl, inr, Bool-cases, length, if_true, if_false,
}
use kernel_panic_logger.Outcome.{Outcome, ok, and_then}
use kernel_panic_logger.Spinlock.Laws.{settle}
use kernel_panic_logger.Pipe.{
  Pipe, Site, reads, writes, Verdict, returned, asleep, failure, is_empty, read_loop,
  wait_for_bytes, take_bytes, read_run, close_end, pipeclose,
}
use kernel_panic_logger.Pipe.Queue.{filled, contents, contents_empty, contents-drop}
use kernel_panic_logger.Pipe.Loops.{IsOutput, SameEnds, Took, EndsAt, read_loop-Took}
use kernel_panic_logger.Pipe.Critical.{
  IsSite, inside, outside, enters, leaves, relocked_in, outside-IsSite,
}

module _ {U : Type 0} (killed : Bool) (copyout : ℕ → ℕ → U → Option U) (addr total : ℕ) where
  -- How a run of `piperead` ends that has delivered j bytes. On an empty pipe open for writing, and
  -- only there, it sleeps, or returns -1 if the process is killed, and wakes up nobody. Otherwise it
  -- returns their number, with all bytes done or none left, or as `copyout` fails, which counts as -1
  -- at the first byte, and wakes up the writers.
  pub data ReadEnds (j : ℕ) (v : U) (k k' : Site) : Verdict → Type 0 where
    waits :
        contents k.pipe ≡ []
        → k.pipe.writeopen ≡ true
        → j ≡ 0
        → k'.woken ≡ k.woken
        → ReadEnds j v k k' (if killed then returned failure else asleep 0)
    takes :
        {n : ℕ}
        → (contents k.pipe ≢ []) ⊎ (k.pipe.writeopen ≡ false)
        → EndsAt copyout addr total j v k'.pipe n
        → k'.woken ≡ writes ∷ k.woken
        → ReadEnds j v k k' (returned n)

  pub record Reads (u : U) (k : Site) (r : Outcome Site (Verdict × U)) : Type 0 where
    pub site : Site
    pub verdict : Verdict
    pub memory : U
    pub runs : r ≡ ok (verdict, memory) site
    pub formed : IsSite site
    pub same : SameEnds k.pipe site.pipe
    pub bytes : List ℕ
    pub bounded : length bytes ≤ total
    pub output : IsOutput copyout addr 0 bytes u memory
    pub queue : contents k.pipe ≡ bytes ++ contents site.pipe
    pub ends : ReadEnds (length bytes) memory k site verdict

  module _ (u : U) (k : Site) (f : IsSite k) where
    none_taken :
        contents k.pipe ≡ []
        → k.pipe.writeopen ≡ true
        → Reads u k (wait_for_bytes killed u (inside k))
    unfolding wait_for_bytes contents filled
    none_taken none_there still_open = record {
      site = outside k (inside k).pipe k.woken;
      verdict = if killed then returned failure else asleep 0;
      memory = u;
      runs = and_then _ _ (leaves k (inside k).pipe k.woken f refl) refl;
      formed = outside-IsSite k (inside k).pipe k.woken f (relocked_in k f.ring);
      same = record { lock = refl; readopen = refl; writeopen = refl };
      bytes = [];
      bounded = omega arith;
      output = refl;
      queue = refl;
      ends = waits none_there still_open refl refl;
    }

    some_taken :
        (n : ℕ) (v : U) (pi : Pipe)
        → read_loop copyout addr 0 total u (inside k).pipe ≡ ((n, v), pi)
        → Took copyout addr total 0 u (inside k).pipe n v pi
        → (contents k.pipe ≢ []) ⊎ (k.pipe.writeopen ≡ false)
        → Reads u k (take_bytes copyout addr total u (inside k))
    unfolding take_bytes contents filled
    some_taken n v pi e t bytes_or_end = record {
      site = outside k pi (writes ∷ k.woken);
      verdict = returned n;
      memory = v;
      runs =
          and_then _ _ looped
            (and_then _ _ refl (and_then _ _ (leaves k pi (writes ∷ k.woken) f t.same.lock) refl));
      formed = outside-IsSite k pi (writes ∷ k.woken) f t.formed;
      same = record { lock = refl; readopen = t.same.readopen; writeopen = t.same.writeopen };
      bytes = t.bytes;
      bounded = omega (arith, t.counted, t.bounded);
      output = t.output;
      queue = t.queue;
      ends =
          takes bytes_or_end (subst (λ (j : ℕ). EndsAt copyout addr total j v pi n) counted t.ends)
            refl;
    }
      where
        counted : t.upto ≡ length t.bytes
        counted = omega (arith, t.counted)

        looped :
            ◌≡◌ {A = Outcome Site (ℕ × U)}
              (ok
                (read_loop copyout addr 0 total u (inside k).pipe).0
                (record (inside k) { pipe = (read_loop copyout addr 0 total u (inside k).pipe).1 }))
              (ok (n, v) (record (inside k) { pipe = pi }))
        looped = λ i. ok (e i).0 (record (inside k) { pipe = (e i).1 })

  -- A run of `piperead` on a well-formed pipe that no process holds ends: it takes bytes from the
  -- front of the ring, in order, into the process's buffer, and leaves a well-formed pipe with its
  -- lock free. On an empty pipe open for writing it sleeps, or returns -1 if the process is killed,
  -- and on no other pipe; otherwise it returns the number of bytes, or -1 if the first cannot be stored, and wakes up the
  -- writers.
  pub read_run_lem :
      (u : U) (k : Site) → IsSite k → Reads u k (read_run killed copyout addr total u k)
  unfolding read_run
  read_run_lem u k f = elim (Bool-cases (is_empty k.pipe && k.pipe.writeopen)) [
    | inl empty ↦
        entered
          (none_taken u k f (contents_empty k.pipe f.ring (both _ _ empty).0) (both _ _ empty).1)
          (if_true _ _ empty)
    | inr some_left ↦
        entered
          (some_taken u k f _ _ _ refl
            (read_loop-Took copyout addr total 0 total u (inside k).pipe (omega arith)
              (relocked_in k f.ring))
            (not_both some_left))
          (if_false _ _ some_left)
  ]
    where
      clash : {b : ℕ} {bs : List ℕ} → [] ≡ b ∷ bs → ⊥
      clash e = cc

      not_both :
          (is_empty k.pipe && k.pipe.writeopen) ≡ false
          → (contents k.pipe ≢ []) ⊎ (k.pipe.writeopen ≡ false)
      not_both h = elim (Bool-cases k.pipe.writeopen) [
        | inl still_open ↦ inl λ none_there.
            clash (sym none_there ∙ contents-drop k.pipe f.ring (ground (arith, h, still_open)))
        | inr closed_end ↦ inr closed_end
      ]

      both : (a b : Bool) → (a && b) ≡ true → (a ≡ true) × (b ≡ true)
      both a b h = ground (arith, h)

      entered :
          {m : Site → Outcome Site (Verdict × U)}
          → Reads u k (m (inside k))
          → (if is_empty k.pipe && k.pipe.writeopen
              then wait_for_bytes killed u
              else take_bytes copyout addr total u)
            ≡ m
          → Reads u k (read_run killed copyout addr total u k)
      entered {m} done e = record {
        site = done.site;
        verdict = done.verdict;
        memory = done.memory;
        runs = and_then _ _ (enters k f) (and_then _ _ refl (ap (λ g. g (inside k)) e ∙ done.runs));
        formed = done.formed;
        same = done.same;
        bytes = done.bytes;
        bounded = done.bounded;
        output = done.output;
        queue = done.queue;
        ends = done.ends;
      }

-- The pipe with one end closed.
abbrev pub closed : Bool → Pipe → Pipe
closed true pi = record pi { writeopen = false }
closed false pi = record pi { readopen = false }

close_end_closes :
    (writable : Bool) (k : Site)
    → close_end writable k
      ≡ ok tt (record k {
        pipe = closed writable k.pipe;
        woken = (if writable then reads else writes) ∷ k.woken;
      })
unfolding close_end
close_end_closes true k = and_then _ _ refl refl
close_end_closes false k = and_then _ _ refl refl

frees_if :
    (b : Bool) (k : Site)
    → (if b then record k { freed = true } else k) ≡ record k { freed = k.freed || b }
frees_if true k = λ i. record k { freed = or_true k.freed i }
  where
    or_true : (b : Bool) → true ≡ b || true
    or_true b = ground arith
frees_if false k = λ i. record k { freed = or_false k.freed i }
  where
    or_false : (b : Bool) → b ≡ b || false
    or_false b = ground arith

and_true : (b : Bool) → (b && true) ≡ b
and_true b = ground arith

-- `pipeclose` of a pipe that no process holds returns with that end closed, wakes up the processes at
-- the other end, keeps the bytes, and gives the page back just if the other end is closed already.
pub pipeclose_lem :
    (writable : Bool) (k : Site)
    → IsSite k
    → pipeclose writable k
      ≡ ok tt (record k {
        hart = settle k.hart;
        pipe = closed writable k.pipe;
        woken = (if writable then reads else writes) ∷ k.woken;
        freed = k.freed || not (if writable then k.pipe.readopen else k.pipe.writeopen);
      })
unfolding pipeclose
pipeclose_lem true k f = and_then _ _ (enters k f) (
    and_then _ _ (close_end_closes true (inside k)) (
      and_then _ _ refl (
        and_then _ _ (leaves k (closed true (inside k).pipe) (reads ∷ k.woken) f refl)
          (λ i. ok tt (last i)))))
  where
    after : Site
    after = outside k (closed true (inside k).pipe) (reads ∷ k.woken)

    last :
        (if not k.pipe.readopen && true then record after { freed = true } else after)
        ≡ record after { freed = k.freed || not k.pipe.readopen }
    last = frees_if (not k.pipe.readopen && true) after ∙ λ i. record after {
      freed = k.freed || and_true (not k.pipe.readopen) i;
    }
pipeclose_lem false k f = and_then _ _ (enters k f) (
    and_then _ _ (close_end_closes false (inside k)) (
      and_then _ _ refl (
        and_then _ _ (leaves k (closed false (inside k).pipe) (writes ∷ k.woken) f refl) (λ i.
          ok tt (
            frees_if (not k.pipe.writeopen)
              (outside k (closed false (inside k).pipe) (writes ∷ k.woken)) i)))))
