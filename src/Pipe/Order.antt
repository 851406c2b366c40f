-- ===== src/Pipe/Order.antt =====
-- A writer and a reader that share a pipe: under every order of their runs the bytes come out in the
-- order in which they went in.
use mathlib.Core.Path.{subst}
use kernel_panic_logger.Prelude.{
  ℕ, zero, suc, ◌+◌, ◌%◌, ◌^◌, ◌≡◌, refl, ◌<◌, ◌∙◌, ap, sym, List, [], ◌∷◌, ◌++◌, Bool, true, false,
  Option, some, arith, inl, inr, length, get_elem?, take, append_assoc, append-nil,
}
use kernel_panic_logger.Outcome.{Outcome, ok}
use kernel_panic_logger.Spinlock.{initlock}
use kernel_panic_logger.Spinlock.Laws.{IsSane, IsFree, settle_lem}
use kernel_panic_logger.CString.{Memory}
use kernel_panic_logger.Pipe.{
  Site, Verdict, returned, asleep, new_pipe, pipeclose, write_run, read_run,
}
use kernel_panic_logger.Pipe.Queue.{IsPipe, filled, contents}
use kernel_panic_logger.Pipe.Loops.{IsInput, IsOutput}
use kernel_panic_logger.Pipe.Critical.{IsSite}
use kernel_panic_logger.Pipe.Writing.{Writes, WriteEnds, write_run_lem, gives_up, sleeps, returns}
use kernel_panic_logger.Pipe.Calls.{Reads, read_run_lem, pipeclose_lem}

-- The pipe, how many bytes of its stream the writer has been told are done, and what the reader has.
pub record System : Type 0 where
  pub site : Site
  pub offset : ℕ
  pub received : List ℕ

-- A reader that keeps the bytes in the order in which they are stored.
abbrev pub collect : ℕ → ℕ → List ℕ → Option (List ℕ)
collect a b u = some (u ++ (b ∷ []))

-- The count that a run has reached.
abbrev pub reached : Verdict → ℕ
reached (returned n) = n
reached (asleep n) = n

-- A step is a run of the writer, which goes on at its offset in the stream, from the start of a call
-- or from where it slept, or a run of the reader.
pub data Step (stream : List ℕ) : System → System → Type 0 where
  sends :
      {s : System} (addr i rest : ℕ) (verdict : Verdict) (site : Site)
      → addr + i ≡ s.offset
      → addr + (i + rest) < 2 ^ 64
      → write_run (λ j. false) (get_elem? stream) addr i rest s.site ≡ ok verdict site
      → Step stream s
          (record { site = site; offset = addr + reached verdict; received = s.received })
  receives :
      {s : System} (killed : Bool) (addr n : ℕ) (verdict : Verdict) (site : Site)
      (received : List ℕ)
      → read_run killed collect addr n s.received s.site ≡ ok (verdict, received) site
      → Step stream s (record { site = site; offset = s.offset; received = received })
  closes :
      {s : System} (site : Site)
      → pipeclose true s.site ≡ ok tt site
      → Step stream s (record { site = site; offset = s.offset; received = s.received })

pub data Reachable (stream : List ℕ) : System → Type 0 where
  starts :
      {s : System} (page : Memory)
      → s.site.pipe ≡ new_pipe page
      → IsSane s.site.hart
      → s.offset ≡ 0
      → s.received ≡ []
      → Reachable stream s
  steps : {s t : System} → Reachable stream s → Step stream s t → Reachable stream t

-- The bytes that have come out and those in the ring are those that have gone in.
pub record InOrder (stream : List ℕ) (s : System) : Type 0 where
  pub formed : IsSite s.site
  pub open_end : s.site.pipe.readopen ≡ true
  pub order : s.received ++ contents s.site.pipe ≡ take s.offset stream

take-input :
    (stream : List ℕ) (addr i : ℕ) (bs : List ℕ)
    → addr + (i + length bs) < 2 ^ 64
    → IsInput (get_elem? stream) addr i bs
    → take (addr + i) stream ++ bs ≡ take (addr + (i + length bs)) stream
take-input stream addr i [] h input = append-nil _ ∙ ap (λ (n : ℕ). take n stream) (omega arith)
take-input stream addr i (b ∷ bs) h (found, input) =
    sym (append_assoc (take (addr + i) stream) (b ∷ []) bs)
    ∙ (ap (λ xs. xs ++ bs) (one_more stream (addr + i) (here ∙ found))
        ∙ (ap (λ (n : ℕ). take n stream ++ bs) {x = suc (addr + i)} (omega arith)
            ∙ (take-input stream addr (suc i) bs (omega (arith, h)) input
                ∙ ap (λ (n : ℕ). take n stream) (omega arith))))
  where
    here : get_elem? stream (addr + i) ≡ get_elem? stream ((addr + i) % 2 ^ 64)
    here = ap (get_elem? stream) (omega (arith, h))

    one_more :
        (xs : List ℕ) (n : ℕ) → get_elem? xs n ≡ some b → take n xs ++ (b ∷ []) ≡ take (suc n) xs
    one_more [] n e = absurd (ground (arith, e))
    one_more (x ∷ xs) zero e = cc
    one_more (x ∷ xs) (suc n) e = ap (λ ys. x ∷ ys) (one_more xs n e)

collected : (addr i : ℕ) (bs u v : List ℕ) → IsOutput collect addr i bs u v → v ≡ u ++ bs
collected addr i [] u v e = sym e ∙ sym (append-nil u)
collected addr i (b ∷ bs) u v (w, stored, output) =
    collected addr (suc i) bs w v output
    ∙ (ap (λ xs. xs ++ bs) (sym (unwrap stored)) ∙ append_assoc u (b ∷ []) bs)
  where
    unwrap : {x y : List ℕ} → some x ≡ some y → x ≡ y
    unwrap e = cc

ok-inj :
    {A : Type 0} {a b : A} {k k' : Site}
    → ◌≡◌ {A = Outcome Site A} (ok a k) (ok b k')
    → (a ≡ b) × (k ≡ k')
ok-inj e = (cc, cc)

-- A pipe that has just been set up.
new_pipe-IsPipe : (page : Memory) → IsPipe (new_pipe page)
unfolding new_pipe filled
new_pipe-IsPipe page = record {
  nread_in = omega arith;
  nwrite_in = omega arith;
  room = omega arith;
}

new_pipe-IsFree : (page : Memory) → IsFree (new_pipe page).lock
unfolding new_pipe initlock
new_pipe-IsFree page = record { unlocked = refl; nobody = refl }

new_pipe_empty : (page : Memory) → contents (new_pipe page) ≡ []
unfolding new_pipe contents filled
new_pipe_empty page = refl

new_pipe_open : (page : Memory) → (new_pipe page).readopen ≡ true
unfolding new_pipe
new_pipe_open page = refl

module _ (stream : List ℕ) where
  at_start :
      (s : System) (page : Memory)
      → s.site.pipe ≡ new_pipe page
      → IsSane s.site.hart
      → s.offset ≡ 0
      → s.received ≡ []
      → InOrder stream s
  at_start s page e sane nothing_done none_yet = record {
    formed = record {
      free = subst (λ pi. IsFree pi.lock) (sym e) (new_pipe-IsFree page);
      sane = sane;
      ring = subst IsPipe (sym e) (new_pipe-IsPipe page);
    };
    open_end = ap (λ pi. pi.readopen) e ∙ new_pipe_open page;
    order =
        (λ i. none_yet i ++ contents (e i))
        ∙ (new_pipe_empty page ∙ ap (λ (n : ℕ). take n stream) (sym nothing_done));
  }

  -- A run of the writer that ends with j bytes of its call done, where the reader's end is open.
  reached_lem :
      {copyin : ℕ → Option ℕ} {addr total j : ℕ} {k k' : Site} {v : Verdict}
      → k'.pipe.readopen ≡ true
      → WriteEnds (λ i. false) copyin addr total j k k' v
      → reached v ≡ j
  reached_lem still_open (gives_up small (inl gone)) = absurd cc
  reached_lem still_open (gives_up small (inr gone)) = absurd cc
  reached_lem still_open (sleeps e small ring woken) = e
  reached_lem still_open (returns e why woken) = e

  after_write :
      (s : System) (addr i rest : ℕ) (v : Verdict) (site : Site)
      → addr + i ≡ s.offset
      → addr + (i + rest) < 2 ^ 64
      → InOrder stream s
      → Writes (λ j. false) (get_elem? stream) addr (i + rest) i s.site (ok v site)
      → InOrder stream (record { site = site; offset = addr + reached v; received = s.received })
  after_write s addr i rest v site at small inv w = record {
    formed = subst IsSite (sym here.1) w.formed;
    open_end = still_open;
    order =
        ap (λ k. s.received ++ contents k.pipe) here.1
        ∙ (ap (λ q. s.received ++ q) w.queue
            ∙ (sym (append_assoc s.received (contents s.site.pipe) w.bytes)
                ∙ (ap (λ q. q ++ w.bytes) (inv.order ∙ ap (λ (n : ℕ). take n stream) (sym at))
                    ∙ (take-input stream addr i w.bytes (omega (arith, small, w.bounded)) w.input
                        ∙ ap (λ (n : ℕ). take (addr + n) stream) (sym count)))));
  }
    where
      here : (v ≡ w.verdict) × (site ≡ w.site)
      here = ok-inj w.runs

      still_open : site.pipe.readopen ≡ true
      still_open = ap (λ k. k.pipe.readopen) here.1 ∙ (w.same.readopen ∙ inv.open_end)

      count : reached v ≡ i + length w.bytes
      count = ap reached here.0 ∙ reached_lem (w.same.readopen ∙ inv.open_end) w.ends

  after_read :
      (s : System) (killed : Bool) (addr n : ℕ) (v : Verdict) (site : Site) (received : List ℕ)
      → InOrder stream s
      → Reads killed collect addr n s.received s.site (ok (v, received) site)
      → InOrder stream (record { site = site; offset = s.offset; received = received })
  after_read s killed addr n v site received inv r = record {
    formed = subst IsSite (sym here.1) r.formed;
    open_end = ap (λ k. k.pipe.readopen) here.1 ∙ (r.same.readopen ∙ inv.open_end);
    order =
        (λ i.
          (ap (λ vr. vr.1) here.0 ∙ collected addr 0 r.bytes s.received r.memory r.output) i
          ++ contents (here.1 i).pipe)
        ∙ (append_assoc s.received r.bytes (contents r.site.pipe)
            ∙ (ap (λ q. s.received ++ q) (sym r.queue) ∙ inv.order));
  }
    where
      here : (◌≡◌ {A = Verdict × List ℕ} (v, received) (r.verdict, r.memory)) × (site ≡ r.site)
      here = ok-inj r.runs

  after_close :
      (s : System) (site : Site)
      → InOrder stream s
      → pipeclose true s.site ≡ ok tt site
      → InOrder stream (record { site = site; offset = s.offset; received = s.received })
  unfolding contents filled
  after_close s site inv runs =
      let here = (ok-inj (sym (pipeclose_lem true s.site inv.formed) ∙ runs)).1 in
      subst (λ k. InOrder stream (record { site = k; offset = s.offset; received = s.received }))
        here
        (record {
          formed = record {
            free = inv.formed.free;
            sane = (settle_lem s.site.hart inv.formed.sane).0;
            ring = record {
              nread_in = inv.formed.ring.nread_in;
              nwrite_in = inv.formed.ring.nwrite_in;
              room = inv.formed.ring.room;
            };
          };
          open_end = inv.open_end;
          order = inv.order;
        })

  preserved : {s t : System} → InOrder stream s → Step stream s t → InOrder stream t
  preserved {s} inv (sends addr i rest v site at small runs) =
      after_write s addr i rest v site at small inv (
        subst (Writes (λ j. false) (get_elem? stream) addr (i + rest) i s.site) runs (
          write_run_lem (λ j. false) (get_elem? stream) addr (i + rest) i rest s.site refl
            inv.formed))
  preserved {s} inv (receives killed addr n v site received runs) =
      after_read s killed addr n v site received inv (
        subst (Reads killed collect addr n s.received s.site) runs
          (read_run_lem killed collect addr n s.received s.site inv.formed))
  preserved {s} inv (closes site runs) = after_close s site inv runs

  -- Under every order of runs of a writer that is not killed and sends a stream through a new pipe,
  -- of a reader and of a close of the writing end, what the reader has received, followed by the
  -- bytes in the ring, is what the writer has been told is done: no byte is lost, repeated or out
  -- of order. The ring stays well-formed and its lock free.
  pub stream-InOrder : (s : System) → Reachable stream s → InOrder stream s
  stream-InOrder s (starts page e sane nothing_done none_yet) =
      at_start s page e sane nothing_done none_yet
  stream-InOrder s (steps before step) = preserved (stream-InOrder _ before) step
