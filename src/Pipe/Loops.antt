-- ===== src/Pipe/Loops.antt =====
-- The loops of `pipewrite` and `piperead`: the bytes that they carry and why they end.
use mathlib.Core.Path.{subst}
use kernel_panic_logger.Prelude.{
  ℕ, zero, suc, ◌+◌, ◌%◌, ◌^◌, ◌≡◌, refl, ◌<◌, ◌≤◌, ◌∙◌, ap, sym, List, [], ◌∷◌, ◌++◌, Bool, true,
  false, Option, none, some, not, ◌||◌, if◌then◌else◌, ◌==◌, arith, ◌⊎◌, inl, inr, Bool-cases,
  Option-cases, length, append_assoc, append-nil,
}
use kernel_panic_logger.Pipe.{
  Pipe, Stop, refused, full, finished, failure, pipe_size, is_full, is_empty, put_byte, next_byte,
  drop_byte, write_loop, read_loop,
}
use kernel_panic_logger.Pipe.Queue.{
  IsPipe, filled, contents, contents-put, put_byte-IsPipe, filled-full, contents-drop,
  drop_byte-IsPipe, contents_empty,
}

-- The bytes that a process has in its memory from place i of its buffer on.
abbrev pub IsInput : (ℕ → Option ℕ) → ℕ → ℕ → List ℕ → Type 0
IsInput copyin addr i [] = Unit
IsInput copyin addr i (b ∷ bs) =
    (copyin ((addr + i) % 2 ^ 64) ≡ some b) × IsInput copyin addr (suc i) bs

-- Storing these bytes from place i of the buffer on takes one memory to the other.
abbrev pub IsOutput : {U : Type 0} → (ℕ → ℕ → U → Option U) → ℕ → ℕ → List ℕ → U → U → Type 0
IsOutput copyout addr i [] u v = u ≡ v
IsOutput {U} copyout addr i (b ∷ bs) u v =
    (w : U) × (copyout ((addr + i) % 2 ^ 64) b u ≡ some w) × IsOutput copyout addr (suc i) bs w v

-- Two states of a pipe that differ in its bytes and counts at most.
pub record SameEnds (pi pi' : Pipe) : Type 0 where
  pub lock : pi'.lock ≡ pi.lock
  pub readopen : pi'.readopen ≡ pi.readopen
  pub writeopen : pi'.writeopen ≡ pi.writeopen

-- Why the loop of `pipewrite` stops with j of `total` bytes done.
abbrev pub StopsAt : (ℕ → Bool) → (ℕ → Option ℕ) → ℕ → ℕ → ℕ → Pipe → Stop → Type 0
StopsAt killed copyin addr total j pi refused =
    (j < total) × ((pi.readopen ≡ false) ⊎ (killed j ≡ true))
StopsAt killed copyin addr total j pi (full k) = (k ≡ j) × (j < total) × (filled pi ≡ pipe_size)
StopsAt killed copyin addr total j pi (finished k) =
    (k ≡ j) × ((j ≡ total) ⊎ (copyin ((addr + j) % 2 ^ 64) ≡ none))

module _ (killed : ℕ → Bool) (copyin : ℕ → Option ℕ) (addr total : ℕ) where
  -- What the loop does from byte i on.
  pub record Wrote (i : ℕ) (pi : Pipe) (stop : Stop) (pi' : Pipe) : Type 0 where
    pub bytes : List ℕ
    pub upto : ℕ
    pub counted : upto ≡ i + length bytes
    pub bounded : upto ≤ total
    pub input : IsInput copyin addr i bytes
    pub queue : contents pi' ≡ contents pi ++ bytes
    pub formed : IsPipe pi'
    pub same : SameEnds pi pi'
    pub ends : StopsAt killed copyin addr total upto pi' stop

  stops :
      (i : ℕ) (pi : Pipe) (stop : Stop)
      → i ≤ total
      → IsPipe pi
      → StopsAt killed copyin addr total i pi stop
      → Wrote i pi stop pi
  stops i pi stop low f ends = record {
    bytes = [];
    upto = i;
    counted = omega arith;
    bounded = low;
    input = tt;
    queue = sym (append-nil (contents pi));
    formed = f;
    same = record { lock = refl; readopen = refl; writeopen = refl };
    ends = ends;
  }

  -- One more byte in front.
  one_more :
      (i b : ℕ) (pi : Pipe) (stop : Stop) (pi' : Pipe)
      → copyin ((addr + i) % 2 ^ 64) ≡ some b
      → IsPipe pi
      → is_full pi ≡ false
      → Wrote (i + 1) (put_byte b pi) stop pi'
      → Wrote i pi stop pi'
  unfolding put_byte
  one_more i b pi stop pi' found f room w = record {
    bytes = b ∷ w.bytes;
    upto = w.upto;
    counted = omega (arith, w.counted);
    bounded = w.bounded;
    input = (found, subst (λ (j : ℕ). IsInput copyin addr j w.bytes) next w.input);
    queue =
        w.queue
        ∙ (ap (λ q. q ++ w.bytes) (contents-put b pi f room)
            ∙ append_assoc (contents pi) (b ∷ []) w.bytes);
    formed = w.formed;
    same = record { lock = w.same.lock; readopen = w.same.readopen; writeopen = w.same.writeopen };
    ends = w.ends;
  }
    where
      next : ◌≡◌ {A = ℕ} (i + 1) (suc i)
      next = omega arith

  pub write_loop-Wrote :
      (i rest : ℕ) (pi : Pipe)
      → i + rest ≡ total
      → IsPipe pi
      → Wrote i pi
          (write_loop killed copyin addr i rest pi).0
          (write_loop killed copyin addr i rest pi).1
  unfolding write_loop
  write_loop-Wrote i zero pi e f =
      stops i pi (finished i) (omega (arith, e)) f (refl, inl (omega (arith, e)))
  write_loop-Wrote i (suc rest) pi e f = elim (Bool-cases (not pi.readopen || killed i)) [
    | inl stop ↦ rw stop (
        stops i pi refused (omega (arith, e)) f (omega (arith, e), why pi.readopen (killed i) stop))
    | inr going ↦ rw going (elim (Bool-cases (is_full pi)) [
      | inl h ↦
          rw h
            (stops i pi (full i) (omega (arith, e)) f (refl, omega (arith, e), filled-full pi f h))
      | inr room ↦ rw room (elim (Option-cases (copyin ((addr + i) % 2 ^ 64))) [
        | inl fault ↦ rw fault (stops i pi (finished i) (omega (arith, e)) f (refl, inr fault))
        | inr (b, found) ↦ rw found (
            one_more i b pi _ _ found f room (
              write_loop-Wrote (i + 1) rest (put_byte b pi) (omega (arith, e))
                (put_byte-IsPipe b pi f room)))
      ])
    ])
  ]
    where
      why : (a b : Bool) → (not a || b) ≡ true → (a ≡ false) ⊎ (b ≡ true)
      why a b h = ground (arith, h)

module _ {U : Type 0} (copyout : ℕ → ℕ → U → Option U) (addr total : ℕ) where
  -- Why the loop of `piperead` ends with j bytes delivered, and what it returns.
  abbrev pub EndsAt : ℕ → U → Pipe → ℕ → Type 0
  EndsAt j v pi n =
      ((n ≡ j) × ((j ≡ total) ⊎ (contents pi ≡ [])))
      ⊎ ((b : ℕ) × (copyout ((addr + j) % 2 ^ 64) b v ≡ none)
          × (n ≡ (if j == 0 then failure else j)))

  -- What the loop does from byte i on.
  pub record Took (i : ℕ) (u : U) (pi : Pipe) (n : ℕ) (v : U) (pi' : Pipe) : Type 0 where
    pub bytes : List ℕ
    pub upto : ℕ
    pub counted : upto ≡ i + length bytes
    pub bounded : upto ≤ total
    pub output : IsOutput copyout addr i bytes u v
    pub queue : contents pi ≡ bytes ++ contents pi'
    pub formed : IsPipe pi'
    pub same : SameEnds pi pi'
    pub ends : EndsAt upto v pi' n

  takes_none :
      (i : ℕ) (u : U) (pi : Pipe) (n : ℕ)
      → i ≤ total
      → IsPipe pi
      → EndsAt i u pi n
      → Took i u pi n u pi
  takes_none i u pi n low f ends = record {
    bytes = [];
    upto = i;
    counted = omega arith;
    bounded = low;
    output = refl;
    queue = refl;
    formed = f;
    same = record { lock = refl; readopen = refl; writeopen = refl };
    ends = ends;
  }

  takes_one :
      (i : ℕ) (u w : U) (pi : Pipe) (n : ℕ) (v : U) (pi' : Pipe)
      → copyout ((addr + i) % 2 ^ 64) (next_byte pi) u ≡ some w
      → IsPipe pi
      → is_empty pi ≡ false
      → Took (i + 1) w (drop_byte pi) n v pi'
      → Took i u pi n v pi'
  unfolding drop_byte
  takes_one i u w pi n v pi' stored f some_left t = record {
    bytes = next_byte pi ∷ t.bytes;
    upto = t.upto;
    counted = omega (arith, t.counted);
    bounded = t.bounded;
    output = (w, stored, subst (λ (j : ℕ). IsOutput copyout addr j t.bytes w v) next t.output);
    queue = contents-drop pi f some_left ∙ ap (λ q. next_byte pi ∷ q) t.queue;
    formed = t.formed;
    same = record { lock = t.same.lock; readopen = t.same.readopen; writeopen = t.same.writeopen };
    ends = t.ends;
  }
    where
      next : ◌≡◌ {A = ℕ} (i + 1) (suc i)
      next = omega arith

  pub read_loop-Took :
      (i rest : ℕ) (u : U) (pi : Pipe)
      → i + rest ≡ total
      → IsPipe pi
      → Took i u pi
          (read_loop copyout addr i rest u pi).0.0
          (read_loop copyout addr i rest u pi).0.1
          (read_loop copyout addr i rest u pi).1
  unfolding read_loop
  read_loop-Took i zero u pi e f =
      takes_none i u pi i (omega (arith, e)) f (inl (refl, inl (omega (arith, e))))
  read_loop-Took i (suc rest) u pi e f = elim (Bool-cases (is_empty pi)) [
    | inl h ↦
        rw h (takes_none i u pi i (omega (arith, e)) f (inl (refl, inr (contents_empty pi f h))))
    | inr some_left ↦
        rw some_left (elim (Option-cases (copyout ((addr + i) % 2 ^ 64) (next_byte pi) u)) [
          | inl fault ↦
              rw fault (takes_none i u pi _ (omega (arith, e)) f (inr (next_byte pi, fault, refl)))
          | inr (w, stored) ↦ rw stored (
              takes_one i u w pi _ _ _ stored f some_left (
                read_loop-Took (i + 1) rest w (drop_byte pi) (omega (arith, e))
                  (drop_byte-IsPipe pi f some_left)))
        ])
  ]
