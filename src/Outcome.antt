-- ===== src/Outcome.antt =====
-- What a kernel routine does to the state that it runs on: it returns, it calls `panic` with the
-- state at the call, it spins on a lock that another hart holds, or its behaviour is undefined in C.
use kernel_panic_logger.Prelude.{String, ◌≡◌, refl}

pub data Outcome (S A : Type 0) : Type 0 where
  ok : A → S → Outcome S A
  panics : String → S → Outcome S A
  spins : S → Outcome S A
  undefined : Outcome S A

infixl 5 ◌>>=◌ ◌>>◌
unfoldable pub ◌>>=◌ :
    {S A B : Type 0} → (S → Outcome S A) → (A → S → Outcome S B) → S → Outcome S B
◌>>=◌ m f s = elim (m s) [
  | ok a s' ↦ f a s'
  | panics w s' ↦ panics w s'
  | spins s' ↦ spins s'
  | undefined ↦ undefined
]

abbrev pub ◌>>◌ : {S B : Type 0} → (S → Outcome S (Unit {0})) → (S → Outcome S B) → S → Outcome S B
m >> k = m >>= λ _. k

abbrev pub pure : {S A : Type 0} → A → S → Outcome S A
pure a s = ok a s

-- An assignment to the state.
abbrev pub modify : {S : Type 0} → (S → S) → S → Outcome S (Unit {0})
modify f s = ok tt (f s)

-- A routine that runs on a part of a larger state.
unfoldable pub zoom : {S T A : Type 0} → (S → T) → (S → T → S) → (T → Outcome T A) → S → Outcome S A
zoom get put m s = elim (m (get s)) [
  | ok a t ↦ ok a (put s t)
  | panics w t ↦ panics w (put s t)
  | spins t ↦ spins (put s t)
  | undefined ↦ undefined
]

module _ {S T A : Type 0} (get : S → T) (put : S → T → S) (m : T → Outcome T A) where
  pub zoom_of_ok : {s : S} {t : T} {a : A} → m (get s) ≡ ok a t → zoom get put m s ≡ ok a (put s t)
  unfolding zoom
  zoom_of_ok h = rw (h, zoom)

  pub zoom_of_panics :
      {s : S} {t : T} {w : String} → m (get s) ≡ panics w t → zoom get put m s ≡ panics w (put s t)
  unfolding zoom
  zoom_of_panics h = rw (h, zoom)

module _ {S A B : Type 0} (m : S → Outcome S A) (f : A → S → Outcome S B) where
  -- A bind whose first part returns.
  pub and_then : {s s' : S} {a : A} {r : Outcome S B} → m s ≡ ok a s' → f a s' ≡ r → (m >>= f) s ≡ r
  unfolding ◌>>=◌
  and_then h k = rw (h, ◌>>=◌) k

  -- A bind whose first part calls panic.
  pub panics_first : {s s' : S} {w : String} → m s ≡ panics w s' → (m >>= f) s ≡ panics w s'
  unfolding ◌>>=◌
  panics_first h = rw (h, ◌>>=◌)

-- An outcome that does not return.
pub data Escapes {S A : Type 0} : Outcome S A → Type 0 where
  by_panic : {w : String} {s : S} → Escapes (panics w s)
  by_spin : {s : S} → Escapes (spins s)
  by_undefined : Escapes undefined

module _ {S A B : Type 0} (m : S → Outcome S A) (f : A → S → Outcome S B) where
  pub >>=-Escapes : (s : S) → ((a : A) (s' : S) → Escapes (f a s')) → Escapes ((m >>= f) s)
  unfolding ◌>>=◌
  >>=-Escapes s g = of (m s) refl
    where
      of : (r : Outcome S A) → m s ≡ r → Escapes ((m >>= f) s)
      of (ok a s') h = rw (h, ◌>>=◌) (g a s')
      of (panics w s') h = rw (h, ◌>>=◌) by_panic
      of (spins s') h = rw (h, ◌>>=◌) by_spin
      of undefined h = rw (h, ◌>>=◌) by_undefined

-- What follows an outcome that does not return is not run.
pub skips_rest :
    {S A : Type 0} (m : S → Outcome S A) (f : A → S → Outcome S A) (s : S)
    → Escapes (m s)
    → (m >>= f) s ≡ m s
unfolding ◌>>=◌
skips_rest {S} {A} m f s e = of (m s) refl e
  where
    of : (r : Outcome S A) → m s ≡ r → Escapes r → (m >>= f) s ≡ m s
    of (panics w s') h by_panic = rw (h, ◌>>=◌) refl
    of (spins s') h by_spin = rw (h, ◌>>=◌) refl
    of undefined h by_undefined = rw (h, ◌>>=◌) refl
    of (ok a s') h x = elim x [ ]
