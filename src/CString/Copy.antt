-- ===== src/CString/Copy.antt =====
-- `safestrcpy` and `strncpy` into a char array, read back as a C string.
use kernel_panic_logger.Prelude.{
  ℕ, zero, suc, ◌-◌, ◌^◌, ◌<◌, ◌≤◌, ◌≡◌, refl, ◌∙◌, ap, Bool, true, false, ◌||◌, leb, ◌==◌,
  if◌then◌else◌, arith, List, [], ◌∷◌, length, take, drop, set, length-set,
}
use kernel_panic_logger.CString.{first, rest_of, is_not_positive, safestrcpy_loop, safestrcpy, cstr}

pub has_nul : List ℕ → Bool
has_nul [] = false
has_nul (c ∷ s) = if c == 0 then true else has_nul s

loop_cstr :
    (n : ℕ) (s t : List ℕ) → suc n ≤ length s → cstr (safestrcpy_loop (suc n) s t) ≡ cstr (take n t)
unfolding safestrcpy_loop cstr first rest_of
loop_cstr zero [] t h = absurd (omega arith)
loop_cstr zero (x ∷ s) t h = refl
loop_cstr (suc n) [] t h = absurd (omega arith)
loop_cstr (suc n) (x ∷ s) [] h = refl
loop_cstr (suc n) (x ∷ s) (c ∷ t) h = ground (arith, loop_cstr n s t (omega arith))

loop_has_nul :
    (n : ℕ) (s t : List ℕ)
    → suc n ≤ length s
    → has_nul (take (suc n) (safestrcpy_loop (suc n) s t)) ≡ true
unfolding safestrcpy_loop has_nul first rest_of
loop_has_nul zero [] t h = absurd (omega arith)
loop_has_nul zero (x ∷ s) t h = refl
loop_has_nul (suc n) [] t h = absurd (omega arith)
loop_has_nul (suc n) (x ∷ s) [] h = refl
loop_has_nul (suc n) (x ∷ s) (c ∷ t) h = ground (arith, loop_has_nul n s t (omega arith))

pub loop_length : (n : ℕ) (s t : List ℕ) → length (safestrcpy_loop n s t) ≡ length s
unfolding safestrcpy_loop
loop_length zero s t = refl
loop_length (suc n) [] t = refl
loop_length (suc zero) (x ∷ s) t = refl
loop_length (suc (suc n)) (x ∷ s) t =
    ground (arith, loop_length (suc n) s (rest_of t), length-set {0} s 0 0)

drop-set : (n : ℕ) (s : List ℕ) (v : ℕ) → drop (suc n) (set s 0 v) ≡ drop (suc n) s
drop-set n [] v = refl
drop-set n (x ∷ s) v = refl

loop_drop : (n : ℕ) (s t : List ℕ) → drop n (safestrcpy_loop n s t) ≡ drop n s
unfolding safestrcpy_loop
loop_drop zero s t = refl
loop_drop (suc n) [] t = refl
loop_drop (suc zero) (x ∷ s) t = refl
loop_drop (suc (suc n)) (x ∷ s) t = ground (arith, loop_drop (suc n) s (rest_of t), drop-set n s 0)

-- What a bounded copy of the C string t into the array s leaves, if it may write n bytes.
pub record IsCopy (s t : List ℕ) (n : ℕ) (r : List ℕ) : Type 0 where
  pub text : cstr r ≡ cstr (take (n - 1) t)
  pub terminated : has_nul (take n r) ≡ true
  pub size : length r ≡ length s
  pub beyond : drop n r ≡ drop n s

-- `safestrcpy` with a positive n that the array holds: the array then holds the first n - 1 bytes of
-- the source as a C string, its NUL is among the first n bytes, and nothing past n changes.
pub safestrcpy-IsCopy :
    (s t : List ℕ) (n : ℕ) → 0 < n → n < 2 ^ 31 → n ≤ length s → IsCopy s t n (safestrcpy s t n)
unfolding safestrcpy is_not_positive
safestrcpy-IsCopy s t zero pos small fits = elim pos [ ]
safestrcpy-IsCopy s t (suc n) pos small fits = rw positive (record {
  text = loop_cstr n s t fits ∙ ap (λ (k : ℕ). cstr (take k t)) (omega arith);
  terminated = loop_has_nul n s t fits;
  size = loop_length (suc n) s t;
  beyond = loop_drop (suc n) s t;
})
  where
    positive : (suc n == 0 || leb (2 ^ 31) (suc n)) ≡ false
    positive = ground arith
