-- ===== src/LogBuffer/Basename.antt =====
-- What `log_add` keeps of the file's path.
use kernel_panic_logger.Prelude.{
  ℕ, ◌≡◌, refl, ◌⊎◌, inl, inr, List, [], ◌∷◌, ◌++◌, true, false, if◌then◌else◌, Bool-cases, ap,
  append_assoc, ◌∙◌, sym,
}
use kernel_panic_logger.LogBuffer.{is_separator, basename_loop, basename}

-- No byte of the text is a path separator.
abbrev pub HasNoSeparator : List ℕ → Type 0
HasNoSeparator [] = Unit {0}
HasNoSeparator (c ∷ s) = (is_separator c ≡ false) × HasNoSeparator s

-- A path is its directory part, which is empty or ends in a separator, followed by its base name,
-- which holds no separator.
pub record IsSplit (path dir base : List ℕ) : Type 0 where
  pub whole : path ≡ dir ++ base
  pub plain : HasNoSeparator base
  pub ends : (dir ≡ []) ⊎ ((d : List ℕ) × (c : ℕ) × (dir ≡ d ++ (c ∷ [])) × (is_separator c ≡ true))

loop_split :
    (p base : List ℕ)
    → ((dir : List ℕ) × (c : ℕ) × (p' : List ℕ) × (p ≡ dir ++ (c ∷ p'))
        × (is_separator c ≡ true)
        × (basename_loop p base ≡ p')
        × HasNoSeparator p')
      ⊎ (HasNoSeparator p × (basename_loop p base ≡ base))
unfolding basename_loop
loop_split [] base = inr (tt, refl)
loop_split (c ∷ p) base = elim (loop_split p (if is_separator c then p else base)) [
  | inl (dir, d, p', e, sep, b, plain) ↦ inl (c ∷ dir, d, p', ap (λ xs. c ∷ xs) e, sep, b, plain)
  | inr (plain, b) ↦ elim (Bool-cases (is_separator c)) [
    | inl sep ↦ inl ([], c, p, refl, sep, rw sep (rw sep at b), plain)
    | inr non ↦ inr ((non, plain), rw non (rw non at b))
  ]
]

-- `basename` splits every path: what it keeps holds no separator, and what it drops is empty or ends
-- in one.
pub basename_lem : (file : List ℕ) → (dir : List ℕ) × IsSplit file dir (basename file)
unfolding basename
basename_lem file = elim (loop_split file file) [
  | inl (dir, c, p, e, sep, b, plain) ↦ (
    dir ++ (c ∷ []),
    record {
      whole = rw b (e ∙ sym (append_assoc dir (c ∷ []) p));
      plain = rw b plain;
      ends = inr (dir, c, refl, sep);
    },
  )
  | inr (plain, b) ↦ ([], record { whole = rw b refl; plain = rw b plain; ends = inl refl })
]
