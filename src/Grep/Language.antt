-- ===== src/Grep/Language.antt =====
-- What a pattern means, independently of the matcher.
use mathlib.Core.Path.{subst, transport}
use kernel_panic_logger.Prelude.{
  ℕ, ◌≡◌, ◌≢◌, refl, ◌∙◌, sym, ◌↔◌, ◌⊎◌, inl, inr, List, [], ◌∷◌, Bool, true, false, ◌||◌,
  if◌then◌else◌, ◌==◌, arith, Bool-cases, ==_iff, if_true, if_false,
}
use kernel_panic_logger.Grep.{matchstar, match_char, is_nil, matchhere, match_loop, match_text}

-- A character of a pattern takes a character of the text: `.` takes every one.
abbrev pub Takes : ℕ → ℕ → Type 0
Takes r t = (r ≡ b'.') ⊎ (r ≡ t)

-- The pattern matches at the start of the text: the pattern is at its end; `c*` takes some characters and the rest
-- matches what follows; `$` at the end of the pattern stands at the end of the text; or a character is
-- taken and the rest matches what follows.
mutual
  pub data Matches : List ℕ → List ℕ → Type 0 where
    at_end : {text : List ℕ} → Matches [] text
    star : {c : ℕ} {re text : List ℕ} → Stars c re text → Matches (c ∷ b'*' ∷ re) text
    dollar : Matches (b'$' ∷ []) []
    last : {r t : ℕ} {text : List ℕ} → r ≢ b'$' → Takes r t → Matches (r ∷ []) (t ∷ text)
    one :
        {r s t : ℕ} {re text : List ℕ}
        → s ≢ b'*'
        → Takes r t
        → Matches (s ∷ re) text
        → Matches (r ∷ s ∷ re) (t ∷ text)

  -- `c*` from here on, and then the rest.
  pub data Stars : ℕ → List ℕ → List ℕ → Type 0 where
    stop : {c : ℕ} {re text : List ℕ} → Matches re text → Stars c re text
    more : {c t : ℕ} {re text : List ℕ} → Takes c t → Stars c re text → Stars c re (t ∷ text)

shown_by_test : (r t : ℕ) → (r == b'.' || r == t) ≡ true → Takes r t
shown_by_test r t h = ground (arith, h)

passes_test : (r t : ℕ) → Takes r t → (r == b'.' || r == t) ≡ true
passes_test r t h = ground (arith, h)

differs : (a b : ℕ) → (a == b) ≡ false → a ≢ b
differs a b h = ground (arith, h)

differ : (a b : ℕ) → a ≢ b → (a == b) ≡ false
differ a b h = ground (arith, h)

clash : true ≡ false → ⊥
clash e = cc

matchstar-Stars :
    (re : List ℕ) (c : ℕ) (text : List ℕ)
    → ((t : List ℕ) → matchhere re t ≡ true → Matches re t)
    → matchstar (matchhere re) c text ≡ true
    → Stars c re text
unfolding matchstar
matchstar-Stars re c [] f h = stop (f [] h)
matchstar-Stars re c (t ∷ text) f h = elim (Bool-cases (matchhere re (t ∷ text))) [
  | inl here ↦ stop (f (t ∷ text) here)
  | inr not_here ↦
      let g = sym (if_false _ _ not_here) ∙ h in
      elim (Bool-cases (t == c || c == b'.')) [
        | inl taken ↦
            more (takes t c taken) (matchstar-Stars re c text f (sym (if_true _ _ taken) ∙ g))
        | inr refused ↦ absurd (clash (sym g ∙ if_false _ _ refused))
      ]
]
  where
    takes : (t c : ℕ) → (t == c || c == b'.') ≡ true → Takes c t
    takes t c h = ground (arith, h)

match_char_cases :
    (here : List ℕ → Bool) (r : ℕ) (text : List ℕ)
    → match_char here r text ≡ true
    → (t : ℕ) × (rest : List ℕ) × (text ≡ t ∷ rest) × Takes r t × (here rest ≡ true)
unfolding match_char
match_char_cases here r [] h = absurd (clash (sym h))
match_char_cases here r (t ∷ text) h = elim (Bool-cases (r == b'.' || r == t)) [
  | inl taken ↦ (t, text, refl, shown_by_test r t taken, sym (if_true _ _ taken) ∙ h)
  | inr refused ↦ absurd (clash (sym h ∙ if_false _ _ refused))
]

nil_only : (text : List ℕ) → is_nil text ≡ true → text ≡ []
nil_only [] h = refl
nil_only (t ∷ text) h = absurd (clash (sym h))

matchhere-Matches : (re text : List ℕ) → matchhere re text ≡ true → Matches re text
unfolding matchhere
matchhere-Matches [] text h = at_end
matchhere-Matches (r ∷ []) text h = elim (Bool-cases (r == b'$')) [
  | inl e ↦ subst₂ (sym ((==_iff r b'$').0 e)) (sym (nil_only text (sym (if_true _ _ e) ∙ h)))
  | inr e ↦
      let (t, rest, split, takes, here) =
        match_char_cases (matchhere []) r text (sym (if_false _ _ e) ∙ h) in
      subst (Matches (r ∷ [])) (sym split) (last (differs r b'$' e) takes)
]
  where
    subst₂ : b'$' ≡ r → [] ≡ text → Matches (r ∷ []) text
    subst₂ p q = transport (λ i. Matches (p i ∷ []) (q i)) dollar
matchhere-Matches (r ∷ s ∷ re) text h = elim (Bool-cases (s == b'*')) [
  | inl e ↦
      subst (λ (x : ℕ). Matches (r ∷ x ∷ re) text) (sym ((==_iff s b'*').0 e))
        (star (matchstar-Stars re r text (matchhere-Matches re) (sym (if_true _ _ e) ∙ h)))
  | inr e ↦
      let (t, rest, split, takes, here) =
        match_char_cases (matchhere (s ∷ re)) r text (sym (if_false _ _ e) ∙ h) in
      subst (Matches (r ∷ s ∷ re)) (sym split)
        (one (differs s b'*' e) takes (matchhere-Matches (s ∷ re) rest here))
]

Stars-matchstar :
    (re : List ℕ) (c : ℕ) (text : List ℕ)
    → ((t : List ℕ) → Matches re t → matchhere re t ≡ true)
    → Stars c re text
    → matchstar (matchhere re) c text ≡ true
unfolding matchstar
Stars-matchstar re c [] f (stop m) = f [] m
Stars-matchstar re c (t ∷ text) f (stop m) = if_true _ _ (f (t ∷ text) m)
Stars-matchstar re c (t ∷ text) f (more takes s) =
    either (matchhere re (t ∷ text)) (t == c || c == b'.') (taken t c takes)
      (Stars-matchstar re c text f s)
  where
    taken : (t c : ℕ) → Takes c t → (t == c || c == b'.') ≡ true
    taken t c h = ground (arith, h)

    either :
        {z : Bool} (a b : Bool)
        → b ≡ true
        → z ≡ true
        → (if a then true else (if b then z else false)) ≡ true
    either true b h k = refl
    either false b h k = if_true _ _ h ∙ k

Matches-matchhere : (re text : List ℕ) → Matches re text → matchhere re text ≡ true
unfolding matchhere match_char
Matches-matchhere [] text at_end = refl
Matches-matchhere (r ∷ []) text dollar = refl
Matches-matchhere (r ∷ []) (t ∷ text) (last plain takes) =
    if_false _ _ (differ r b'$' plain) ∙ if_true _ _ (passes_test r t takes)
Matches-matchhere (r ∷ s ∷ re) text (star stars) =
    Stars-matchstar re r text (Matches-matchhere re) stars
Matches-matchhere (r ∷ s ∷ re) (t ∷ text) (one plain takes m) =
    if_false _ _ (differ s b'*' plain)
    ∙ (if_true _ _ (passes_test r t takes) ∙ Matches-matchhere (s ∷ re) text m)

-- The pattern matches somewhere in the text.
pub data Occurs (re : List ℕ) : List ℕ → Type 0 where
  here : {text : List ℕ} → Matches re text → Occurs re text
  later : {t : ℕ} {text : List ℕ} → Occurs re text → Occurs re (t ∷ text)

match_loop-Occurs : (re text : List ℕ) → (match_loop re text ≡ true) ↔ Occurs re text
unfolding match_loop
match_loop-Occurs re text = (sound text, complete text)
  where
    sound : (text : List ℕ) → match_loop re text ≡ true → Occurs re text
    sound [] h = here (matchhere-Matches re [] h)
    sound (t ∷ text) h = elim (Bool-cases (matchhere re (t ∷ text))) [
      | inl found ↦ here (matchhere-Matches re (t ∷ text) found)
      | inr not_here ↦ later (sound text (sym (if_false _ _ not_here) ∙ h))
    ]

    complete : (text : List ℕ) → Occurs re text → match_loop re text ≡ true
    complete [] (here m) = Matches-matchhere re [] m
    complete (t ∷ text) (here m) = if_true _ _ (Matches-matchhere re (t ∷ text) m)
    complete (t ∷ text) (later o) = either (matchhere re (t ∷ text)) (complete text o)
      where
        either : {z : Bool} (a : Bool) → z ≡ true → (if a then true else z) ≡ true
        either true h = refl
        either false h = h

-- What a line has to satisfy: a pattern after `^` matches at its start, another one somewhere in it.
abbrev pub Selects : List ℕ → List ℕ → Type 0
Selects [] text = Occurs [] text
Selects (r ∷ re) text = ((r ≡ b'^') × Matches re text) ⊎ ((r ≢ b'^') × Occurs (r ∷ re) text)

-- For every pattern and line, `match` returns 1 just if the line satisfies the pattern.
pub match_text-Selects : (re text : List ℕ) → (match_text re text ≡ true) ↔ Selects re text
unfolding match_text
match_text-Selects [] text = match_loop-Occurs [] text
match_text-Selects (r ∷ re) text = elim (Bool-cases (r == b'^')) [
  | inl e ↦ (
    λ h. inl ((==_iff r b'^').0 e, matchhere-Matches re text (sym (if_true _ _ e) ∙ h)),
    λ s. elim s [
      | inl (caret, m) ↦ if_true _ _ e ∙ Matches-matchhere re text m
      | inr (plain, o) ↦ absurd (plain ((==_iff r b'^').0 e))
    ],
  )
  | inr e ↦ (
    λ h. inr (differs r b'^' e, (match_loop-Occurs (r ∷ re) text).0 (sym (if_false _ _ e) ∙ h)),
    λ s. elim s [
      | inl (caret, m) ↦ absurd (differs r b'^' e caret)
      | inr (plain, o) ↦ if_false _ _ e ∙ (match_loop-Occurs (r ∷ re) text).1 o
    ],
  )
]
