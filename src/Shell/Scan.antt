-- ===== src/Shell/Scan.antt =====
-- How far the scanner moves.
use kernel_panic_logger.Prelude.{
  ℕ, suc, ◌+◌, ◌≡◌, refl, ◌≤◌, List, [], ◌∷◌, Bool, true, false, not, ◌&&◌, ◌⊎◌, inl, inr,
  if◌then◌else◌, ◌==◌, arith, length, Bool-cases,
}
use kernel_panic_logger.Shell.{
  Scanner, strchr, head_char, tail_chars, whitespace, symbols, skip_space, skip_word, token_at,
  token_end, gettoken, is_one_of, peek,
}

pub skip_space_moves : (pos : ℕ) (cs : List ℕ) → length (skip_space pos cs).rest ≤ length cs
unfolding skip_space
skip_space_moves pos [] = omega arith
skip_space_moves pos (c ∷ cs) = elim (Bool-cases (strchr whitespace c)) [
  | inl h ↦ rw h (omega (arith, skip_space_moves (pos + 1) cs))
  | inr h ↦ rw h (omega arith)
]

-- What stands at the start of a text without white space.
abbrev Starts : List ℕ → Type 0
Starts [] = Unit
Starts (c ∷ cs) = strchr whitespace c ≡ false

skip_space-Starts : (pos : ℕ) (cs : List ℕ) → Starts (skip_space pos cs).rest
unfolding skip_space
skip_space-Starts pos [] = tt
skip_space-Starts pos (c ∷ cs) = elim (Bool-cases (strchr whitespace c)) [
  | inl h ↦ rw h (skip_space-Starts (pos + 1) cs)
  | inr h ↦ rw h h
]

skip_word_moves : (pos : ℕ) (cs : List ℕ) → length (skip_word pos cs).rest ≤ length cs
unfolding skip_word
skip_word_moves pos [] = omega arith
skip_word_moves pos (c ∷ cs) =
    elim (Bool-cases (not (strchr whitespace c) && not (strchr symbols c))) [
      | inl h ↦ rw h (omega (arith, skip_word_moves (pos + 1) cs))
      | inr h ↦ rw h (omega arith)
    ]

-- A character that no case of the `switch` names is no symbol.
not_symbol :
    (c : ℕ)
    → strchr (b'|' ∷ b'(' ∷ b')' ∷ b';' ∷ b'&' ∷ b'<' ∷ []) c ≡ false
    → (c == b'>') ≡ false
    → strchr symbols c ≡ false
unfolding strchr
not_symbol c h g = ground (arith, h, g)

skip_word_first :
    (pos c : ℕ) (cs : List ℕ)
    → strchr whitespace c ≡ false
    → strchr symbols c ≡ false
    → length (skip_word pos (c ∷ cs)).rest ≤ length cs
unfolding skip_word
skip_word_first pos c cs h g = rw (h, g) (skip_word_moves (pos + 1) cs)

greater_moves :
    (b : Bool) (pos : ℕ) (cs : List ℕ)
    → length
        (if◌then◌else◌ {A = ℕ × Scanner} b
          (b'+', record { pos = pos + 2; rest = tail_chars cs })
          (b'>', record { pos = pos + 1; rest = cs })).1.rest
      ≤ length cs
greater_moves true pos [] = omega arith
greater_moves true pos (c ∷ cs) = omega arith
greater_moves false pos cs = omega arith

-- A token takes a character at least, unless it is the end of the text.
token_at_moves :
    (pos c : ℕ) (cs : List ℕ)
    → strchr whitespace c ≡ false
    → (c == 0) ≡ false
    → length (token_at pos c cs).1.rest ≤ length cs
unfolding token_at
token_at_moves pos c cs start some_char =
    rw some_char (elim (Bool-cases (strchr (b'|' ∷ b'(' ∷ b')' ∷ b';' ∷ b'&' ∷ b'<' ∷ []) c)) [
      | inl h ↦ rw h (omega arith)
      | inr h ↦ rw h (elim (Bool-cases (c == b'>')) [
        | inl g ↦ rw g (greater_moves (head_char cs == b'>') pos cs)
        | inr g ↦ rw g (skip_word_first pos c cs start (not_symbol c h g))
      ])
    ])

token_end_zero : (pos c : ℕ) (cs : List ℕ) → (c == 0) ≡ true → (token_end pos (c ∷ cs)).0 ≡ 0
unfolding token_end token_at
token_end_zero pos c cs h = rw h refl

-- From a text without white space at its start.
token_end_moves :
    (pos : ℕ) (cs : List ℕ)
    → Starts cs
    → ((token_end pos cs).0 ≡ 0) ⊎ (suc (length (token_end pos cs).1.rest) ≤ length cs)
unfolding token_end
token_end_moves pos [] h = inl refl
token_end_moves pos (c ∷ cs) h = elim (Bool-cases (c == 0)) [
  | inl e ↦ inl (token_end_zero pos c cs e)
  | inr e ↦ inr (omega (arith, token_at_moves pos c cs h e))
]

-- `gettoken` takes a character at least, or returns 0.
pub gettoken_moves :
    (s : Scanner) → ((gettoken s).ret ≡ 0) ⊎ (suc (length (gettoken s).next.rest) ≤ length s.rest)
unfolding gettoken
gettoken_moves s =
    let start = skip_space s.pos s.rest in
    elim (token_end_moves start.pos start.rest (skip_space-Starts s.pos s.rest)) [
      | inl h ↦ inl h
      | inr h ↦ inr (
          omega (
            arith,
            h,
            skip_space_moves s.pos s.rest,
            skip_space_moves (token_end start.pos start.rest).1.pos
                (token_end start.pos start.rest).1.rest,
          ))
    ]

pub peek_moves : (s : Scanner) (toks : List ℕ) → length (peek s toks).1.rest ≤ length s.rest
unfolding peek
peek_moves s toks = skip_space_moves s.pos s.rest

-- A character that `peek` has found is taken by `gettoken`.
found_moves :
    (pos : ℕ) (cs : List ℕ) (toks : List ℕ)
    → Starts cs
    → is_one_of toks cs ≡ true
    → suc (length (gettoken (record { pos = pos; rest = cs })).next.rest) ≤ length cs
unfolding gettoken is_one_of token_end skip_space
found_moves pos [] toks start h = absurd (cc)
found_moves pos (c ∷ cs) toks start h = rw start (
    omega (
      arith,
      token_at_moves pos c cs start (not_nul (c == 0) (strchr toks c) h),
      skip_space_moves (token_at pos c cs).1.pos (token_at pos c cs).1.rest,
    ))
  where
    not_nul : (a b : Bool) → (not a && b) ≡ true → a ≡ false
    not_nul a b h = ground (arith, h)

pub peeked_moves :
    (s : Scanner) (toks : List ℕ)
    → (peek s toks).0 ≡ true
    → suc (length (gettoken (peek s toks).1).next.rest) ≤ length s.rest
unfolding peek
peeked_moves s toks h =
    let start = skip_space s.pos s.rest in
    omega (
      arith,
      skip_space_moves s.pos s.rest,
      found_moves start.pos start.rest toks (skip_space-Starts s.pos s.rest) h,
    )

token_end_keeps : (pos : ℕ) (cs : List ℕ) → Starts cs → length (token_end pos cs).1.rest ≤ length cs
unfolding token_end
token_end_keeps pos [] h = omega arith
token_end_keeps pos (c ∷ cs) h = elim (Bool-cases (c == 0)) [
  | inl e ↦ unfold token_at in rw e (omega arith)
  | inr e ↦ omega (arith, token_at_moves pos c cs h e)
]

pub gettoken_keeps : (s : Scanner) → length (gettoken s).next.rest ≤ length s.rest
unfolding gettoken
gettoken_keeps s =
    let start = skip_space s.pos s.rest in
    let end = (token_end start.pos start.rest).1 in
    omega (
      arith,
      skip_space_moves s.pos s.rest,
      token_end_keeps start.pos start.rest (skip_space-Starts s.pos s.rest),
      skip_space_moves end.pos end.rest,
    )
