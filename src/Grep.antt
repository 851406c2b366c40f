-- ===== src/Grep.antt =====
-- The matcher of xv6-riscv/user/grep.c. A pattern and a text are the lists of their bytes up to the
-- NUL, so that `re[0] == '\0'` is the empty list.
pub mod Language
use kernel_panic_logger.Prelude.{
  ℕ, zero, suc, ◌+◌, List, [], ◌∷◌, Bool, true, false, not, ◌&&◌, ◌||◌, if◌then◌else◌, ◌==◌, length,
}

-- `matchstar`, with `matchhere` of the rest of the pattern as an argument.
unfoldable pub matchstar : (List ℕ → Bool) → ℕ → List ℕ → Bool
matchstar here c [] = here []
matchstar here c (t ∷ text) =
    if here (t ∷ text) then true else (if t == c || c == b'.' then matchstar here c text else false)

-- `*text!='\0' && (re[0]=='.' || re[0]==*text)`, and the call that follows.
unfoldable pub match_char : (List ℕ → Bool) → ℕ → List ℕ → Bool
match_char here r [] = false
match_char here r (t ∷ text) = if r == b'.' || r == t then here text else false

abbrev pub is_nil : List ℕ → Bool
is_nil [] = true
is_nil (t ∷ text) = false

unfoldable pub matchhere : List ℕ → List ℕ → Bool
unfolding matchstar match_char
matchhere [] text = true
matchhere (r ∷ []) text = if r == b'$' then is_nil text else match_char (matchhere []) r text
matchhere (r ∷ s ∷ re) text =
    let star = matchstar (matchhere re) r text in
    let one = match_char (matchhere (s ∷ re)) r text in if s == b'*' then star else one

-- The `do` loop of `match`.
unfoldable pub match_loop : List ℕ → List ℕ → Bool
unfolding matchhere
match_loop re [] = matchhere re []
match_loop re (t ∷ text) = if matchhere re (t ∷ text) then true else match_loop re text

-- `match`, which is a reserved word here.
unfoldable pub match_text : List ℕ → List ℕ → Bool
unfolding match_loop matchhere
match_text [] text = match_loop [] text
match_text (r ∷ re) text = if r == b'^' then matchhere re text else match_loop (r ∷ re) text
