-- ===== src/Shell/Simple.antt =====
-- Simple commands and redirections: the loops of the parser end.
use kernel_panic_logger.Prelude.{
  ℕ, zero, suc, ◌≡◌, refl, ◌<◌, ◌≤◌, List, [], ◌∷◌, ◌++◌, String, Bool, true, false, inl, inr,
  if◌then◌else◌, ◌==◌, leb, arith, length,
}
use kernel_panic_logger.Shell.{
  Scanner, max_args, gettoken, peek, Redirection, Command, execcmd, redircmd, pipecmd, listcmd,
  backcmd, Parsed, parsed, fails, starved, then_parse, parseredirs, with_redirections,
  redirections_at, exec_loop,
}
use kernel_panic_logger.Shell.Scan.{gettoken_moves, gettoken_keeps, peek_moves, peeked_moves}

-- Every list of arguments leaves a place in its array of MAXARGS for the null pointer.
abbrev pub Fits : Command → Type 0
Fits (execcmd args) = length args < max_args
Fits (redircmd c r) = Fits c
Fits (pipecmd c d) = Fits c × Fits d
Fits (listcmd c d) = Fits c × Fits d
Fits (backcmd c) = Fits c

-- A parse that ends: with a result that has the property and at most n characters left, or in a call of
-- panic.
pub data Ends {A : Type 0} (P : A → Type 0) (n : ℕ) : Parsed A → Type 0 where
  good : {a : A} {s : Scanner} → P a → length s.rest ≤ n → Ends P n (parsed a s)
  bad : {w : String} → Ends P n (fails w)

abbrev AnyRedirections : List Redirection → Type 0
AnyRedirections rs = Unit

pub weaken :
    {A : Type 0} {P : A → Type 0} {m n : ℕ} {r : Parsed A} → m ≤ n → Ends P m r → Ends P n r
weaken le (good p h) = good p (omega (arith, le, h))
weaken le bad = bad

pub then-Ends :
    {A B : Type 0} {P : A → Type 0} {Q : B → Type 0} {m n : ℕ} (r : Parsed A)
    (f : A → Scanner → Parsed B)
    → Ends P m r
    → ((a : A) (s : Scanner) → P a → length s.rest ≤ m → Ends Q n (f a s))
    → Ends Q n (then_parse r f)
unfolding then_parse
then-Ends (parsed a s) f (good p h) g = g a s p h
then-Ends (fails w) f bad g = bad
then-Ends starved f e g = elim e [ ]

pub choice-Ends :
    {A : Type 0} {P : A → Type 0} {n : ℕ} (b : Bool) {x y : Parsed A}
    → (b ≡ true → Ends P n x)
    → (b ≡ false → Ends P n y)
    → Ends P n (if b then x else y)
choice-Ends true x y = x refl
choice-Ends false x y = y refl

-- The second token of a redirection.
second_moves :
    (s : Scanner) (n : ℕ)
    → length s.rest ≤ n
    → ((gettoken s).ret == b'a') ≡ true
    → suc (length (gettoken s).next.rest) ≤ n
second_moves s n h is_word = elim (gettoken_moves s) [
  | inl nothing ↦ absurd (clash (gettoken s).ret nothing is_word)
  | inr moved ↦ omega (arith, moved, h)
]
  where
    clash : (c : ℕ) → c ≡ 0 → (c == b'a') ≡ true → ⊥
    clash c e h = ground (arith, e, h)

parseredirs-Ends :
    (fuel : ℕ) (rs : List Redirection) (s : Scanner)
    → length s.rest < fuel
    → Ends AnyRedirections (length s.rest) (parseredirs fuel rs s)
unfolding parseredirs
parseredirs-Ends zero rs s h = absurd (omega (arith, h))
parseredirs-Ends (suc fuel) rs s h =
    let s1 = (peek s (b'<' ∷ b'>' ∷ [])).1 in
    let t = gettoken s1 in
    choice-Ends (peek s (b'<' ∷ b'>' ∷ [])).0
      (λ more.
        let moved = peeked_moves s (b'<' ∷ b'>' ∷ []) more in
        choice-Ends ((gettoken t.next).ret == b'a')
          (λ is_word.
            let again = second_moves t.next (length t.next.rest) (omega arith) is_word in
            weaken (omega (arith, moved, again))
              (parseredirs-Ends fuel _ (gettoken t.next).next (omega (arith, h, moved, again))))
          (λ other. bad))
      (λ done. good tt (peek_moves s (b'<' ∷ b'>' ∷ [])))

pub redirections-Ends :
    (rs : List Redirection) (s : Scanner)
    → Ends AnyRedirections (length s.rest) (redirections_at rs s)
redirections-Ends rs s = parseredirs-Ends (suc (length s.rest)) rs s (omega arith)

pub with_redirections-Fits :
    (c : Command) (rs : List Redirection) → Fits c → Fits (with_redirections c rs)
with_redirections-Fits c [] h = h
with_redirections-Fits c (r ∷ rs) h = with_redirections-Fits (redircmd c r) rs h

pub exec_loop-Ends :
    (fuel : ℕ) (args : List (ℕ × ℕ)) (rs : List Redirection) (s : Scanner)
    → length s.rest < fuel
    → length args < max_args
    → Ends Fits (length s.rest) (exec_loop fuel args rs s)
unfolding exec_loop
exec_loop-Ends zero args rs s h fits = absurd (omega (arith, h))
exec_loop-Ends (suc fuel) args rs s h fits =
    let toks = b'|' ∷ b')' ∷ b'&' ∷ b';' ∷ [] in
    let s1 = (peek s toks).1 in
    let t = gettoken s1 in
    let ready = with_redirections-Fits (execcmd args) rs fits in
    choice-Ends (peek s toks).0 (λ ends. good ready (peek_moves s toks))
      (λ goes_on.
        choice-Ends (t.ret == 0)
          (λ at_end. good ready (omega (arith, gettoken_keeps s1, peek_moves s toks)))
          (λ some_token.
            choice-Ends (t.ret == b'a')
              (λ is_word.
                let moved = second_moves s1 (length s.rest) (peek_moves s toks) is_word in
                choice-Ends (leb max_args (length (args ++ ((t.q, t.eq) ∷ [])))) (λ too_many. bad)
                  (λ room.
                    then-Ends (redirections_at rs t.next) _ (redirections-Ends rs t.next)
                      (λ rs' s' p le. weaken (omega (arith, moved, le)) (
                        exec_loop-Ends fuel (args ++ ((t.q, t.eq) ∷ [])) rs' s'
                          (omega (arith, h, moved, le))
                          (fewer (length (args ++ ((t.q, t.eq) ∷ []))) room)))))
              (λ other. bad)))
  where
    fewer : (n : ℕ) → leb max_args n ≡ false → n < max_args
    fewer n h = ground (arith, h)
