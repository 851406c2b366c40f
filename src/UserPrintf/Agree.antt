-- ===== src/UserPrintf/Agree.antt =====
-- The user's `vprintf` against the kernel's `printf`: the same bytes, but that the user's hexadecimal
-- digits are capital letters.
use mathlib.Core.Option
use mathlib.Core.List.{map-append}
use kernel_panic_logger.Prelude.{
  ℕ, zero, suc, ◌%◌, ◌^◌, ◌≡◌, refl, ◌∙◌, ap, sym, List, [], ◌∷◌, ◌++◌, Option, none, some, Bool,
  true, false, if◌then◌else◌, ◌==◌, map, arith, Bool-cases, inl, inr,
}
use kernel_panic_logger.Format.{Arg, Conv, peek, skip}
use kernel_panic_logger.Format.Printf.{printf_branch, printf_convert, printf_loop, printf_codes}
use kernel_panic_logger.UserPrintf.{vprintf_branch, vprintf_convert, vprintf_loop, vprintf}
use kernel_panic_logger.UserPrintf.Numbers.{
  fold_case, fold_case-low, SameText, folded, converts-SameText,
}

-- The chains of tests take the same branch on a character that is there.
branches_agree :
    (c0 c1 c2 : ℕ)
    → (c0 == 0) ≡ false
    → printf_branch c0 c1 c2 ≡ ((vprintf_branch c0 c1 c2).0, suc (vprintf_branch c0 c1 c2).1)
unfolding vprintf_branch printf_branch
branches_agree c0 c1 c2 h = ground (arith, h)

-- A C string has no NUL.
abbrev pub has_no_nul : List ℕ → Bool
has_no_nul [] = true
has_no_nul (c ∷ cs) = if c == 0 then false else has_no_nul cs

has_no_nul-tail : (c : ℕ) (fmt : List ℕ) → has_no_nul (c ∷ fmt) ≡ true → has_no_nul fmt ≡ true
has_no_nul-tail c fmt h = ground (arith, h)

has_no_nul-head : (c : ℕ) (fmt : List ℕ) → has_no_nul (c ∷ fmt) ≡ true → (c == 0) ≡ false
has_no_nul-head c fmt h = ground (arith, h)

-- A conversion and what follows it, less the case of letters.
pull :
    (r : Option (List ℕ × List Arg)) (f : List Arg → Option (List ℕ))
    → Option.map (map fold_case) (Option.bind r (λ ca. Option.map (λ cs. ca.0 ++ cs) (f ca.1)))
      ≡ Option.bind
          (folded r)
          (λ ca. Option.map (λ cs. ca.0 ++ cs) (Option.map (map fold_case) (f ca.1)))
unfolding Option.bind
pull none f = refl
pull (some (xs, args)) f = appended (f args)
  where
    appended :
        (o : Option (List ℕ))
        → Option.map (map fold_case) (Option.map (λ cs. xs ++ cs) o)
          ≡ Option.map (λ cs. map fold_case xs ++ cs) (Option.map (map fold_case) o)
    appended none = refl
    appended (some ys) = ap some (map-append fold_case xs ys)

then-SameText :
    (r r' : Option (List ℕ × List Arg)) (f g : List Arg → Option (List ℕ))
    → folded r ≡ folded r'
    → ((args : List Arg) → SameText (f args) (g args))
    → SameText
        (Option.bind r (λ ca. Option.map (λ cs. ca.0 ++ cs) (f ca.1)))
        (Option.bind r' (λ ca. Option.map (λ cs. ca.0 ++ cs) (g ca.1)))
then-SameText r r' f g e h =
    pull r f
    ∙ ((λ i. Option.bind (e i) (λ ca. Option.map (λ cs. ca.0 ++ cs) (h ca.1 i))) ∙ sym (pull r' g))

loops-SameText :
    (fmt : List ℕ) (k : ℕ) (args : List Arg)
    → has_no_nul fmt ≡ true
    → SameText (vprintf_loop fmt k false args) (printf_loop fmt k args)
unfolding vprintf_loop printf_loop peek skip
loops-SameText [] k args h = refl
loops-SameText (c ∷ fmt) (suc k) args h = loops-SameText fmt k args (has_no_nul-tail c fmt h)
loops-SameText (c ∷ []) zero args h = elim (Bool-cases (c == b'%')) [
  | inl percent_sign ↦ rw percent_sign (unfold printf_branch printf_convert Option.bind in refl)
  | inr plain ↦ rw plain (λ i. some (fold_case-low c i ∷ []))
]
loops-SameText (c ∷ c' ∷ fmt) zero args h = elim (Bool-cases (c == b'%')) [
  | inl percent_sign ↦
      rw
        (
          percent_sign,
          branches_agree c' (peek fmt) (peek (skip fmt))
              (has_no_nul-head c' fmt (has_no_nul-tail c (c' ∷ fmt) h)),
        )
        (then-SameText (vprintf_convert conv c' args) (printf_convert conv c' args)
          (vprintf_loop fmt more false) (printf_loop fmt more) (converts-SameText conv c' args)
          (λ rest.
            loops-SameText fmt more rest (has_no_nul-tail c' fmt (has_no_nul-tail c (c' ∷ fmt) h))))
  | inr plain ↦ rw plain (
      one_more (vprintf_loop (c' ∷ fmt) 0 false args) (printf_loop (c' ∷ fmt) 0 args)
        (loops-SameText (c' ∷ fmt) 0 args (has_no_nul-tail c (c' ∷ fmt) h)))
]
  where
    conv : Conv
    conv = (vprintf_branch c' (peek fmt) (peek (skip fmt))).0

    more : ℕ
    more = (vprintf_branch c' (peek fmt) (peek (skip fmt))).1

    paired :
        (d : ℕ) (o : Option (List ℕ))
        → Option.map (map fold_case) (Option.map (λ cs. d ∷ cs) o)
          ≡ Option.map (λ cs. fold_case d ∷ cs) (Option.map (map fold_case) o)
    paired d none = refl
    paired d (some cs) = refl

    one_more :
        (a b : Option (List ℕ))
        → SameText a b
        → SameText (Option.map (λ cs. c % 2 ^ 8 ∷ cs) a) (Option.map (λ cs. c ∷ cs) b)
    one_more a b e =
        paired (c % 2 ^ 8) a
        ∙ ((λ i. Option.map (λ cs. fold_case-low c i ∷ cs) (e i)) ∙ sym (paired c b))

-- For every format without a NUL and every argument list, the user's `printf` writes the bytes that
-- the kernel's would print, up to the case of the letters A to F, and either both meet undefined
-- behaviour or neither does.
pub vprintf-printf :
    (fmt : List ℕ) (args : List Arg)
    → has_no_nul fmt ≡ true
    → SameText (vprintf fmt args) (printf_codes fmt args)
unfolding vprintf printf_codes
vprintf-printf fmt args h = loops-SameText fmt 0 args h
