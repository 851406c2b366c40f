-- ===== src/Format/Steps.antt =====
-- `printf` on a format, one character or conversion at a time: rules from which what a concrete
-- format prints is read off.
use mathlib.Core.Option
use kernel_panic_logger.Prelude.{
  ℕ, ◌≡◌, refl, List, [], ◌∷◌, ◌++◌, Bool, true, false, some, if◌then◌else◌, ◌==◌, arith, ◌%◌, ◌^◌,
  Bool-cases, inl, inr, ◌<◌, ◌∙◌, lt→ltb,
}
use kernel_panic_logger.Format.{Arg, word, text, next_word, next_text, peek, skip, or_null}
use kernel_panic_logger.Format.Printf.{
  printint, printf_loop, printf_codes, printf_branch, printf_convert,
}
use kernel_panic_logger.Digits.{is_negative64}
use kernel_panic_logger.Format.Total.{
  decimal, decimal_lem, hexadecimal, hexadecimal_lem, signed_decimal, signed_decimal_lem,
}

-- `fmt` with arguments that begin with `args` prints `cs`: the format language as rules.
pub data Prints : List ℕ → List Arg → List ℕ → Type 0 where
  end : {args : List Arg} → Prints [] args []
  char :
      {fmt : List ℕ} {args : List Arg} {cs : List ℕ} {c : ℕ}
      → (c == b'%') ≡ false
      → Prints fmt args cs
      → Prints (c ∷ fmt) args (c ∷ cs)
  d :
      {fmt : List ℕ} {args : List Arg} {cs : List ℕ} {w : ℕ}
      → Prints fmt args cs
      → Prints (b'%' ∷ b'd' ∷ fmt) (word w ∷ args) (decimal w ++ cs)
  s :
      {fmt : List ℕ} {args : List Arg} {cs t : List ℕ}
      → Prints fmt args cs
      → Prints (b'%' ∷ b's' ∷ fmt) (text (some t) ∷ args) (t ++ cs)
  x :
      {fmt : List ℕ} {args : List Arg} {cs : List ℕ} {w : ℕ}
      → Prints fmt args cs
      → Prints (b'%' ∷ b'x' ∷ fmt) (word w ∷ args) (hexadecimal (w % 2 ^ 32) ++ cs)
  lx :
      {fmt : List ℕ} {args : List Arg} {cs : List ℕ} {w : ℕ}
      → Prints fmt args cs
      → Prints (b'%' ∷ b'l' ∷ b'x' ∷ fmt) (word w ∷ args) (hexadecimal (w % 2 ^ 64) ++ cs)
  ld :
      {fmt : List ℕ} {args : List Arg} {cs : List ℕ} {w : ℕ}
      → Prints fmt args cs
      → Prints (b'%' ∷ b'l' ∷ b'd' ∷ fmt) (word w ∷ args) (signed_decimal (w % 2 ^ 64) ++ cs)
  lu :
      {fmt : List ℕ} {args : List Arg} {cs : List ℕ} {w : ℕ}
      → w % 2 ^ 64 < 2 ^ 63
      → Prints fmt args cs
      → Prints (b'%' ∷ b'l' ∷ b'u' ∷ fmt) (word w ∷ args) (signed_decimal (w % 2 ^ 64) ++ cs)

-- A number below 2 ^ 63 is printed alike with and without a sign.
unsigned_decimal_lem : (x : ℕ) → x < 2 ^ 63 → printint x 10 false ≡ some (signed_decimal x)
unsigned_decimal_lem n h = same ∙ signed_decimal_lem n (omega arith)
  where
    same : printint n 10 false ≡ printint n 10 true
    same = unfold printint is_negative64 in rw (lt→ltb n (2 ^ 63) h) refl

-- `printf` prints what the rules say.
pub Prints-printf_loop :
    {fmt : List ℕ} {args : List Arg} {cs : List ℕ}
    → Prints fmt args cs
    → printf_loop fmt 0 args ≡ some cs
unfolding printf_loop printf_branch printf_convert peek skip next_word next_text or_null Option.bind
Prints-printf_loop end = refl
Prints-printf_loop (char plain p) = rw (plain, Prints-printf_loop p) refl
Prints-printf_loop (d {w} p) = rw (decimal_lem w, Prints-printf_loop p) refl
Prints-printf_loop (s p) = rw (Prints-printf_loop p) refl
Prints-printf_loop (x {w} p) =
    rw (hexadecimal_lem (w % 2 ^ 32) (omega arith), Prints-printf_loop p) refl
Prints-printf_loop (lx {w} p) =
    rw (hexadecimal_lem (w % 2 ^ 64) (omega arith), Prints-printf_loop p) refl
Prints-printf_loop (ld {w} p) =
    rw (signed_decimal_lem (w % 2 ^ 64) (omega arith), Prints-printf_loop p) refl
Prints-printf_loop (lu {w} small p) =
    rw (unsigned_decimal_lem (w % 2 ^ 64) small, Prints-printf_loop p) refl

-- A text with no `%` is printed as it is.
abbrev pub has_no_percent : List ℕ → Bool
has_no_percent [] = true
has_no_percent (c ∷ t) = if c == b'%' then false else has_no_percent t

pub Prints-text : (t : List ℕ) → has_no_percent t ≡ true → Prints t [] t
Prints-text [] h = end
Prints-text (c ∷ t) h = elim (Bool-cases (c == b'%')) [
  | inl percent_sign ↦ absurd (ground arith)
  | inr plain ↦ char plain (Prints-text t (rw plain at h))
]

pub Prints-printf_codes :
    {fmt : List ℕ} {args : List Arg} {cs : List ℕ}
    → Prints fmt args cs
    → printf_codes fmt args ≡ some cs
unfolding printf_codes
Prints-printf_codes p = Prints-printf_loop p

-- A text with no `%` in front of a format.
pub lit :
    (t : List ℕ) {fmt : List ℕ} {args : List Arg} {cs : List ℕ}
    → has_no_percent t ≡ true
    → Prints fmt args cs
    → Prints (t ++ fmt) args (t ++ cs)
lit [] h p = p
lit (c ∷ t) h p = elim (Bool-cases (c == b'%')) [
  | inl percent_sign ↦ absurd (ground arith)
  | inr plain ↦ char plain (lit t (rw plain at h) p)
]
