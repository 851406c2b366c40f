-- ===== src/Format/Total.antt =====
-- `printf` and `vsnprintf` convert every argument list that fits the format, and the characters of
-- a number have its value.
use mathlib.Core.Option
use mathlib.Core.List.{reverse-append}
use kernel_panic_logger.Prelude.{
  ℕ, zero, suc, ◌%◌, ◌^◌, ◌<◌, ◌≤◌, ◌≡◌, refl, List, [], ◌∷◌, ◌++◌, Option, none, some, Bool, true,
  false, if◌then◌else◌, ◌==◌, lt→ltb, length, arith, Bool-cases, inl, inr, reverse,
}
use kernel_panic_logger.Digits.{negate64, is_negative64, sign_extend32}
use kernel_panic_logger.Digits.Bounds.{value, IsBase}
use kernel_panic_logger.Format.{
  Arg, word, text, Conv, int32, int64, uint32, uint64, hex32, hex64, pointer, string, char, percent,
  stop, unknown, next_word, next_text, peek, skip, or_null,
}
use kernel_panic_logger.Format.Printf.{
  push_sign, printint, printptr, printf_branch, printf_convert, printf_loop, printf_codes,
}
use kernel_panic_logger.Format.Agree.{unsigned, signed_digits, sign_extend32-lt}

-- The arguments that a conversion takes: a word, a pointer to a string, or none.
unfoldable pub takes : Conv → List Arg → Option (List Arg)
takes string args = Option.map (λ tr. tr.1) (next_text args)
takes percent args = some args
takes stop args = some args
takes unknown args = some args
takes _ args = Option.map (λ wr. wr.1) (next_word args)

-- The arguments are there, and of the right kind, for every conversion of the format.
unfoldable pub fits : List ℕ → ℕ → List Arg → Bool
fits [] k args = true
fits (c ∷ fmt) (suc k) args = fits fmt k args
fits (c ∷ fmt) zero args =
    let (conv, taken) = printf_branch (peek fmt) (peek (skip fmt)) (peek (skip (skip fmt))) in
    let plain = fits fmt 0 args in
    let converted : Bool = elim (takes conv args) [
      | none ↦ false
      | some rest ↦ fits fmt taken rest
    ] in
    if c == b'%' then converted else plain

-- `printint` of a 64-bit number in base 10 or 16, without a sign: at least one character, and
-- together they have the number's value. `buf[20]` does not overflow.
pub printint_unsigned :
    (base x : ℕ)
    → IsBase base
    → 10 ≤ base
    → x < 2 ^ 64
    → (ds : List ℕ) × (printint x base false ≡ some (reverse ds))
      × (value base ds ≡ x)
      × (0 < length ds)
unfolding printint push_sign Option.bind
printint_unsigned base x b t h =
    let u = unsigned base x b t h in (u.ds, rw u.in_20, u.value_eq, u.nonempty)

-- `printint` of a 64-bit pattern in decimal with a sign: a `-` exactly if the top bit is set, and
-- then digits with the value of the number without its sign. `buf[20]` does not overflow.
pub printint_signed :
    (x : ℕ)
    → x < 2 ^ 64
    → (ds : List ℕ) × (printint x 10 true
        ≡ some (if is_negative64 x then b'-' ∷ reverse ds else reverse ds))
      × (value 10 ds ≡ (if is_negative64 x then negate64 x else x))
unfolding printint push_sign Option.bind
printint_signed x h = elim (Bool-cases (is_negative64 x)) [
  | inl neg ↦
      let (ds, e, _, v, fit) = signed_digits x h neg in
      (ds, rw (neg, e, lt→ltb (length ds) 20 (omega arith), reverse-append) refl, rw neg v)
  | inr non ↦
      let u = unsigned 10 x (omega arith) (omega arith) h in
      (u.ds, rw (non, u.in_20) refl, rw non u.value_eq)
]

-- A conversion succeeds as soon as its argument is there, and takes just that.
abbrev Succeeds : Conv → ℕ → List Arg → List Arg → Type 0
Succeeds conv c0 args rest = (cs : List ℕ) × (printf_convert conv c0 args ≡ some (cs, rest))

word_succeeds :
    (args rest : List Arg) (g : ℕ → Option (List ℕ))
    → ((w : ℕ) → (cs : List ℕ) × (g w ≡ some cs))
    → Option.map (λ wr. wr.1) (next_word args) ≡ some rest
    → (cs : List ℕ) × (Option.bind {B = List ℕ × List Arg}
          (next_word args)
          (λ wr. Option.map (λ cs. (cs, wr.1)) (g wr.0))
        ≡ some (cs, rest))
unfolding next_word Option.bind
word_succeeds [] rest g h e = cc
word_succeeds (word w ∷ args) rest g h e = let (cs, q) = h w in (cs, rw q (ground arith))
word_succeeds (text t ∷ args) rest g h e = cc

unsigned_succeeds :
    (base x : ℕ)
    → IsBase base
    → 10 ≤ base
    → x < 2 ^ 64
    → (cs : List ℕ) × (printint x base false ≡ some cs)
unsigned_succeeds base x b t h =
    let (ds, e, _, _) = printint_unsigned base x b t h in (reverse ds, e)

pub signed_succeeds : (x : ℕ) → x < 2 ^ 64 → (cs : List ℕ) × (printint x 10 true ≡ some cs)
signed_succeeds x h =
    let (ds, e, _) = printint_signed x h in
    (if is_negative64 x then b'-' ∷ reverse ds else reverse ds, e)

string_succeeds :
    (args rest : List Arg)
    → Option.map (λ tr. tr.1) (next_text args) ≡ some rest
    → (cs : List ℕ) × (Option.map {B = List ℕ × List Arg}
          (λ tr. (or_null tr.0, tr.1))
          (next_text args)
        ≡ some (cs, rest))
unfolding next_text
string_succeeds [] rest e = cc
string_succeeds (word w ∷ args) rest e = cc
string_succeeds (text t ∷ args) rest e = (or_null t, ground arith)

conversion_total :
    (conv : Conv) (c0 : ℕ) (args rest : List Arg)
    → takes conv args ≡ some rest
    → Succeeds conv c0 args rest
unfolding printf_convert takes
conversion_total int32 c0 args rest e =
    word_succeeds args rest _ (λ w. signed_succeeds (sign_extend32 w) (sign_extend32-lt w)) e
conversion_total int64 c0 args rest e =
    word_succeeds args rest _ (λ w. signed_succeeds (w % 2 ^ 64) (omega arith)) e
conversion_total uint32 c0 args rest e =
    word_succeeds args rest _
      (λ w. unsigned_succeeds 10 (w % 2 ^ 32) (omega arith) (omega arith) (omega arith)) e
conversion_total uint64 c0 args rest e =
    word_succeeds args rest _
      (λ w. unsigned_succeeds 10 (w % 2 ^ 64) (omega arith) (omega arith) (omega arith)) e
conversion_total hex32 c0 args rest e =
    word_succeeds args rest _
      (λ w. unsigned_succeeds 16 (w % 2 ^ 32) (omega arith) (omega arith) (omega arith)) e
conversion_total hex64 c0 args rest e =
    word_succeeds args rest _
      (λ w. unsigned_succeeds 16 (w % 2 ^ 64) (omega arith) (omega arith) (omega arith)) e
conversion_total pointer c0 args rest e =
    word_succeeds args rest (λ w. some (printptr (w % 2 ^ 64))) (λ w. (printptr (w % 2 ^ 64), refl))
      e
conversion_total string c0 args rest e = string_succeeds args rest e
conversion_total char c0 args rest e =
    word_succeeds args rest (λ w. some (w % 2 ^ 32 ∷ [])) (λ w. (w % 2 ^ 32 ∷ [], refl)) e
conversion_total percent c0 args rest e = (b'%' ∷ [], ground arith)
conversion_total stop c0 args rest e = ([], ground arith)
conversion_total unknown c0 args rest e = (b'%' ∷ c0 ∷ [], ground arith)

abbrev Prints : List ℕ → ℕ → List Arg → Type 0
Prints fmt k args = (cs : List ℕ) × (printf_loop fmt k args ≡ some cs)

sequel_total :
    (fmt : List ℕ) (c0 taken : ℕ) (conv : Conv) (args : List Arg) (o : Option (List Arg))
    → takes conv args ≡ o
    → (elim o [ none ↦ false | some rest ↦ fits fmt taken rest ]) ≡ true
    → ((rest : List Arg) → fits fmt taken rest ≡ true → Prints fmt taken rest)
    → (cs : List ℕ) × (Option.bind
          (printf_convert conv c0 args)
          (λ ca. Option.map (λ cs. ca.0 ++ cs) (printf_loop fmt taken ca.1))
        ≡ some cs)
unfolding Option.bind
sequel_total fmt c0 taken conv args none e h ih = cc
sequel_total fmt c0 taken conv args (some rest) e h ih =
    let (cs, p) = conversion_total conv c0 args rest e in
    let (ds, q) = ih rest h in (cs ++ ds, rw (p, q) refl)

loop_total : (fmt : List ℕ) (k : ℕ) (args : List Arg) → fits fmt k args ≡ true → Prints fmt k args
unfolding printf_loop fits
loop_total [] k args h = ([], refl)
loop_total (c ∷ fmt) (suc k) args h = loop_total fmt k args h
loop_total (c ∷ fmt) zero args h = elim (Bool-cases (c == b'%')) [
  | inl percent_sign ↦
      let (cs, e) =
        sequel_total fmt (peek fmt) taken conv args (takes conv args) refl (rw percent_sign at h)
          (loop_total fmt taken) in
      (cs, rw percent_sign e)
  | inr plain ↦ let (cs, e) = loop_total fmt 0 args (rw plain at h) in (c ∷ cs, rw (plain, e) refl)
]
  where
    conv : Conv
    conv = (printf_branch (peek fmt) (peek (skip fmt)) (peek (skip (skip fmt)))).0

    taken : ℕ
    taken = (printf_branch (peek fmt) (peek (skip fmt)) (peek (skip (skip fmt)))).1

-- Where the arguments fit the format, `printf` prints: no argument is missing or of the wrong
-- kind, and no digit array overflows, whatever the numbers are.
pub printf_total :
    (fmt : List ℕ) (args : List Arg)
    → fits fmt 0 args ≡ true
    → (cs : List ℕ) × (printf_codes fmt args ≡ some cs)
unfolding printf_codes
printf_total fmt args h = loop_total fmt 0 args h

abbrev or_nothing : Option (List ℕ) → List ℕ
or_nothing none = []
or_nothing (some cs) = cs

-- What `%ld` prints of a 64-bit number, and `%x`, `%lx` of one that is cut to its width.
pub signed_decimal : ℕ → List ℕ
signed_decimal x = or_nothing (printint x 10 true)

pub signed_decimal_lem : (x : ℕ) → x < 2 ^ 64 → printint x 10 true ≡ some (signed_decimal x)
unfolding signed_decimal
signed_decimal_lem x h = let (cs, e) = signed_succeeds x h in rw e refl

pub hexadecimal : ℕ → List ℕ
hexadecimal x = or_nothing (printint x 16 false)

pub hexadecimal_lem : (x : ℕ) → x < 2 ^ 64 → printint x 16 false ≡ some (hexadecimal x)
unfolding hexadecimal
hexadecimal_lem x h =
    let (cs, e) = unsigned_succeeds 16 x (omega arith) (omega arith) h in rw e refl

-- What `%d` prints of a 32-bit argument.
abbrev pub decimal : ℕ → List ℕ
decimal w = signed_decimal (sign_extend32 w)

pub decimal_lem : (w : ℕ) → printint (sign_extend32 w) 10 true ≡ some (decimal w)
decimal_lem w = signed_decimal_lem (sign_extend32 w) (sign_extend32-lt w)
