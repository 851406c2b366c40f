-- ===== src/Format/Agree.antt =====
-- `vsnprintf` stores what `printf` prints: the two formatters, written out separately in the
-- kernel, agree on every format and argument list.
use mathlib.Core.Option
use mathlib.Core.List.{reverse-append}
use kernel_panic_logger.Prelude.{
  ℕ, zero, suc, ◌-◌, ◌%◌, ◌^◌, ◌<◌, ◌≤◌, ◌≡◌, refl, ap, sym, List, [], ◌∷◌, ◌++◌, Option, none,
  some, true, false, ◌==◌, length, arith, Bool-cases, lt→ltb, inl, inr,
}
use native.Mathlib.Nat.{pow-le-pow_left}
use kernel_panic_logger.Digits.{digit_loop, negate64, is_negative64, sign_extend32}
use kernel_panic_logger.Digits.Bounds.{digit_loop_lem, digit_loop_more, IsBase, value}
use kernel_panic_logger.Format.{
  Arg, word, text, Conv, int32, int64, uint32, uint64, hex32, hex64, pointer, string, char, percent,
  stop, unknown, next_word, peek, skip,
}
use kernel_panic_logger.Format.Vsnprintf.{
  Dst, putc, puts, put_number, put_signed, vsnprintf_branch, vsnprintf_convert, vsnprintf_loop,
}
use kernel_panic_logger.Format.Printf.{
  push_sign, printint, printptr, printf_branch, printf_convert, printf_loop,
}

pub puts-append : (xs ys : List ℕ) (d : Dst) → puts (xs ++ ys) d ≡ puts ys (puts xs d)
unfolding puts
puts-append [] ys d = refl
puts-append (x ∷ xs) ys d = puts-append xs ys (putc x d)

-- What `printint` does with a number below 2 ^ 64 that it prints without a sign.
pub record Unsigned (base x : ℕ) : Type 0 where
  pub ds : List ℕ
  pub in_20 : digit_loop 20 base x ≡ some ds
  pub in_24 : digit_loop 24 base x ≡ some ds
  pub value_eq : value base ds ≡ x
  pub nonempty : 0 < length ds

pub unsigned : (base x : ℕ) → IsBase base → 10 ≤ base → x < 2 ^ 64 → Unsigned base x
unsigned base x b d h =
    let (ds, e, v, pos, _) =
      digit_loop_lem 20 base x b (omega (arith, pow-le-pow_left d 20)) (omega arith) in
    record {
      ds = ds;
      in_20 = e;
      in_24 = ground (arith, e, digit_loop_more 20 24 base x (omega arith));
      value_eq = v;
      nonempty = pos;
    }

-- `put_number` stores what `printint` prints of an unsigned number.
put_number-printint :
    (base x : ℕ) (d : Dst)
    → IsBase base
    → 10 ≤ base
    → x < 2 ^ 64
    → put_number base x d ≡ Option.map (λ cs. puts cs d) (printint x base false)
unfolding put_number printint push_sign Option.bind
put_number-printint base x d b t h = let u = unsigned base x b t h in rw (u.in_20, u.in_24)

-- A negative 64-bit number has at most 19 decimal digits, which leaves room for the sign.
pub signed_digits :
    (x : ℕ)
    → x < 2 ^ 64
    → is_negative64 x ≡ true
    → (ds : List ℕ) × (digit_loop 20 10 (negate64 x) ≡ some ds)
      × (digit_loop 24 10 (negate64 x) ≡ some ds)
      × (value 10 ds ≡ negate64 x)
      × (length ds ≤ 19)
unfolding negate64 is_negative64
signed_digits x h neg =
    let (ds, e, v, _, fits) =
      digit_loop_lem 19 10 ((2 ^ 64 - x) % 2 ^ 64) (omega arith) (ground arith) (omega arith) in
    (
      ds,
      ground (arith, e, digit_loop_more 19 20 10 ((2 ^ 64 - x) % 2 ^ 64) (omega arith)),
      ground (arith, e, digit_loop_more 19 24 10 ((2 ^ 64 - x) % 2 ^ 64) (omega arith)),
      v,
      fits,
    )

put_signed-printint :
    (x : ℕ) (d : Dst)
    → x < 2 ^ 64
    → put_signed x d ≡ Option.map (λ cs. puts cs d) (printint x 10 true)
unfolding put_signed put_number printint push_sign puts Option.bind
put_signed-printint x d h = elim (Bool-cases (is_negative64 x)) [
  | inl neg ↦
      let (ds, e, e', _, fits) = signed_digits x h neg in
      rw (neg, e, e', lt→ltb (length ds) 20 (omega arith), reverse-append) refl
  | inr non ↦ let u = unsigned 10 x (omega arith) (omega arith) h in rw (non, u.in_20, u.in_24)
]

-- Both chains of tests take the same branch.
branches_agree : (c0 c1 c2 : ℕ) → vsnprintf_branch c0 c1 c2 ≡ printf_branch c0 c1 c2
unfolding vsnprintf_branch printf_branch
branches_agree c0 c1 c2 = ground arith

abbrev store : Dst → List ℕ × List Arg → Dst × List Arg
store d (cs, args) = (puts cs d, args)

pub sign_extend32-lt : (w : ℕ) → sign_extend32 w < 2 ^ 64
unfolding sign_extend32
sign_extend32-lt w = ground arith

abbrev Agrees : Conv → ℕ → List Arg → Dst → Type 0
Agrees conv c0 args d =
    vsnprintf_convert conv c0 args d ≡ Option.map (store d) (printf_convert conv c0 args)

-- A conversion of a number, once the two agree on the number.
by_word :
    (args : List Arg) (d : Dst) (f : ℕ → Option Dst) (g : ℕ → Option (List ℕ))
    → ((w : ℕ) → f w ≡ Option.map (λ cs. puts cs d) (g w))
    → Option.bind (next_word args) (λ wr. Option.map (λ d'. (d', wr.1)) (f wr.0))
      ≡ Option.map
          (store d)
          (Option.bind (next_word args) (λ wr. Option.map (λ cs. (cs, wr.1)) (g wr.0)))
unfolding next_word Option.bind
by_word [] d f g h = refl
by_word (word w ∷ args) d f g h = rw (h w) (ground arith)
by_word (text t ∷ args) d f g h = refl

converts_agree : (conv : Conv) (c0 : ℕ) (args : List Arg) (d : Dst) → Agrees conv c0 args d
unfolding vsnprintf_convert printf_convert puts Option.bind printptr
converts_agree int32 c0 args d =
    by_word args d _ _ (λ w. put_signed-printint (sign_extend32 w) d (sign_extend32-lt w))
converts_agree int64 c0 args d =
    by_word args d _ _ (λ w. put_signed-printint (w % 2 ^ 64) d (omega arith))
converts_agree uint32 c0 args d =
    by_word args d _ _
      (λ w. put_number-printint 10 (w % 2 ^ 32) d (omega arith) (omega arith) (omega arith))
converts_agree uint64 c0 args d =
    by_word args d _ _
      (λ w. put_number-printint 10 (w % 2 ^ 64) d (omega arith) (omega arith) (omega arith))
converts_agree hex32 c0 args d =
    by_word args d _ _
      (λ w. put_number-printint 16 (w % 2 ^ 32) d (omega arith) (omega arith) (omega arith))
converts_agree hex64 c0 args d =
    by_word args d _ _
      (λ w. put_number-printint 16 (w % 2 ^ 64) d (omega arith) (omega arith) (omega arith))
converts_agree pointer c0 args d = by_word args d _ (λ w. some (printptr (w % 2 ^ 64))) (λ w. refl)
converts_agree string c0 args d = ground arith
converts_agree char c0 args d = by_word args d _ (λ w. some (w % 2 ^ 32 ∷ [])) (λ w. refl)
converts_agree percent c0 args d = refl
converts_agree stop c0 args d = refl
converts_agree unknown c0 args d = refl

-- A conversion followed by the rest of the loop.
then_agrees :
    (d : Dst) (r : Option (List ℕ × List Arg)) (f : List Arg → Dst → Option Dst)
    (g : List Arg → Option (List ℕ))
    → ((args : List Arg) (e : Dst) → f args e ≡ Option.map (λ cs. puts cs e) (g args))
    → Option.bind (Option.map (store d) r) (λ da. f da.1 da.0)
      ≡ Option.map (λ cs. puts cs d) (Option.bind r (λ ca. Option.map (λ cs. ca.0 ++ cs) (g ca.1)))
unfolding Option.bind
then_agrees d none f g h = refl
then_agrees d (some (cs, args)) f g h = rw (h args (puts cs d)) (mapped (g args))
  where
    mapped :
        (o : Option (List ℕ))
        → Option.map (λ xs. puts xs (puts cs d)) o
          ≡ Option.map (λ xs. puts xs d) (Option.map (λ xs. cs ++ xs) o)
    mapped none = refl
    mapped (some xs) = ap some (sym (puts-append cs xs d))

-- On every format and argument list, with every buffer: `vsnprintf` puts into the buffer the codes
-- that `printf` prints, and either both meet undefined behaviour or neither does.
pub loops_agree :
    (fmt : List ℕ) (k : ℕ) (args : List Arg) (d : Dst)
    → vsnprintf_loop fmt k args d ≡ Option.map (λ cs. puts cs d) (printf_loop fmt k args)
unfolding vsnprintf_loop printf_loop puts
loops_agree [] k args d = refl
loops_agree (c ∷ fmt) (suc k) args d = loops_agree fmt k args d
loops_agree (c ∷ fmt) zero args d = elim (Bool-cases (c == b'%')) [
  | inl percent_sign ↦
      rw
        (
          percent_sign,
          branches_agree (peek fmt) (peek (skip fmt)) (peek (skip (skip fmt))),
          converts_agree conv (peek fmt) args d,
        )
        (then_agrees d (printf_convert conv (peek fmt) args) (vsnprintf_loop fmt taken)
          (printf_loop fmt taken) (loops_agree fmt taken))
  | inr plain ↦ rw (plain, loops_agree fmt 0 args (putc c d)) (ground arith)
]
  where
    conv : Conv
    conv = (printf_branch (peek fmt) (peek (skip fmt)) (peek (skip (skip fmt)))).0

    taken : ℕ
    taken = (printf_branch (peek fmt) (peek (skip fmt)) (peek (skip (skip fmt)))).1
