-- ===== src/UserPrintf/Numbers.antt =====
-- The conversions of the user and of the kernel, up to the case of the digits.
use mathlib.Core.Option
use mathlib.Core.List.{reverse_aux, map-append}
use kernel_panic_logger.Prelude.{
  ℕ, zero, suc, ◌+◌, ◌-◌, ◌*◌, ◌%◌, ◌/◌, ◌^◌, ◌≡◌, refl, ◌∙◌, ap, sym, List, [], ◌∷◌, ◌++◌, Option,
  none, some, Bool, true, false, ◌&&◌, if◌then◌else◌, ◌==◌, ltb, leb, length, reverse, map, arith,
  Bool-cases, inl, inr, length-map,
}
use kernel_panic_logger.Digits
use kernel_panic_logger.Digits.{negate64, is_negative64, sign_extend32}
use kernel_panic_logger.Format.{
  Arg, word, text, Conv, int32, int64, uint32, uint64, hex32, hex64, pointer, string, char, percent,
  stop, unknown, next_word,
}
use kernel_panic_logger.Format.Printf
use kernel_panic_logger.Format.Printf.{printf_branch, printf_convert, printf_loop, printf_codes}
use kernel_panic_logger.UserPrintf.{
  digit, digit_loop, push_sign, printint, nibble_loop, printptr, vprintf_convert,
}

-- The letters a to f in capitals, and a code less its case: its low byte, with A to F made small.
pub capital : ℕ → ℕ
capital c = if leb b'a' c && leb c b'f' then c - 32 else c

unfoldable pub fold_case : ℕ → ℕ
fold_case c = let b = c % 2 ^ 8 in if leb b'A' b && leb b b'F' then b + 32 else b

fold_case-capital : (c : ℕ) → fold_case (capital c) ≡ fold_case c
unfolding fold_case capital
fold_case-capital c = ground arith

pub fold_case-low : (c : ℕ) → fold_case (c % 2 ^ 8) ≡ fold_case c
unfolding fold_case
fold_case-low c = ground arith

digit-capital : (d : ℕ) → digit d ≡ capital (Digits.digit d)
unfolding digit capital Digits.digit
digit-capital zero = refl
digit-capital (suc zero) = refl
digit-capital (suc (suc zero)) = refl
digit-capital (suc (suc (suc zero))) = refl
digit-capital (suc (suc (suc (suc zero)))) = refl
digit-capital (suc (suc (suc (suc (suc zero))))) = refl
digit-capital (suc (suc (suc (suc (suc (suc zero)))))) = refl
digit-capital (suc (suc (suc (suc (suc (suc (suc zero))))))) = refl
digit-capital (suc (suc (suc (suc (suc (suc (suc (suc zero)))))))) = refl
digit-capital (suc (suc (suc (suc (suc (suc (suc (suc (suc zero))))))))) = refl
digit-capital (suc (suc (suc (suc (suc (suc (suc (suc (suc (suc zero)))))))))) = refl
digit-capital (suc (suc (suc (suc (suc (suc (suc (suc (suc (suc (suc zero))))))))))) = refl
digit-capital (suc (suc (suc (suc (suc (suc (suc (suc (suc (suc (suc (suc zero)))))))))))) = refl
digit-capital (suc (suc (suc (suc (suc (suc (suc (suc (suc (suc (suc (suc (suc zero))))))))))))) =
    refl
digit-capital
      (suc (suc (suc (suc (suc (suc (suc (suc (suc (suc (suc (suc (suc (suc zero)))))))))))))) =
    refl
digit-capital
      (suc
        (suc (suc (suc (suc (suc (suc (suc (suc (suc (suc (suc (suc (suc (suc zero))))))))))))))) =
    refl
digit-capital
      (suc (
        suc
          (suc (suc (suc (suc (suc (suc (suc (suc (suc (suc (suc (suc (suc (suc d)))))))))))))))) =
    refl

digit_loop-capital :
    (room base x : ℕ)
    → digit_loop room base x ≡ Option.map (map capital) (Digits.digit_loop room base x)
unfolding digit_loop Digits.digit_loop
digit_loop-capital zero base x = refl
digit_loop-capital (suc room) base x = elim (Bool-cases (x / base == 0)) [
  | inl last ↦ rw (last, digit-capital (x % base)) refl
  | inr more ↦
      rw (more, digit-capital (x % base), digit_loop-capital room base (x / base))
        (mapped (Digits.digit_loop room base (x / base)))
]
  where
    mapped :
        (o : Option (List ℕ))
        → Option.map (λ ds. capital (Digits.digit (x % base)) ∷ ds) (Option.map (map capital) o)
          ≡ Option.map (map capital) (Option.map (λ ds. Digits.digit (x % base) ∷ ds) o)
    mapped none = refl
    mapped (some ds) = refl

map-reverse : (xs : List ℕ) → map capital (reverse xs) ≡ reverse (map capital xs)
map-reverse xs = onto xs []
  where
    onto :
        (xs ys : List ℕ)
        → map capital (reverse_aux xs ys) ≡ reverse_aux (map capital xs) (map capital ys)
    onto [] ys = refl
    onto (x ∷ xs) ys = onto xs (x ∷ ys)

signed-capital :
    (neg : Bool) (o : Option (List ℕ))
    → Option.map reverse (Option.bind (Option.map (map capital) o) (push_sign neg))
      ≡ Option.map (map capital) (Option.map reverse (Option.bind o (Printf.push_sign neg)))
unfolding push_sign Printf.push_sign Option.bind capital
signed-capital neg none = refl
signed-capital false (some ds) = ap some (sym (map-reverse ds))
signed-capital true (some ds) = elim (Bool-cases (ltb (length ds) 20)) [
  | inl room ↦
      rw (length-map ds capital, room)
        (ap some (
          ap reverse (sym (map-append capital ds (b'-' ∷ [])))
          ∙ sym (map-reverse (ds ++ (b'-' ∷ [])))))
  | inr full ↦ rw (length-map ds capital, full)
]

printint-capital :
    (x base : ℕ) (sgn : Bool)
    → printint x base sgn ≡ Option.map (map capital) (Printf.printint x base sgn)
unfolding printint Printf.printint
printint-capital x base sgn =
    let neg = sgn && is_negative64 x in
    rw (digit_loop-capital 20 base (if neg then negate64 x else x))
      (signed-capital neg (Digits.digit_loop 20 base (if neg then negate64 x else x)))

nibble_loop-capital : (n x : ℕ) → nibble_loop n x ≡ map capital (Digits.nibble_loop n x)
unfolding nibble_loop Digits.nibble_loop
nibble_loop-capital zero x = refl
nibble_loop-capital (suc n) x =
    rw (digit-capital (x / 2 ^ 60), nibble_loop-capital n ((x * 2 ^ 4) % 2 ^ 64)) refl

printptr-capital : (x : ℕ) → printptr x ≡ map capital (Printf.printptr x)
unfolding printptr Printf.printptr capital
printptr-capital x = ap (λ cs. b'0' ∷ b'x' ∷ cs) (nibble_loop-capital 16 x)

fold-capital : (cs : List ℕ) → map fold_case (map capital cs) ≡ map fold_case cs
fold-capital [] = refl
fold-capital (c ∷ cs) = λ i. fold_case-capital c i ∷ fold-capital cs i

-- Two outputs that differ in the case of letters at most, where each has one.
abbrev pub SameText : Option (List ℕ) → Option (List ℕ) → Type 0
SameText a b = Option.map (map fold_case) a ≡ Option.map (map fold_case) b

abbrev pub folded : Option (List ℕ × List Arg) → Option (List ℕ × List Arg)
folded = Option.map (λ ca. (map fold_case ca.0, ca.1))

by_word :
    (args : List Arg) (f g : ℕ → Option (List ℕ))
    → ((w : ℕ) → SameText (f w) (g w))
    → folded (Option.bind (next_word args) (λ wr. Option.map (λ cs. (cs, wr.1)) (f wr.0)))
      ≡ folded (Option.bind (next_word args) (λ wr. Option.map (λ cs. (cs, wr.1)) (g wr.0)))
unfolding next_word Option.bind
by_word [] f g h = refl
by_word (text t ∷ args) f g h = refl
by_word (word w ∷ args) f g h =
    paired (f w) ∙ (ap (Option.map (λ cs. (cs, args))) (h w) ∙ sym (paired (g w)))
  where
    paired :
        (o : Option (List ℕ))
        → folded (Option.map (λ cs. (cs, args)) o)
          ≡ Option.map (λ cs. (cs, args)) (Option.map (map fold_case) o)
    paired none = refl
    paired (some cs) = refl

number-SameText :
    (x base : ℕ) (sgn : Bool) → SameText (printint x base sgn) (Printf.printint x base sgn)
number-SameText x base sgn = rw (printint-capital x base sgn) (same (Printf.printint x base sgn))
  where
    same : (o : Option (List ℕ)) → SameText (Option.map (map capital) o) o
    same none = refl
    same (some cs) = ap some (fold-capital cs)

pub converts-SameText :
    (conv : Conv) (c0 : ℕ) (args : List Arg)
    → folded (vprintf_convert conv c0 args) ≡ folded (printf_convert conv c0 args)
unfolding vprintf_convert printf_convert
converts-SameText int32 c0 args = by_word args _ _ (λ w. number-SameText (sign_extend32 w) 10 true)
converts-SameText int64 c0 args = by_word args _ _ (λ w. number-SameText (w % 2 ^ 64) 10 true)
converts-SameText uint32 c0 args = by_word args _ _ (λ w. number-SameText (w % 2 ^ 32) 10 false)
converts-SameText uint64 c0 args = by_word args _ _ (λ w. number-SameText (w % 2 ^ 64) 10 false)
converts-SameText hex32 c0 args = by_word args _ _ (λ w. number-SameText (w % 2 ^ 32) 16 false)
converts-SameText hex64 c0 args = by_word args _ _ (λ w. number-SameText (w % 2 ^ 64) 16 false)
converts-SameText pointer c0 args =
    by_word args (λ w. some (printptr (w % 2 ^ 64))) (λ w. some (Printf.printptr (w % 2 ^ 64)))
      (λ w. ap some (
        ap (map fold_case) (printptr-capital (w % 2 ^ 64))
        ∙ fold-capital (Printf.printptr (w % 2 ^ 64))))
converts-SameText string c0 args = refl
converts-SameText char c0 args =
    by_word args (λ w. some (w % 2 ^ 32 % 2 ^ 8 ∷ [])) (λ w. some (w % 2 ^ 32 ∷ []))
      (λ w. λ i. some (fold_case-low (w % 2 ^ 32) i ∷ []))
converts-SameText percent c0 args = refl
converts-SameText stop c0 args = refl
converts-SameText unknown c0 args = λ i. some (fold_case b'%' ∷ fold_case-low c0 i ∷ [], args)
