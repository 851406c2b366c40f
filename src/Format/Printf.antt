-- ===== src/Format/Printf.antt =====
-- `printf`, `printint` and `printptr` of xv6-riscv/kernel/printf.c, less the lock: the codes that
-- they hand to `consputc`, in order.
use mathlib.Core.Option
use kernel_panic_logger.Prelude.{
  ℕ, zero, suc, ◌%◌, ◌^◌, List, [], ◌∷◌, ◌++◌, Option, none, some, Bool, true, false, ◌&&◌,
  if◌then◌else◌, ◌==◌, ltb, length, reverse,
}
use kernel_panic_logger.Digits.{digit_loop, negate64, is_negative64, sign_extend32, nibble_loop}
use kernel_panic_logger.Format.{
  Arg, Conv, int32, int64, uint32, uint64, hex32, hex64, pointer, string, char, percent, stop,
  unknown, next_word, next_text, peek, skip, or_null,
}

-- `if(sign) buf[i++] = '-';` in `char buf[20]`
unfoldable pub push_sign : Bool → List ℕ → Option (List ℕ)
push_sign false ds = some ds
push_sign true ds = if ltb (length ds) 20 then some (ds ++ (b'-' ∷ [])) else none

-- `xx` is a 64-bit pattern; the array is printed from its end.
unfoldable pub printint : ℕ → ℕ → Bool → Option (List ℕ)
unfolding push_sign
printint xx base sign =
    let sign' = sign && is_negative64 xx in
    let x = if sign' then negate64 xx else xx in
    Option.map reverse (Option.bind (digit_loop 20 base x) (push_sign sign'))

unfoldable pub printptr : ℕ → List ℕ
printptr x = b'0' ∷ b'x' ∷ nibble_loop 16 x

-- Which branch of the chain runs on `c0`, `c1`, `c2`, and how many characters of the format it
-- takes after the `%`.
unfoldable pub printf_branch : ℕ → ℕ → ℕ → Conv × ℕ
printf_branch c0 c1 c2 =
    if c0 == b'd'
    then (int32, 1)
    else (if c0 == b'l' && c1 == b'd'
        then (int64, 2)
        else (if c0 == b'l' && c1 == b'l' && c2 == b'd'
            then (int64, 3)
            else (if c0 == b'u'
                then (uint32, 1)
                else (if c0 == b'l' && c1 == b'u'
                    then (uint64, 2)
                    else (if c0 == b'l' && c1 == b'l' && c2 == b'u'
                        then (uint64, 3)
                        else (if c0 == b'x'
                            then (hex32, 1)
                            else (if c0 == b'l' && c1 == b'x'
                                then (hex64, 2)
                                else (if c0 == b'l' && c1 == b'l' && c2 == b'x'
                                    then (hex64, 3)
                                    else (if c0 == b'p'
                                        then (pointer, 1)
                                        else (if c0 == b'c'
                                            then (char, 1)
                                            else (if c0 == b's'
                                                then (string, 1)
                                                else (if c0 == b'%'
                                                    then (percent, 1)
                                                    else (if c0 == 0
                                                        then (stop, 1)
                                                        else (unknown, 1))))))))))))))

abbrev with_word : List Arg → (ℕ → Option (List ℕ)) → Option (List ℕ × List Arg)
with_word args k = Option.bind (next_word args) (λ wr. Option.map (λ cs. (cs, wr.1)) (k wr.0))

unfoldable pub printf_convert : Conv → ℕ → List Arg → Option (List ℕ × List Arg)
printf_convert int32 c0 args = with_word args (λ w. printint (sign_extend32 w) 10 true)
printf_convert int64 c0 args = with_word args (λ w. printint (w % 2 ^ 64) 10 true)
printf_convert uint32 c0 args = with_word args (λ w. printint (w % 2 ^ 32) 10 false)
printf_convert uint64 c0 args = with_word args (λ w. printint (w % 2 ^ 64) 10 false)
printf_convert hex32 c0 args = with_word args (λ w. printint (w % 2 ^ 32) 16 false)
printf_convert hex64 c0 args = with_word args (λ w. printint (w % 2 ^ 64) 16 false)
printf_convert pointer c0 args = with_word args (λ w. some (printptr (w % 2 ^ 64)))
printf_convert string c0 args = Option.map (λ tr. (or_null tr.0, tr.1)) (next_text args)
printf_convert char c0 args = with_word args (λ w. some (w % 2 ^ 32 ∷ []))
printf_convert percent c0 args = some (b'%' ∷ [], args)
printf_convert stop c0 args = some ([], args)
printf_convert unknown c0 args = some (b'%' ∷ c0 ∷ [], args)

-- The loop over the format; the number is how many characters a conversion has still to pass over.
unfoldable pub printf_loop : List ℕ → ℕ → List Arg → Option (List ℕ)
printf_loop [] k args = some []
printf_loop (c ∷ fmt) (suc k) args = printf_loop fmt k args
printf_loop (c ∷ fmt) zero args =
    let (conv, taken) = printf_branch (peek fmt) (peek (skip fmt)) (peek (skip (skip fmt))) in
    let plain = Option.map (λ cs. c ∷ cs) (printf_loop fmt 0 args) in
    let converted =
      Option.bind (printf_convert conv (peek fmt) args)
        (λ ca. Option.map (λ cs. ca.0 ++ cs) (printf_loop fmt taken ca.1)) in
    if c == b'%' then converted else plain

-- What `printf(fmt, …)` sends to the console.
unfoldable pub printf_codes : List ℕ → List Arg → Option (List ℕ)
unfolding printf_loop
printf_codes fmt args = printf_loop fmt 0 args
