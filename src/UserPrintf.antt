-- ===== src/UserPrintf.antt =====
-- `vprintf` of xv6-riscv/user/printf.c, which user programs print with. The result is the list of the
-- bytes that `putc` writes to the file descriptor, in order; a format is the list of its bytes up
-- to its NUL. A digit outside `buf` and an argument that is not there are the outcome `none`.
pub mod Numbers
pub mod Agree
use mathlib.Core.Option
use kernel_panic_logger.Prelude.{
  ℕ, zero, suc, ◌+◌, ◌*◌, ◌/◌, ◌%◌, ◌^◌, List, [], ◌∷◌, ◌++◌, Option, none, some, Bool, true, false,
  ◌&&◌, if◌then◌else◌, ◌==◌, ltb, length, reverse, get_or,
}
use kernel_panic_logger.Digits.{negate64, is_negative64, sign_extend32}
use kernel_panic_logger.Format.{
  Arg, Conv, int32, int64, uint32, uint64, hex32, hex64, pointer, string, char, percent, stop,
  unknown, next_word, next_text, peek, skip, or_null,
}

-- `digits[] = "0123456789ABCDEF"`
abbrev pub digit_table : List ℕ
digit_table =
    b'0' ∷ b'1' ∷ b'2' ∷ b'3' ∷ b'4' ∷ b'5' ∷ b'6' ∷ b'7' ∷ b'8' ∷ b'9' ∷ b'A' ∷ b'B' ∷ b'C' ∷ b'D'
    ∷ b'E' ∷ b'F' ∷ []

unfoldable pub digit : ℕ → ℕ
digit d = get_or digit_table d 0

-- The `do` loop, with `room` bytes of `buf` left.
unfoldable pub digit_loop : ℕ → ℕ → ℕ → Option (List ℕ)
digit_loop zero base x = none
digit_loop (suc room) base x =
    let rest = Option.map (λ ds. digit (x % base) ∷ ds) (digit_loop room base (x / base)) in
    if x / base == 0 then some (digit (x % base) ∷ []) else rest

-- `if(neg) buf[i++] = '-';` in `char buf[20]`
unfoldable pub push_sign : Bool → List ℕ → Option (List ℕ)
push_sign false ds = some ds
push_sign true ds = if ltb (length ds) 20 then some (ds ++ (b'-' ∷ [])) else none

unfoldable pub printint : ℕ → ℕ → Bool → Option (List ℕ)
unfolding push_sign
printint xx base sgn =
    let neg = sgn && is_negative64 xx in
    let x = if neg then negate64 xx else xx in
    Option.map reverse (Option.bind (digit_loop 20 base x) (push_sign neg))

-- The loop over the 16 digits of a pointer, with `rounds` rounds left.
unfoldable pub nibble_loop : ℕ → ℕ → List ℕ
nibble_loop zero x = []
nibble_loop (suc rounds) x = digit (x / 2 ^ 60) ∷ nibble_loop rounds ((x * 2 ^ 4) % 2 ^ 64)

unfoldable pub printptr : ℕ → List ℕ
printptr x = b'0' ∷ b'x' ∷ nibble_loop 16 x

-- Which branch runs, and by how much it advances `i` besides the loop's own step.
unfoldable pub vprintf_branch : ℕ → ℕ → ℕ → Conv × ℕ
vprintf_branch c0 c1 c2 =
    if c0 == b'd'
    then (int32, 0)
    else (if c0 == b'l' && c1 == b'd'
        then (int64, 1)
        else (if c0 == b'l' && c1 == b'l' && c2 == b'd'
            then (int64, 2)
            else (if c0 == b'u'
                then (uint32, 0)
                else (if c0 == b'l' && c1 == b'u'
                    then (uint64, 1)
                    else (if c0 == b'l' && c1 == b'l' && c2 == b'u'
                        then (uint64, 2)
                        else (if c0 == b'x'
                            then (hex32, 0)
                            else (if c0 == b'l' && c1 == b'x'
                                then (hex64, 1)
                                else (if c0 == b'l' && c1 == b'l' && c2 == b'x'
                                    then (hex64, 2)
                                    else (if c0 == b'p'
                                        then (pointer, 0)
                                        else (if c0 == b'c'
                                            then (char, 0)
                                            else (if c0 == b's'
                                                then (string, 0)
                                                else (if c0 == b'%'
                                                    then (percent, 0)
                                                    else (unknown, 0)))))))))))))

abbrev with_word : List Arg → (ℕ → Option (List ℕ)) → Option (List ℕ × List Arg)
with_word args k = Option.bind (next_word args) (λ wr. Option.map (λ cs. (cs, wr.1)) (k wr.0))

-- `putc` takes a `char`, the low byte of its argument. There is no branch for a NUL.
unfoldable pub vprintf_convert : Conv → ℕ → List Arg → Option (List ℕ × List Arg)
vprintf_convert int32 c0 args = with_word args (λ w. printint (sign_extend32 w) 10 true)
vprintf_convert int64 c0 args = with_word args (λ w. printint (w % 2 ^ 64) 10 true)
vprintf_convert uint32 c0 args = with_word args (λ w. printint (w % 2 ^ 32) 10 false)
vprintf_convert uint64 c0 args = with_word args (λ w. printint (w % 2 ^ 64) 10 false)
vprintf_convert hex32 c0 args = with_word args (λ w. printint (w % 2 ^ 32) 16 false)
vprintf_convert hex64 c0 args = with_word args (λ w. printint (w % 2 ^ 64) 16 false)
vprintf_convert pointer c0 args = with_word args (λ w. some (printptr (w % 2 ^ 64)))
vprintf_convert string c0 args = Option.map (λ tr. (or_null tr.0, tr.1)) (next_text args)
vprintf_convert char c0 args = with_word args (λ w. some (w % 2 ^ 32 % 2 ^ 8 ∷ []))
vprintf_convert percent c0 args = some (b'%' ∷ [], args)
vprintf_convert stop c0 args = some ([], args)
vprintf_convert unknown c0 args = some (b'%' ∷ c0 % 2 ^ 8 ∷ [], args)

-- The loop over the format: how many characters it has still to pass over, and whether `state` is
-- '%'.
unfoldable pub vprintf_loop : List ℕ → ℕ → Bool → List Arg → Option (List ℕ)
vprintf_loop [] k state args = some []
vprintf_loop (c ∷ fmt) (suc k) state args = vprintf_loop fmt k state args
vprintf_loop (c ∷ fmt) zero false args =
    let percent_sign = vprintf_loop fmt 0 true args in
    let plain = Option.map (λ cs. c % 2 ^ 8 ∷ cs) (vprintf_loop fmt 0 false args) in
    if c == b'%' then percent_sign else plain
vprintf_loop (c ∷ fmt) zero true args =
    let (conv, more) = vprintf_branch c (peek fmt) (peek (skip fmt)) in
    Option.bind (vprintf_convert conv c args)
      (λ ca. Option.map (λ cs. ca.0 ++ cs) (vprintf_loop fmt more false ca.1))

unfoldable pub vprintf : List ℕ → List Arg → Option (List ℕ)
unfolding vprintf_loop
vprintf fmt args = vprintf_loop fmt 0 false args
