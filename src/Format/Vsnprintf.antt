-- ===== src/Format/Vsnprintf.antt =====
-- `vsnprintf` of xv6-riscv/kernel/paniclog.c: formats into a buffer of n bytes and NUL-terminates.
use mathlib.Core.Option
use kernel_panic_logger.Prelude.{
  ℕ, zero, suc, ◌+◌, ◌-◌, ◌%◌, ◌^◌, List, [], ◌∷◌, Option, some, ◌&&◌, if◌then◌else◌, ◌==◌, ltb,
  set, reverse,
}
use kernel_panic_logger.Digits.{digit_loop, negate64, is_negative64, sign_extend32, nibble_loop}
use kernel_panic_logger.Format.{
  Arg, Conv, int32, int64, uint32, uint64, hex32, hex64, pointer, string, char, percent, stop,
  unknown, next_word, next_text, peek, skip, or_null,
}

-- The buffer, and `dst` and `end` as offsets into it.
pub record Dst : Type 0 where
  pub buf : List ℕ
  pub dst : ℕ
  pub end : ℕ

-- `if (dst < end) *dst++ = (ch);` the store keeps the low byte.
unfoldable pub putc : ℕ → Dst → Dst
putc ch d =
    if ltb d.dst d.end then record d { buf = set d.buf d.dst (ch % 2 ^ 8); dst = d.dst + 1 } else d

-- `while (*s) PUTC(*s++);` and the loops that write out `tmp`.
unfoldable pub puts : List ℕ → Dst → Dst
puts [] d = d
puts (c ∷ cs) d = puts cs (putc c d)

-- `do { tmp[tmplen++] = … } while (…); while (tmplen--) PUTC(tmp[tmplen]);` with `char tmp[24]`
unfoldable pub put_number : ℕ → ℕ → Dst → Option Dst
put_number base x d = Option.map (λ ds. puts (reverse ds) d) (digit_loop 24 base x)

-- `if ((long long)x < 0) { PUTC('-'); x = -(long long)x; }`, then the decimal digits
unfoldable pub put_signed : ℕ → Dst → Option Dst
put_signed x d =
    if is_negative64 x then put_number 10 (negate64 x) (putc b'-' d) else put_number 10 x d

-- Which branch of the chain runs on `c0`, `c1`, `c2`, and how many characters of the format it
-- takes after the `%`.
unfoldable pub vsnprintf_branch : ℕ → ℕ → ℕ → Conv × ℕ
vsnprintf_branch c0 c1 c2 =
    if c0 == b'd'
    then (int32, 1)
    else (if c0 == b'l' && c1 == b'd'
        then (int64, 2)
        else (if c0 == b'l' && c1 == b'l' && c2 == b'd'
            then (int64, 3)
            else (if c0 == b'u'
                then (uint32, 1)
                else (if c0 == b'l' && c1 == b'u'
                    then (uint64, 2)
                    else (if c0 == b'l' && c1 == b'l' && c2 == b'u'
                        then (uint64, 3)
                        else (if c0 == b'x'
                            then (hex32, 1)
                            else (if c0 == b'l' && c1 == b'x'
                                then (hex64, 2)
                                else (if c0 == b'l' && c1 == b'l' && c2 == b'x'
                                    then (hex64, 3)
                                    else (if c0 == b'p'
                                        then (pointer, 1)
                                        else (if c0 == b's'
                                            then (string, 1)
                                            else (if c0 == b'c'
                                                then (char, 1)
                                                else (if c0 == b'%'
                                                    then (percent, 1)
                                                    else (if c0 == 0
                                                        then (stop, 1)
                                                        else (unknown, 1))))))))))))))

-- `tmp`, `x`, `s` of one branch; `none` is undefined behaviour (see Format.antt).
abbrev with_word : List Arg → (ℕ → Option Dst) → Option (Dst × List Arg)
with_word args k = Option.bind (next_word args) (λ wr. Option.map (λ d. (d, wr.1)) (k wr.0))

unfoldable pub vsnprintf_convert : Conv → ℕ → List Arg → Dst → Option (Dst × List Arg)
vsnprintf_convert int32 c0 args d = with_word args (λ w. put_signed (sign_extend32 w) d)
vsnprintf_convert int64 c0 args d = with_word args (λ w. put_signed (w % 2 ^ 64) d)
vsnprintf_convert uint32 c0 args d = with_word args (λ w. put_number 10 (w % 2 ^ 32) d)
vsnprintf_convert uint64 c0 args d = with_word args (λ w. put_number 10 (w % 2 ^ 64) d)
vsnprintf_convert hex32 c0 args d = with_word args (λ w. put_number 16 (w % 2 ^ 32) d)
vsnprintf_convert hex64 c0 args d = with_word args (λ w. put_number 16 (w % 2 ^ 64) d)
vsnprintf_convert pointer c0 args d =
    with_word args (λ w. some (puts (nibble_loop 16 (w % 2 ^ 64)) (putc b'x' (putc b'0' d))))
vsnprintf_convert string c0 args d =
    Option.map (λ tr. (puts (or_null tr.0) d, tr.1)) (next_text args)
vsnprintf_convert char c0 args d = with_word args (λ w. some (putc (w % 2 ^ 32) d))
vsnprintf_convert percent c0 args d = some (putc b'%' d, args)
vsnprintf_convert stop c0 args d = some (d, args)
vsnprintf_convert unknown c0 args d = some (putc c0 (putc b'%' d), args)

-- The loop over the format; the number is how many characters a conversion has still to pass over.
unfoldable pub vsnprintf_loop : List ℕ → ℕ → List Arg → Dst → Option Dst
vsnprintf_loop [] k args d = some d
vsnprintf_loop (c ∷ fmt) (suc k) args d = vsnprintf_loop fmt k args d
vsnprintf_loop (c ∷ fmt) zero args d =
    let (conv, taken) = vsnprintf_branch (peek fmt) (peek (skip fmt)) (peek (skip (skip fmt))) in
    let plain = vsnprintf_loop fmt 0 args (putc c d) in
    let converted =
      Option.bind (vsnprintf_convert conv (peek fmt) args d)
        (λ da. vsnprintf_loop fmt taken da.1 da.0) in
    if c == b'%' then converted else plain

-- `*dst = '\0'; return dst - buf;`
unfoldable pub vsnprintf_end : Dst → List ℕ × ℕ
vsnprintf_end d = (set d.buf d.dst 0, d.dst)

-- `char *dst = buf, *end = buf + n - 1`, for n at least 1: the buffer and the result.
unfoldable pub vsnprintf : List ℕ → ℕ → List ℕ → List Arg → Option (List ℕ × ℕ)
unfolding vsnprintf_loop vsnprintf_end
vsnprintf buf n fmt args =
    Option.map vsnprintf_end
      (vsnprintf_loop fmt 0 args (record { buf = buf; dst = 0; end = n - 1 }))
