-- ===== src/Digits.antt =====
-- The number conversions of xv6-riscv/kernel/paniclog.c (`vsnprintf`) and
-- xv6-riscv/kernel/printf.c (`printint`, `printptr`): digits of a 64-bit number in an array, least
-- significant first. A write past the end of the array is the outcome `none`.
pub mod Bounds
use Prim.Native.String.{String}
use kernel_panic_logger.Prelude.{
  ℕ, zero, suc, ◌+◌, ◌-◌, ◌*◌, ◌/◌, ◌%◌, ◌^◌, List, [], ◌∷◌, ◌++◌, Option, none, some, Bool, true,
  false, ltb, ◌==◌, if◌then◌else◌, get_or, reverse, ◌≡◌, refl,
}
use mathlib.Core.Option

-- `char digits[] = "0123456789abcdef"`
abbrev pub digit_table : List ℕ
digit_table =
    b'0' ∷ b'1' ∷ b'2' ∷ b'3' ∷ b'4' ∷ b'5' ∷ b'6' ∷ b'7' ∷ b'8' ∷ b'9' ∷ b'a' ∷ b'b' ∷ b'c' ∷ b'd'
    ∷ b'e' ∷ b'f' ∷ []

unfoldable pub digit : ℕ → ℕ
digit d = get_or digit_table d 0

-- `do { tmp[tmplen++] = digits[x % base]; } while ((x /= base) != 0);` with `room` bytes of the
-- array left; the result is the part of the array that the loop fills.
unfoldable pub digit_loop : ℕ → ℕ → ℕ → Option (List ℕ)
digit_loop zero base x = none
digit_loop (suc room) base x =
    let rest = Option.map (λ ds. digit (x % base) ∷ ds) (digit_loop room base (x / base)) in
    if x / base == 0 then some (digit (x % base) ∷ []) else rest

-- `-(long long)x` on the 64-bit pattern of x.
unfoldable pub negate64 : ℕ → ℕ
negate64 x = (2 ^ 64 - x) % 2 ^ 64

-- `(long long)x < 0`
unfoldable pub is_negative64 : ℕ → Bool
is_negative64 x = if ltb x (2 ^ 63) then false else true

-- `va_arg(ap, int)` widened to 64 bits, and `va_arg(ap, uint32)`: the argument slot is a 64-bit word.
unfoldable pub sign_extend32 : ℕ → ℕ
sign_extend32 w = let x = w % 2 ^ 32 in if ltb x (2 ^ 31) then x else x + (2 ^ 64 - 2 ^ 32)

-- `for (j = 0; j < 16; j++, x <<= 4) PUTC(digits[x >> 60]);` with `rounds` rounds left
unfoldable pub nibble_loop : ℕ → ℕ → List ℕ
nibble_loop zero x = []
nibble_loop (suc rounds) x = digit (x / 2 ^ 60) ∷ nibble_loop rounds ((x * 2 ^ 4) % 2 ^ 64)
