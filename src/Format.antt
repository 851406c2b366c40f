-- ===== src/Format.antt =====
-- The format language that `vsnprintf` of xv6-riscv/kernel/paniclog.c and `printf` of
-- xv6-riscv/kernel/printf.c share: variable arguments, conversion kinds, C strings.
--
-- A C string is the list of its bytes up to its NUL. A variable argument is the 64-bit word of its
-- slot, or a pointer to a C string (`none` is the null pointer). Reading an argument that is not
-- there, or a word as a string, is undefined in C and the outcome `none` here.
pub mod Vsnprintf
pub mod Printf
pub mod Agree
pub mod Buffer
pub mod Total
pub mod Steps
use kernel_panic_logger.Prelude.{
  ℕ, ◌+◌, ◌%◌, ◌^◌, List, [], ◌∷◌, Option, none, some, Bool, true, false, if◌then◌else◌, ◌==◌,
}

pub data Arg : Type 0 where
  word : ℕ → Arg
  text : Option (List ℕ) → Arg

-- The conversions that the two formatters tell apart.
pub data Conv : Type 0 where
  int32 int64 uint32 uint64 hex32 hex64 pointer string char percent stop unknown : Conv

-- `va_arg` of a number, and of a `char *`.
unfoldable pub next_word : List Arg → Option (ℕ × List Arg)
next_word [] = none
next_word (word w ∷ args) = some (w, args)
next_word (text t ∷ args) = none

unfoldable pub next_text : List Arg → Option (Option (List ℕ) × List Arg)
next_text [] = none
next_text (word w ∷ args) = none
next_text (text t ∷ args) = some (t, args)

-- `fmt[i]` at the head of what is left of the format, 0 at its NUL.
unfoldable pub peek : List ℕ → ℕ
peek [] = 0
peek (c ∷ cs) = c

unfoldable pub skip : List ℕ → List ℕ
skip [] = []
skip (c ∷ cs) = cs

-- `s = "(null)"`
abbrev pub null_text : List ℕ
null_text = b'(' ∷ b'n' ∷ b'u' ∷ b'l' ∷ b'l' ∷ b')' ∷ []

unfoldable pub or_null : Option (List ℕ) → List ℕ
or_null none = null_text
or_null (some s) = s
