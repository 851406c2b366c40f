-- ===== src/CrashContext/Text.antt =====
-- The text of a crash context, as `log_dump_crash_context` of xv6-riscv/kernel/paniclog.c and
-- `print_ctx` of xv6-riscv/user/dumppanic.c lay it out.
use kernel_panic_logger.Prelude.{
  ℕ, ◌+◌, ◌%◌, ◌^◌, ◌≡◌, refl, List, [], ◌∷◌, ◌++◌, Bool, true, false, if◌then◌else◌, Bool-cases,
  inl, inr, arith, some, take, String,
}
use kernel_panic_logger.CString.{cstr}
use kernel_panic_logger.Format.{Arg, word, text}
use kernel_panic_logger.Format.Total.{decimal, hexadecimal, signed_decimal}
use kernel_panic_logger.Format.Steps.{Prints, end, char, d, s, lx, lit, Prints-text, has_no_percent}
use kernel_panic_logger.Kernel.{Regs, Csrs, CrashContext, chars, crash_magic}

-- A 64-bit register as `0x%lx` prints it, less the prefix.
abbrev pub hex : ℕ → List ℕ
hex v = hexadecimal (v % 2 ^ 64)

abbrev pub newline : List ℕ
newline = b'\n' ∷ []

-- A row of registers: names, each in front of a value.
abbrev pub Row : Type 0
Row = List (String × ℕ)

-- `name=0x…` for each of them.
abbrev pub row : Row → List ℕ
row [] = newline
row ((name, v) ∷ fs) = chars name ++ (hex v ++ row fs)

-- The format and the arguments of such a row.
abbrev pub row_format : Row → List ℕ
row_format [] = newline
row_format ((name, v) ∷ fs) = chars name ++ (b'%' ∷ b'l' ∷ b'x' ∷ row_format fs)

abbrev pub row_args : Row → List Arg
row_args [] = []
row_args ((name, v) ∷ fs) = word v ∷ row_args fs

abbrev pub are_names : Row → Bool
are_names [] = true
are_names ((name, v) ∷ fs) = if has_no_percent (chars name) then are_names fs else false

pub line_end : Prints newline [] newline
line_end = char refl end

pub row-Prints : (fs : Row) → are_names fs ≡ true → Prints (row_format fs) (row_args fs) (row fs)
row-Prints [] h = line_end
row-Prints ((name, v) ∷ fs) h = elim (Bool-cases (has_no_percent (chars name))) [
  | inl plain ↦ lit (chars name) plain (lx (row-Prints fs (rw plain at h)))
  | inr other ↦ absurd (ground (arith, other, h))
]

-- The rows of the general registers.
module _ (r : Regs) where
  abbrev pub first_row : Row
  first_row = ("ra=0x", r.ra) ∷ ("  sp=0x", r.sp) ∷ ("  gp=0x", r.gp) ∷ ("  tp=0x", r.tp) ∷ []

  abbrev pub frame_row : Row
  frame_row = ("s0=0x", r.s0) ∷ ("  s1=0x", r.s1) ∷ []

  abbrev pub a0_row : Row
  a0_row = ("a0=0x", r.a0) ∷ ("  a1=0x", r.a1) ∷ ("  a2=0x", r.a2) ∷ ("  a3=0x", r.a3) ∷ []

  abbrev pub a4_row : Row
  a4_row = ("a4=0x", r.a4) ∷ ("  a5=0x", r.a5) ∷ ("  a6=0x", r.a6) ∷ ("  a7=0x", r.a7) ∷ []

  abbrev pub t0_row : Row
  t0_row = ("t0=0x", r.t0) ∷ ("  t1=0x", r.t1) ∷ ("  t2=0x", r.t2) ∷ []

  abbrev pub s2_row : Row
  s2_row = ("s2=0x", r.s2) ∷ ("  s3=0x", r.s3) ∷ ("  s4=0x", r.s4) ∷ ("  s5=0x", r.s5) ∷ []

  abbrev pub s6_row : Row
  s6_row = ("s6=0x", r.s6) ∷ ("  s7=0x", r.s7) ∷ ("  s8=0x", r.s8) ∷ ("  s9=0x", r.s9) ∷ []

  abbrev pub s10_row : Row
  s10_row = ("s10=0x", r.s10) ∷ (" s11=0x", r.s11) ∷ []

  abbrev pub t3_row : Row
  t3_row = ("t3=0x", r.t3) ∷ ("  t4=0x", r.t4) ∷ ("  t5=0x", r.t5) ∷ ("  t6=0x", r.t6) ∷ []

  unfoldable pub regs_text : List ℕ
  regs_text =
      row first_row
      ++ (row frame_row
          ++ (row a0_row
              ++ (row a4_row
                  ++ (row t0_row ++ (row s2_row ++ (row s6_row ++ (row s10_row ++ row t3_row)))))))

abbrev pub csrs_row : Csrs → Row
csrs_row t =
    ("sepc=0x", t.sepc)
    ∷ ("  scause=0x", t.scause)
    ∷ ("  stval=0x", t.stval)
    ∷ ("  sstatus=0x", t.sstatus)
    ∷ []

abbrev pub process_text : CrashContext → List ℕ
process_text c =
    chars "pid="
    ++ (decimal c.pid
        ++ (chars "  name="
            ++ (cstr c.pname ++ (chars "  state=" ++ (decimal c.pstate ++ newline)))))

abbrev pub depth_text : CrashContext → List ℕ
depth_text c =
    chars "\n-- Stack Trace (FP walk, " ++ (decimal c.stack_depth ++ chars " frames) --\n")

pub process-Prints :
    (c : CrashContext)
    → Prints
        (chars "pid=%d  name=%s  state=%d\n")
        (word c.pid ∷ text (some (cstr c.pname)) ∷ word c.pstate ∷ [])
        (process_text c)
process-Prints c =
    lit (chars "pid=") refl
      (d (lit (chars "  name=") refl (s (lit (chars "  state=") refl (d line_end)))))

pub depth-Prints :
    (c : CrashContext)
    → Prints
        (chars "\n-- Stack Trace (FP walk, %d frames) --\n")
        (word c.stack_depth ∷ [])
        (depth_text c)
depth-Prints c =
    lit (chars "\n-- Stack Trace (FP walk, ") refl (d (Prints-text (chars " frames) --\n") refl))

-- The part before the registers, below its title.
unfoldable pub facts_text : CrashContext → List ℕ
facts_text c =
    (chars "Message: " ++ (cstr c.panic_msg ++ newline))
    ++ ((chars "Ticks:   " ++ (signed_decimal (c.panic_ticks % 2 ^ 64) ++ newline))
        ++ ((chars "CPU:     " ++ (decimal c.cpu ++ newline))
            ++ chars "\n-- RISC-V Register State --\n"))

-- The part between the registers and the frames.
unfoldable pub details_text : CrashContext → List ℕ
details_text c =
    chars "\n-- Supervisor CSRs --\n"
    ++ (row (csrs_row c.csrs)
        ++ (chars "\n-- Process Info --\n" ++ (process_text c ++ depth_text c)))

-- The line of return address number i.
abbrev pub frame_text : ℕ → ℕ → List ℕ
frame_text i pc = chars "  [" ++ (decimal i ++ (chars "] 0x" ++ (hex pc ++ newline)))

pub frame-Prints :
    (i pc : ℕ) → Prints (chars "  [%d] 0x%lx\n") (word i ∷ word pc ∷ []) (frame_text i pc)
frame-Prints i pc = lit (chars "  [") refl (d (lit (chars "] 0x") refl (lx line_end)))

-- A line for each return address, numbered from i.
unfoldable pub frames_text : ℕ → List ℕ → List ℕ
frames_text i [] = []
frames_text i (pc ∷ pcs) = frame_text i pc ++ frames_text (i + 1) pcs

-- The context under a title and above a footer.
unfoldable pub context_text : List ℕ → List ℕ → CrashContext → List ℕ
context_text title footer c =
    (title ++ facts_text c)
    ++ (regs_text c.regs
        ++ (details_text c ++ (frames_text 0 (take c.stack_depth c.stacktrace) ++ footer)))

-- What is printed where no context is stored, between the two texts around the numbers.
unfoldable pub no_context_text : List ℕ → List ℕ → CrashContext → List ℕ
no_context_text before after c =
    before
    ++ (hexadecimal (c.magic % 2 ^ 32)
        ++ (chars ", expected 0x" ++ (hexadecimal (crash_magic % 2 ^ 32) ++ after)))
