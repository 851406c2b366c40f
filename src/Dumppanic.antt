-- ===== src/Dumppanic.antt =====
-- xv6-riscv/user/dumppanic.c. What the program writes is a list of bytes, `none` where `printf` has
-- undefined behaviour. The reply of the system call and `sizeof(ctx)` are parameters.
pub mod Shows
use mathlib.Core.Option
use kernel_panic_logger.Prelude.{
  ℕ, zero, suc, ◌+◌, ◌-◌, ◌^◌, List, [], ◌∷◌, ◌++◌, Option, none, some, Bool, true, false, ◌&&◌,
  if◌then◌else◌, ◌==◌, ltb, get_elem?,
}
use kernel_panic_logger.CString.{cstr}
use kernel_panic_logger.Format.{Arg, word, text}
use kernel_panic_logger.Kernel.{Regs, CrashContext, chars, crash_magic}
use kernel_panic_logger.UserPrintf.{vprintf}

-- One call of `printf` after another.
infixr 6 ◌⨾◌
unfoldable pub ◌⨾◌ : Option (List ℕ) → Option (List ℕ) → Option (List ℕ)
a ⨾ b = Option.bind a (λ xs. Option.map (λ ys. xs ++ ys) b)

abbrev pub printf : List ℕ → List Arg → Option (List ℕ)
printf = vprintf

unfoldable pub print_facts : CrashContext → Option (List ℕ)
print_facts c =
    printf (chars "Message: %s\n") (text (some (cstr c.panic_msg)) ∷ [])
    ⨾ printf (chars "Ticks:   %lu\n") (word c.panic_ticks ∷ [])
    ⨾ printf (chars "CPU:     %d\n") (word c.cpu ∷ [])
    ⨾ printf (chars "\n-- RISC-V Register State --\n") []

unfoldable pub print_regs : Regs → Option (List ℕ)
print_regs r =
    printf (chars "ra=0x%lx  sp=0x%lx  gp=0x%lx  tp=0x%lx\n")
      (word r.ra ∷ word r.sp ∷ word r.gp ∷ word r.tp ∷ [])
    ⨾ printf (chars "s0=0x%lx  s1=0x%lx\n") (word r.s0 ∷ word r.s1 ∷ [])
    ⨾ printf (chars "a0=0x%lx  a1=0x%lx  a2=0x%lx  a3=0x%lx\n")
        (word r.a0 ∷ word r.a1 ∷ word r.a2 ∷ word r.a3 ∷ [])
    ⨾ printf (chars "a4=0x%lx  a5=0x%lx  a6=0x%lx  a7=0x%lx\n")
        (word r.a4 ∷ word r.a5 ∷ word r.a6 ∷ word r.a7 ∷ [])
    ⨾ printf (chars "t0=0x%lx  t1=0x%lx  t2=0x%lx\n") (word r.t0 ∷ word r.t1 ∷ word r.t2 ∷ [])
    ⨾ printf (chars "s2=0x%lx  s3=0x%lx  s4=0x%lx  s5=0x%lx\n")
        (word r.s2 ∷ word r.s3 ∷ word r.s4 ∷ word r.s5 ∷ [])
    ⨾ printf (chars "s6=0x%lx  s7=0x%lx  s8=0x%lx  s9=0x%lx\n")
        (word r.s6 ∷ word r.s7 ∷ word r.s8 ∷ word r.s9 ∷ [])
    ⨾ printf (chars "s10=0x%lx s11=0x%lx\n") (word r.s10 ∷ word r.s11 ∷ [])
    ⨾ printf (chars "t3=0x%lx  t4=0x%lx  t5=0x%lx  t6=0x%lx\n")
        (word r.t3 ∷ word r.t4 ∷ word r.t5 ∷ word r.t6 ∷ [])

unfoldable pub print_details : CrashContext → Option (List ℕ)
print_details c =
    printf (chars "\n-- Supervisor CSRs --\n") []
    ⨾ printf (chars "sepc=0x%lx  scause=0x%lx  stval=0x%lx  sstatus=0x%lx\n")
        (word c.csrs.sepc ∷ word c.csrs.scause ∷ word c.csrs.stval ∷ word c.csrs.sstatus ∷ [])
    ⨾ printf (chars "\n-- Process Info --\n") []
    ⨾ printf (chars "pid=%d  name=%s  state=%d\n")
        (word c.pid ∷ text (some (cstr c.pname)) ∷ word c.pstate ∷ [])
    ⨾ printf (chars "\n-- Stack Trace (FP walk, %d frames) --\n") (word c.stack_depth ∷ [])

-- A frame outside `stacktrace` is undefined behaviour.
unfoldable pub print_frame : ℕ → CrashContext → Option (List ℕ)
print_frame i c =
    Option.bind (get_elem? c.stacktrace i)
      (λ pc. printf (chars "  [%d] 0x%lx\n") (word i ∷ word pc ∷ []))

-- The loop over the frames from round i, with `rounds` rounds of 10 left; `stack_depth` is an `int`.
unfoldable pub print_frames : ℕ → ℕ → CrashContext → Option (List ℕ)
unfolding print_frame
print_frames zero i c = some []
print_frames (suc rounds) i c =
    let next = print_frame i c ⨾ print_frames rounds (i + 1) c in
    if ltb c.stack_depth (2 ^ 31) && ltb i c.stack_depth then next else some []

unfoldable pub print_body : CrashContext → Option (List ℕ)
unfolding print_facts print_regs print_details print_frames
print_body c =
    print_facts c
    ⨾ print_regs c.regs
    ⨾ print_details c
    ⨾ print_frames 10 0 c
    ⨾ printf (chars "====================================================\n") []

unfoldable pub print_ctx : CrashContext → Option (List ℕ)
unfolding print_body
print_ctx c =
    printf (chars "\n========== SAVED KERNEL PANIC CRASH DUMP ==========\n") []
    ⨾ (if c.magic == crash_magic
        then print_body c
        else printf (chars "(No valid crash context found. magic=0x%x, expected 0x%x)\n")
            (word c.magic ∷ word crash_magic ∷ []))

-- What the system call returns and what it leaves in `ctx` and `sz`.
pub record Reply : Type 0 where
  pub ret : ℕ
  pub ctx : CrashContext
  pub sz : ℕ

-- An `int` of -1.
abbrev pub failed : ℕ
failed = 2 ^ 32 - 1

abbrev ending : Option (List ℕ) → ℕ → Option (List ℕ × ℕ)
ending out status = Option.map (λ cs. (cs, status)) out

-- `main`: what it writes, and its result.
unfoldable pub main : ℕ → Reply → Option (List ℕ × ℕ)
unfolding print_ctx
main context_size reply =
    if ltb reply.ret (2 ^ 31)
    then (if reply.sz == context_size
        then ending (print_ctx reply.ctx) 0
        else ending
            (printf (chars "dumppanic: size mismatch (expected %lu, got %lu)\n")
              (word context_size ∷ word reply.sz ∷ []))
            failed)
    else ending (printf (chars "dumppanic: syscall failed\n") []) failed
