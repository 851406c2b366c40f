-- ===== src/CrashContext.antt =====
-- The crash context of xv6-riscv/kernel/paniclog.c: `log_save_crash_context`,
-- `log_dump_crash_context`, `log_init`, and `myproc` of proc.c, as one hart runs them. `Machine`
-- (Kernel.antt) holds what the inline assembly, the CSR reads and the frame loads see.
pub mod Walk
pub mod Capture
pub mod Save
pub mod Text
pub mod Dump
pub mod Init
use kernel_panic_logger.Prelude.{
  ℕ, zero, suc, ◌+◌, ◌-◌, ◌%◌, ◌^◌, List, [], ◌∷◌, ◌++◌, Option, none, some, Bool, true, false,
  ◌||◌, ◌&&◌, not, if◌then◌else◌, ◌==◌, ltb, leb, get_elem?, set, replicate,
}
use kernel_panic_logger.Outcome.{Outcome, ok, panics, spins, undefined, ◌>>=◌, ◌>>◌, modify, pure}
use kernel_panic_logger.Spinlock.{
  Cpu, Spinlock, Pair, acquire, release, initlock, push_off, pop_off,
}
use kernel_panic_logger.CString.{safestrcpy, cstr}
use kernel_panic_logger.Format.{Arg, word, text}
use kernel_panic_logger.Kernel.{
  Kernel, LogBuf, LogEntry, Regs, Csrs, CrashContext, Proc, Machine, zero_context, chars,
  crash_magic, on_tickslock, on_hart, log_size,
}
use kernel_panic_logger.Printk.{printf}

-- An `int` of -1.
abbrev pub minus_one : ℕ
minus_one = 2 ^ 32 - 1

abbrev pub on_context : (CrashContext → CrashContext) → Kernel → Outcome Kernel (Unit {0})
on_context f = modify (λ k. record k { saved_crash_ctx = f k.saved_crash_ctx })

-- `push_off(); c = mycpu(); p = c->proc; pop_off();`
unfoldable pub myproc : Machine → Kernel → Outcome Kernel (Option Proc)
myproc m = do on_hart (modify push_off); on_hart pop_off; pure m.proc

-- The stores of pid, pname and pstate.
unfoldable pub save_proc : Option Proc → CrashContext → CrashContext
save_proc (some p) c = record c {
  pid = p.pid;
  pname = safestrcpy c.pname (cstr p.name) 16;
  pstate = p.state;
}
save_proc none c = record c {
  pid = minus_one;
  pname = safestrcpy c.pname (chars "(none)") 16;
  pstate = minus_one;
}

-- The loop from round i with `rounds` rounds left: `frame[1]` and `frame[0]` are the words at fp + 8
-- and at fp. The result is the context so far and the address of the load that faults, if one does.
unfoldable pub walk_loop : (ℕ → Option ℕ) → ℕ → ℕ → ℕ → CrashContext → CrashContext × Option ℕ
walk_loop load zero i fp c = (c, none)
walk_loop load (suc rounds) i fp c =
    let return_at = (fp + 8) % 2 ^ 64 in
    let next : CrashContext × Option ℕ = elim (load return_at) [
      | none ↦ (c, some return_at)
      | some pc ↦ elim (load fp) [
        | none ↦ (record c { stacktrace = set c.stacktrace i pc }, some fp)
        | some caller ↦
            walk_loop load rounds (i + 1) caller
              (record c { stacktrace = set c.stacktrace i pc; stack_depth = c.stack_depth + 1 })
      ]
    ] in
    if fp == 0 then (c, none) else next

unfoldable pub save_stack : (ℕ → Option ℕ) → CrashContext → CrashContext × Option ℕ
unfolding walk_loop
save_stack load c = walk_loop load 10 0 c.regs.s0 (record c { stack_depth = 0 })

-- `kerneltrap` as a load that faults enters it, with t the supervisor registers of the trap: the
-- hardware has turned interrupts off, and `devintr` returns 0, since a fault is no interrupt. Bit 8 of
-- sstatus is SSTATUS_SPP.
unfoldable pub kerneltrap : Csrs → Kernel → Outcome Kernel (Unit {0})
kerneltrap t = do
  modify (λ k. record k { hart = record k.hart { intr = false } })
  λ k.
      if ltb (t.sstatus % 2 ^ 9) (2 ^ 8)
      then panics "kerneltrap: not from supervisor mode" k
      else ok tt k
  λ k. if k.hart.intr then panics "kerneltrap: interrupts enabled" k else ok tt k
  printf (chars "scause=0x%lx sepc=0x%lx stval=0x%lx\n")
      (word t.scause ∷ word t.sepc ∷ word t.stval ∷ [])
  panics "kerneltrap"

-- The walk as the hart runs it: a load that faults enters `kerneltrap`, with the context as it is by
-- then.
unfoldable pub walk_stack : Machine → Kernel → Outcome Kernel (Unit {0})
unfolding save_stack kerneltrap
walk_stack m k =
    let stored : Kernel = record k { saved_crash_ctx = (save_stack m.load k.saved_crash_ctx).0 } in
    elim (save_stack m.load k.saved_crash_ctx).1 [
      | none ↦ ok tt stored
      | some address ↦ kerneltrap (m.trap address) stored
    ]

unfoldable pub log_save_crash_context : Machine → List ℕ → Kernel → Outcome Kernel (Unit {0})
unfolding walk_stack
log_save_crash_context m panic_msg = do
  on_context (λ c. zero_context)
  on_context (λ c. record c { regs = m.regs })
  on_context (λ c. record c { csrs = m.csrs })
  on_tickslock acquire
  modify (λ k. record k { saved_crash_ctx = record k.saved_crash_ctx { panic_ticks = k.ticks } })
  on_tickslock release
  p ← myproc m
  on_context (save_proc p)
  modify (λ k. record k { saved_crash_ctx = record k.saved_crash_ctx { cpu = k.hart.hartid } })
  on_context (λ c. record c { panic_msg = safestrcpy c.panic_msg panic_msg 128 })
  walk_stack m
  on_context (λ c. record c { magic = crash_magic })

unfoldable pub print_frame : ℕ → CrashContext → Kernel → Outcome Kernel (Unit {0})
print_frame i c k = elim (get_elem? c.stacktrace i) [
  | none ↦ undefined
  | some pc ↦ printf (chars "  [%d] 0x%lx\n") (word i ∷ word pc ∷ []) k
]

-- `for (int i = 0; i < stack_depth && i < 10; i++)` from round i, with `rounds` rounds of 10 left.
-- `stack_depth` is a signed `int`.
unfoldable pub dump_frames : ℕ → ℕ → CrashContext → Kernel → Outcome Kernel (Unit {0})
unfolding print_frame
dump_frames zero i c k = ok tt k
dump_frames (suc rounds) i c k =
    let next = (print_frame i c >> dump_frames rounds (i + 1) c) k in
    if ltb c.stack_depth (2 ^ 31) && ltb i c.stack_depth then next else ok tt k

unfoldable pub dump_regs : Regs → Kernel → Outcome Kernel (Unit {0})
dump_regs r = do
  printf (chars "ra=0x%lx  sp=0x%lx  gp=0x%lx  tp=0x%lx\n")
      (word r.ra ∷ word r.sp ∷ word r.gp ∷ word r.tp ∷ [])
  printf (chars "s0=0x%lx  s1=0x%lx\n") (word r.s0 ∷ word r.s1 ∷ [])
  printf (chars "a0=0x%lx  a1=0x%lx  a2=0x%lx  a3=0x%lx\n")
      (word r.a0 ∷ word r.a1 ∷ word r.a2 ∷ word r.a3 ∷ [])
  printf (chars "a4=0x%lx  a5=0x%lx  a6=0x%lx  a7=0x%lx\n")
      (word r.a4 ∷ word r.a5 ∷ word r.a6 ∷ word r.a7 ∷ [])
  printf (chars "t0=0x%lx  t1=0x%lx  t2=0x%lx\n") (word r.t0 ∷ word r.t1 ∷ word r.t2 ∷ [])
  printf (chars "s2=0x%lx  s3=0x%lx  s4=0x%lx  s5=0x%lx\n")
      (word r.s2 ∷ word r.s3 ∷ word r.s4 ∷ word r.s5 ∷ [])
  printf (chars "s6=0x%lx  s7=0x%lx  s8=0x%lx  s9=0x%lx\n")
      (word r.s6 ∷ word r.s7 ∷ word r.s8 ∷ word r.s9 ∷ [])
  printf (chars "s10=0x%lx s11=0x%lx\n") (word r.s10 ∷ word r.s11 ∷ [])
  printf (chars "t3=0x%lx  t4=0x%lx  t5=0x%lx  t6=0x%lx\n")
      (word r.t3 ∷ word r.t4 ∷ word r.t5 ∷ word r.t6 ∷ [])

unfoldable pub dump_header : CrashContext → Kernel → Outcome Kernel (Unit {0})
dump_header c = do
  printf (chars "\n========== KERNEL PANIC CRASH DUMP ==========\n") []
  printf (chars "Message: %s\n") (text (some (cstr c.panic_msg)) ∷ [])
  printf (chars "Ticks:   %ld\n") (word c.panic_ticks ∷ [])
  printf (chars "CPU:     %d\n") (word c.cpu ∷ [])
  printf (chars "\n-- RISC-V Register State --\n") []

unfoldable pub dump_details : CrashContext → Kernel → Outcome Kernel (Unit {0})
dump_details c = do
  printf (chars "\n-- Supervisor CSRs --\n") []
  printf (chars "sepc=0x%lx  scause=0x%lx  stval=0x%lx  sstatus=0x%lx\n")
      (word c.csrs.sepc ∷ word c.csrs.scause ∷ word c.csrs.stval ∷ word c.csrs.sstatus ∷ [])
  printf (chars "\n-- Process Info --\n") []
  printf (chars "pid=%d  name=%s  state=%d\n")
      (word c.pid ∷ text (some (cstr c.pname)) ∷ word c.pstate ∷ [])
  printf (chars "\n-- Stack Trace (FP walk, %d frames) --\n") (word c.stack_depth ∷ [])

unfoldable pub dump_body : CrashContext → Kernel → Outcome Kernel (Unit {0})
unfolding dump_header dump_regs dump_details dump_frames
dump_body c = do
  dump_header c
  dump_regs c.regs
  dump_details c
  dump_frames 10 0 c
  printf (chars "============================================\n") []

unfoldable pub log_dump_crash_context : Kernel → Outcome Kernel (Unit {0})
unfolding dump_body
log_dump_crash_context k =
    if k.saved_crash_ctx.magic == crash_magic
    then dump_body k.saved_crash_ctx k
    else printf (chars "No crash context saved (magic=0x%x, expected 0x%x)\n")
        (word k.saved_crash_ctx.magic ∷ word crash_magic ∷ []) k

-- `log_init`
unfoldable pub log_init : Kernel → Outcome Kernel (Unit {0})
log_init = do
  modify (λ k. record k { logbuf = record k.logbuf { lock = initlock "logbuf" } })
  modify (λ k. record k { logbuf = record k.logbuf { head = 0 } })
  modify (λ k. record k { logbuf = record k.logbuf { count = 0 } })
  on_context (λ c. zero_context)
  on_context (λ c. record c { magic = 0 })
