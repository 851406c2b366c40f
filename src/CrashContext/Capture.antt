-- ===== src/CrashContext/Capture.antt =====
-- When a crash context captures the machine and the kernel, and what it holds before the walk.
use kernel_panic_logger.Prelude.{
  ℕ, ◌≡◌, refl, ◌∙◌, ap, List, [], ◌∷◌, ◌++◌, true, arith, length, take, drop, replicate, Option,
  none, some, length-append, length-drop,
}
use kernel_panic_logger.CString.{safestrcpy, cstr}
use kernel_panic_logger.CString.Copy.{safestrcpy-IsCopy}
use kernel_panic_logger.Kernel.{
  Kernel, CrashContext, Proc, Machine, zero_context, chars, crash_magic,
}
use kernel_panic_logger.CrashContext.{minus_one, save_proc}
use kernel_panic_logger.CrashContext.Walk.{Walks, length-Walks}

-- The process that a context names: that of the hart, or none, written as -1 and "(none)".
abbrev pub IsProcOf : Option Proc → CrashContext → Type 0
IsProcOf (some p) c =
    (c.pid ≡ p.pid) × (cstr c.pname ≡ cstr (take 15 (cstr p.name))) × (c.pstate ≡ p.state)
IsProcOf none c = (c.pid ≡ minus_one) × (cstr c.pname ≡ chars "(none)") × (c.pstate ≡ minus_one)

-- The context holds the machine, the process, the ticks, the hart, the message cut to 127 bytes and
-- the return addresses `pcs` that a walk of at most 10 frames from s0 finds.
pub record Captures (m : Machine) (msg : List ℕ) (k : Kernel) (c : CrashContext) : Type 0 where
  pub regs : c.regs ≡ m.regs
  pub csrs : c.csrs ≡ m.csrs
  pub process : IsProcOf m.proc c
  pub ticks : c.panic_ticks ≡ k.ticks
  pub cpu : c.cpu ≡ k.hart.hartid
  pub message : cstr c.panic_msg ≡ cstr (take 127 msg)
  pub pcs : List ℕ
  pub walks : Walks m.load 10 m.regs.s0 pcs
  pub depth : c.stack_depth ≡ length pcs
  pub trace : take (length pcs) c.stacktrace ≡ pcs
  pub trace_size : length c.stacktrace ≡ 10
  pub magic : c.magic ≡ crash_magic

-- The context before the walk.
unfoldable pub before_walk : Machine → List ℕ → Kernel → CrashContext
before_walk m msg k =
    let c =
      save_proc m.proc
        (record zero_context { regs = m.regs; csrs = m.csrs; panic_ticks = k.ticks }) in
    record c { cpu = k.hart.hartid; panic_msg = safestrcpy c.panic_msg msg 128 }

-- Marking a walked context as valid.
abbrev pub mark : CrashContext → CrashContext
mark c = record c { magic = crash_magic }

take_front : (xs ys : List ℕ) → take (length xs) (xs ++ ys) ≡ xs
take_front [] ys = refl
take_front (x ∷ xs) ys = ap (λ l. x ∷ l) (take_front xs ys)

process_of : (o : Option Proc) (c : CrashContext) → length c.pname ≡ 16 → IsProcOf o (save_proc o c)
unfolding save_proc
process_of (some p) c h = (
  refl,
  (safestrcpy-IsCopy c.pname (cstr p.name) 16 (omega arith) (omega arith) (omega (arith, h))).text,
  refl,
)
process_of none c h = (
  refl,
  (safestrcpy-IsCopy c.pname (chars "(none)") 16 (omega arith) (omega arith)
        (omega (arith, h))).text
      ∙ plain,
  refl,
)
  where
    plain : cstr (take 15 (chars "(none)")) ≡ chars "(none)"
    plain = unfold cstr in refl

-- What the walk starts from does not depend on whether the hart runs a process.
pub record Starts (m : Machine) (msg : List ℕ) (k : Kernel) (c : CrashContext) : Type 0 where
  pub regs : c.regs ≡ m.regs
  pub csrs : c.csrs ≡ m.csrs
  pub process : IsProcOf m.proc c
  pub ticks : c.panic_ticks ≡ k.ticks
  pub cpu : c.cpu ≡ k.hart.hartid
  pub message : cstr c.panic_msg ≡ cstr (take 127 msg)
  pub trace_size : length c.stacktrace ≡ 10
  pub magic : c.magic ≡ 0

pub before_walk-Starts :
    (m : Machine) (msg : List ℕ) (k : Kernel) → Starts m msg k (before_walk m msg k)
unfolding before_walk save_proc zero_context
before_walk-Starts m msg k = from m.proc
  where
    base : CrashContext
    base = record zero_context { regs = m.regs; csrs = m.csrs; panic_ticks = k.ticks }

    message : cstr (safestrcpy (replicate 128 0) msg 128) ≡ cstr (take 127 msg)
    message =
        (safestrcpy-IsCopy (replicate 128 0) msg 128 (omega arith) (omega arith) (omega arith)).text

    from :
        (o : Option Proc)
        → Starts (record m { proc = o }) msg k (before_walk (record m { proc = o }) msg k)
    from (some p) = record {
      regs = refl;
      csrs = refl;
      process = process_of (some p) base refl;
      ticks = refl;
      cpu = refl;
      message = message;
      trace_size = refl;
      magic = refl;
    }
    from none = record {
      regs = refl;
      csrs = refl;
      process = process_of none base refl;
      ticks = refl;
      cpu = refl;
      message = message;
      trace_size = refl;
      magic = refl;
    }

-- The context as it is stored, with these return addresses.
abbrev pub traced : CrashContext → List ℕ → CrashContext
traced c pcs = record c {
  stacktrace = pcs ++ drop (length pcs) c.stacktrace;
  stack_depth = length pcs;
}

pub traced-Captures :
    (m : Machine) (msg : List ℕ) (k : Kernel) (c : CrashContext) (pcs : List ℕ)
    → Starts m msg k c
    → Walks m.load 10 m.regs.s0 pcs
    → Captures m msg k (mark (traced c pcs))
traced-Captures m msg k c pcs s w = record {
  regs = s.regs;
  csrs = s.csrs;
  process = keep m.proc s.process;
  ticks = s.ticks;
  cpu = s.cpu;
  message = s.message;
  pcs = pcs;
  walks = w;
  depth = refl;
  trace = take_front pcs (drop (length pcs) c.stacktrace);
  trace_size = omega (
    arith,
    length-append pcs (drop (length pcs) c.stacktrace),
    length-drop (length pcs) c.stacktrace,
    length-Walks w,
    s.trace_size,
  );
  magic = refl;
}
  where
    keep : (o : Option Proc) → IsProcOf o c → IsProcOf o (mark (traced c pcs))
    keep (some q) e = e
    keep none e = e

-- Setting `panicking` changes nothing that a context captures.
pub same_capture :
    {m : Machine} {msg : List ℕ} {c : CrashContext} (k : Kernel)
    → Captures m msg (record k { panicking = true }) c
    → Captures m msg k c
same_capture k cap = record {
  regs = cap.regs;
  csrs = cap.csrs;
  process = cap.process;
  ticks = cap.ticks;
  cpu = cap.cpu;
  message = cap.message;
  pcs = cap.pcs;
  walks = cap.walks;
  depth = cap.depth;
  trace = cap.trace;
  trace_size = cap.trace_size;
  magic = cap.magic;
}
