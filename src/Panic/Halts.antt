-- ===== src/Panic/Halts.antt =====
-- A panic that can take its locks runs through and halts, unless its walk of the stack faults.
use kernel_panic_logger.Prelude.{ℕ, ◌≡◌, List, [], ◌∷◌, ◌++◌, true, ◌⊎◌}
use kernel_panic_logger.Spinlock.Laws.{settle}
use kernel_panic_logger.Kernel.{Kernel, Machine, CrashContext, chars}
use kernel_panic_logger.CrashContext.Capture.{Captures}
use kernel_panic_logger.CrashContext.Dump.{dump_text}
use kernel_panic_logger.Panic.{panic, Fate, halted, overflows}
use kernel_panic_logger.Panic.Repeats.{Repeats}
use kernel_panic_logger.Panic.Faulting.{Trapped}

-- What a panic prints after the flush, with context c saved.
pub tail_text : List ℕ → CrashContext → List ℕ
tail_text msg c = chars "panic: " ++ ((msg ++ (b'\n' ∷ [])) ++ dump_text c)

-- The state in which a panic spins: the context is saved, `out` is printed, and both flags are set.
abbrev pub final : Kernel → CrashContext → List ℕ → Kernel
final k c out = record k {
  hart = settle k.hart;
  saved_crash_ctx = c;
  panicking = true;
  panicked = true;
  console = k.console ++ out;
}

-- A panic on state k that halts with `out` printed, `out` showing a context that captures the state.
abbrev pub HaltsWith : Machine → List ℕ → Kernel → Fate → (CrashContext → List ℕ) → Type 0
HaltsWith m msg k fate out =
    (c : CrashContext) × (fate ≡ halted (final k c (out c))) × Captures m msg k c

-- A panic that halts, with `out` printed, or does not come to its flush in any of its attempts.
abbrev pub HaltsOrTraps : Machine → List ℕ → Kernel → ℕ → (CrashContext → List ℕ) → Type 0
HaltsOrTraps m msg k depth out =
    HaltsWith m msg k (panic depth m msg k) out
    ⊎ ((panic depth m msg k ≡ overflows) × Repeats m (Trapped m) depth msg k)
