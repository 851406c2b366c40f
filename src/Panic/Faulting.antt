-- ===== src/Panic/Faulting.antt =====
-- A panic whose walk of the stack reads a word that is not mapped.
use kernel_panic_logger.Prelude.{
  ℕ, zero, suc, ◌%◌, ◌^◌, ◌≡◌, refl, List, [], ◌∷◌, ◌++◌, String, false, true, if◌then◌else◌, ltb,
  inl, inr, Bool-cases, if_true, if_false, append-nil, ◌∙◌, ap, sym,
}
use kernel_panic_logger.Outcome.{panics, and_then, panics_first}
use kernel_panic_logger.Spinlock.Laws.{IsSane, IsFree, settle}
use kernel_panic_logger.Kernel.{Kernel, Machine, Csrs, chars}
use kernel_panic_logger.Printk.{printf-Prints}
use kernel_panic_logger.CrashContext.{kerneltrap}
use kernel_panic_logger.CrashContext.Text.{Row, row, row-Prints}
use kernel_panic_logger.CrashContext.Walk.{Faults}
use kernel_panic_logger.CrashContext.Save.{log_save-Traps}
use kernel_panic_logger.Panic.{panic_body}
use kernel_panic_logger.Panic.Repeats.{Repeats, out_of_stack, again}

abbrev pub trap_row : Csrs → Row
trap_row t = ("scause=0x", t.scause) ∷ (" sepc=0x", t.sepc) ∷ (" stval=0x", t.stval) ∷ []

-- What `kerneltrap` prints: its line, unless the trap does not come from supervisor mode.
abbrev pub trap_text : Csrs → List ℕ
trap_text t = if ltb (t.sstatus % 2 ^ 9) (2 ^ 8) then [] else row (trap_row t)

-- During a panic `kerneltrap` calls panic.
kerneltrap_panics :
    (t : Csrs) (k : Kernel)
    → k.panicking ≡ true
    → (why : String) × (kerneltrap t k
        ≡ panics why (record k {
          hart = record k.hart { intr = false };
          console = k.console ++ trap_text t;
        }))
unfolding kerneltrap
kerneltrap_panics t k p = elim (Bool-cases (ltb (t.sstatus % 2 ^ 9) (2 ^ 8))) [
  | inl h ↦ (
    "kerneltrap: not from supervisor mode",
    and_then _ _ {s' = k1} refl (
        panics_first _ _ (
          if_true _ _ h ∙ λ i.
          panics "kerneltrap: not from supervisor mode" (record k1 { console = unprinted h i }))),
  )
  | inr h ↦ (
    "kerneltrap",
    and_then _ _ {s' = k1} refl (
        and_then _ _ {s' = k1} (if_false _ _ h) (
          and_then _ _ {s' = k1} refl (
            and_then _ _ (printf-Prints k1 (inl p) (row-Prints (trap_row t) refl))
              λ i. panics "kerneltrap" (record k1 { console = printed h i })))),
  )
]
  where
    k1 : Kernel
    k1 = record k { hart = record k.hart { intr = false } }

    unprinted : ltb (t.sstatus % 2 ^ 9) (2 ^ 8) ≡ true → k.console ≡ k.console ++ trap_text t
    unprinted h = sym (append-nil k.console) ∙ ap (λ l. k.console ++ l) (sym (if_true _ _ h))

    printed :
        ltb (t.sstatus % 2 ^ 9) (2 ^ 8) ≡ false
        → k.console ++ row (trap_row t) ≡ k.console ++ trap_text t
    printed h = ap (λ l. k.console ++ l) (sym (if_false _ _ h))

-- An attempt whose walk faults: it has printed what `kerneltrap` prints, and no context is marked as
-- valid.
pub record Trapped (m : Machine) (msg : List ℕ) (k k' : Kernel) : Type 0 where
  pub address : ℕ
  pub faults : Faults m.load 10 m.regs.s0 address
  pub unmarked : k'.saved_crash_ctx.magic ≡ 0
  pub printed : k'.console ≡ k.console ++ trap_text (m.trap address)
  pub unflushed : k'.logbuf ≡ k.logbuf

module _ (m : Machine) (address : ℕ) (f : Faults m.load 10 m.regs.s0 address) where
  body_faults :
      (msg : List ℕ) (k : Kernel)
      → IsFree k.tickslock
      → IsSane k.hart
      → (why : String) × (k' : Kernel) × (panic_body m msg k ≡ panics why k')
        × Trapped m msg k k'
        × IsFree k'.tickslock
        × IsSane k'.hart
  unfolding panic_body
  body_faults msg k free sane =
      let k0 : Kernel = record k { panicking = true } in
      let t = log_save-Traps m msg k0 free sane address f in
      let k1 : Kernel = record k0 { hart = settle k.hart; saved_crash_ctx = t.context } in
      let (why, e) = kerneltrap_panics (m.trap t.address) k1 refl in
      (
        why,
        record k1 {
          hart = record (settle k.hart) { intr = false };
          console = k.console ++ trap_text (m.trap t.address);
        },
        and_then _ _ refl (panics_first _ _ (t.runs ∙ e)),
        record {
          address = t.address;
          faults = t.faults;
          unmarked = t.unmarked;
          printed = refl;
          unflushed = refl;
        },
        free,
        λ h. refl,
      )

  -- Each attempt ends in this way.
  pub faults-Repeats :
      (depth : ℕ) (msg : List ℕ) (k : Kernel)
      → IsFree k.tickslock
      → IsSane k.hart
      → Repeats m (Trapped m) depth msg k
  faults-Repeats zero msg k free sane = out_of_stack
  faults-Repeats (suc depth) msg k free sane =
      let (why, k', e, t, free', sane') = body_faults msg k free sane in
      again k' e t (faults-Repeats depth (chars why) k' free' sane')
