-- ===== src/CrashContext/Save.antt =====
-- What `log_save_crash_context` stores.
use kernel_panic_logger.Prelude.{ℕ, ◌≡◌, refl, ◌∙◌, ap, sym, List, true, none, ◌⊎◌, inl, inr}
use mathlib.Core.Path.{subst}
use kernel_panic_logger.Outcome.{
  Outcome, ok, panics, ◌>>◌, Escapes, by_panic, >>=-Escapes, skips_rest, and_then, zoom_of_ok,
  panics_first, zoom_of_panics, modify,
}
use kernel_panic_logger.Spinlock.{acquire, release, push_off, pop_off, holding}
use kernel_panic_logger.Spinlock.Laws.{
  IsSane, IsFree, settle, settle_lem, acquire_free, release_on_taken, acquire_held,
  pop_off-push_off,
}
use kernel_panic_logger.Kernel.{Kernel, CrashContext, Csrs, Machine, zero_context}
use kernel_panic_logger.CrashContext.{
  myproc, save_stack, walk_stack, kerneltrap, on_context, log_save_crash_context,
}
use kernel_panic_logger.CrashContext.Walk.{
  Walks, Faults, walk_cases, FaultsAt, save_stack-Walks, save_stack-FaultsAt,
}
use kernel_panic_logger.CrashContext.Capture.{
  Captures, Starts, before_walk, mark, traced, before_walk-Starts, traced-Captures,
}

-- The state before the walk.
abbrev pub at_walk : Machine → List ℕ → Kernel → Kernel
at_walk m msg k = record k { hart = settle k.hart; saved_crash_ctx = before_walk m msg k }

pub myproc_lem :
    (m : Machine) (k : Kernel)
    → IsSane k.hart
    → myproc m k ≡ ok m.proc (record k { hart = settle k.hart })
unfolding myproc
myproc_lem m k sane =
    and_then _ _ (zoom_of_ok _ _ (modify push_off) refl)
      (and_then _ _ (zoom_of_ok _ _ pop_off (pop_off-push_off k.hart sane)) refl)

-- With the ticks' lock free the routine reaches the walk, with all but the trace stored.
save_walks :
    (m : Machine) (msg : List ℕ) (k : Kernel)
    → IsFree k.tickslock
    → IsSane k.hart
    → log_save_crash_context m msg k ≡ (walk_stack m >> on_context mark) (at_walk m msg k)
unfolding log_save_crash_context before_walk
save_walks m msg k free sane = and_then _ _ refl (
    and_then _ _ refl (
      and_then _ _ refl (
        and_then _ _ (zoom_of_ok _ _ acquire (acquire_free _ free)) (
          and_then _ _ refl (
            and_then _ _
              (zoom_of_ok _ _ release
                (release_on_taken (record { hart = k.hart; lock = k.tickslock }) sane free))
              (and_then _ _ (myproc_lem m _ (settle_lem k.hart sane).0) (
                and_then _ _ refl (
                  and_then _ _ refl (
                    and_then _ _ refl λ i. (walk_stack m >> on_context mark) (record k {
                      hart = same i;
                      saved_crash_ctx = record (before_walk m msg k) { cpu = hartid i };
                    }))))))))))
  where
    settled :
        IsSane (settle k.hart)
        × ((settle k.hart).intr ≡ k.hart.intr)
        × ((settle k.hart).noff ≡ k.hart.noff)
        × ((settle k.hart).hartid ≡ k.hart.hartid)
        × (settle (settle k.hart) ≡ settle k.hart)
    settled = settle_lem k.hart sane

    same : settle (settle k.hart) ≡ settle k.hart
    same = settled.4

    hartid : (settle (settle k.hart)).hartid ≡ k.hart.hartid
    hartid = ap (λ h. h.hartid) same ∙ settled.3

-- With the ticks' lock held by the hart that panics, the routine calls panic again, before it has
-- stored a message or printed a byte: the context keeps magic 0.
pub save_held :
    (m : Machine) (msg : List ℕ) (k : Kernel)
    → holding k.hart k.tickslock ≡ true
    → (k' : Kernel) × (log_save_crash_context m msg k ≡ panics "acquire" k')
      × (k'.saved_crash_ctx.magic ≡ 0)
      × (k'.hart ≡ push_off k.hart)
      × (k'.tickslock ≡ k.tickslock)
      × (k'.console ≡ k.console)
unfolding log_save_crash_context zero_context
save_held m msg k held = (
  record k {
    hart = push_off k.hart;
    saved_crash_ctx = record zero_context { regs = m.regs; csrs = m.csrs };
  },
  and_then _ _ refl (
      and_then _ _ refl
        (and_then _ _ refl (panics_first _ _ (zoom_of_panics _ _ acquire (acquire_held _ held))))),
  refl,
  refl,
  refl,
  refl,
)

-- An outcome on state k that returns with a context stored that captures it, and nothing else changed
-- but the hart's `intena`.
abbrev pub Saves : Machine → List ℕ → Kernel → Outcome Kernel (Unit {0}) → Type 0
Saves m msg k r =
    (c : CrashContext) × (r ≡ ok tt (record k { hart = settle k.hart; saved_crash_ctx = c }))
    × Captures m msg k c

-- An outcome on state k whose walk faults: `kerneltrap` runs with a context stored that is not marked
-- as valid, and does not return.
pub record Traps (m : Machine) (k : Kernel) (r : Outcome Kernel (Unit {0})) : Type 0 where
  pub address : ℕ
  pub faults : Faults m.load 10 m.regs.s0 address
  pub context : CrashContext
  pub runs :
      r ≡ kerneltrap (m.trap address) (record k { hart = settle k.hart; saved_crash_ctx = context })
  pub unmarked : context.magic ≡ 0
  pub escapes : Escapes r

kerneltrap-Escapes : (t : Csrs) (k : Kernel) → Escapes (kerneltrap t k)
unfolding kerneltrap
kerneltrap-Escapes t k = >>=-Escapes _ _ k λ a0 k0.
    >>=-Escapes _ _ k0 λ a1 k1. >>=-Escapes _ _ k1 λ a2 k2. >>=-Escapes _ _ k2 λ a3 k3. by_panic

module _ (m : Machine) (msg : List ℕ) (k : Kernel) (free : IsFree k.tickslock)
    (sane : IsSane k.hart) where
  abbrev start : CrashContext
  start = before_walk m msg k

  starts : Starts m msg k start
  starts = before_walk-Starts m msg k

  -- If the walk reads mapped words only, the routine returns.
  pub log_save-Saves :
      (pcs : List ℕ)
      → Walks m.load 10 m.regs.s0 pcs
      → Saves m msg k (log_save_crash_context m msg k)
  unfolding walk_stack
  log_save-Saves pcs w = (
    mark (traced start pcs),
    save_walks m msg k free sane ∙ and_then _ _ stored refl,
    traced-Captures m msg k start pcs starts w,
  )
    where
      walk : save_stack m.load start ≡ (traced start pcs, none)
      walk =
          save_stack-Walks start pcs starts.trace_size
            (subst (λ r. Walks m.load 10 r.s0 pcs) (sym starts.regs) w)

      stored :
          walk_stack m (at_walk m msg k)
          ≡ ok tt (record (at_walk m msg k) { saved_crash_ctx = traced start pcs })
      stored =
          rw (walk, walk_stack)
            λ i. ok tt (record (at_walk m msg k) { saved_crash_ctx = (walk i).0 })

  -- If a load of the walk faults, the routine does not get past it.
  pub log_save-Traps :
      (address : ℕ)
      → Faults m.load 10 m.regs.s0 address
      → Traps m k (log_save_crash_context m msg k)
  unfolding walk_stack
  log_save-Traps address f = record {
    address = address;
    faults = f;
    context = (save_stack m.load start).0;
    runs = runs;
    unmarked = x.magic ∙ starts.magic;
    escapes = subst Escapes (sym runs) (kerneltrap-Escapes (m.trap address) stored);
  }
    where
      x : FaultsAt address start (save_stack m.load start)
      x =
          save_stack-FaultsAt start address
            (subst (λ r. Faults m.load 10 r.s0 address) (sym starts.regs) f)

      stored : Kernel
      stored = record (at_walk m msg k) { saved_crash_ctx = (save_stack m.load start).0 }

      trapped : walk_stack m (at_walk m msg k) ≡ kerneltrap (m.trap address) stored
      trapped = rw (x.where_at, walk_stack) refl

      runs : log_save_crash_context m msg k ≡ kerneltrap (m.trap address) stored
      runs =
          save_walks m msg k free sane
          ∙ (skips_rest (walk_stack m) (λ _. on_context mark) (at_walk m msg k)
                (subst Escapes (sym trapped) (kerneltrap-Escapes (m.trap address) stored))
              ∙ trapped)

-- With the ticks' lock free, `log_save_crash_context` does one of two things, on every machine. If
-- every word that the walk reads is mapped, it returns and stores a context that captures the
-- machine, the process, the ticks, the hart, the message and the stack trace, with the magic number;
-- nothing else changes but the hart's `intena`. If a load of the walk faults, it ends in `kerneltrap`
-- with a context of magic 0.
pub log_save_lem :
    (m : Machine) (msg : List ℕ) (k : Kernel)
    → IsFree k.tickslock
    → IsSane k.hart
    → Saves m msg k (log_save_crash_context m msg k) ⊎ Traps m k (log_save_crash_context m msg k)
log_save_lem m msg k free sane = elim (walk_cases m.load 10 m.regs.s0) [
  | inl (pcs, w) ↦ inl (log_save-Saves m msg k free sane pcs w)
  | inr (address, f) ↦ inr (log_save-Traps m msg k free sane address f)
]
