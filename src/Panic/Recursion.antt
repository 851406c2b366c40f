-- ===== src/Panic/Recursion.antt =====
-- A panic that already holds a lock which the logger takes runs `panic` again and again.
use kernel_panic_logger.Prelude.{ℕ, zero, suc, ◌≡◌, refl, ◌∙◌, sym, List, true, false, arith}
use mathlib.Core.Path.{subst}
use kernel_panic_logger.Outcome.{panics, and_then, panics_first}
use kernel_panic_logger.Spinlock.{Cpu, Spinlock, holding, push_off}
use kernel_panic_logger.Spinlock.Laws.{IsSane, IsFree, settle, settle_lem, push_off_quiet}
use kernel_panic_logger.Kernel.{Kernel, Machine, chars}
use kernel_panic_logger.LogBuffer.Flush.{log_flush_held}
use kernel_panic_logger.CrashContext.Walk.{Walks}
use kernel_panic_logger.CrashContext.Capture.{Captures, same_capture}
use kernel_panic_logger.CrashContext.Save.{save_held, log_save-Saves}
use kernel_panic_logger.Panic.{panic_body, panic, overflows}
use kernel_panic_logger.Panic.Repeats.{Repeats, out_of_stack, again, Repeats-overflows}

-- An attempt that ends with no context marked as valid and nothing printed.
abbrev pub Silent : List ℕ → Kernel → Kernel → Type 0
Silent msg k k' = (k'.saved_crash_ctx.magic ≡ 0) × (k'.console ≡ k.console)

-- An attempt that ends with a context stored that captures it, and nothing printed.
abbrev pub SavesOnly : Machine → List ℕ → Kernel → Kernel → Type 0
SavesOnly m msg k k' = Captures m msg k k'.saved_crash_ctx × (k'.console ≡ k.console)

holding-push_off : (c : Cpu) (lk : Spinlock) → holding (push_off c) lk ≡ holding c lk
unfolding holding push_off
holding-push_off c lk = ground arith

holding-settle : (c : Cpu) (lk : Spinlock) → IsSane c → holding (settle c) lk ≡ holding c lk
unfolding holding
holding-settle c lk sane = rw (settle_lem c sane).3 refl

body_ticks_held :
    (m : Machine) (msg : List ℕ) (k : Kernel)
    → holding k.hart k.tickslock ≡ true
    → (k' : Kernel) × (panic_body m msg k ≡ panics "acquire" k')
      × Silent msg k k'
      × (holding k'.hart k'.tickslock ≡ true)
unfolding panic_body
body_ticks_held m msg k held =
    let (k', e, magic, hart, lock, console) =
      save_held m msg (record k { panicking = true }) held in
    (
      k',
      and_then _ _ refl (panics_first _ _ e),
      (magic, console),
      rw (hart, lock, holding-push_off k.hart k.tickslock) held,
    )

ticks_held-Repeats :
    (depth : ℕ) (m : Machine) (msg : List ℕ) (k : Kernel)
    → holding k.hart k.tickslock ≡ true
    → Repeats m Silent depth msg k
ticks_held-Repeats zero m msg k held = out_of_stack
ticks_held-Repeats (suc depth) m msg k held =
    let (k', e, silent, held') = body_ticks_held m msg k held in
    again k' e silent (ticks_held-Repeats depth m (chars "acquire") k' held')

-- A hart that panics while it holds the ticks' lock, as inside the clock interrupt, never halts:
-- however deep the stack, it overflows. In each attempt `panic` calls itself again with nothing
-- printed and no context marked as valid.
pub panic_ticks_held :
    (depth : ℕ) (m : Machine) (msg : List ℕ) (k : Kernel)
    → holding k.hart k.tickslock ≡ true
    → (panic depth m msg k ≡ overflows) × Repeats m Silent depth msg k
panic_ticks_held depth m msg k held =
    let repeats = ticks_held-Repeats depth m msg k held in (Repeats-overflows repeats, repeats)

body_log_held :
    (m : Machine) (msg : List ℕ) (k : Kernel) (pcs : List ℕ)
    → Walks m.load 10 m.regs.s0 pcs
    → holding k.hart k.logbuf.lock ≡ true
    → k.flushing ≡ false
    → IsFree k.tickslock
    → IsSane k.hart
    → (k' : Kernel) × (panic_body m msg k ≡ panics "acquire" k')
      × SavesOnly m msg k k'
      × (holding k'.hart k'.logbuf.lock ≡ true)
      × (k'.flushing ≡ false)
      × (k'.tickslock ≡ k.tickslock)
      × IsSane k'.hart
unfolding panic_body
body_log_held m msg k pcs mapped held idle free sane =
    let k0 : Kernel = record k { panicking = true } in
    let (c, saves, cap) = log_save-Saves m msg k0 free sane pcs mapped in
    let saved : Kernel = record k0 { hart = settle k.hart; saved_crash_ctx = c } in
    let held' = holding-settle k.hart k.logbuf.lock sane ∙ held in
    (
      record saved { hart = push_off (settle k.hart) },
      and_then _ _ refl (and_then _ _ saves (panics_first _ _ (log_flush_held saved idle held'))),
      (same_capture k cap, refl),
      holding-push_off (settle k.hart) k.logbuf.lock ∙ held',
      idle,
      refl,
      (push_off_quiet (settle k.hart)).0,
    )

log_held-Repeats :
    (depth : ℕ) (m : Machine) (msg : List ℕ) (k : Kernel) (pcs : List ℕ)
    → Walks m.load 10 m.regs.s0 pcs
    → holding k.hart k.logbuf.lock ≡ true
    → k.flushing ≡ false
    → IsFree k.tickslock
    → IsSane k.hart
    → Repeats m (SavesOnly m) depth msg k
log_held-Repeats zero m msg k pcs mapped held idle free sane = out_of_stack
log_held-Repeats (suc depth) m msg k pcs mapped held idle free sane =
    let (k', e, saves, held', idle', lock, sane') =
      body_log_held m msg k pcs mapped held idle free sane in
    again k' e saves (
      log_held-Repeats depth m (chars "acquire") k' pcs mapped held' idle'
        (subst IsFree (sym lock) free) sane')

-- A hart that panics while it holds the buffer's lock outside a flush, as inside `log_add`, with the
-- ticks' lock free and every word mapped that the walk of the stack reads, never halts: however deep
-- the stack, it overflows. Each attempt stores a context that captures its message and the machine,
-- and calls panic again with nothing printed.
pub panic_log_held :
    (depth : ℕ) (m : Machine) (msg : List ℕ) (k : Kernel) (pcs : List ℕ)
    → Walks m.load 10 m.regs.s0 pcs
    → holding k.hart k.logbuf.lock ≡ true
    → k.flushing ≡ false
    → IsFree k.tickslock
    → IsSane k.hart
    → (panic depth m msg k ≡ overflows) × Repeats m (SavesOnly m) depth msg k
panic_log_held depth m msg k pcs mapped held idle free sane =
    let repeats = log_held-Repeats depth m msg k pcs mapped held idle free sane in
    (Repeats-overflows repeats, repeats)
