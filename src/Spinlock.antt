-- ===== src/Spinlock.antt =====
-- xv6-riscv/kernel/spinlock.c and the fields of `struct spinlock` (spinlock.h) and `struct cpu`
-- (proc.h) that it works on, as one hart runs it. The hart is a record of its own state and the
-- lock a record; a lock that another hart holds makes `acquire` spin.
pub mod Laws
use kernel_panic_logger.Prelude.{
  ℕ, ◌+◌, ◌-◌, ◌≡◌, Bool, true, false, ◌&&◌, Option, none, some, String, ltb, ◌==◌, if◌then◌else◌,
}
use kernel_panic_logger.Outcome.{Outcome, ok, panics, spins, ◌>>=◌, ◌>>◌, modify, zoom}

-- `struct cpu`, with the hart's interrupt-enable bit (sstatus.SIE) beside it.
pub record Cpu : Type 0 where
  pub hartid : ℕ
  pub intr : Bool
  pub noff : ℕ
  pub intena : Bool

-- `struct spinlock`: `cpu` is the hart that holds the lock.
pub record Spinlock : Type 0 where
  pub name : String
  pub locked : Bool
  pub cpu : Option ℕ

-- A hart with a lock at hand.
pub record Pair : Type 0 where
  pub hart : Cpu
  pub lock : Spinlock

unfoldable pub initlock : String → Spinlock
initlock name = record { name = name; locked = false; cpu = none }

abbrev is_hart : Option ℕ → ℕ → Bool
is_hart none h = false
is_hart (some k) h = k == h

unfoldable pub holding : Cpu → Spinlock → Bool
holding c lk = lk.locked && is_hart lk.cpu c.hartid

unfoldable pub push_off : Cpu → Cpu
push_off c =
    let old = c.intr in
    let c' = record c { intr = false } in
    let c'' = if c'.noff == 0 then record c' { intena = old } else c' in
    record c'' { noff = c''.noff + 1 }

unfoldable pub pop_off : Cpu → Outcome Cpu (Unit {0})
pop_off c =
    if c.intr
    then panics "pop_off - interruptible" c
    else (if ltb c.noff 1
        then panics "pop_off" c
        else (let c' = record c { noff = c.noff - 1 } in
            if c'.noff == 0 && c'.intena then ok tt (record c' { intr = true }) else ok tt c'))

-- The test-and-set loop ends at once on a free lock, and spins on a taken one.
unfoldable pub acquire : Pair → Outcome Pair (Unit {0})
unfolding holding push_off
acquire p =
    let c = push_off p.hart in
    if holding c p.lock
    then panics "acquire" (record p { hart = c })
    else (if p.lock.locked
        then spins (record p { hart = c })
        else ok tt
            (record { hart = c; lock = record p.lock { locked = true; cpu = some c.hartid } }))

abbrev pub set_hart : Pair → Cpu → Pair
set_hart p c = record p { hart = c }

unfoldable pub release : Pair → Outcome Pair (Unit {0})
unfolding holding pop_off
release p =
    if holding p.hart p.lock
    then (let p' = record p { lock = record p.lock { cpu = none } } in
        let p'' = record p' { lock = record p'.lock { locked = false } } in
        zoom (λ q. q.hart) set_hart pop_off p'')
    else panics "release" p
