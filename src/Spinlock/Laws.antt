-- ===== src/Spinlock/Laws.antt =====
-- What a critical section does to the hart and the lock around it.
use kernel_panic_logger.Prelude.{
  ◌<◌, ◌≡◌, refl, true, false, none, some, arith, ◌∙◌, ◌==◌, if◌then◌else◌,
}
use kernel_panic_logger.Outcome.{Outcome, ok, panics, ◌>>◌, and_then, zoom_of_ok}
use kernel_panic_logger.Spinlock.{
  Cpu, Spinlock, Pair, holding, push_off, pop_off, set_hart, acquire, release,
}

-- While `push_off` calls are pending the interrupts are off.
abbrev pub IsSane : Cpu → Type 0
IsSane c = 0 < c.noff → c.intr ≡ false

pub record IsFree (lk : Spinlock) : Type 0 where
  pub unlocked : lk.locked ≡ false
  pub nobody : lk.cpu ≡ none

-- The hart after a critical section: `push_off` leaves the old interrupt state in `intena`.
unfoldable pub settle : Cpu → Cpu
settle c = if c.noff == 0 then record c { intena = c.intr } else c

-- The hart and the lock inside the critical section.
abbrev pub taken : Pair → Pair
taken p = record {
  hart = push_off p.hart;
  lock = record p.lock { locked = true; cpu = some p.hart.hartid };
}

hartid-push_off : (c : Cpu) → (push_off c).hartid ≡ c.hartid
unfolding push_off
hartid-push_off c = ground arith

holding-free : (c : Cpu) (lk : Spinlock) → lk.locked ≡ false → holding c lk ≡ false
unfolding holding
holding-free c lk h = ground arith

-- On a lock that nobody holds `acquire` returns, with interrupts off and the lock taken.
pub acquire_free : (p : Pair) → IsFree p.lock → acquire p ≡ ok tt (taken p)
unfolding acquire
acquire_free p free =
    rw (holding-free (push_off p.hart) p.lock free.unlocked, free.unlocked, hartid-push_off) refl

-- `pop_off` after `push_off` settles the hart.
pub pop_off-push_off : (c : Cpu) → IsSane c → pop_off (push_off c) ≡ ok tt (settle c)
unfolding pop_off push_off settle
pop_off-push_off c sane = ground arith

holding-taken : (p : Pair) → holding (taken p).hart (taken p).lock ≡ true
unfolding holding
holding-taken p = ground (arith, hartid-push_off p.hart)

-- `release` of a lock taken by `acquire` frees it and settles the hart.
pub release_on_taken :
    (p : Pair)
    → IsSane p.hart
    → IsFree p.lock
    → release (taken p) ≡ ok tt (record p { hart = settle p.hart })
unfolding release
release_on_taken p sane free =
    rw (holding-taken p)
      (zoom_of_ok (λ q. q.hart) set_hart pop_off (pop_off-push_off p.hart sane) ∙ given_back)
  where
    given_back :
        ◌≡◌ {A = Outcome Pair (Unit {0})}
          (ok tt
            (record { hart = settle p.hart; lock = record p.lock { locked = false; cpu = none } }))
          (ok tt (record p { hart = settle p.hart }))
    given_back = ground arith

-- On a lock that nobody holds, `acquire` followed by `release` returns, gives the lock back as it
-- was, and leaves the hart's interrupt state and nesting depth as they were.
pub acquire-release :
    (p : Pair)
    → IsSane p.hart
    → IsFree p.lock
    → (acquire >> release) p ≡ ok tt (record p { hart = settle p.hart })
acquire-release p sane free = and_then _ _ (acquire_free p free) (release_on_taken p sane free)

-- A hart that acquires a lock which it holds already calls panic.
pub acquire_held :
    (p : Pair)
    → holding p.hart p.lock ≡ true
    → acquire p ≡ panics "acquire" (record p { hart = push_off p.hart })
unfolding acquire holding push_off
acquire_held p h = ground arith

-- `release` of a lock that the hart does not hold calls panic and changes nothing.
pub release_unheld : (p : Pair) → holding p.hart p.lock ≡ false → release p ≡ panics "release" p
unfolding release
release_unheld p h = rw h

-- A settled hart is sane, and differs in `intena` only.
pub settle_lem :
    (c : Cpu)
    → IsSane c
    → IsSane (settle c)
      × ((settle c).intr ≡ c.intr)
      × ((settle c).noff ≡ c.noff)
      × ((settle c).hartid ≡ c.hartid)
      × (settle (settle c) ≡ settle c)
unfolding settle
settle_lem c sane = ground arith

-- Inside a critical section a further one leaves the hart as it is.
pub push_off_quiet : (c : Cpu) → IsSane (push_off c) × (settle (push_off c) ≡ push_off c)
unfolding push_off settle
push_off_quiet c = ground arith
