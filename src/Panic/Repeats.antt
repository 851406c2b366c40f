-- ===== src/Panic/Repeats.antt =====
-- Attempts at `panic` in a row, each of which ends in a call of panic.
use kernel_panic_logger.Prelude.{ℕ, zero, suc, ◌≡◌, refl, List, String}
use kernel_panic_logger.Outcome.{panics}
use kernel_panic_logger.Kernel.{Kernel, Machine, chars}
use kernel_panic_logger.Panic.{panic_body, panic, overflows}

-- `depth` attempts at `panic` in a row, each of which calls panic again: `During msg k k'` holds of an
-- attempt with message msg from state k to the state k' of that call, and the next attempt starts
-- there.
pub data Repeats (m : Machine) (During : List ℕ → Kernel → Kernel → Type 0)
    : ℕ → List ℕ → Kernel → Type 0 where
  out_of_stack : {msg : List ℕ} {k : Kernel} → Repeats m During zero msg k
  again :
      {depth : ℕ} {msg : List ℕ} {k : Kernel} {why : String} (k' : Kernel)
      → panic_body m msg k ≡ panics why k'
      → During msg k k'
      → Repeats m During depth (chars why) k'
      → Repeats m During (suc depth) msg k

pub Repeats-overflows :
    {m : Machine} {During : List ℕ → Kernel → Kernel → Type 0} {depth : ℕ} {msg : List ℕ}
    {k : Kernel}
    → Repeats m During depth msg k
    → panic depth m msg k ≡ overflows
unfolding panic
Repeats-overflows out_of_stack = refl
Repeats-overflows (again k' e h rest) = rw (e, panic) (Repeats-overflows rest)
