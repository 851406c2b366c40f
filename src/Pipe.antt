-- ===== src/Pipe.antt =====
-- xv6-riscv/kernel/pipe.c: a pipe's ring of PIPESIZE bytes, as the calls of the processes that share
-- it run one after the other. A call runs from its start, or from where it is woken up, until it
-- returns or sleeps: `sleep` gives up the lock and `acquire`s it again when the process is woken up.
-- `copyin` and `copyout` of vm.c and the answers of `killed` are parameters, and the calls of `wakeup`
-- are recorded.
pub mod Queue
pub mod Order
pub mod Critical
pub mod Writing
pub mod Calls
pub mod Loops
use mathlib.Core.Option
use kernel_panic_logger.Prelude.{
  ℕ, zero, suc, ◌+◌, ◌-◌, ◌%◌, ◌^◌, List, [], ◌∷◌, ◌++◌, Bool, true, false, Option, none, some, not,
  ◌&&◌, ◌||◌, if◌then◌else◌, ◌==◌,
}
use kernel_panic_logger.Outcome.{
  Outcome, ok, panics, spins, undefined, ◌>>=◌, ◌>>◌, pure, modify, zoom,
}
use kernel_panic_logger.Spinlock.{Cpu, Spinlock, Pair, acquire, release, initlock}
use kernel_panic_logger.CString.{Memory, write, is_not_positive}

-- `PIPESIZE`
abbrev pub pipe_size : ℕ
pipe_size = 512

-- `struct pipe`, with `bytes` for the field `data`
pub record Pipe : Type 0 where
  pub lock : Spinlock
  pub bytes : Memory
  pub nread : ℕ
  pub nwrite : ℕ
  pub readopen : Bool
  pub writeopen : Bool

-- The channels that processes sleep on: `&pi->nread` and `&pi->nwrite`.
pub data Channel : Type 0 where
  reads : Channel
  writes : Channel

-- A pipe, the hart that runs a call on it, the channels woken up so far, the latest first, and
-- whether the pipe's page has been given back to `kfree`.
pub record Site : Type 0 where
  pub hart : Cpu
  pub pipe : Pipe
  pub woken : List Channel
  pub freed : Bool

-- The pipe that `pipealloc` sets up in its page.
unfoldable pub new_pipe : Memory → Pipe
new_pipe page = record {
  lock = initlock "pipe";
  bytes = page;
  nread = 0;
  nwrite = 0;
  readopen = true;
  writeopen = true;
}

abbrev pub on_pipe_lock : {A : Type 0} → (Pair → Outcome Pair A) → Site → Outcome Site A
on_pipe_lock =
    zoom (λ k. record { hart = k.hart; lock = k.pipe.lock })
      (λ k p. record k { hart = p.hart; pipe = record k.pipe { lock = p.lock } })

abbrev pub wakeup : Channel → Site → Outcome Site (Unit {0})
wakeup ch = modify (λ k. record k { woken = ch ∷ k.woken })

abbrev pub on_pipe : (Pipe → Pipe) → Site → Outcome Site (Unit {0})
on_pipe f = modify (λ k. record k { pipe = f k.pipe })

-- `writeopen = 0` or `readopen = 0`, with the wake-up of the other end.
unfoldable pub close_end : Bool → Site → Outcome Site (Unit {0})
close_end true = do on_pipe (λ pi. record pi { writeopen = false }); wakeup reads
close_end false = do on_pipe (λ pi. record pi { readopen = false }); wakeup writes

unfoldable pub pipeclose : Bool → Site → Outcome Site (Unit {0})
unfolding close_end
pipeclose writable = do
  on_pipe_lock acquire
  close_end writable
  both ← λ k. ok (not k.pipe.readopen && not k.pipe.writeopen) k
  on_pipe_lock release
  modify (λ k. if both then record k { freed = true } else k)

-- How a run of a call ends: it returns, or it sleeps with i bytes done.
pub data Verdict : Type 0 where
  returned : ℕ → Verdict
  asleep : ℕ → Verdict

-- How the loop of `pipewrite` is left, with i bytes done.
pub data Stop : Type 0 where
  refused : Stop
  full : ℕ → Stop
  finished : ℕ → Stop

-- An `int` of -1.
abbrev pub failure : ℕ
failure = 2 ^ 32 - 1

unfoldable pub is_full : Pipe → Bool
is_full pi = pi.nwrite == (pi.nread + pipe_size) % 2 ^ 32

-- `pi->data[pi->nwrite++ % PIPESIZE] = ch;`
unfoldable pub put_byte : ℕ → Pipe → Pipe
put_byte ch pi = record pi {
  bytes = write pi.bytes (pi.nwrite % pipe_size) ch;
  nwrite = (pi.nwrite + 1) % 2 ^ 32;
}

-- The loop with i bytes done and `rest` to do.
unfoldable pub write_loop : (ℕ → Bool) → (ℕ → Option ℕ) → ℕ → ℕ → ℕ → Pipe → Stop × Pipe
unfolding is_full put_byte
write_loop killed copyin addr i zero pi = (finished i, pi)
write_loop killed copyin addr i (suc rest) pi =
    let next : Stop × Pipe = elim (copyin ((addr + i) % 2 ^ 64)) [
      | none ↦ (finished i, pi)
      | some ch ↦ write_loop killed copyin addr (i + 1) rest (put_byte ch pi)
    ] in
    if not pi.readopen || killed i
    then (refused, pi)
    else (if is_full pi then (full i, pi) else next)

-- What follows the loop, or the part of a round that sleeps.
unfoldable pub stop_writing : Stop → Site → Outcome Site Verdict
stop_writing refused = do on_pipe_lock release; pure (returned failure)
stop_writing (full i) = do wakeup reads; on_pipe_lock release; pure (asleep i)
stop_writing (finished i) = do wakeup reads; on_pipe_lock release; pure (returned i)

abbrev loop_on_pipe : {A : Type 0} → (Pipe → A × Pipe) → Site → Outcome Site A
loop_on_pipe f k = ok (f k.pipe).0 (record k { pipe = (f k.pipe).1 })

-- A run of `pipewrite` with i of i + rest bytes done.
unfoldable pub write_run : (ℕ → Bool) → (ℕ → Option ℕ) → ℕ → ℕ → ℕ → Site → Outcome Site Verdict
unfolding write_loop stop_writing
write_run killed copyin addr i rest = do
  on_pipe_lock acquire
  stop ← loop_on_pipe (write_loop killed copyin addr i rest)
  stop_writing stop

-- The call, with an `int` n.
unfoldable pub pipewrite : (ℕ → Bool) → (ℕ → Option ℕ) → ℕ → ℕ → Site → Outcome Site Verdict
unfolding write_run is_not_positive
pipewrite killed copyin addr n = write_run killed copyin addr 0 (if is_not_positive n then 0 else n)

unfoldable pub is_empty : Pipe → Bool
is_empty pi = pi.nread == pi.nwrite

-- `ch = pi->data[pi->nread % PIPESIZE];`, and `pi->nread++`.
unfoldable pub next_byte : Pipe → ℕ
next_byte pi = pi.bytes (pi.nread % pipe_size)

unfoldable pub drop_byte : Pipe → Pipe
drop_byte pi = record pi { nread = (pi.nread + 1) % 2 ^ 32 }

-- The copying loop, with i bytes done and `rest` to do. `copyout` gives the user's memory after a
-- byte is stored in it.
unfoldable pub read_loop :
    {U : Type 0} → (ℕ → ℕ → U → Option U) → ℕ → ℕ → ℕ → U → Pipe → (ℕ × U) × Pipe
unfolding is_empty next_byte drop_byte
read_loop {U} copyout addr i zero u pi = ((i, u), pi)
read_loop {U} copyout addr i (suc rest) u pi =
    let next : (ℕ × U) × Pipe = elim (copyout ((addr + i) % 2 ^ 64) (next_byte pi) u) [
      | none ↦ ((if i == 0 then failure else i, u), pi)
      | some u' ↦ read_loop copyout addr (i + 1) rest u' (drop_byte pi)
    ] in
    if is_empty pi then ((i, u), pi) else next

-- In an empty pipe: the process gives up when it is killed, and sleeps otherwise.
unfoldable pub wait_for_bytes : {U : Type 0} → Bool → U → Site → Outcome Site (Verdict × U)
wait_for_bytes killed u = do
  on_pipe_lock release
  pure (if killed then returned failure else asleep 0, u)

unfoldable pub take_bytes :
    {U : Type 0} → (ℕ → ℕ → U → Option U) → ℕ → ℕ → U → Site → Outcome Site (Verdict × U)
unfolding read_loop
take_bytes copyout addr n u = do
  done ← loop_on_pipe (read_loop copyout addr 0 n u)
  wakeup writes
  on_pipe_lock release
  pure (returned done.0, done.1)

-- A run of `piperead`, from its start or from where it is woken up.
unfoldable pub read_run :
    {U : Type 0} → Bool → (ℕ → ℕ → U → Option U) → ℕ → ℕ → U → Site → Outcome Site (Verdict × U)
unfolding wait_for_bytes take_bytes
read_run killed copyout addr n u = do
  on_pipe_lock acquire
  waits ← λ k. ok (is_empty k.pipe && k.pipe.writeopen) k
  if waits then wait_for_bytes killed u else take_bytes copyout addr n u

unfoldable pub piperead :
    {U : Type 0} → Bool → (ℕ → ℕ → U → Option U) → ℕ → ℕ → U → Site → Outcome Site (Verdict × U)
unfolding read_run is_not_positive
piperead killed copyout addr n u =
    read_run killed copyout addr (if is_not_positive n then 0 else n) u
