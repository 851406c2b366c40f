-- ===== src/ConsoleIo.antt =====
-- `consoleread` and `consolewrite` of xv6-riscv/kernel/console.c. A run of `consoleread` goes from its start,
-- or from where it is woken up, until it returns or sleeps. `either_copyin` and `either_copyout` are
-- parameters, and so are the answer of `killed` and what `uartwrite` does.
pub mod Line
pub mod Batches
use kernel_panic_logger.Prelude.{
  ℕ, zero, suc, ◌+◌, ◌-◌, ◌%◌, ◌^◌, List, [], ◌∷◌, ◌++◌, Bool, true, false, Option, none, some,
  if◌then◌else◌, ◌==◌, ltb, get_or,
}
use kernel_panic_logger.Outcome.{Outcome, ok, panics, spins, undefined, ◌>>=◌, ◌>>◌, pure}
use kernel_panic_logger.Spinlock.{acquire, release}
use kernel_panic_logger.CString.{is_not_positive}
use kernel_panic_logger.Console.{Console, input_buf_size, minus32, on_cons_lock}

-- How a run ends: it returns a count or -1, or it sleeps with so many bytes delivered.
pub data ReadStop : Type 0 where
  count : ℕ → ReadStop
  killed_off : ReadStop
  blocked : ℕ → ReadStop

-- `C('D')`
abbrev pub end_of_file : ℕ
end_of_file = 4

-- `cons.buf[cons.r % INPUT_BUF_SIZE]`, and `cons.r++`.
unfoldable pub next_key : Console → ℕ
next_key k = get_or k.buf (k.r % input_buf_size) 0

unfoldable pub take_key : Console → Console
take_key k = record k { r = (k.r + 1) % 2 ^ 32 }

-- `if(n < target) cons.r--;` with i = target - n
unfoldable pub keep_end : ℕ → Console → Console
keep_end i k = if i == 0 then k else record k { r = minus32 k.r 1 }

-- The loop with i = target - n bytes delivered and `rest` = n to go.
unfoldable pub line_loop :
    {U : Type 0}
    → Bool
    → (ℕ → ℕ → U → Option U)
    → ℕ
    → ℕ
    → ℕ
    → U
    → Console
    → (ReadStop × U) × Console
unfolding next_key take_key keep_end
line_loop {U} killed copyout dst i zero u k = ((count i, u), k)
line_loop {U} killed copyout dst i (suc rest) u k =
    let c = next_key k in
    let k1 = take_key k in
    let copied : (ReadStop × U) × Console = elim (copyout ((dst + i) % 2 ^ 64) c u) [
      | none ↦ ((count i, u), k1)
      | some v ↦
          if c == b'\n'
          then ((count (i + 1), v), k1)
          else line_loop killed copyout dst (i + 1) rest v k1
    ] in
    if k.r == k.w
    then ((if killed then killed_off else blocked i, u), k)
    else (if c == end_of_file then ((count i, u), keep_end i k1) else copied)

abbrev loop_on_console : {A : Type 0} → (Console → A × Console) → Console → Outcome Console A
loop_on_console f k = ok (f k).0 (f k).1

-- A run with i of i + rest bytes delivered.
unfoldable pub read_line :
    {U : Type 0}
    → Bool
    → (ℕ → ℕ → U → Option U)
    → ℕ
    → ℕ
    → ℕ
    → U
    → Console
    → Outcome Console (ReadStop × U)
unfolding line_loop
read_line killed copyout dst i rest u = do
  on_cons_lock acquire
  done ← loop_on_console (line_loop killed copyout dst i rest u)
  on_cons_lock release
  pure done

unfoldable pub consoleread :
    {U : Type 0}
    → Bool
    → (ℕ → ℕ → U → Option U)
    → ℕ
    → ℕ
    → U
    → Console
    → Outcome Console (ReadStop × U)
unfolding read_line is_not_positive
consoleread killed copyout dst n u =
    read_line killed copyout dst 0 (if is_not_positive n then 0 else n) u

-- The loop of `consolewrite` with i bytes done and `rest` to go, in batches of 32; `rounds` is its fuel. The
-- result is the count and the bytes sent.
unfoldable pub write_batches : (ℕ → ℕ → Option (List ℕ)) → ℕ → ℕ → ℕ → ℕ → ℕ × List ℕ
write_batches copyin src zero i rest = (i, [])
write_batches copyin src (suc rounds) i rest =
    let nn = if ltb rest 32 then rest else 32 in
    let next : ℕ × List ℕ = elim (copyin ((src + i) % 2 ^ 64) nn) [
      | none ↦ (i, [])
      | some cs ↦
          let (j, sent) = write_batches copyin src rounds (i + nn) (rest - nn) in (j, cs ++ sent)
    ] in
    if rest == 0 then (i, []) else next

-- With a round for each byte.
unfoldable pub consolewrite : (ℕ → ℕ → Option (List ℕ)) → ℕ → ℕ → ℕ × List ℕ
unfolding write_batches is_not_positive
consolewrite copyin src n =
    let rest = if is_not_positive n then 0 else n in write_batches copyin src rest 0 rest
