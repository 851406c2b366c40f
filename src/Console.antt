-- ===== src/Console.antt =====
-- The input side of xv6-riscv/kernel/console.c: `consputc` and the interrupt handler `consoleintr`.
-- The indices r, w and e are 32-bit patterns. `out` holds the codes sent to the serial port and
-- `wakeups` counts the calls `wakeup(&cons.r)`. What `procdump` of proc.c prints is a parameter.
pub mod Edit
use kernel_panic_logger.Prelude.{
  ℕ, zero, suc, ◌+◌, ◌-◌, ◌%◌, ◌^◌, List, [], ◌∷◌, ◌++◌, Bool, true, false, not, ◌||◌, ◌&&◌,
  if◌then◌else◌, ◌==◌, ltb, get_or, set,
}
use kernel_panic_logger.Outcome.{Outcome, ok, panics, spins, undefined, ◌>>=◌, ◌>>◌, modify, zoom}
use kernel_panic_logger.Spinlock.{Cpu, Spinlock, Pair, acquire, release}

-- `INPUT_BUF_SIZE`, `BACKSPACE`
abbrev pub input_buf_size : ℕ
input_buf_size = 128

abbrev pub backspace_code : ℕ
backspace_code = 0x100

-- `cons` and the hart.
pub record Console : Type 0 where
  pub hart : Cpu
  pub lock : Spinlock
  pub buf : List ℕ
  pub r : ℕ
  pub w : ℕ
  pub e : ℕ
  pub out : List ℕ
  pub wakeups : ℕ

-- The difference of two unsigned 32-bit numbers.
abbrev pub minus32 : ℕ → ℕ → ℕ
minus32 a b = (a + 2 ^ 32 - b) % 2 ^ 32

unfoldable pub consputc : ℕ → Console → Console
consputc c k =
    if c == backspace_code
    then record k { out = k.out ++ (8 ∷ b' ' ∷ 8 ∷ []) }
    else record k { out = k.out ++ (c ∷ []) }

-- `cons.e--; consputc(BACKSPACE);`
unfoldable pub rub_out : Console → Console
rub_out k = consputc backspace_code (record k { e = minus32 k.e 1 })

-- The loop of Control-U with `rounds` rounds left; each round takes one byte off the edited line.
unfoldable pub kill_loop : ℕ → Console → Console
kill_loop zero k = k
kill_loop (suc rounds) k =
    let next = kill_loop rounds (rub_out k) in
    if k.e == k.w || get_or k.buf (minus32 k.e 1 % input_buf_size) 0 == b'\n' then k else next

unfoldable pub erase_last : Console → Console
erase_last k = if k.e == k.w then k else rub_out k

-- `cons.buf[cons.e++ % INPUT_BUF_SIZE] = c;`
unfoldable pub store_key : ℕ → Console → Console
store_key c k = record k {
  buf = set k.buf (k.e % input_buf_size) (c % 2 ^ 8);
  e = (k.e + 1) % 2 ^ 32;
}

unfoldable pub end_line : ℕ → Console → Console
end_line c k =
    if c == b'\n' || (c == 4 || minus32 k.e k.r == input_buf_size)
    then record k { w = k.e; wakeups = k.wakeups + 1 }
    else k

unfoldable pub type_key : ℕ → Console → Console
type_key c k =
    let c' = if c == b'\r' then b'\n' else c in
    if not (c == 0) && ltb (minus32 k.e k.r) input_buf_size
    then end_line c' (store_key c' (consputc c' k))
    else k

-- The `switch` of `consoleintr`: Control-P, Control-U, Control-H and Delete, any other key.
unfoldable pub handle_key : List ℕ → ℕ → Console → Console
unfolding kill_loop erase_last type_key
handle_key procdump_text c k =
    if c == 16
    then record k { out = k.out ++ procdump_text }
    else (if c == 21
        then kill_loop (minus32 k.e k.w) k
        else (if c == 8 || c == 0x7f then erase_last k else type_key c k))

abbrev pub on_cons_lock : {A : Type 0} → (Pair → Outcome Pair A) → Console → Outcome Console A
on_cons_lock =
    zoom (λ k. record { hart = k.hart; lock = k.lock })
      (λ k p. record k { hart = p.hart; lock = p.lock })

unfoldable pub consoleintr : List ℕ → ℕ → Console → Outcome Console (Unit {0})
unfolding handle_key
consoleintr procdump_text c = do
  on_cons_lock acquire
  modify (handle_key procdump_text c)
  on_cons_lock release
