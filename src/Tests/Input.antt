-- ===== src/Tests/Input.antt =====
-- The console input at concrete states.
use kernel_panic_logger.Prelude.{◌-◌, ◌^◌, [], arith, replicate}
use kernel_panic_logger.Kernel.{chars}
use kernel_panic_logger.Console.{Console, consoleintr}
use kernel_panic_logger.Console.Edit.{IsConsole, Handles, consoleintr_lem}
use kernel_panic_logger.Prelude.{ℕ, List, Option, some}
use kernel_panic_logger.Tests.{quiet, free_lock, free_lock-IsFree, quiet-IsSane}

-- A console whose edit index has just wrapped around, with one byte in the edited line.
abbrev wrapped : Console
wrapped = record {
  hart = quiet;
  lock = free_lock;
  buf = replicate 128 b'x';
  r = 2 ^ 32 - 2;
  w = 2 ^ 32 - 1;
  e = 0;
  out = [];
  wakeups = 0;
}

wrapped-IsConsole : IsConsole wrapped
wrapped-IsConsole = record {
  r_in = omega arith;
  w_in = omega arith;
  e_in = omega arith;
  room = omega arith;
}

consoleintr_lem_example : Handles wrapped (consoleintr (chars "1 sleep init") 21 wrapped)
consoleintr_lem_example =
    consoleintr_lem (chars "1 sleep init") 21 wrapped wrapped-IsConsole free_lock-IsFree
      quiet-IsSane

-- A process's memory of zeros.
abbrev zeros : ℕ → ℕ → Option (List ℕ)
zeros a n = some (replicate n 0)
