-- ===== src/Tests.antt =====
-- The states at which the theorems are applied: a kernel that has logged an entry, a machine with one process and
-- a chain of two stack frames, and small texts and memories.
mod Logger
mod Format
mod Context
mod Text
mod System
mod Pages
mod Input
mod User
mod Fs
mod Pipes
use kernel_panic_logger.Prelude.{
  Option, ℕ, ◌+◌, ◌-◌, ◌%◌, ◌^◌, ◌≡◌, refl, ◌<◌, List, [], ◌∷◌, ◌++◌, true, false, none, some,
  if◌then◌else◌, ◌==◌, arith, ◌↔◌, ◌⊎◌, ltb, length, ◌≤◌, Bool-cases, take, replicate, inl, inr,
  reverse,
}
use mathlib.Core.Option
use kernel_panic_logger.Outcome.{ok, panics, ◌>>◌}
use kernel_panic_logger.Spinlock.{Cpu, Spinlock, holding, push_off, acquire, release}
use kernel_panic_logger.Spinlock.Laws.{IsSane, IsFree, settle, acquire-release, acquire_held}
use kernel_panic_logger.Digits.{digit, digit_loop, is_negative64, negate64, sign_extend32}
use kernel_panic_logger.Digits.Bounds.{value, Converts, digit_loop_lem}
use kernel_panic_logger.CString.{Memory, write, memmove, memset, memcmp, safestrcpy}
use kernel_panic_logger.CString.Memory.{in_block, memmove_lem, memset_lem, memcmp_lem}
use kernel_panic_logger.CString.Copy.{IsCopy, safestrcpy-IsCopy}
use kernel_panic_logger.Format.{word, peek, skip, next_word}
use kernel_panic_logger.Format.Vsnprintf.{puts, vsnprintf, vsnprintf_loop}
use kernel_panic_logger.Format.Printf.{
  printf_convert, printf_branch, printint, printf_codes, printf_loop,
}
use kernel_panic_logger.Format.Agree.{loops_agree}
use kernel_panic_logger.Format.Buffer.{stored, vsnprintf-printf}
use kernel_panic_logger.Format.Total.{fits, takes, printf_total, printint_signed}
use kernel_panic_logger.Kernel.{
  Kernel, LogBuf, Machine, zero_context, zero_regs, zero_csrs, chars, crash_magic, log_size,
}
use kernel_panic_logger.Printk.{Says}
use kernel_panic_logger.LogBuffer.{log_add, log_flush, basename, advance}
use kernel_panic_logger.LogBuffer.Ring.{IsValid, contents, view, contents-advance}
use kernel_panic_logger.LogBuffer.Basename.{IsSplit, basename_lem}
use kernel_panic_logger.LogBuffer.Add.{IsReady, Adds, logged, log_add_lem, log_add_held}
use kernel_panic_logger.LogBuffer.Flush.{flush_text, log_flush_lem}
use kernel_panic_logger.CrashContext.{
  log_save_crash_context, log_dump_crash_context, log_init, save_stack,
}
use kernel_panic_logger.CrashContext.Walk.{Chain, done, frame, Walks, null, round, save_stack-Chain}
use kernel_panic_logger.CrashContext.Save.{Saves, log_save_lem, save_held}
use kernel_panic_logger.CrashContext.Dump.{dump_text, missing_text, log_dump_lem, log_dump_missing}
use kernel_panic_logger.CrashContext.Init.{blank_entry, blank-IsArray, initialised, log_init_lem}
use kernel_panic_logger.Panic.{panic, overflows}
use kernel_panic_logger.Panic.Halts.{HaltsWith, tail_text}
use kernel_panic_logger.Panic.Recursion.{panic_ticks_held, panic_log_held}
use kernel_panic_logger.LogTest.{log_test}
use kernel_panic_logger.LogTest.Runs.{TestRuns, log_test_lem}
use kernel_panic_logger.Sysproc.{UserSpace, sys_dumppanic, sys_crashme, sys_uptime}
use kernel_panic_logger.Sysproc.Dump.{
  Holds, CopyLaws, Dumped, CrashShown, sys_crashme_lem, sys_uptime_lem,
}
use kernel_panic_logger.Kalloc.{Heap, load64, kfree, kalloc, kinit, page_round_up}
use kernel_panic_logger.Kalloc.FreeList.{
  IsPage, IsHeap, Leaves, Allocates, empty, link, kfree_lem, kfree_bad, kalloc_lem,
}
use kernel_panic_logger.Kalloc.Init.{stacked, page_count, kinit_lem}
use kernel_panic_logger.Console.{Console, consoleintr, kill_loop, minus32}
use kernel_panic_logger.Console.Edit.{IsConsole, Handles, consoleintr_lem}
use kernel_panic_logger.Prelude.{get_or}

-- Hart 0, interrupts on, outside every critical section.
abbrev pub quiet : Cpu
quiet = record { hartid = 0; intr = true; noff = 0; intena = true }

-- Hart 0 inside one critical section.
abbrev pub busy : Cpu
busy = record { hartid = 0; intr = false; noff = 1; intena = true }

abbrev pub free_lock : Spinlock
free_lock = record { locked = false; name = "lock"; cpu = none }

abbrev pub held_lock : Spinlock
held_lock = record { locked = true; name = "lock"; cpu = some 0 }

pub free_lock-IsFree : IsFree free_lock
free_lock-IsFree = record { unlocked = refl; nobody = refl }

pub quiet-IsSane : IsSane quiet
quiet-IsSane h = elim h [ ]

pub busy-IsSane : IsSane busy
busy-IsSane h = refl

-- A buffer that holds one entry, in slot 0.
abbrev pub one_entry : LogBuf
one_entry = record {
  lock = free_lock;
  entries = replicate log_size blank_entry;
  head = 1;
  count = 1;
}

-- A kernel that has run for 7 ticks and has logged an entry.
abbrev pub running : Kernel
running = record {
  hart = quiet;
  logbuf = one_entry;
  flushing = false;
  saved_crash_ctx = zero_context;
  tickslock = free_lock;
  ticks = 7;
  pr_lock = free_lock;
  panicking = false;
  panicked = false;
  console = chars "$ ";
}

-- Inside `log_add`, inside a flush, and inside the clock interrupt.
abbrev pub adding : Kernel
adding = record running { hart = busy; logbuf = record one_entry { lock = held_lock } }

abbrev pub in_flush : Kernel
in_flush = record adding { flushing = true }

abbrev pub in_clock : Kernel
in_clock = record running { hart = busy; tickslock = held_lock }

-- A context with the magic number and one frame.
abbrev pub crashed : Kernel
crashed = record running {
  panicking = true;
  saved_crash_ctx = record {
    regs = zero_regs;
    csrs = zero_csrs;
    pid = 3;
    pname = chars "sh" ++ replicate 14 0;
    pstate = 4;
    stacktrace = 0x80000ABC ∷ replicate 9 0;
    stack_depth = 1;
    cpu = 0;
    panic_msg = chars "oops" ++ replicate 124 0;
    panic_ticks = 7;
    magic = crash_magic;
  };
}

pub one_entry-IsValid : IsValid one_entry
one_entry-IsValid = record {
  slots = blank-IsArray.slots;
  head_in = omega arith;
  count_in = omega arith;
  sized = blank-IsArray.sized;
}

pub running-IsReady : IsReady running
running-IsReady = record { free = free_lock-IsFree; sane = quiet-IsSane; valid = one_entry-IsValid }

-- Two frame records: at 64, whose caller's is at 128, which ends the chain. No word is mapped beyond
-- them.
abbrev pub stack : ℕ → Option ℕ
stack a =
    if a == 64
    then some 128
    else if a == 72
    then some 0x80001000
    else if a == 128
    then some 0
    else if a == 136
    then some 0x80002000
    else none

abbrev pub machine : Machine
machine = record {
  regs = record zero_regs { sp = 48; s0 = 64; ra = 0x80003000 };
  csrs = zero_csrs;
  proc = some (record { pid = 3; name = chars "sh"; state = 4 });
  load = stack;
  trap = λ a. record { sepc = 0x80000400; scause = 13; stval = a; sstatus = 256 };
}

abbrev pub two_frames : List ℕ
two_frames = 0x80001000 ∷ 0x80002000 ∷ []

pub stack-Chain : Chain stack 64 two_frames
stack-Chain = frame (omega arith) refl refl (frame (omega arith) refl refl (done refl))

pub stack-Walks : Walks stack 10 64 two_frames
stack-Walks = round (omega arith) refl refl (round (omega arith) refl refl (null refl))

-- `log_info("boot %d", 7)` on line 12 of kernel/main.c.
pub seven_prints : printf_codes (chars "boot %d") (word 7 ∷ []) ≡ some (chars "boot 7")
unfolding printf_codes Option.bind printf_convert printf_branch peek next_word printint digit_loop
    is_negative64 sign_extend32 digit
seven_prints = refl

abbrev pub memory : Memory
memory x = x % 2 ^ 8
