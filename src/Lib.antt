-- ===== src/Lib.antt =====
-- The kernel panic logger: the circular log buffer, the crash context and the panic path that
-- xv6-riscv/kernel/paniclog.c and xv6-riscv/kernel/printf.c add to xv6, with the routines below
-- them and the program dumppanic; and of xv6 itself the page allocator, the console's line
-- editor, pipes, the file system's log, the parser of the shell and the matcher of grep.
--
-- Parts and files:
-- - Prelude, Outcome: shared names, list lemmas, and the result of a routine on a state. A
--   routine returns (`ok`), calls panic with a message (`panics`), spins for good on a lock
--   (`spins`), or has undefined behaviour (`undefined`).
-- - Spinlock: xv6-riscv/kernel/spinlock.c, as one hart runs it.
-- - CString: xv6-riscv/kernel/string.c.
-- - Digits, Format: the digit loops and the two formatters, `vsnprintf` of paniclog.c and
--   `printf` of printf.c, with the C text and the argument list as lists.
-- - Kernel: the structures and static variables that the parts share: `logbuf`,
--   `saved_crash_ctx`, `tickslock`, `ticks`, `pr`, `panicking`, `panicked`, `flushing`, and the
--   console's output, which is the list of the codes handed to `consputc`.
-- - Printk: `printf` with its lock. LogBuffer: `log_add`, the four loggers and `log_flush`.
-- - CrashContext: `log_save_crash_context`, `log_dump_crash_context`, `log_init`, and
--   `kerneltrap` of xv6-riscv/kernel/trap.c as a load that faults enters it.
-- - Kalloc: xv6-riscv/kernel/kalloc.c. Console: `consputc` and `consoleintr` of
--   xv6-riscv/kernel/console.c, with what `procdump` prints as a parameter. ConsoleIo:
--   `consoleread` and `consolewrite` of the same file.
-- - Panic: `panic`. LogTest: `log_test`.
-- - Sysproc: `sys_dumppanic`, `sys_crashme`, `sys_logtest` and `sys_uptime` of
--   xv6-riscv/kernel/sysproc.c, over a `copyout` that is a parameter.
-- - UserPrintf: `vprintf` of xv6-riscv/user/printf.c. Dumppanic: xv6-riscv/user/dumppanic.c,
--   over the reply of the system call, which is a parameter.
-- - Pipe: xv6-riscv/kernel/pipe.c. A run of a call goes from its start, or from where it is
--   woken up, until it returns or sleeps, and other runs come between; `copyin`, `copyout` and
--   the answers of `killed` are parameters, and the calls of `wakeup` are recorded. Pipe.Order
--   has the runs of several processes in every order as a step relation.
-- - FsLog: the copies of commit and recovery in xv6-riscv/kernel/log.c, on a disk whose writes
--   stop when `power` is used up. FsOps: `begin_op`, `end_op` and `log_write` of the same file,
--   with their runs in every order as a step relation.
-- - Shell: the parser of xv6-riscv/user/sh.c, with offsets for the pointers into the line. Grep:
--   the matcher of xv6-riscv/user/grep.c.
-- - Tests: the theorems at concrete states, in one child module for each group of parts.
--
-- How they interact: the loggers call `log_add`, which formats with `vsnprintf` into a slot of
-- the buffer under `logbuf.lock`. `panic` saves the context, flushes the buffer through
-- `printf`, prints the message and dumps the context. Each of these takes locks, and `acquire`
-- calls `panic` for a lock that the hart holds already; `panic` is therefore run again from its
-- start.
--
-- State and numbers: a C integer is a natural number below 2 ^ w that stands for its bit
-- pattern, with the wrap-around written out; a char array is the list of its bytes. The
-- registers, the process of the hart and the words in memory are those of a `Machine`, since
-- inline assembly and loads read them; a load of a word that is not mapped faults, and the
-- routine that makes it goes on in `kerneltrap`, with the supervisor registers that the
-- `Machine` gives. A `Machine` is the same at each attempt at `panic`. One hart runs; a lock
-- that another hart holds makes `acquire` spin. A block of the disk is its 32-bit words, and
-- the buffer cache is the content that `bread` returns for each block, so that `bread` and
-- `brelse` leave no trace; the pins are counted.
--
-- Bounds: a digit loop has as much fuel as its array has bytes, and running out is the write
-- past the end of the array; 20 digits are enough for 64 bits. The frame walk has 10 rounds
-- and the flush `count` rounds, as in the source. `panic` has as fuel the number of its nested
-- runs; one run is enough where the locks are free and the words that the walk of the stack
-- reads are mapped.
--
-- The loops of the log run as often as their `int` says. Each loop of the parser has a round for
-- each character left and one more, and `parseline` is nested once for each character at most.
--
-- Not modelled: the serial driver below `consputc`; in the output of the logger also what
-- `consputc` makes of the code BACKSPACE, which is in Console; memory fences, interrupts and
-- other traps, the buffer cache and the disk driver below the log, the allocation of a pipe's
-- files, the commands that the shell runs, and the other parts of xv6.
pub mod Prelude
pub mod Outcome
pub mod Spinlock
pub mod Digits
pub mod Format
pub mod CString
pub mod Kernel
pub mod Printk
pub mod LogBuffer
pub mod Kalloc
pub mod Console
pub mod CrashContext
pub mod Panic
pub mod LogTest
pub mod UserPrintf
pub mod Dumppanic
pub mod Pipe
pub mod FsLog
pub mod FsOps
pub mod Shell
pub mod Grep
pub mod ConsoleIo
pub mod Sysproc
mod Tests
