-- ===== src/Printk.antt =====
-- `printf` of xv6-riscv/kernel/printf.c as a whole: the lock, the formatting and the console.
use kernel_panic_logger.Prelude.{
  ℕ, ◌≡◌, ◌⊎◌, inl, inr, List, ◌++◌, none, some, true, false, if◌then◌else◌, arith, ◌∙◌, ap,
  append_assoc, Bool-cases,
}
use kernel_panic_logger.Outcome.{Outcome, ok, undefined, ◌>>◌, and_then, zoom_of_ok}
use kernel_panic_logger.Spinlock.{Cpu, Spinlock, acquire, release}
use kernel_panic_logger.Spinlock.Laws.{
  IsSane, IsFree, settle, taken, acquire_free, release_on_taken,
}
use kernel_panic_logger.Format.{Arg}
use kernel_panic_logger.Format.Printf.{printf_codes}
use kernel_panic_logger.Format.Steps.{Prints, Prints-printf_codes}
use kernel_panic_logger.Kernel.{Kernel, on_pr_lock}

-- `if(panicking == 0)` before the lock routines
unfoldable pub unless_panicking :
    (Kernel → Outcome Kernel (Unit {0})) → Kernel → Outcome Kernel (Unit {0})
unless_panicking m k = if k.panicking then ok tt k else m k

-- The formatting loop, which hands its codes to `consputc` one by one. That one sends a code on as it
-- is, but for BACKSPACE, 0x100, which is no byte of a text and for which it sends three bytes.
unfoldable pub emit : List ℕ → List Arg → Kernel → Outcome Kernel (Unit {0})
emit fmt args k = elim (printf_codes fmt args) [
  | none ↦ undefined
  | some cs ↦ ok tt (record k { console = k.console ++ cs })
]

unfoldable pub printf : List ℕ → List Arg → Kernel → Outcome Kernel (Unit {0})
unfolding unless_panicking emit
printf fmt args = do
  unless_panicking (on_pr_lock acquire)
  emit fmt args
  unless_panicking (on_pr_lock release)

-- `printf` can run: during a panic, or with its lock free on a hart that is settled.
pub record CanLock (h : Cpu) (lk : Spinlock) : Type 0 where
  pub free : IsFree lk
  pub sane : IsSane h
  pub settled : settle h ≡ h

abbrev pub CanPrint : Kernel → Type 0
CanPrint k = (k.panicking ≡ true) ⊎ CanLock k.hart k.pr_lock

abbrev pub say : Kernel → List ℕ → Kernel
say k cs = record k { console = k.console ++ cs }

emit_lem :
    (fmt : List ℕ) (args : List Arg) (k : Kernel) {cs : List ℕ}
    → printf_codes fmt args ≡ some cs
    → emit fmt args k ≡ ok tt (say k cs)
unfolding emit
emit_lem fmt args k e = rw (e, emit)

module _ (m : Kernel → Outcome Kernel (Unit {0})) (k : Kernel) where
  skipped : k.panicking ≡ true → unless_panicking m k ≡ ok tt k
  unfolding unless_panicking
  skipped p = ground arith

  run : k.panicking ≡ false → unless_panicking m k ≡ m k
  unfolding unless_panicking
  run p = ground arith

-- The state with the console's lock taken.
abbrev with_pr_lock : Kernel → Kernel
with_pr_lock k =
    let p = taken (record { hart = k.hart; lock = k.pr_lock }) in
    record k { hart = p.hart; pr_lock = p.lock }

printf_locking :
    (fmt : List ℕ) (args : List Arg) (k : Kernel) {cs : List ℕ}
    → k.panicking ≡ false
    → CanLock k.hart k.pr_lock
    → printf_codes fmt args ≡ some cs
    → printf fmt args k ≡ ok tt (say k cs)
unfolding printf
printf_locking fmt args k {cs} p can e =
    and_then _ _ (run (on_pr_lock acquire) k p ∙ zoom_of_ok _ _ acquire (acquire_free _ can.free)) (
      and_then _ _ (emit_lem fmt args (with_pr_lock k) e) (
        run (on_pr_lock release) (say (with_pr_lock k) cs) p
        ∙ zoom_of_ok _ _ release
            (release_on_taken (record { hart = k.hart; lock = k.pr_lock }) can.sane can.free)
        ∙ ap (λ h. ok tt (record k { hart = h; console = k.console ++ cs })) can.settled))

printf_panicking :
    (fmt : List ℕ) (args : List Arg) (k : Kernel) {cs : List ℕ}
    → k.panicking ≡ true
    → printf_codes fmt args ≡ some cs
    → printf fmt args k ≡ ok tt (say k cs)
unfolding printf
printf_panicking fmt args k p e =
    and_then _ _ (skipped (on_pr_lock acquire) k p)
      (and_then _ _ (emit_lem fmt args k e) (skipped (on_pr_lock release) _ p))

-- With the console at hand `printf` prints its codes and changes nothing else.
pub printf_lem :
    (fmt : List ℕ) (args : List Arg) (k : Kernel) {cs : List ℕ}
    → CanPrint k
    → printf_codes fmt args ≡ some cs
    → printf fmt args k ≡ ok tt (say k cs)
printf_lem fmt args k (inl p) e = printf_panicking fmt args k p e
printf_lem fmt args k (inr can) e = elim (Bool-cases k.panicking) [
  | inl p ↦ printf_panicking fmt args k p e
  | inr p ↦ printf_locking fmt args k p can e
]

-- The same, from a derivation of what the format prints.
pub printf-Prints :
    {fmt : List ℕ} {args : List Arg} {cs : List ℕ} (k : Kernel)
    → CanPrint k
    → Prints fmt args cs
    → printf fmt args k ≡ ok tt (say k cs)
printf-Prints {fmt} {args} k can p = printf_lem fmt args k can (Prints-printf_codes p)

-- Two outputs in a row.
pub say-say : (k : Kernel) (xs ys : List ℕ) → say (say k xs) ys ≡ say k (xs ++ ys)
say-say k xs ys i = record k { console = append_assoc k.console xs ys i }

-- The routine returns, prints `cs` and changes nothing else.
abbrev pub Says : (Kernel → Outcome Kernel (Unit {0})) → Kernel → List ℕ → Type 0
Says m k cs = m k ≡ ok tt (say k cs)

pub Says-then :
    (m n : Kernel → Outcome Kernel (Unit {0})) (k : Kernel) (xs ys : List ℕ)
    → Says m k xs
    → Says n (say k xs) ys
    → Says (m >> n) k (xs ++ ys)
Says-then m n k xs ys p q = and_then _ _ p (q ∙ ap (ok tt) (say-say k xs ys))
