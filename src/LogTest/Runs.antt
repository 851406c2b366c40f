-- ===== src/LogTest/Runs.antt =====
-- `log_test` runs through, fills the buffer and stores a crash context.
use kernel_panic_logger.Prelude.{
  ℕ, zero, suc, ◌+◌, ◌≡◌, refl, ◌≤◌, List, [], ◌∷◌, ◌++◌, true, false, arith, ap, ◌∙◌, sym, min,
  inr, append_assoc,
}
use mathlib.Core.Option
use mathlib.Core.Path.{subst}
use kernel_panic_logger.Outcome.{Outcome, ok, ◌>>◌, and_then}
use kernel_panic_logger.Spinlock.{Cpu}
use kernel_panic_logger.Spinlock.Laws.{IsFree, settle, settle_lem}
use kernel_panic_logger.Format.{Arg, word, peek, skip, next_word, next_text}
use kernel_panic_logger.Format.Printf.{printf_branch}
use kernel_panic_logger.Format.Steps.{Prints-text}
use kernel_panic_logger.Format.Total.{fits, takes, printf_total}
use kernel_panic_logger.Kernel.{Kernel, LogBuf, LogEntry, CrashContext, Machine, chars, log_size}
use kernel_panic_logger.Printk.{printf-Prints, CanPrint}
use kernel_panic_logger.LogBuffer.{log_add, log_info, log_warn, log_debug, log_panic_prep, advance}
use kernel_panic_logger.LogBuffer.Add.{IsReady, log_add_lem}
use kernel_panic_logger.LogBuffer.Flush.{flush_text, log_flush_lem}
use kernel_panic_logger.CrashContext.Capture.{Captures}
use kernel_panic_logger.CrashContext.Walk.{Walks}
use kernel_panic_logger.CrashContext.Save.{log_save-Saves}
use kernel_panic_logger.LogTest.{test_levels, test_wrap, test_formats, log_test}

-- The state after some calls of loggers.
abbrev logged_to : Kernel → LogBuf → Kernel
logged_to k b = record k { hart = settle k.hart; logbuf = b }

-- The outcome of n calls: the buffer alone has changed, and holds n more entries as far as they fit.
pub record Logs (k : Kernel) (n : ℕ) (r : Outcome Kernel (Unit {0})) : Type 0 where
  pub buffer : LogBuf
  pub returns : r ≡ ok tt (logged_to k buffer)
  pub ready : IsReady (logged_to k buffer)
  pub counted : buffer.count ≡ min (k.logbuf.count + n) log_size

-- A routine that logs n messages on each state that is ready.
abbrev LogsOn : (Kernel → Outcome Kernel (Unit {0})) → ℕ → Type 0
LogsOn m n = (k : Kernel) → IsReady k → Logs k n (m k)

advance_count :
    (b : LogBuf) (e : LogEntry)
    → b.count ≤ log_size
    → (advance b e).count ≡ min (b.count + 1) log_size
unfolding advance
advance_count b e h = ground arith

add-LogsOn :
    (level : ℕ) (file : List ℕ) (line : ℕ) (fmt : List ℕ) (args : List Arg)
    → fits fmt 0 args ≡ true
    → LogsOn (log_add level file line fmt args) 1
add-LogsOn level file line fmt args h k ready =
    let (cs, prints) = printf_total fmt args h in
    let (e, returns, _, after) = log_add_lem level file line fmt args prints k ready in
    record {
      buffer = advance k.logbuf e;
      returns = returns;
      ready = after;
      counted = advance_count k.logbuf e ready.valid.count_in;
    }

seq-LogsOn :
    {m m' : Kernel → Outcome Kernel (Unit {0})} {a b : ℕ}
    → LogsOn m a
    → LogsOn m' b
    → LogsOn (m >> m') (a + b)
seq-LogsOn {m} {m'} {a} {b} p q k ready =
    let x = p k ready in
    let y = q (logged_to k x.buffer) x.ready in
    let same = (settle_lem k.hart ready.sane).4 in
    record {
      buffer = y.buffer;
      returns =
          and_then _ _ x.returns
            (y.returns ∙ λ i. ok tt (record k { hart = same i; logbuf = y.buffer }));
      ready = record {
        free = y.ready.free;
        sane = (settle_lem k.hart ready.sane).0;
        valid = y.ready.valid;
      };
      counted = ground (arith, x.counted, y.counted);
    }

test_levels-LogsOn : (file : List ℕ) → LogsOn (test_levels file) 4
unfolding test_levels log_info log_warn log_debug log_panic_prep fits takes printf_branch peek skip
    next_word next_text Option.map
test_levels-LogsOn file = seq-LogsOn (add-LogsOn _ _ _ _ _ refl) (
    seq-LogsOn (add-LogsOn _ _ _ _ _ refl)
      (seq-LogsOn (add-LogsOn _ _ _ _ _ refl) (add-LogsOn _ _ _ _ _ refl)))

test_formats-LogsOn : (file : List ℕ) → LogsOn (test_formats file) 5
unfolding test_formats log_info fits takes printf_branch peek skip next_word next_text Option.map
test_formats-LogsOn file = seq-LogsOn (add-LogsOn _ _ _ _ _ refl) (
    seq-LogsOn (add-LogsOn _ _ _ _ _ refl) (
      seq-LogsOn (add-LogsOn _ _ _ _ _ refl)
        (seq-LogsOn (add-LogsOn _ _ _ _ _ refl) (add-LogsOn _ _ _ _ _ refl))))

round-LogsOn :
    (file : List ℕ) (i : ℕ) → LogsOn (log_debug file 421 (chars "wrap test i=%d") (word i ∷ [])) 1
unfolding log_debug fits takes printf_branch peek skip next_word Option.map
round-LogsOn file i = add-LogsOn _ _ _ _ _ refl

test_wrap-LogsOn : (file : List ℕ) (more i : ℕ) → LogsOn (test_wrap file (suc more) i) (suc more)
unfolding test_wrap
test_wrap-LogsOn file zero i k ready =
    let x = round-LogsOn file i k ready in
    record {
      buffer = x.buffer;
      returns = and_then _ _ x.returns refl;
      ready = x.ready;
      counted = x.counted;
    }
test_wrap-LogsOn file (suc more) i k ready =
    subst (λ n. Logs k n (test_wrap file (suc (suc more)) i k)) one_more
      (seq-LogsOn (round-LogsOn file i) (test_wrap-LogsOn file more (i + 1)) k ready)
  where
    one_more : 1 + suc more ≡ suc (suc more)
    one_more = omega arith

-- Once settled, a hart stays as it is.
module _ (h : Cpu) (once : settle (settle h) ≡ settle h) where
  settled_4 : settle (settle (settle (settle h))) ≡ settle h
  settled_4 = cc

  settled_5 : settle (settle (settle (settle (settle h)))) ≡ settle h
  settled_5 = cc

abbrev pub test_msg : List ℕ
test_msg = chars "log_test: simulated panic for dumppanic"

-- What `log_test` leaves: a full buffer, which it has printed, and a crash context.
pub record TestRuns (m : Machine) (k : Kernel) (r : Outcome Kernel ℕ) : Type 0 where
  pub buffer : LogBuf
  pub saved : CrashContext
  pub returns :
      r
      ≡ ok 0 (record k {
        hart = settle k.hart;
        logbuf = buffer;
        saved_crash_ctx = saved;
        console = k.console ++ (flush_text buffer ++ chars "log_test: all tests completed.\n");
      })
  pub full : buffer.count ≡ log_size
  pub ready : IsReady (logged_to k buffer)
  pub captures : Captures m test_msg k saved

-- With all three locks free, a buffer that is ready and a machine on which every word that the walk
-- of the stack reads is mapped, `log_test` returns 0: no lock call panics and no format is undefined. The buffer is then full, whatever it held, the flush has printed all
-- of it, and the context captures the machine, with the magic number of a crash.
pub log_test_lem :
    (file : List ℕ) (m : Machine) (k : Kernel) (pcs : List ℕ)
    → IsReady k
    → k.flushing ≡ false
    → IsFree k.tickslock
    → IsFree k.pr_lock
    → Walks m.load 10 m.regs.s0 pcs
    → TestRuns m k (log_test file m k)
unfolding log_test
log_test_lem file m k pcs ready idle ticks_free pr_free mapped =
    let x = test_levels-LogsOn file k ready in
    let k1 = logged_to k x.buffer in
    let y = test_wrap-LogsOn file 68 0 k1 x.ready in
    let k2 = logged_to k1 y.buffer in
    let z = test_formats-LogsOn file k2 y.ready in
    let k3 = logged_to k2 z.buffer in
    let k4 : Kernel = record k3 {
      hart = settle k3.hart;
      flushing = false;
      console = k.console ++ flush_text z.buffer;
    } in
    let sane3 = (settle_lem k3.hart z.ready.sane).0 in
    let (c, saves, cap) = log_save-Saves m test_msg k4 ticks_free sane3 pcs mapped in
    let k5 : Kernel = record k4 { hart = settle k4.hart; saved_crash_ctx = c } in
    let once = (settle_lem k.hart ready.sane).4 in
    let can : CanPrint k5 = inr (record {
      free = pr_free;
      sane = (settle_lem k4.hart sane3).0;
      settled = (settle_lem k4.hart sane3).4;
    }) in
    record {
      buffer = z.buffer;
      saved = c;
      returns = and_then _ _ x.returns (
          and_then _ _ y.returns (
            and_then _ _ z.returns (
              and_then _ _ (log_flush_lem k3 idle z.ready (inr pr_free)) (
                and_then _ _ saves (
                  and_then _ _
                    (printf-Prints k5 can
                      (Prints-text (chars "log_test: all tests completed.\n") refl))
                    λ i. ok 0 (record k {
                      hart = settled_5 k.hart once i;
                      flushing = sym idle i;
                      logbuf = z.buffer;
                      saved_crash_ctx = c;
                      console =
                          append_assoc k.console (flush_text z.buffer)
                            (chars "log_test: all tests completed.\n") i;
                    }))))));
      full = omega (arith, z.counted, y.counted);
      ready = record {
        free = z.ready.free;
        sane = (settle_lem k.hart ready.sane).0;
        valid = z.ready.valid;
      };
      captures = record {
        regs = cap.regs;
        csrs = cap.csrs;
        process = cap.process;
        ticks = cap.ticks;
        cpu =
            cap.cpu
            ∙ (ap (λ h. h.hartid) (settled_4 k.hart once) ∙ (settle_lem k.hart ready.sane).3);
        message = cap.message;
        pcs = cap.pcs;
        walks = cap.walks;
        depth = cap.depth;
        trace = cap.trace;
        trace_size = cap.trace_size;
        magic = cap.magic;
      };
    }
