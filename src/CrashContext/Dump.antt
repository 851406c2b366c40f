-- ===== src/CrashContext/Dump.antt =====
-- What `log_dump_crash_context` prints.
use kernel_panic_logger.Prelude.{
  ℕ, zero, suc, ◌+◌, ◌^◌, ◌≡◌, ◌≢◌, refl, ◌<◌, ◌≤◌, ◌∙◌, ap, sym, List, [], ◌∷◌, ◌++◌, true, false,
  ◌==◌, ◌&&◌, arith, length, take, get_elem?, some, ltb, if_true, if_false, String, append-nil,
  append_assoc, length-append, ==_iff,
}
use kernel_panic_logger.Format.{Arg}
use kernel_panic_logger.Format.Steps.{Prints, d, s, x, ld, lit, Prints-text, has_no_percent}
use kernel_panic_logger.Kernel.{Kernel, Regs, CrashContext, chars, crash_magic}
use kernel_panic_logger.Printk.{printf, printf-Prints, CanPrint, Says, Says-then}
use kernel_panic_logger.CrashContext.Text.{
  row-Prints, line_end, first_row, frame_row, a0_row, a4_row, t0_row, s2_row, s6_row, s10_row,
  t3_row, csrs_row, regs_text, facts_text, details_text, frame_text, frames_text, context_text,
  no_context_text, process-Prints, depth-Prints, frame-Prints,
}
use kernel_panic_logger.CrashContext.{
  dump_header, dump_regs, dump_details, print_frame, dump_frames, dump_body, log_dump_crash_context,
}

abbrev kernel_title : List ℕ
kernel_title = chars "\n========== KERNEL PANIC CRASH DUMP ==========\n"

module _ (k : Kernel) (can : CanPrint k) where
  printed :
      {fmt : List ℕ} {args : List Arg} {cs : List ℕ}
      → Prints fmt args cs
      → Says (printf fmt args) k cs
  printed p = printf-Prints k can p

  titled : (t : String) → has_no_percent (chars t) ≡ true → Says (printf (chars t) []) k (chars t)
  titled t h = printf-Prints k can (Prints-text (chars t) h)

dump_regs-Says : (r : Regs) (k : Kernel) → CanPrint k → Says (dump_regs r) k (regs_text r)
unfolding dump_regs regs_text
dump_regs-Says r k can = Says-then _ _ k _ _ (printed k can (row-Prints (first_row r) refl)) (
    Says-then _ _ _ _ _ (printed _ can (row-Prints (frame_row r) refl)) (
      Says-then _ _ _ _ _ (printed _ can (row-Prints (a0_row r) refl)) (
        Says-then _ _ _ _ _ (printed _ can (row-Prints (a4_row r) refl)) (
          Says-then _ _ _ _ _ (printed _ can (row-Prints (t0_row r) refl)) (
            Says-then _ _ _ _ _ (printed _ can (row-Prints (s2_row r) refl)) (
              Says-then _ _ _ _ _ (printed _ can (row-Prints (s6_row r) refl)) (
                Says-then _ _ _ _ _ (printed _ can (row-Prints (s10_row r) refl))
                  (printed _ can (row-Prints (t3_row r) refl)))))))))

dump_header-Says :
    (c : CrashContext) (k : Kernel)
    → CanPrint k
    → Says (dump_header c) k (kernel_title ++ facts_text c)
unfolding dump_header facts_text
dump_header-Says c k can =
    Says-then _ _ k _ _ (titled k can "\n========== KERNEL PANIC CRASH DUMP ==========\n" refl) (
      Says-then _ _ _ _ _ (printed _ can (lit (chars "Message: ") refl (s line_end))) (
        Says-then _ _ _ _ _ (printed _ can (lit (chars "Ticks:   ") refl (ld line_end))) (
          Says-then _ _ _ _ _ (printed _ can (lit (chars "CPU:     ") refl (d line_end)))
            (titled _ can "\n-- RISC-V Register State --\n" refl))))

dump_details-Says :
    (c : CrashContext) (k : Kernel) → CanPrint k → Says (dump_details c) k (details_text c)
unfolding dump_details details_text
dump_details-Says c k can = Says-then _ _ k _ _ (titled k can "\n-- Supervisor CSRs --\n" refl) (
    Says-then _ _ _ _ _ (printed _ can (row-Prints (csrs_row c.csrs) refl)) (
      Says-then _ _ _ _ _ (titled _ can "\n-- Process Info --\n" refl)
        (Says-then _ _ _ _ _ (printed _ can (process-Prints c)) (printed _ can (depth-Prints c)))))

get_elem?-append :
    (xs : List ℕ) (y : ℕ) (ys : List ℕ) → get_elem? (xs ++ (y ∷ ys)) (length xs) ≡ some y
get_elem?-append [] y ys = refl
get_elem?-append (a ∷ xs) y ys = get_elem?-append xs y ys

print_frame-Says :
    (i pc : ℕ) (c : CrashContext) (k : Kernel)
    → CanPrint k
    → get_elem? c.stacktrace i ≡ some pc
    → Says (print_frame i c) k (frame_text i pc)
unfolding print_frame
print_frame-Says i pc c k can found = rw (found, print_frame) (printed k can (frame-Prints i pc))

-- The frames from round `length seen` on, of a trace that the first `depth` entries hold.
dump_frames-Says :
    (c : CrashContext) (rounds : ℕ) (seen rest : List ℕ) (n : ℕ) (k : Kernel)
    → CanPrint k
    → c.stacktrace ≡ seen ++ rest
    → length rest ≡ rounds
    → n ≤ rounds
    → c.stack_depth ≡ length seen + n
    → c.stack_depth < 2 ^ 31
    → Says (dump_frames rounds (length seen) c) k (frames_text (length seen) (take n rest))
unfolding dump_frames frames_text
dump_frames-Says c zero seen rest zero k can e l h depth small =
    ground (arith, append-nil k.console)
dump_frames-Says c zero seen rest (suc n) k can e l h depth small = absurd (omega arith)
dump_frames-Says c (suc rounds) seen rest zero k can e l h depth small =
    if_false _ _ finished ∙ ground (arith, append-nil k.console)
  where
    finished : (ltb c.stack_depth (2 ^ 31) && ltb (length seen) c.stack_depth) ≡ false
    finished = ground arith
dump_frames-Says c (suc rounds) seen [] (suc n) k can e l h depth small = absurd (omega (arith, l))
dump_frames-Says c (suc rounds) seen (pc ∷ rest) (suc n) k can e l h depth small =
    if_true _ _ going
    ∙ Says-then _ _ k _ _
        (print_frame-Says (length seen) pc c k can
          (ap (λ xs. get_elem? xs (length seen)) e ∙ get_elem?-append seen pc rest))
        (rw count (
          dump_frames-Says c rounds (seen ++ (pc ∷ [])) rest n _ can
            (e ∙ sym (append_assoc seen (pc ∷ []) rest)) (omega (arith, l)) (omega arith)
            (omega (arith, depth, length-append seen (pc ∷ []))) small))
  where
    going : (ltb c.stack_depth (2 ^ 31) && ltb (length seen) c.stack_depth) ≡ true
    going = ground arith

    count : length seen + 1 ≡ length (seen ++ (pc ∷ []))
    count = omega (arith, length-append seen (pc ∷ []))

-- The whole dump of a context.
pub dump_text : CrashContext → List ℕ
dump_text = context_text kernel_title (chars "============================================\n")

-- What is printed where no context is stored.
pub missing_text : CrashContext → List ℕ
missing_text = no_context_text (chars "No crash context saved (magic=0x") (chars ")\n")

-- With the console at hand, `log_dump_crash_context` prints a valid context in full: the message, the
-- ticks, the hart, the 31 registers, the supervisor registers, the process and a line for each of
-- the at most 10 frames; nothing else changes.
pub log_dump_lem :
    (k : Kernel)
    → CanPrint k
    → k.saved_crash_ctx.magic ≡ crash_magic
    → k.saved_crash_ctx.stack_depth ≤ 10
    → length k.saved_crash_ctx.stacktrace ≡ 10
    → Says log_dump_crash_context k (dump_text k.saved_crash_ctx)
unfolding log_dump_crash_context dump_body dump_text context_text
log_dump_lem k can magic shallow size =
    if_true _ _ ((==_iff _ _).1 magic)
    ∙ Says-then _ _ k _ _ (dump_header-Says c k can) (
        Says-then _ _ _ _ _ (dump_regs-Says c.regs _ can) (
          Says-then _ _ _ _ _ (dump_details-Says c _ can) (
            Says-then _ _ _ _ _
              (dump_frames-Says c 10 [] c.stacktrace c.stack_depth _ can refl size shallow
                (omega arith) (omega arith))
              (titled _ can "============================================\n" refl))))
  where
    c : CrashContext
    c = k.saved_crash_ctx

-- With no valid context stored it says so, and prints nothing else.
pub log_dump_missing :
    (k : Kernel)
    → CanPrint k
    → k.saved_crash_ctx.magic ≢ crash_magic
    → Says log_dump_crash_context k (missing_text k.saved_crash_ctx)
unfolding log_dump_crash_context missing_text no_context_text
log_dump_missing k can other =
    if_false _ _ (differs k.saved_crash_ctx.magic other)
    ∙ printed k can (
        lit (chars "No crash context saved (magic=0x") refl
          (x (lit (chars ", expected 0x") refl (x (Prints-text (chars ")\n") refl)))))
  where
    differs : (n : ℕ) → n ≢ crash_magic → (n == crash_magic) ≡ false
    differs n h = ground arith
