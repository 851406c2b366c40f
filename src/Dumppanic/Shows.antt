-- ===== src/Dumppanic/Shows.antt =====
-- What `dumppanic` shows of a saved context.
use mathlib.Core.Option
use kernel_panic_logger.Prelude.{
  ℕ, zero, suc, ◌+◌, ◌%◌, ◌^◌, ◌≡◌, refl, ◌<◌, ◌≤◌, ◌∙◌, ap, sym, List, [], ◌∷◌, ◌++◌, Option, none,
  some, true, false, ◌&&◌, ltb, arith, length, take, get_elem?, map, if_true, ==_iff, append_assoc,
  length-append,
}
use mathlib.Core.List.{map-append}
use kernel_panic_logger.Format.{Arg}
use kernel_panic_logger.Format.Steps.{
  Prints, d, s, lu, lit, Prints-text, Prints-printf_codes, has_no_percent,
}
use kernel_panic_logger.Kernel.{Regs, CrashContext, chars, crash_magic}
use kernel_panic_logger.UserPrintf.{vprintf}
use kernel_panic_logger.UserPrintf.Numbers.{fold_case, SameText}
use kernel_panic_logger.UserPrintf.Agree.{has_no_nul, vprintf-printf}
use kernel_panic_logger.CrashContext.Text.{
  row-Prints, line_end, first_row, frame_row, a0_row, a4_row, t0_row, s2_row, s6_row, s10_row,
  t3_row, csrs_row, regs_text, facts_text, details_text, frame_text, frames_text, context_text,
  process-Prints, depth-Prints, frame-Prints,
}
use kernel_panic_logger.Dumppanic.{
  ◌⨾◌, printf, print_facts, print_regs, print_details, print_frame, print_frames, print_body,
  print_ctx, Reply, main,
}

-- The program writes a text, up to the case of the letters A to F.
pub record Shows (o : Option (List ℕ)) (cs : List ℕ) : Type 0 where
  pub out : List ℕ
  pub writes : o ≡ some out
  pub same : map fold_case out ≡ map fold_case cs

Shows-then :
    {a b : Option (List ℕ)} {xs ys : List ℕ} → Shows a xs → Shows b ys → Shows (a ⨾ b) (xs ++ ys)
unfolding ◌⨾◌ Option.bind
Shows-then {xs} {ys} p q = record {
  out = p.out ++ q.out;
  writes = rw (p.writes, q.writes) refl;
  same =
      map-append fold_case p.out q.out
      ∙ ((λ i. p.same i ++ q.same i) ∙ sym (map-append fold_case xs ys));
}

same-Shows : (o : Option (List ℕ)) (cs : List ℕ) → SameText o (some cs) → Shows o cs
same-Shows none cs h = absurd (ground (arith, h))
same-Shows (some out) cs h = record { out = out; writes = refl; same = cc }

printed :
    {fmt : List ℕ} {args : List Arg} {cs : List ℕ}
    → Prints fmt args cs
    → has_no_nul fmt ≡ true
    → Shows (printf fmt args) cs
printed {fmt} {args} {cs} p h =
    same-Shows (vprintf fmt args) cs
      (vprintf-printf fmt args h ∙ ap (Option.map (map fold_case)) (Prints-printf_codes p))

titled : (t : List ℕ) → has_no_percent t ≡ true → has_no_nul t ≡ true → Shows (printf t []) t
titled t h n = printed (Prints-text t h) n

print_regs-Shows : (r : Regs) → Shows (print_regs r) (regs_text r)
unfolding print_regs regs_text
print_regs-Shows r = Shows-then (printed (row-Prints (first_row r) refl) refl) (
    Shows-then (printed (row-Prints (frame_row r) refl) refl) (
      Shows-then (printed (row-Prints (a0_row r) refl) refl) (
        Shows-then (printed (row-Prints (a4_row r) refl) refl) (
          Shows-then (printed (row-Prints (t0_row r) refl) refl) (
            Shows-then (printed (row-Prints (s2_row r) refl) refl) (
              Shows-then (printed (row-Prints (s6_row r) refl) refl) (
                Shows-then (printed (row-Prints (s10_row r) refl) refl)
                  (printed (row-Prints (t3_row r) refl) refl))))))))

facts-Shows :
    (c : CrashContext) → c.panic_ticks % 2 ^ 64 < 2 ^ 63 → Shows (print_facts c) (facts_text c)
unfolding print_facts facts_text
facts-Shows c small = Shows-then (printed (lit (chars "Message: ") refl (s line_end)) refl) (
    Shows-then (printed (lit (chars "Ticks:   ") refl (lu small line_end)) refl) (
      Shows-then (printed (lit (chars "CPU:     ") refl (d line_end)) refl)
        (titled (chars "\n-- RISC-V Register State --\n") refl refl)))

details-Shows : (c : CrashContext) → Shows (print_details c) (details_text c)
unfolding print_details details_text
details-Shows c = Shows-then (titled (chars "\n-- Supervisor CSRs --\n") refl refl) (
    Shows-then (printed (row-Prints (csrs_row c.csrs) refl) refl) (
      Shows-then (titled (chars "\n-- Process Info --\n") refl refl)
        (Shows-then (printed (process-Prints c) refl) (printed (depth-Prints c) refl))))

get_elem?-append :
    (xs : List ℕ) (y : ℕ) (ys : List ℕ) → get_elem? (xs ++ (y ∷ ys)) (length xs) ≡ some y
get_elem?-append [] y ys = refl
get_elem?-append (a ∷ xs) y ys = get_elem?-append xs y ys

frame-Shows :
    (i pc : ℕ) (c : CrashContext)
    → get_elem? c.stacktrace i ≡ some pc
    → Shows (print_frame i c) (frame_text i pc)
unfolding print_frame Option.bind
frame-Shows i pc c found = rw found (printed (frame-Prints i pc) refl)

nothing-Shows : Shows (some []) []
nothing-Shows = record { out = []; writes = refl; same = refl }

-- The frames from round `length seen` on, of a trace of which n more are to be shown.
frames-Shows :
    (c : CrashContext) (rounds : ℕ) (seen rest : List ℕ) (n : ℕ)
    → c.stacktrace ≡ seen ++ rest
    → length rest ≡ rounds
    → n ≤ rounds
    → c.stack_depth ≡ length seen + n
    → c.stack_depth < 2 ^ 31
    → Shows (print_frames rounds (length seen) c) (frames_text (length seen) (take n rest))
unfolding print_frames frames_text
frames-Shows c zero seen rest zero e l h depth small = nothing-Shows
frames-Shows c zero seen rest (suc n) e l h depth small = absurd (omega arith)
frames-Shows c (suc rounds) seen rest zero e l h depth small = rw finished nothing-Shows
  where
    finished : (ltb c.stack_depth (2 ^ 31) && ltb (length seen) c.stack_depth) ≡ false
    finished = ground arith
frames-Shows c (suc rounds) seen [] (suc n) e l h depth small = absurd (omega (arith, l))
frames-Shows c (suc rounds) seen (pc ∷ rest) (suc n) e l h depth small = rw going (
    Shows-then
      (frame-Shows (length seen) pc c
        (ap (λ xs. get_elem? xs (length seen)) e ∙ get_elem?-append seen pc rest))
      (rw count (
        frames-Shows c rounds (seen ++ (pc ∷ [])) rest n
          (e ∙ sym (append_assoc seen (pc ∷ []) rest)) (omega (arith, l)) (omega arith)
          (omega (arith, depth, length-append seen (pc ∷ []))) small)))
  where
    going : (ltb c.stack_depth (2 ^ 31) && ltb (length seen) c.stack_depth) ≡ true
    going = ground arith

    count : length seen + 1 ≡ length (seen ++ (pc ∷ []))
    count = omega (arith, length-append seen (pc ∷ []))

-- The arrays of a context that the kernel has stored, and the ranges of its counts.
pub record IsStored (c : CrashContext) : Type 0 where
  pub magic : c.magic ≡ crash_magic
  pub ticks : c.panic_ticks < 2 ^ 63
  pub depth : c.stack_depth ≤ 10
  pub trace : length c.stacktrace ≡ 10

abbrev pub title : List ℕ
title = chars "\n========== SAVED KERNEL PANIC CRASH DUMP ==========\n"

abbrev pub footer : List ℕ
footer = chars "====================================================\n"

print_ctx-Shows :
    (c : CrashContext) → IsStored c → Shows (print_ctx c) (context_text title footer c)
unfolding print_ctx print_body context_text
print_ctx-Shows c stored = rw ((==_iff c.magic crash_magic).1 stored.magic) (
    rw (append_assoc title (facts_text c) _) (
      Shows-then (titled title refl refl) (
        Shows-then (facts-Shows c (omega (arith, stored.ticks))) (
          Shows-then (print_regs-Shows c.regs) (
            Shows-then (details-Shows c) (
              Shows-then
                (frames-Shows c 10 [] c.stacktrace c.stack_depth refl stored.trace stored.depth
                  (omega arith) (omega (arith, stored.depth)))
                (titled footer refl refl)))))))

-- What a run of the program writes and returns.
pub record Runs (r : Option (List ℕ × ℕ)) (cs : List ℕ) (status : ℕ) : Type 0 where
  pub out : List ℕ
  pub ends : r ≡ some (out, status)
  pub same : map fold_case out ≡ map fold_case cs

-- With a reply that succeeds and has the right size, `dumppanic` shows a stored context in full, as
-- the kernel's own dump lays it out between another title and footer, up to the case of the
-- hexadecimal digits, and returns 0.
pub main_shows :
    (context_size : ℕ) (reply : Reply)
    → reply.ret ≡ 0
    → reply.sz ≡ context_size
    → IsStored reply.ctx
    → Runs (main context_size reply) (context_text title footer reply.ctx) 0
unfolding main
main_shows context_size reply good size stored =
    let p = print_ctx-Shows reply.ctx stored in
    record {
      out = p.out;
      ends =
          if_true _ _ (ap (λ r. ltb r (2 ^ 31)) good)
          ∙ (if_true _ _ ((==_iff reply.sz context_size).1 size)
              ∙ ap (Option.map (λ cs. (cs, 0))) p.writes);
      same = p.same;
    }
