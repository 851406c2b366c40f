-- ===== src/CrashContext/Walk.antt =====
-- The frame-pointer walk of `log_save_crash_context` against the frames in memory.
use kernel_panic_logger.Prelude.{
  ℕ, zero, suc, ◌+◌, ◌%◌, ◌^◌, ◌≡◌, ◌≢◌, refl, ◌≤◌, ◌∙◌, ap, sym, List, [], ◌∷◌, ◌++◌, false, ◌==◌,
  arith, length, set, take, drop, set-append, length-append, append_assoc, Option, none, some, ◌⊎◌,
  inl, inr, Bool-cases, Option-cases, if_true, if_false, ==_iff,
}
use native.Mathlib.Nat.{add-zero, zero-add}
use kernel_panic_logger.Kernel.{CrashContext}
use kernel_panic_logger.CrashContext.{walk_loop, save_stack}

-- The words of a frame record that the walk reads: the return address at offset 8 and the caller's
-- frame pointer at offset 0.
abbrev return_at : ℕ → ℕ
return_at fp = (fp + 8) % 2 ^ 64

-- A walk of n rounds from fp on that finds these return addresses: it ends after its rounds or at a
-- null frame pointer, and every word that it reads is mapped.
pub data Walks (load : ℕ → Option ℕ) : ℕ → ℕ → List ℕ → Type 0 where
  full : {fp : ℕ} → Walks load zero fp []
  null : {n fp : ℕ} → fp ≡ 0 → Walks load n fp []
  round :
      {n fp pc caller : ℕ} {pcs : List ℕ}
      → fp ≢ 0
      → load (return_at fp) ≡ some pc
      → load fp ≡ some caller
      → Walks load n caller pcs
      → Walks load (suc n) fp (pc ∷ pcs)

-- A walk of n rounds from fp on whose load at the address faults: at the return address of its first
-- frame, at the frame pointer in it, or further on.
pub data Faults (load : ℕ → Option ℕ) : ℕ → ℕ → ℕ → Type 0 where
  at_return :
      {n fp : ℕ} → fp ≢ 0 → load (return_at fp) ≡ none → Faults load (suc n) fp (return_at fp)
  at_caller :
      {n fp pc : ℕ}
      → fp ≢ 0
      → load (return_at fp) ≡ some pc
      → load fp ≡ none
      → Faults load (suc n) fp fp
  further :
      {n fp pc caller address : ℕ}
      → fp ≢ 0
      → load (return_at fp) ≡ some pc
      → load fp ≡ some caller
      → Faults load n caller address
      → Faults load (suc n) fp address

-- A chain of frame records in memory, which ends in a null frame pointer, with the return addresses
-- in it.
pub data Chain (load : ℕ → Option ℕ) : ℕ → List ℕ → Type 0 where
  done : {fp : ℕ} → fp ≡ 0 → Chain load fp []
  frame :
      {fp pc caller : ℕ} {pcs : List ℕ}
      → fp ≢ 0
      → load (return_at fp) ≡ some pc
      → load fp ≡ some caller
      → Chain load caller pcs
      → Chain load fp (pc ∷ pcs)

Chain-Walks :
    {load : ℕ → Option ℕ} (n : ℕ) {fp : ℕ} {pcs : List ℕ}
    → Chain load fp pcs
    → Walks load n fp (take n pcs)
Chain-Walks zero c = full
Chain-Walks (suc n) (done e) = null e
Chain-Walks (suc n) (frame ne r p c) = round ne r p (Chain-Walks n c)

pub length-Walks :
    {load : ℕ → Option ℕ} {n fp : ℕ} {pcs : List ℕ} → Walks load n fp pcs → length pcs ≤ n
length-Walks full = omega arith
length-Walks (null e) = omega arith
length-Walks (round ne r p w) = omega (arith, length-Walks w)

not_null : (fp : ℕ) → (fp == 0) ≡ false → fp ≢ 0
not_null fp h = ground arith

nonzero : (fp : ℕ) → fp ≢ 0 → (fp == 0) ≡ false
nonzero fp h = ground arith

-- Every walk runs through or faults.
pub walk_cases :
    (load : ℕ → Option ℕ) (n fp : ℕ)
    → ((pcs : List ℕ) × Walks load n fp pcs) ⊎ ((address : ℕ) × Faults load n fp address)
walk_cases load zero fp = inl ([], full)
walk_cases load (suc n) fp = elim (Bool-cases (fp == 0)) [
  | inl is_null ↦ inl ([], null ((==_iff fp 0).0 is_null))
  | inr h ↦ elim (Option-cases (load (return_at fp))) [
    | inl unmapped ↦ inr (return_at fp, at_return (not_null fp h) unmapped)
    | inr (pc, r) ↦ elim (Option-cases (load fp)) [
      | inl unmapped ↦ inr (fp, at_caller (not_null fp h) r unmapped)
      | inr (caller, p) ↦ elim (walk_cases load n caller) [
        | inl (pcs, w) ↦ inl (pc ∷ pcs, round (not_null fp h) r p w)
        | inr (address, f) ↦ inr (address, further (not_null fp h) r p f)
      ]
    ]
  ]
]

-- The context after a walk that found `pcs` beyond `seen`.
abbrev walked : CrashContext → List ℕ → List ℕ → List ℕ → CrashContext
walked c seen rest pcs = record c {
  stacktrace = seen ++ (pcs ++ drop (length pcs) rest);
  stack_depth = length seen + length pcs;
}

-- What the loop returns.
abbrev Result : Type 0
Result = CrashContext × Option ℕ

nothing_more :
    (c : CrashContext) (seen rest : List ℕ)
    → ◌≡◌ {A = Result}
        (record c { stacktrace = seen ++ rest; stack_depth = length seen }, none)
        (walked c seen rest [], none)
nothing_more c seen rest = λ i.
    (record c { stacktrace = seen ++ rest; stack_depth = sym (add-zero (length seen)) i }, none)

walk_loop_lem :
    {load : ℕ → Option ℕ} (rounds fp : ℕ) (c : CrashContext) (seen rest pcs : List ℕ)
    → rounds ≤ length rest
    → Walks load rounds fp pcs
    → ◌≡◌ {A = Result}
        (walk_loop load rounds
          (length seen)
          fp
          (record c { stacktrace = seen ++ rest; stack_depth = length seen }))
        (walked c seen rest pcs, none)
unfolding walk_loop
walk_loop_lem zero fp c seen rest _ h full = nothing_more c seen rest
walk_loop_lem zero fp c seen rest _ h (null e) = nothing_more c seen rest
walk_loop_lem (suc rounds) fp c seen rest _ h (null e) =
    if_true _ _ ((==_iff fp 0).1 e) ∙ nothing_more c seen rest
walk_loop_lem (suc rounds) fp c seen [] _ h (round ne r p w) = absurd (omega arith)
walk_loop_lem {load} (suc rounds) fp c seen (old ∷ rest) _ h (round {pc} {caller} {pcs} ne r p w) =
    if_false _ _ (nonzero fp ne)
    ∙ rw (r, p)
        ((λ i.
            walk_loop load rounds (count i) caller
              (record c { stacktrace = array i; stack_depth = count i }))
          ∙ (walk_loop_lem rounds caller c (seen ++ (pc ∷ [])) rest pcs (omega arith) w ∙ λ i.
              (record c { stacktrace = array' i; stack_depth = count' i }, none)))
  where
    count : length seen + 1 ≡ length (seen ++ (pc ∷ []))
    count = omega (arith, length-append seen (pc ∷ []))

    array : set (seen ++ (old ∷ rest)) (length seen) pc ≡ (seen ++ (pc ∷ [])) ++ rest
    array = set-append seen rest old pc ∙ sym (append_assoc seen (pc ∷ []) rest)

    array' :
        (seen ++ (pc ∷ [])) ++ (pcs ++ drop (length pcs) rest)
        ≡ seen ++ (pc ∷ (pcs ++ drop (length pcs) rest))
    array' = append_assoc seen (pc ∷ []) (pcs ++ drop (length pcs) rest)

    count' : length (seen ++ (pc ∷ [])) + length pcs ≡ length seen + suc (length pcs)
    count' = omega (arith, length-append seen (pc ∷ []))

-- A walk that reads mapped words only ends after at most 10 frames and stores just the return
-- addresses that it found, at the front of the array.
pub save_stack-Walks :
    {load : ℕ → Option ℕ} (c : CrashContext) (pcs : List ℕ)
    → length c.stacktrace ≡ 10
    → Walks load 10 c.regs.s0 pcs
    → save_stack load c ≡ (
      record c { stacktrace = pcs ++ drop (length pcs) c.stacktrace; stack_depth = length pcs },
      none,
    )
unfolding save_stack
save_stack-Walks c pcs h w = walk_loop_lem 10 c.regs.s0 c [] c.stacktrace pcs (omega arith) w ∙ λ i.
    (
      record c {
        stacktrace = pcs ++ drop (length pcs) c.stacktrace;
        stack_depth = zero-add (length pcs) i;
      },
      none,
    )

-- A walk that faults says where, and has stored in the trace and its depth alone.
pub record FaultsAt (address : ℕ) (c : CrashContext) (r : CrashContext × Option ℕ) : Type 0 where
  pub where_at : r.1 ≡ some address
  pub regs : r.0.regs ≡ c.regs
  pub magic : r.0.magic ≡ c.magic

walk_loop-FaultsAt :
    {load : ℕ → Option ℕ} (rounds i fp : ℕ) (c : CrashContext) (address : ℕ)
    → Faults load rounds fp address
    → FaultsAt address c (walk_loop load rounds i fp c)
unfolding walk_loop
walk_loop-FaultsAt zero i fp c address f = elim f [ ]
walk_loop-FaultsAt (suc rounds) i fp c _ (at_return ne r) =
    rw (nonzero fp ne, r) (record { where_at = refl; regs = refl; magic = refl })
walk_loop-FaultsAt (suc rounds) i fp c _ (at_caller ne r p) =
    rw (nonzero fp ne, r, p) (record { where_at = refl; regs = refl; magic = refl })
walk_loop-FaultsAt (suc rounds) i fp c address (further {caller} ne r p f) =
    rw (nonzero fp ne, r, p)
      (let x = walk_loop-FaultsAt rounds (i + 1) caller _ address f in
        record { where_at = x.where_at; regs = x.regs; magic = x.magic })

pub save_stack-FaultsAt :
    {load : ℕ → Option ℕ} (c : CrashContext) (address : ℕ)
    → Faults load 10 c.regs.s0 address
    → FaultsAt address c (save_stack load c)
unfolding save_stack
save_stack-FaultsAt c address f =
    let x = walk_loop-FaultsAt 10 0 c.regs.s0 (record c { stack_depth = 0 }) address f in
    record { where_at = x.where_at; regs = x.regs; magic = x.magic }

-- If the saved s0 starts a chain of frames in mapped memory, no load of the walk faults, the context
-- holds the chain's first 10 return addresses, or all of them where there are fewer, and
-- `stack_depth` says how many.
pub save_stack-Chain :
    (load : ℕ → Option ℕ) (c : CrashContext) (pcs : List ℕ)
    → length c.stacktrace ≡ 10
    → Chain load c.regs.s0 pcs
    → ((save_stack load c).1 ≡ none)
      × ((save_stack load c).0.stack_depth ≡ length (take 10 pcs))
      × ((save_stack load c).0.stacktrace ≡ take 10 pcs ++ drop (length (take 10 pcs)) c.stacktrace)
save_stack-Chain load c pcs h chain =
    let saved = save_stack-Walks c (take 10 pcs) h (Chain-Walks 10 chain) in
    (ap (λ s. s.1) saved, ap (λ s. s.0.stack_depth) saved, ap (λ s. s.0.stacktrace) saved)
