-- ===== src/Kalloc/Init.antt =====
-- `kinit` and `freerange`: after boot all whole pages between `end` and PHYSTOP are free.
use kernel_panic_logger.Prelude.{
  ℕ, zero, suc, ◌+◌, ◌-◌, ◌*◌, ◌/◌, ◌%◌, ◌≡◌, refl, ◌<◌, ◌≤◌, ◌∙◌, List, [], ◌∷◌, true, false,
  arith, if_true, if_false, leb,
}
use kernel_panic_logger.Outcome.{ok, modify, and_then}
use kernel_panic_logger.Spinlock.{initlock}
use kernel_panic_logger.Spinlock.Laws.{IsSane}
use kernel_panic_logger.Kalloc.{
  Heap, page_size, phys_stop, page_round_up, free_loop, freerange, kinit,
}
use kernel_panic_logger.Kalloc.FreeList.{IsPage, IsFresh, IsHeap, Leaves, empty, kfree_lem}

-- The n pages from p on, the last one first, in front of these.
abbrev pub stacked : ℕ → ℕ → List ℕ → List ℕ
stacked zero p ps = ps
stacked (suc n) p ps = stacked n (p + page_size) (p ∷ ps)

abbrev AreBelow : ℕ → List ℕ → Type 0
AreBelow p [] = Unit {0}
AreBelow p (q ∷ qs) = (q < p) × AreBelow p qs

below-IsFresh : (p : ℕ) (ps : List ℕ) → AreBelow p ps → IsFresh p ps
below-IsFresh p [] h = tt
below-IsFresh p (q ∷ qs) (lt, h) = (omega (arith, lt), below-IsFresh p qs h)

AreBelow-next : (p : ℕ) (ps : List ℕ) → AreBelow p ps → AreBelow (p + page_size) ps
AreBelow-next p [] h = tt
AreBelow-next p (q ∷ qs) (lt, h) = (omega (arith, lt), AreBelow-next p qs h)

fits-leb : (a b : ℕ) → a ≤ b → leb a b ≡ true
fits-leb a b h = ground arith

past-leb : (a b : ℕ) → b < a → leb a b ≡ false
past-leb a b h = ground arith

-- The loop frees the n pages that fit below `pa_end`, given that many rounds.
free_loop_lem :
    (end_address n rounds p pa_end : ℕ) (k : Heap) (ps : List ℕ)
    → n ≤ rounds
    → p + n * page_size ≤ pa_end
    → pa_end < p + n * page_size + page_size
    → pa_end ≤ phys_stop
    → p % page_size ≡ 0
    → end_address ≤ p
    → AreBelow p ps
    → IsHeap end_address k ps
    → Leaves end_address (free_loop end_address rounds p pa_end k) tt (stacked n p ps)
unfolding free_loop
free_loop_lem end_address zero zero p pa_end k ps h lo hi top a e below heap = (k, refl, heap)
free_loop_lem end_address zero (suc rounds) p pa_end k ps h lo hi top a e below heap =
    (k, if_false _ _ (past-leb (p + page_size) pa_end (omega arith)), heap)
free_loop_lem end_address (suc n) zero p pa_end k ps h lo hi top a e below heap =
    absurd (omega arith)
free_loop_lem end_address (suc n) (suc rounds) p pa_end k ps h lo hi top a e below heap =
    let page : IsPage end_address p = record { aligned = a; above = e; below = omega arith } in
    let (k1, freed, heap1) = kfree_lem end_address p k ps page (below-IsFresh p ps below) heap in
    let (k2, rest, heap2) =
      free_loop_lem end_address n rounds (p + page_size) pa_end k1 (p ∷ ps) (omega arith)
        (omega arith) (omega arith) top (omega arith) (omega arith)
        (omega arith, AreBelow-next p ps below) heap1 in
    (
      k2,
      if_true _ _ (fits-leb (p + page_size) pa_end (omega arith)) ∙ and_then _ _ freed rest,
      heap2,
    )

-- The number of whole pages between `end` and PHYSTOP.
abbrev pub page_count : ℕ → ℕ
page_count end_address = (phys_stop - page_round_up end_address) / page_size

freerange_lem :
    (end_address : ℕ) (k : Heap)
    → page_round_up end_address ≤ phys_stop
    → IsHeap end_address k []
    → Leaves end_address
        (freerange end_address end_address phys_stop k)
        tt
        (stacked (page_count end_address) (page_round_up end_address) [])
unfolding freerange
freerange_lem end_address k room heap =
    free_loop_lem end_address (page_count end_address) (phys_stop / page_size)
      (page_round_up end_address) phys_stop k [] (omega arith) (omega arith) (omega arith)
      (omega arith) (omega arith) (omega arith) tt heap

-- The state once the lock is initialised.
abbrev locked_new : Heap → Heap
locked_new k = record k { lock = initlock "kmem" }

new-IsHeap :
    (end_address : ℕ) (k : Heap)
    → IsSane k.hart
    → k.freelist ≡ 0
    → IsHeap end_address (locked_new k) []
unfolding initlock
new-IsHeap end_address k sane none_free = record {
  free = record { unlocked = refl; nobody = refl };
  sane = sane;
  pages = empty none_free;
}

kinit_returns :
    (end_address : ℕ) (k k' : Heap)
    → freerange end_address end_address phys_stop (locked_new k) ≡ ok tt k'
    → kinit end_address k ≡ ok tt k'
unfolding kinit
kinit_returns end_address k k' h =
    and_then (modify locked_new) (λ u. freerange end_address end_address phys_stop) {s = k} refl h

-- `kinit` on an allocator with an empty list returns, without a panic in `kfree`. All whole pages
-- between `end` and PHYSTOP are then free, each of them once, the last one first.
pub kinit_lem :
    (end_address : ℕ) (k : Heap)
    → page_round_up end_address ≤ phys_stop
    → IsSane k.hart
    → k.freelist ≡ 0
    → Leaves end_address
        (kinit end_address k)
        tt
        (stacked (page_count end_address) (page_round_up end_address) [])
kinit_lem end_address k room sane none_free =
    let (k', returns, heap) =
      freerange_lem end_address (locked_new k) room (new-IsHeap end_address k sane none_free) in
    (k', kinit_returns end_address k k' returns, heap)
