-- ===== src/Kalloc/FreeList.antt =====
-- The free list against its contract: a list of distinct pages, taken and given back at its front.
use kernel_panic_logger.Prelude.{
  ℕ, ◌+◌, ◌*◌, ◌%◌, ◌^◌, ◌≡◌, ◌≢◌, refl, ◌<◌, ◌≤◌, ◌∙◌, ap, sym, List, [], ◌∷◌, true, false,
  if◌then◌else◌, ◌==◌, arith, if_true, if_false, ==_iff, inl, inr, ◌⊎◌, not, ◌||◌, ltb, leb,
}
use mathlib.Core.Path.{subst}
use native.Mathlib.Nat.{add-zero}
use kernel_panic_logger.Outcome.{Outcome, ok, panics, and_then, zoom_of_ok}
use kernel_panic_logger.Spinlock.{acquire, release}
use kernel_panic_logger.Spinlock.Laws.{
  IsSane, IsFree, settle, settle_lem, acquire_free, release_on_taken, taken,
}
use kernel_panic_logger.CString.{Memory, memset}
use kernel_panic_logger.CString.Memory.{in_block, memset_lem}
use kernel_panic_logger.Kalloc.{
  Heap, page_size, phys_stop, load64, byte_of, store64, is_bad_page, free_page, kfree, pop_page,
  fill_page, kalloc, on_kmem_lock,
}

store64_at : (m : Memory) (a i v : ℕ) → i < 8 → store64 m a v (a + i) ≡ byte_of i v
unfolding store64
store64_at m a i v h = if_true _ _ (inside a i h) ∙ ap (λ (n : ℕ). byte_of n v) (omega arith)
  where
    inside : (a i : ℕ) → i < 8 → in_block (a + i) a 8 ≡ true
    inside a i h = ground arith

store64_first : (m : Memory) (a v : ℕ) → store64 m a v a ≡ byte_of 0 v
store64_first m a v =
    ap (λ (x : ℕ). store64 m a v x) (sym (add-zero a)) ∙ store64_at m a 0 v (omega arith)

bytes_lem :
    (v : ℕ)
    → v < 2 ^ 64
    → byte_of 0 v
        + 2 ^ 8
          * (byte_of 1 v
              + 2 ^ 8
                * (byte_of 2 v
                    + 2 ^ 8
                      * (byte_of 3 v
                          + 2 ^ 8
                            * (byte_of 4 v
                                + 2 ^ 8
                                  * (byte_of 5 v + 2 ^ 8 * (byte_of 6 v + 2 ^ 8 * byte_of 7 v))))))
      ≡ v
unfolding byte_of
bytes_lem v h = omega arith

-- A pointer is read as it was stored.
load64-store64 : (m : Memory) (a v : ℕ) → v < 2 ^ 64 → load64 (store64 m a v) a ≡ v
unfolding load64
load64-store64 m a v h =
    rw
      (
        store64_first m a v,
        store64_at m a 1 v (omega arith),
        store64_at m a 2 v (omega arith),
        store64_at m a 3 v (omega arith),
        store64_at m a 4 v (omega arith),
        store64_at m a 5 v (omega arith),
        store64_at m a 6 v (omega arith),
        store64_at m a 7 v (omega arith),
      )
      (bytes_lem v h)

-- A page that the allocator may hand out.
pub record IsPage (end_address p : ℕ) : Type 0 where
  pub aligned : p % page_size ≡ 0
  pub above : end_address ≤ p
  pub below : p < phys_stop

-- Page p is none of these.
abbrev pub IsFresh : ℕ → List ℕ → Type 0
IsFresh p [] = Unit {0}
IsFresh p (q ∷ qs) = (p ≢ q) × IsFresh p qs

-- The list that starts at an address holds these distinct pages, linked through their first words.
pub data FreeList (end_address : ℕ) (m : Memory) : ℕ → List ℕ → Type 0 where
  empty : {p : ℕ} → p ≡ 0 → FreeList end_address m p []
  link :
      {p : ℕ} {ps : List ℕ}
      → IsPage end_address p
      → IsFresh p ps
      → FreeList end_address m (load64 m p) ps
      → FreeList end_address m p (p ∷ ps)

-- The two memories agree outside page p.
abbrev AgreesOutside : ℕ → Memory → Memory → Type 0
AgreesOutside p m m' = (x : ℕ) → in_block x p page_size ≡ false → m' x ≡ m x

load64_outside :
    (p q : ℕ) (m m' : Memory)
    → p % page_size ≡ 0
    → q % page_size ≡ 0
    → p ≢ q
    → AgreesOutside p m m'
    → load64 m' q ≡ load64 m q
unfolding load64
load64_outside p q m m' a b ne agrees = rw (
  agrees q (off q (omega arith) (omega arith)),
  agrees (q + 1) (off (q + 1) (omega arith) (omega arith)),
  agrees (q + 2) (off (q + 2) (omega arith) (omega arith)),
  agrees (q + 3) (off (q + 3) (omega arith) (omega arith)),
  agrees (q + 4) (off (q + 4) (omega arith) (omega arith)),
  agrees (q + 5) (off (q + 5) (omega arith) (omega arith)),
  agrees (q + 6) (off (q + 6) (omega arith) (omega arith)),
  agrees (q + 7) (off (q + 7) (omega arith) (omega arith)),
)
  where
    off : (x : ℕ) → q ≤ x → x < q + 8 → in_block x p page_size ≡ false
    off x lo hi = ground (arith, a, b, ne)

-- A change inside a fresh page leaves the list as it is.
FreeList-frame :
    {end_address : ℕ} {m : Memory} {h : ℕ} {ps : List ℕ} (p : ℕ) (m' : Memory)
    → p % page_size ≡ 0
    → AgreesOutside p m m'
    → FreeList end_address m h ps
    → IsFresh p ps
    → FreeList end_address m' h ps
FreeList-frame p m' a agrees (empty e) fresh = empty e
FreeList-frame {end_address} {m} {h} p m' a agrees (link {ps = qs} page new rest) (ne, fresh) =
    link page new (
      subst (λ (n : ℕ). FreeList end_address m' n qs)
        (sym (load64_outside p h m m' a page.aligned ne agrees))
        (FreeList-frame p m' a agrees rest fresh))

memset-AgreesOutside : (m : Memory) (p c : ℕ) → AgreesOutside p m (memset m p c page_size)
memset-AgreesOutside m p c x out = memset_lem m p c page_size x ∙ if_false _ _ out

store64-AgreesOutside : (m : Memory) (p v : ℕ) → AgreesOutside p m (store64 m p v)
unfolding store64
store64-AgreesOutside m p v x out = ground (arith, out)

head_small :
    {end_address : ℕ} {m : Memory} {h : ℕ} {ps : List ℕ} → FreeList end_address m h ps → h < 2 ^ 64
head_small (empty e) = omega (arith, e)
head_small (link page new rest) = omega (arith, page.below)

-- The memory after `kfree`: the page is filled with ones and then linked.
abbrev freed_memory : ℕ → Heap → Memory
freed_memory pa k = store64 (memset k.memory pa 1 page_size) pa k.freelist

freed-FreeList :
    (end_address pa : ℕ) (k : Heap) (ps : List ℕ)
    → IsPage end_address pa
    → IsFresh pa ps
    → FreeList end_address k.memory k.freelist ps
    → FreeList end_address (freed_memory pa k) pa (pa ∷ ps)
freed-FreeList end_address pa k ps page fresh list = link page fresh (
    subst (λ (n : ℕ). FreeList end_address (freed_memory pa k) n ps)
      (sym (load64-store64 (memset k.memory pa 1 page_size) pa k.freelist (head_small list)))
      (FreeList-frame pa (freed_memory pa k) page.aligned
        (λ x out.
          store64-AgreesOutside _ pa k.freelist x out ∙ memset-AgreesOutside k.memory pa 1 x out)
        list fresh))

IsPage-good : (end_address pa : ℕ) → IsPage end_address pa → is_bad_page end_address pa ≡ false
unfolding is_bad_page
IsPage-good end_address pa page = ground (arith, page.aligned, page.above, page.below)

-- The heap can be used, and its free pages are these, the next one to be handed out first.
pub record IsHeap (end_address : ℕ) (k : Heap) (ps : List ℕ) : Type 0 where
  pub free : IsFree k.lock
  pub sane : IsSane k.hart
  pub pages : FreeList end_address k.memory k.freelist ps

-- The outcome of a call that returns a with these pages free.
abbrev pub Leaves : {A : Type 0} → ℕ → Outcome Heap A → A → List ℕ → Type 0
Leaves end_address r a ps = (k : Heap) × (r ≡ ok a k) × IsHeap end_address k ps

-- `kfree` of a page that is not free puts it in front of the free pages; the others keep their order.
pub kfree_lem :
    (end_address pa : ℕ) (k : Heap) (ps : List ℕ)
    → IsPage end_address pa
    → IsFresh pa ps
    → IsHeap end_address k ps
    → Leaves end_address (kfree end_address pa k) tt (pa ∷ ps)
unfolding kfree free_page
kfree_lem end_address pa k ps page fresh heap = (
  record k { hart = settle k.hart; freelist = pa; memory = freed_memory pa k },
  if_false _ _ (IsPage-good end_address pa page)
      ∙ and_then _ _ refl (
          and_then _ _ (zoom_of_ok _ _ acquire (acquire_free _ heap.free)) (
            and_then _ _ refl (
              and_then _ _ refl (
                zoom_of_ok _ _ release (
                  release_on_taken (record { hart = k.hart; lock = k.lock }) heap.sane
                    heap.free))))),
  record {
    free = heap.free;
    sane = (settle_lem k.hart heap.sane).0;
    pages = freed-FreeList end_address pa k ps page fresh heap.pages;
  },
)

-- `kfree` of an address that is not aligned to a page, or outside the allocator's memory, calls
-- panic and changes nothing.
pub kfree_bad :
    (end_address pa : ℕ) (k : Heap)
    → (pa % page_size ≢ 0) ⊎ ((pa < end_address) ⊎ (phys_stop ≤ pa))
    → kfree end_address pa k ≡ panics "kfree" k
unfolding kfree is_bad_page
kfree_bad end_address pa k bad = if_true _ _ (is_bad bad)
  where
    is_bad :
        (pa % page_size ≢ 0) ⊎ ((pa < end_address) ⊎ (phys_stop ≤ pa))
        → (not (pa % page_size == 0) || (ltb pa end_address || leb phys_stop pa)) ≡ true
    is_bad bad = ground (arith, bad)

-- What a caller of `kalloc` gets on heap k: page p, filled with 5, with the other free pages left and
-- no byte outside of it changed; or 0 where there is no free page.
abbrev pub Allocates : ℕ → Heap → Outcome Heap ℕ → List ℕ → Type 0
Allocates end_address k r [] = Leaves end_address r 0 []
Allocates end_address k r (p ∷ ps) =
    (k' : Heap) × (r ≡ ok p k')
    × IsHeap end_address k' ps
    × IsPage end_address p
    × IsFresh p ps
    × ((x : ℕ) → k'.memory x ≡ (if in_block x p page_size then 5 else k.memory x))

-- The heap inside the critical section.
abbrev inside : Heap → Heap
inside k =
    let p = taken (record { hart = k.hart; lock = k.lock }) in
    record k { hart = p.hart; lock = p.lock }

-- A list of free pages is empty at address 0, and otherwise starts with the page at its address.
FreeList-cases :
    {end_address : ℕ} {m : Memory} {h : ℕ} {ps : List ℕ}
    → FreeList end_address m h ps
    → ((h ≡ 0) × (ps ≡ []))
      ⊎ ((qs : List ℕ) × (ps ≡ h ∷ qs)
          × IsPage end_address h
          × IsFresh h qs
          × FreeList end_address m (load64 m h) qs)
FreeList-cases (empty e) = inl (e, refl)
FreeList-cases (link {ps = qs} page new rest) = inr (qs, refl, page, new, rest)

module _ (end_address : ℕ) (k : Heap) (low : 0 < end_address) (free : IsFree k.lock)
    (sane : IsSane k.hart) where
  releases :
      (f : ℕ) (m : Memory)
      → on_kmem_lock release (record (inside k) { freelist = f; memory = m })
        ≡ ok tt (record k { hart = settle k.hart; freelist = f; memory = m })
  releases f m =
      zoom_of_ok _ _ release (release_on_taken (record { hart = k.hart; lock = k.lock }) sane free)

  kalloc_empty : k.freelist ≡ 0 → Leaves end_address (kalloc k) 0 []
  unfolding kalloc pop_page fill_page
  kalloc_empty none_left =
      let zero_head = (==_iff k.freelist 0).1 none_left in
      (
        record k { hart = settle k.hart },
        and_then _ _ (zoom_of_ok _ _ acquire (acquire_free _ free)) (
            and_then _ _ refl (
              and_then _ _ (ap (ok tt) (if_true _ _ zero_head)) (
                and_then _ _ (releases k.freelist k.memory) (
                  and_then _ _ (ap (ok tt) (if_true _ _ zero_head))
                    λ i. ok (none_left i) (record k { hart = settle k.hart }))))),
        record { free = free; sane = (settle_lem k.hart sane).0; pages = empty none_left },
      )

  kalloc_page :
      (ps : List ℕ)
      → IsPage end_address k.freelist
      → IsFresh k.freelist ps
      → FreeList end_address k.memory (load64 k.memory k.freelist) ps
      → Allocates end_address k (kalloc k) (k.freelist ∷ ps)
  unfolding kalloc pop_page fill_page
  kalloc_page ps page fresh rest = (
    record k {
      hart = settle k.hart;
      freelist = load64 k.memory k.freelist;
      memory = memset k.memory k.freelist 5 page_size;
    },
    and_then _ _ (zoom_of_ok _ _ acquire (acquire_free _ free)) (
        and_then _ _ refl (
          and_then _ _
            (ap (ok tt) (if_false _ _ (not_zero k.freelist (omega (arith, low, page.above)))))
            (and_then _ _ (releases (load64 k.memory k.freelist) k.memory) (
              and_then _ _
                (ap (ok tt) (if_false _ _ (not_zero k.freelist (omega (arith, low, page.above)))))
                refl)))),
    record {
      free = free;
      sane = (settle_lem k.hart sane).0;
      pages =
          FreeList-frame k.freelist (memset k.memory k.freelist 5 page_size) page.aligned
            (memset-AgreesOutside k.memory k.freelist 5) rest fresh;
    },
    page,
    fresh,
    memset_lem k.memory k.freelist 5 page_size,
  )
    where
      not_zero : (n : ℕ) → 0 < n → (n == 0) ≡ false
      not_zero n h = ground arith

-- `kalloc` returns on every heap: with the first of the free pages, filled with 5 and removed from
-- the free pages, or with 0 if there is none.
pub kalloc_lem :
    (end_address : ℕ) (k : Heap) (ps : List ℕ)
    → 0 < end_address
    → IsHeap end_address k ps
    → Allocates end_address k (kalloc k) ps
kalloc_lem end_address k ps low heap = elim (FreeList-cases heap.pages) [
  | inl (none_left, e) ↦
      subst (Allocates end_address k (kalloc k)) (sym e)
        (kalloc_empty end_address k low heap.free heap.sane none_left)
  | inr (qs, e, page, fresh, rest) ↦
      subst (Allocates end_address k (kalloc k)) (sym e)
        (kalloc_page end_address k low heap.free heap.sane qs page fresh rest)
]
