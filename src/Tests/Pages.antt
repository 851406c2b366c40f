-- ===== src/Tests/Pages.antt =====
-- The page allocator at concrete states.
use kernel_panic_logger.Prelude.{ℕ, refl, [], ◌∷◌, arith}
use kernel_panic_logger.CString.{Memory}
use kernel_panic_logger.Kalloc.{Heap, load64, kfree, kalloc, kinit, page_round_up}
use kernel_panic_logger.Kalloc.FreeList.{
  IsPage, IsHeap, Leaves, Allocates, empty, link, kfree_lem, kalloc_lem,
}
use kernel_panic_logger.Kalloc.Init.{stacked, page_count, kinit_lem}
use kernel_panic_logger.Tests.{quiet, free_lock, free_lock-IsFree, quiet-IsSane}

-- A heap above the kernel's end at 0x87FFF000, with one free page.
abbrev last_page : ℕ
last_page = 0x87FFF000

abbrev zeroes : Memory
zeroes x = 0

abbrev empty_heap : Heap
empty_heap = record { hart = quiet; lock = free_lock; freelist = 0; memory = zeroes }

empty_heap-IsHeap : IsHeap last_page empty_heap []
empty_heap-IsHeap = record { free = free_lock-IsFree; sane = quiet-IsSane; pages = empty refl }

last_page-IsPage : IsPage last_page last_page
last_page-IsPage = record { aligned = refl; above = omega arith; below = omega arith }

abbrev one_page : Heap
one_page = record empty_heap { freelist = last_page }

one_page-IsHeap : IsHeap last_page one_page (last_page ∷ [])
unfolding load64
one_page-IsHeap = record {
  free = free_lock-IsFree;
  sane = quiet-IsSane;
  pages = link last_page-IsPage tt (empty refl);
}

kfree_lem_example : Leaves last_page (kfree last_page last_page empty_heap) tt (last_page ∷ [])
kfree_lem_example =
    kfree_lem last_page last_page empty_heap [] last_page-IsPage tt empty_heap-IsHeap

kalloc_lem_example : Allocates last_page one_page (kalloc one_page) (last_page ∷ [])
kalloc_lem_example = kalloc_lem last_page one_page (last_page ∷ []) (omega arith) one_page-IsHeap

kinit_lem_example :
    Leaves last_page
      (kinit last_page empty_heap)
      tt
      (stacked (page_count last_page) (page_round_up last_page) [])
kinit_lem_example = kinit_lem last_page empty_heap (omega arith) quiet-IsSane refl
