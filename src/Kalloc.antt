-- ===== src/Kalloc.antt =====
-- The page allocator of xv6-riscv/kernel/kalloc.c, as one hart runs it. Physical memory is a function
-- from addresses to bytes, and the free list runs through the free pages themselves. `end`, which the
-- linker sets, is a parameter; it is far below 2 ^ 64, so that no address computation wraps.
pub mod FreeList
pub mod Init
use kernel_panic_logger.Prelude.{
  ℕ, zero, suc, ◌+◌, ◌-◌, ◌*◌, ◌/◌, ◌%◌, ◌^◌, Bool, true, false, not, ◌||◌, if◌then◌else◌, ◌==◌,
  ltb, leb,
}
use kernel_panic_logger.Outcome.{
  Outcome, ok, panics, spins, undefined, ◌>>=◌, ◌>>◌, pure, modify, zoom,
}
use kernel_panic_logger.Spinlock.{Cpu, Spinlock, Pair, acquire, release, initlock}
use kernel_panic_logger.CString.{Memory, memset}
use kernel_panic_logger.CString.Memory.{in_block}

-- `PGSIZE`, `PHYSTOP`
abbrev pub page_size : ℕ
page_size = 4096

abbrev pub phys_stop : ℕ
phys_stop = 0x88000000

-- `kmem`, with the hart and the memory.
pub record Heap : Type 0 where
  pub hart : Cpu
  pub lock : Spinlock
  pub freelist : ℕ
  pub memory : Memory

-- A load and a store of a 64-bit pointer, least significant byte first.
unfoldable pub load64 : Memory → ℕ → ℕ
load64 m a =
    m a
    + 2 ^ 8
      * (m (a + 1)
          + 2 ^ 8
            * (m (a + 2)
                + 2 ^ 8
                  * (m (a + 3)
                      + 2 ^ 8
                        * (m (a + 4)
                            + 2 ^ 8 * (m (a + 5) + 2 ^ 8 * (m (a + 6) + 2 ^ 8 * m (a + 7)))))))

-- Byte i of a 64-bit number.
unfoldable pub byte_of : ℕ → ℕ → ℕ
byte_of zero v = v % 2 ^ 8
byte_of (suc i) v = byte_of i (v / 2 ^ 8)

unfoldable pub store64 : Memory → ℕ → ℕ → Memory
store64 m a v x = if in_block x a 8 then byte_of (x - a) v else m x

abbrev pub on_kmem_lock : {A : Type 0} → (Pair → Outcome Pair A) → Heap → Outcome Heap A
on_kmem_lock =
    zoom (λ k. record { hart = k.hart; lock = k.lock })
      (λ k p. record k { hart = p.hart; lock = p.lock })

abbrev pub on_memory : (Memory → Memory) → Heap → Outcome Heap (Unit {0})
on_memory f = modify (λ k. record k { memory = f k.memory })

-- `((uint64)pa % PGSIZE) != 0 || (char*)pa < end || (uint64)pa >= PHYSTOP`
unfoldable pub is_bad_page : ℕ → ℕ → Bool
is_bad_page end_address pa = not (pa % page_size == 0) || (ltb pa end_address || leb phys_stop pa)

unfoldable pub free_page : ℕ → Heap → Outcome Heap (Unit {0})
unfolding store64
free_page pa = do
  on_memory (λ m. memset m pa 1 page_size)
  on_kmem_lock acquire
  modify (λ k. record k { memory = store64 k.memory pa k.freelist })
  modify (λ k. record k { freelist = pa })
  on_kmem_lock release

unfoldable pub kfree : ℕ → ℕ → Heap → Outcome Heap (Unit {0})
unfolding free_page is_bad_page
kfree end_address pa k = if is_bad_page end_address pa then panics "kfree" k else free_page pa k

-- `if(r) kmem.freelist = r->next;`
unfoldable pub pop_page : ℕ → Heap → Heap
pop_page r k = if r == 0 then k else record k { freelist = load64 k.memory r }

-- `if(r) memset((char*)r, 5, PGSIZE);`
unfoldable pub fill_page : ℕ → Heap → Heap
fill_page r k = if r == 0 then k else record k { memory = memset k.memory r 5 page_size }

unfoldable pub kalloc : Heap → Outcome Heap ℕ
unfolding pop_page fill_page
kalloc = do
  on_kmem_lock acquire
  r ← λ k. ok k.freelist k
  modify (pop_page r)
  on_kmem_lock release
  modify (fill_page r)
  pure r

-- `PGROUNDUP`
abbrev pub page_round_up : ℕ → ℕ
page_round_up a = (a + page_size - 1) / page_size * page_size

-- The loop from page p with `rounds` rounds left.
unfoldable pub free_loop : ℕ → ℕ → ℕ → ℕ → Heap → Outcome Heap (Unit {0})
unfolding kfree
free_loop end_address zero p pa_end = pure tt
free_loop end_address (suc rounds) p pa_end = λ k.
    let next = (kfree end_address p >> free_loop end_address rounds (p + page_size) pa_end) k in
    if leb (p + page_size) pa_end then next else ok tt k

-- With one round for each page below `pa_end`.
unfoldable pub freerange : ℕ → ℕ → ℕ → Heap → Outcome Heap (Unit {0})
freerange end_address pa_start pa_end =
    free_loop end_address (pa_end / page_size) (page_round_up pa_start) pa_end

unfoldable pub kinit : ℕ → Heap → Outcome Heap (Unit {0})
kinit end_address = do
  modify (λ k. record k { lock = initlock "kmem" })
  freerange end_address end_address phys_stop
