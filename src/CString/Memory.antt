-- ===== src/CString/Memory.antt =====
-- The memory routines of string.c against what they promise.
use kernel_panic_logger.Prelude.{
  ℕ, zero, suc, ◌+◌, ◌-◌, ◌%◌, ◌^◌, ◌<◌, ◌≤◌, ◌≡◌, refl, ◌⊎◌, ◌↔◌, Bool, ◌&&◌, ltb, leb,
  if◌then◌else◌, arith, ==_iff,
}
use native.Mathlib.Nat.{add-zero}
use kernel_panic_logger.CString.{
  Memory, write, memset_loop, memset, byte_difference, memcmp, copy_up, copy_down, memmove,
}

-- x lies in the n bytes from address a on.
abbrev pub in_block : ℕ → ℕ → ℕ → Bool
in_block x a n = leb a x && ltb x (a + n)

copy_up_lem :
    (n : ℕ) (m : Memory) (d s x : ℕ)
    → (d ≤ s) ⊎ (s + n ≤ d)
    → copy_up n m d s x ≡ (if in_block x d n then m (s + (x - d)) else m x)
unfolding copy_up write
copy_up_lem zero m d s x h = ground arith
copy_up_lem (suc n) m d s x h = ground (arith, copy_up_lem n (write m d (m s)) (d + 1) (s + 1) x)

copy_down_step :
    (n : ℕ) (m : Memory) (d s : ℕ)
    → copy_down (suc n) m (d + suc n) (s + suc n)
      ≡ copy_down n (write m (d + n) (m (s + n))) (d + n) (s + n)
unfolding copy_down
copy_down_step n m d s = rw (down d, down s)
  where
    down : (a : ℕ) → a + suc n - 1 ≡ a + n
    down a = omega arith

-- One more byte at the top of the block.
widen :
    (n : ℕ) (m : Memory) (d s x r : ℕ)
    → s ≤ d
    → r ≡ (
        if in_block x d n
        then write m (d + n) (m (s + n)) (s + (x - d))
        else write m (d + n) (m (s + n)) x)
    → r ≡ (if in_block x d (suc n) then m (s + (x - d)) else m x)
unfolding write
widen n m d s x r h e = ground arith

copy_down_zero : (m : Memory) (d s : ℕ) → copy_down 0 m d s ≡ m
unfolding copy_down
copy_down_zero m d s = refl

copy_down_lem :
    (n : ℕ) (m : Memory) (d s x : ℕ)
    → s ≤ d
    → copy_down n m (d + n) (s + n) x ≡ (if in_block x d n then m (s + (x - d)) else m x)
copy_down_lem zero m d s x h = rw copy_down_zero (ground arith)
copy_down_lem (suc n) m d s x h = rw copy_down_step (
    widen n m d s x (copy_down n (write m (d + n) (m (s + n))) (d + n) (s + n) x) h
      (copy_down_lem n (write m (d + n) (m (s + n))) d s x h))

-- `memmove` copies the block as it stood before the call, also where source and target overlap, and
-- changes nothing else.
pub memmove_lem :
    (m : Memory) (d s n x : ℕ)
    → memmove m d s n x ≡ (if in_block x d n then m (s + (x - d)) else m x)
unfolding memmove
memmove_lem m d s n x = ground (arith, copy_up_lem n m d s x, copy_down_lem n m d s x)

memset_loop_lem :
    (n : ℕ) (m : Memory) (d i c x : ℕ)
    → memset_loop n m d i c x ≡ (if in_block x (d + i) n then c % 2 ^ 8 else m x)
unfolding memset_loop write
memset_loop_lem zero m d i c x = ground arith
memset_loop_lem (suc n) m d i c x =
    ground (arith, memset_loop_lem n (write m (d + i) (c % 2 ^ 8)) d (i + 1) c x)

-- `memset` sets the n bytes from dst on to the low byte of c, and changes nothing else.
pub memset_lem :
    (m : Memory) (d c n x : ℕ) → memset m d c n x ≡ (if in_block x d n then c % 2 ^ 8 else m x)
unfolding memset
memset_lem m d c n x = ground (arith, memset_loop_lem n m d 0 c x)

memcmp-eq :
    (n : ℕ) (m : Memory) (a b i : ℕ)
    → ((x : ℕ) → m x < 2 ^ 8)
    → memcmp m a b n ≡ 0
    → i < n
    → m (a + i) ≡ m (b + i)
unfolding memcmp byte_difference
memcmp-eq zero m a b i bytes h lt = absurd (omega arith)
memcmp-eq (suc n) m a b zero bytes h lt =
    rw (add-zero a, add-zero b) (ground (arith, bytes a, bytes b))
memcmp-eq (suc n) m a b (suc i) bytes h lt =
    rw (shift a, shift b)
      (memcmp-eq n m (a + 1) (b + 1) i bytes (ground (arith, bytes a, bytes b)) (omega arith))
  where
    shift : (c : ℕ) → c + suc i ≡ c + 1 + i
    shift c = omega arith

eq-memcmp :
    (n : ℕ) (m : Memory) (a b : ℕ) → ((i : ℕ) → i < n → m (a + i) ≡ m (b + i)) → memcmp m a b n ≡ 0
unfolding memcmp
eq-memcmp zero m a b h = refl
eq-memcmp (suc n) m a b h =
    rw ((==_iff (m a) (m b)).1 heads) (eq-memcmp n m (a + 1) (b + 1) (λ i lt. tails i lt))
  where
    heads : m a ≡ m b
    heads = rw (add-zero a, add-zero b) at (h 0 (omega arith))

    shift : (c i : ℕ) → c + 1 + i ≡ c + suc i
    shift c i = omega arith

    tails : (i : ℕ) → i < n → m (a + 1 + i) ≡ m (b + 1 + i)
    tails i lt = rw (shift a i, shift b i) (h (suc i) (omega arith))

-- `memcmp` returns 0 exactly if the two blocks hold the same bytes.
pub memcmp_lem :
    (n : ℕ) (m : Memory) (a b : ℕ)
    → ((x : ℕ) → m x < 2 ^ 8)
    → (memcmp m a b n ≡ 0) ↔ ((i : ℕ) → i < n → m (a + i) ≡ m (b + i))
memcmp_lem n m a b bytes = (λ h i lt. memcmp-eq n m a b i bytes h lt, eq-memcmp n m a b)
