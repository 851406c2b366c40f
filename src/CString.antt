-- ===== src/CString.antt =====
-- xv6-riscv/kernel/string.c. The memory routines work on a memory, a function from addresses to
-- bytes, so that their blocks may overlap. The string routines work on a char array, the list of
-- its bytes, and a source string, the list of its bytes up to its NUL; a store past the end of the
-- array does nothing, and `n` is the bit pattern of the `int` argument.
pub mod Memory
pub mod Copy
use kernel_panic_logger.Prelude.{
  ℕ, zero, suc, ◌+◌, ◌-◌, ◌%◌, ◌^◌, List, [], ◌∷◌, Bool, true, false, ◌&&◌, ◌||◌, ltb, leb, ◌==◌,
  if◌then◌else◌, set, length,
}

abbrev pub Memory : Type 0
Memory = ℕ → ℕ

unfoldable pub write : Memory → ℕ → ℕ → Memory
write m a v b = if a == b then v else m b

-- `for(i = 0; i < n; i++) cdst[i] = c;` from index i with `rounds` rounds left
unfoldable pub memset_loop : ℕ → Memory → ℕ → ℕ → ℕ → Memory
memset_loop zero m dst i c = m
memset_loop (suc rounds) m dst i c =
    memset_loop rounds (write m (dst + i) (c % 2 ^ 8)) dst (i + 1) c

unfoldable pub memset : Memory → ℕ → ℕ → ℕ → Memory
unfolding memset_loop
memset m dst c n = memset_loop n m dst 0 c

-- `*s1 - *s2`, as the bit pattern of an `int`
unfoldable pub byte_difference : ℕ → ℕ → ℕ
byte_difference a b = (a + 2 ^ 32 - b) % 2 ^ 32

unfoldable pub memcmp : Memory → ℕ → ℕ → ℕ → ℕ
memcmp m s1 s2 zero = 0
memcmp m s1 s2 (suc n) =
    let rest = memcmp m (s1 + 1) (s2 + 1) n in
    if m s1 == m s2 then rest else byte_difference (m s1) (m s2)

-- `while(n-- > 0) *d++ = *s++;`
unfoldable pub copy_up : ℕ → Memory → ℕ → ℕ → Memory
copy_up zero m d s = m
copy_up (suc n) m d s = copy_up n (write m d (m s)) (d + 1) (s + 1)

-- `while(n-- > 0) *--d = *--s;`
unfoldable pub copy_down : ℕ → Memory → ℕ → ℕ → Memory
copy_down zero m d s = m
copy_down (suc n) m d s = copy_down n (write m (d - 1) (m (s - 1))) (d - 1) (s - 1)

unfoldable pub memmove : Memory → ℕ → ℕ → ℕ → Memory
memmove m dst src n =
    if n == 0
    then m
    else (if ltb src dst && ltb dst (src + n)
        then copy_down n m (dst + n) (src + n)
        else copy_up n m dst src)

unfoldable pub memcpy : Memory → ℕ → ℕ → ℕ → Memory
unfolding memmove
memcpy m dst src n = memmove m dst src n

-- `*t`, and `t + 1`: the NUL stands at the end of the list.
unfoldable pub first : List ℕ → ℕ
first [] = 0
first (c ∷ t) = c

unfoldable pub rest_of : List ℕ → List ℕ
rest_of [] = []
rest_of (c ∷ t) = t

unfoldable pub strncmp : List ℕ → List ℕ → ℕ → ℕ
strncmp p q zero = 0
strncmp [] q (suc n) = byte_difference 0 (first q)
strncmp (c ∷ p) q (suc n) =
    let rest = strncmp p (rest_of q) n in
    if (if c == 0 then false else c == first q) then rest else byte_difference c (first q)

-- `while(n-- > 0) *s++ = 0;`
unfoldable pub fill_zero : ℕ → List ℕ → List ℕ
fill_zero zero s = s
fill_zero (suc n) [] = []
fill_zero (suc n) (x ∷ s) = 0 ∷ fill_zero n s

-- The copying loop of `strncpy`, then the filling one.
unfoldable pub strncpy_loop : ℕ → List ℕ → List ℕ → List ℕ
strncpy_loop zero s t = s
strncpy_loop (suc n) [] t = []
strncpy_loop (suc n) (x ∷ s) t =
    let rest = strncpy_loop n s (rest_of t) in
    if first t == 0 then 0 ∷ fill_zero n s else first t ∷ rest

-- `n <= 0` for an `int`
unfoldable pub is_not_positive : ℕ → Bool
is_not_positive n = n == 0 || leb (2 ^ 31) n

unfoldable pub strncpy : List ℕ → List ℕ → ℕ → List ℕ
unfolding strncpy_loop is_not_positive
strncpy s t n = if is_not_positive n then s else strncpy_loop n s t

-- `while(--n > 0 && (*s++ = *t++) != 0) ; *s = 0;` with n positive
unfoldable pub safestrcpy_loop : ℕ → List ℕ → List ℕ → List ℕ
safestrcpy_loop zero s t = s
safestrcpy_loop (suc n) [] t = []
safestrcpy_loop (suc zero) (x ∷ s) t = 0 ∷ s
safestrcpy_loop (suc (suc n)) (x ∷ s) t =
    let rest = safestrcpy_loop (suc n) s (rest_of t) in
    if first t == 0 then 0 ∷ set s 0 0 else first t ∷ rest

unfoldable pub safestrcpy : List ℕ → List ℕ → ℕ → List ℕ
unfolding safestrcpy_loop is_not_positive
safestrcpy s t n = if is_not_positive n then s else safestrcpy_loop n s t

-- `for(n = 0; s[n]; n++)` from n on
unfoldable pub strlen_loop : List ℕ → ℕ → ℕ
strlen_loop [] n = n
strlen_loop (c ∷ s) n = let rest = strlen_loop s (n + 1) in if c == 0 then n else rest

unfoldable pub strlen : List ℕ → ℕ
unfolding strlen_loop
strlen s = strlen_loop s 0

-- A char array read as a C string: its bytes up to the first NUL.
unfoldable pub cstr : List ℕ → List ℕ
cstr [] = []
cstr (c ∷ s) = if c == 0 then [] else c ∷ cstr s
