-- ===== src/Pipe/Queue.antt =====
-- The ring of a pipe as a queue of bytes.
use kernel_panic_logger.Prelude.{
  ℕ, zero, suc, ◌+◌, ◌-◌, ◌%◌, ◌^◌, ◌≡◌, refl, ◌<◌, ◌≤◌, ◌∙◌, ap, List, [], ◌∷◌, ◌++◌, true, false,
  ◌==◌, arith, if_true, if_false, ==_iff, length,
}
use kernel_panic_logger.CString.{Memory, write}
use kernel_panic_logger.Pipe.{Pipe, pipe_size, is_full, is_empty, put_byte, next_byte, drop_byte}

-- How many bytes lie in the ring.
unfoldable pub filled : Pipe → ℕ
filled pi = (pi.nwrite + 2 ^ 32 - pi.nread) % 2 ^ 32

-- n bytes of the ring from index r on.
unfoldable walk : ℕ → ℕ → Memory → List ℕ
walk zero r d = []
walk (suc n) r d = d (r % pipe_size) ∷ walk n (r + 1) d

-- The bytes in the ring, the next one to be read first.
unfoldable pub contents : Pipe → List ℕ
unfolding walk filled
contents pi = walk (filled pi) pi.nread pi.bytes

pub record IsPipe (pi : Pipe) : Type 0 where
  pub nread_in : pi.nread < 2 ^ 32
  pub nwrite_in : pi.nwrite < 2 ^ 32
  pub room : filled pi ≤ pipe_size

length-walk : (n r : ℕ) (d : Memory) → length (walk n r d) ≡ n
unfolding walk
length-walk zero r d = refl
length-walk (suc n) r d = ap suc (length-walk n (r + 1) d)

pub length-contents : (pi : Pipe) → length (contents pi) ≡ filled pi
unfolding contents
length-contents pi = length-walk (filled pi) pi.nread pi.bytes

walk_same : (n r r' : ℕ) (d : Memory) → r % pipe_size ≡ r' % pipe_size → walk n r d ≡ walk n r' d
unfolding walk
walk_same zero r r' d e = refl
walk_same (suc n) r r' d e = λ i. d (e i) ∷ walk_same n (r + 1) (r' + 1) d (omega (arith, e)) i

walk_last : (n r : ℕ) (d : Memory) → walk (suc n) r d ≡ walk n r d ++ (d ((r + n) % pipe_size) ∷ [])
unfolding walk
walk_last zero r d = ap (λ (x : ℕ). d (x % pipe_size) ∷ []) (omega arith)
walk_last (suc n) r d =
    ap (λ xs. d (r % pipe_size) ∷ xs)
      (walk_last n (r + 1) d
        ∙ ap (λ (x : ℕ). walk n (r + 1) d ++ (d (x % pipe_size) ∷ [])) (omega arith))

-- A write past the n bytes, within the ring.
walk-write :
    (n j r : ℕ) (d : Memory) (ch : ℕ)
    → n + j < pipe_size
    → walk n r (write d ((r + (n + j)) % pipe_size) ch) ≡ walk n r d
unfolding walk write
walk-write zero j r d ch h = refl
walk-write (suc n) j r d ch h = λ i.
    if_false ch (d (r % pipe_size)) other i
    ∷ (moved ∙ walk-write n j (r + 1) d ch (omega (arith, h))) i
  where
    other : ((r + (suc n + j)) % pipe_size == r % pipe_size) ≡ false
    other = ground (arith, h)

    moved :
        walk n (r + 1) (write d ((r + (suc n + j)) % pipe_size) ch)
        ≡ walk n (r + 1) (write d ((r + 1 + (n + j)) % pipe_size) ch)
    moved = ap (λ (x : ℕ). walk n (r + 1) (write d (x % pipe_size) ch)) (omega arith)

write_self : (d : Memory) (a v : ℕ) → write d a v a ≡ v
unfolding write
write_self d a v = if_true _ _ ((==_iff a a).1 refl)

walk_put :
    (n r : ℕ) (d : Memory) (ch : ℕ)
    → n < pipe_size
    → walk (suc n) r (write d ((r + n) % pipe_size) ch) ≡ walk n r d ++ (ch ∷ [])
walk_put n r d ch h = walk_last n r (write d ((r + n) % pipe_size) ch) ∙ λ i.
    kept i ++ (write_self d ((r + n) % pipe_size) ch i ∷ [])
  where
    kept : walk n r (write d ((r + n) % pipe_size) ch) ≡ walk n r d
    kept =
        ap (λ (x : ℕ). walk n r (write d ((r + x) % pipe_size) ch)) (omega arith)
        ∙ walk-write n 0 r d ch (omega (arith, h))

pub filled-full : (pi : Pipe) → IsPipe pi → is_full pi ≡ true → filled pi ≡ pipe_size
unfolding is_full filled
filled-full pi f h = ground (arith, h, f.nread_in, f.nwrite_in)

filled-room : (pi : Pipe) → IsPipe pi → is_full pi ≡ false → filled pi < pipe_size
unfolding is_full filled
filled-room pi f h = ground (arith, h, f.nread_in, f.nwrite_in, f.room)

filled-put :
    (ch : ℕ) (pi : Pipe)
    → IsPipe pi
    → filled pi < pipe_size
    → filled (put_byte ch pi) ≡ suc (filled pi)
unfolding put_byte filled
filled-put ch pi f h = omega (arith, h, f.nread_in, f.nwrite_in)

pub put_byte-IsPipe :
    (ch : ℕ) (pi : Pipe) → IsPipe pi → is_full pi ≡ false → IsPipe (put_byte ch pi)
unfolding put_byte
put_byte-IsPipe ch pi f h = record {
  nread_in = f.nread_in;
  nwrite_in = omega arith;
  room = omega (arith, filled-put ch pi f (filled-room pi f h), filled-room pi f h);
}

-- A byte that is put into a ring with room comes behind the others.
pub contents-put :
    (ch : ℕ) (pi : Pipe)
    → IsPipe pi
    → is_full pi ≡ false
    → contents (put_byte ch pi) ≡ contents pi ++ (ch ∷ [])
unfolding contents put_byte
contents-put ch pi f h =
    ap (λ (n : ℕ). walk n pi.nread (write pi.bytes (pi.nwrite % pipe_size) ch))
      (filled-put ch pi f (filled-room pi f h))
    ∙ (ap (λ (a : ℕ). walk (suc (filled pi)) pi.nread (write pi.bytes a ch)) here
        ∙ walk_put (filled pi) pi.nread pi.bytes ch (filled-room pi f h))
  where
    here : pi.nwrite % pipe_size ≡ (pi.nread + filled pi) % pipe_size
    here = unfold filled in omega (arith, f.nread_in, f.nwrite_in)

filled-drop :
    (pi : Pipe) → IsPipe pi → is_empty pi ≡ false → filled pi ≡ suc (filled (drop_byte pi))
unfolding is_empty drop_byte filled
filled-drop pi f h = ground (arith, h, f.nread_in, f.nwrite_in)

pub drop_byte-IsPipe : (pi : Pipe) → IsPipe pi → is_empty pi ≡ false → IsPipe (drop_byte pi)
unfolding drop_byte
drop_byte-IsPipe pi f h = record {
  nread_in = omega arith;
  nwrite_in = f.nwrite_in;
  room = omega (arith, filled-drop pi f h, f.room);
}

-- The byte that a reader takes was the first one.
pub contents-drop :
    (pi : Pipe)
    → IsPipe pi
    → is_empty pi ≡ false
    → contents pi ≡ next_byte pi ∷ contents (drop_byte pi)
unfolding contents drop_byte next_byte
contents-drop pi f h = ap (λ (n : ℕ). walk n pi.nread pi.bytes) (filled-drop pi f h) ∙ λ i.
    pi.bytes (pi.nread % pipe_size)
    ∷ walk_same (filled (drop_byte pi)) (pi.nread + 1) ((pi.nread + 1) % 2 ^ 32) pi.bytes
        (omega arith) i

-- A ring without bytes is empty.
pub contents_empty : (pi : Pipe) → IsPipe pi → is_empty pi ≡ true → contents pi ≡ []
unfolding contents is_empty
contents_empty pi f h = ap (λ (n : ℕ). walk n pi.nread pi.bytes) none_left
  where
    none_left : filled pi ≡ 0
    none_left = unfold filled in ground (arith, h, f.nread_in, f.nwrite_in)
