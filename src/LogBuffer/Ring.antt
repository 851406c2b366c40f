-- ===== src/LogBuffer/Ring.antt =====
-- The circular buffer against its contract: a list of the most recent entries, at most LOG_SIZE.
use kernel_panic_logger.Prelude.{
  ℕ, zero, suc, ◌+◌, ◌%◌, ◌≡◌, ◌≢◌, refl, ◌<◌, ◌≤◌, List, [], ◌∷◌, false, Option, some, arith,
  Bool-cases, ap, ◌∙◌, sym, get_elem?, set, length, length-set, get_elem?-set_self,
  get_elem?-set_ne, take, map, ltb, ltb→lt, inl, inr,
}
use native.Mathlib.Numerals.{add-one}
use mathlib.Core.Option
use mathlib.Core.Path.{subst}
use kernel_panic_logger.CString.{cstr}
use kernel_panic_logger.Kernel.{LogBuf, LogEntry, log_size, log_msg_max, log_file_max}
use kernel_panic_logger.LogBuffer.{previous, advance}

-- What a reader sees of an entry: the char arrays as C strings.
pub record View : Type 0 where
  pub ticks : ℕ
  pub level : ℕ
  pub file : List ℕ
  pub line : ℕ
  pub msg : List ℕ

unfoldable pub view : LogEntry → View
view e = record {
  ticks = e.ticks;
  level = e.level;
  file = cstr e.file;
  line = e.line;
  msg = cstr e.msg;
}

-- The entries in the `n` slots before slot `idx`, the nearest first, as the flush visits them.
unfoldable pub going_back : List LogEntry → ℕ → ℕ → List (Option LogEntry)
going_back es zero idx = []
going_back es (suc n) idx = get_elem? es (previous idx) ∷ going_back es n (previous idx)

-- The entries of the buffer, the most recent first.
unfoldable pub recent : LogBuf → List (Option LogEntry)
recent b = going_back b.entries b.count b.head

-- What a reader sees of the buffer, the most recent entry first.
unfoldable pub contents : LogBuf → List (Option View)
contents b = map (Option.map view) (recent b)

-- The arrays of an entry have their declared sizes.
pub record IsEntry (e : LogEntry) : Type 0 where
  pub file_size : length e.file ≡ log_file_max
  pub msg_size : length e.msg ≡ log_msg_max

pub record IsValid (b : LogBuf) : Type 0 where
  pub slots : length b.entries ≡ log_size
  pub head_in : b.head < log_size
  pub count_in : b.count ≤ log_size
  pub sized : (i : ℕ) (e : LogEntry) → get_elem? b.entries i ≡ some e → IsEntry e

get_elem?-some :
    (es : List LogEntry) (i : ℕ) → i < length es → (e : LogEntry) × (get_elem? es i ≡ some e)
get_elem?-some [] i h = absurd (omega arith)
get_elem?-some (e ∷ es) zero h = (e, refl)
get_elem?-some (e ∷ es) (suc i) h = get_elem?-some es i (omega arith)

-- Every slot below LOG_SIZE is there.
pub slot_of :
    (b : LogBuf) (i : ℕ)
    → IsValid b
    → i < log_size
    → (e : LogEntry) × (get_elem? b.entries i ≡ some e)
slot_of b i v h = get_elem?-some b.entries i (omega (arith, v.slots))

-- The slot that `log_add` writes is inside the array.
pub slot_in : {b : LogBuf} → IsValid b → (e : LogEntry) × (get_elem? b.entries b.head ≡ some e)
slot_in {b} v = get_elem?-some b.entries b.head (omega (arith, v.slots, v.head_in))

-- A visitor who has gone back k slots from slot h does not come to it within 63 steps in all.
going_back-set :
    (es : List LogEntry) (h : ℕ) (e : LogEntry) (n idx k : ℕ)
    → h < log_size
    → idx < log_size
    → n + k < log_size
    → (idx + k) % log_size ≡ h
    → going_back (set es h e) n idx ≡ going_back es n idx
unfolding going_back
going_back-set es h e zero idx k hh hi hn c = refl
going_back-set es h e (suc n) idx k hh hi hn c = λ i.
    get_elem?-set_ne es e differs i
    ∷ going_back-set es h e n (previous idx) (k + 1) hh (omega arith) (omega arith) (omega arith) i
  where
    differs : h ≢ previous idx
    differs q = absurd (omega (arith, q))

take-going_back :
    (es : List LogEntry) (n m idx : ℕ) → n ≤ m → take n (going_back es m idx) ≡ going_back es n idx
unfolding going_back
take-going_back es zero m idx h = refl
take-going_back es (suc n) zero idx h = absurd (omega arith)
take-going_back es (suc n) (suc m) idx h =
    ap (λ l. get_elem? es (previous idx) ∷ l) (take-going_back es n m (previous idx) (omega arith))

take_all :
    (es : List LogEntry) (n m idx : ℕ) → n ≤ m → take m (going_back es n idx) ≡ going_back es n idx
unfolding going_back
take_all es zero zero idx h = refl
take_all es zero (suc m) idx h = refl
take_all es (suc n) zero idx h = absurd (omega arith)
take_all es (suc n) (suc m) idx h =
    ap (λ l. get_elem? es (previous idx) ∷ l) (take_all es n m (previous idx) (omega arith))

-- The new entry, then what stood before it.
newest :
    (es : List LogEntry) (h n : ℕ) (e : LogEntry)
    → length es ≡ log_size
    → h < log_size
    → n < log_size
    → going_back (set es h e) (suc n) ((h + 1) % log_size) ≡ some e ∷ going_back es n h
unfolding going_back
newest es h n e l hh hn = rw (
  back,
  get_elem?-set_self es h e (omega (arith, l)),
  going_back-set es h e n h 0 hh hh (omega arith) (omega arith),
)
  where
    back : previous ((h + 1) % log_size) ≡ h
    back = omega arith

-- `advance` puts the new entry in front of the contents and drops the oldest one of a full buffer.
pub recent-advance :
    (b : LogBuf) (e : LogEntry)
    → IsValid b
    → recent (advance b e) ≡ take log_size (some e ∷ recent b)
unfolding recent advance
recent-advance b e v = elim (Bool-cases (ltb b.count log_size)) [
  | inl room ↦
      rw (room, add-one b.count)
        (newest b.entries b.head b.count e v.slots v.head_in (ltb→lt _ _ room)
          ∙ ap (λ l. some e ∷ l)
              (sym (take_all b.entries b.count 63 b.head (omega (arith, ltb→lt b.count 64 room)))))
  | inr full ↦
      rw (full, count_eq full)
        (newest b.entries b.head 63 e v.slots v.head_in (omega arith)
          ∙ ap (λ l. some e ∷ l) (sym (take-going_back b.entries 63 64 b.head (omega arith))))
]
  where
    count_eq : ltb b.count log_size ≡ false → b.count ≡ 64
    count_eq full = ground (arith, v.count_in)

map-take {ℓ κ} :
    {A : Type ℓ} {B : Type κ} (f : A → B) (n : ℕ) (xs : List A)
    → map f (take n xs) ≡ take n (map f xs)
map-take f zero xs = refl
map-take f (suc n) [] = refl
map-take f (suc n) (x ∷ xs) = ap (λ l. f x ∷ l) (map-take f n xs)

-- The same for what a reader sees.
pub contents-advance :
    (b : LogBuf) (e : LogEntry)
    → IsValid b
    → contents (advance b e) ≡ take log_size (some (view e) ∷ contents b)
unfolding contents
contents-advance b e v =
    ap (map (Option.map view)) (recent-advance b e v)
    ∙ map-take (Option.map view) log_size (some e ∷ recent b)

advance_sized :
    (es : List LogEntry) (h : ℕ) (e : LogEntry)
    → IsEntry e
    → ((i : ℕ) (x : LogEntry) → get_elem? es i ≡ some x → IsEntry x)
    → (i : ℕ) (x : LogEntry) → get_elem? (set es h e) i ≡ some x
    → IsEntry x
advance_sized [] h e s all i x q = all i x q
advance_sized (y ∷ es) zero e s all zero x q = let p : e ≡ x = cc in subst IsEntry p s
advance_sized (y ∷ es) zero e s all (suc i) x q = all (suc i) x q
advance_sized (y ∷ es) (suc h) e s all zero x q = all zero x q
advance_sized (y ∷ es) (suc h) e s all (suc i) x q = advance_sized es h e s (λ j. all (suc j)) i x q

-- `advance` keeps the buffer valid.
pub advance-IsValid : (b : LogBuf) (e : LogEntry) → IsValid b → IsEntry e → IsValid (advance b e)
unfolding advance
advance-IsValid b e v s = record {
  slots = length-set b.entries b.head e ∙ v.slots;
  head_in = omega arith;
  count_in = ground (arith, v.count_in);
  sized = advance_sized b.entries b.head e s v.sized;
}
