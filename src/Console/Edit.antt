-- ===== src/Console/Edit.antt =====
-- What a key does to the console's buffer.
use kernel_panic_logger.Prelude.{
  ℕ, zero, suc, ◌+◌, ◌%◌, ◌^◌, ◌≡◌, ◌≢◌, refl, ◌<◌, ◌≤◌, ◌∙◌, ap, List, [], ◌∷◌, Bool, true, false,
  if◌then◌else◌, ◌==◌, arith, Bool-cases, inl, inr, get_or, set, not, ◌&&◌, ◌||◌, ltb,
}
use kernel_panic_logger.Outcome.{Outcome, ok, and_then, zoom_of_ok}
use kernel_panic_logger.Spinlock.{Pair, acquire, release}
use kernel_panic_logger.Spinlock.Laws.{
  IsSane, IsFree, settle, settle_lem, taken, acquire_free, release_on_taken,
}
use kernel_panic_logger.Console.{
  Console, input_buf_size, minus32, consputc, rub_out, kill_loop, erase_last, store_key, end_line,
  type_key, handle_key, consoleintr,
}

-- The indices are 32-bit numbers with r, w and e in this order around the circle, at most one buffer
-- apart.
pub record IsConsole (k : Console) : Type 0 where
  pub r_in : k.r < 2 ^ 32
  pub w_in : k.w < 2 ^ 32
  pub e_in : k.e < 2 ^ 32
  pub room : minus32 k.w k.r + minus32 k.e k.w ≤ input_buf_size

-- The byte that a reader finds i places on.
abbrev pub unread : Console → ℕ → ℕ
unread k i = get_or k.buf ((k.r + i) % 2 ^ 32 % input_buf_size) 0

-- From one state to the other the buffer stays well-formed, the read index does not move, and every
-- byte that a reader may already take is kept; more may become readable.
pub record Reads (k k' : Console) : Type 0 where
  pub formed : IsConsole k'
  pub same_r : k'.r ≡ k.r
  pub more : minus32 k.w k.r ≤ minus32 k'.w k'.r
  pub bytes : (i : ℕ) → i < minus32 k.w k.r → unread k' i ≡ unread k i

-- The same with the hart and the lock untouched, as inside the critical section.
record Keeps (k k' : Console) : Type 0 where
  formed : IsConsole k'
  same_r : k'.r ≡ k.r
  same_hart : k'.hart ≡ k.hart
  same_lock : k'.lock ≡ k.lock
  more : minus32 k.w k.r ≤ minus32 k'.w k'.r
  bytes : (i : ℕ) → i < minus32 k.w k.r → unread k' i ≡ unread k i

consputc-Keeps : (c : ℕ) (k : Console) → IsConsole k → Keeps k (consputc c k)
unfolding consputc
consputc-Keeps c k f = elim (Bool-cases (c == 0x100)) [
  | inl b ↦ rw b (record {
    formed = record { r_in = f.r_in; w_in = f.w_in; e_in = f.e_in; room = f.room };
    same_r = refl;
    same_hart = refl;
    same_lock = refl;
    more = omega arith;
    bytes = λ i h. refl;
  })
  | inr b ↦ rw b (record {
    formed = record { r_in = f.r_in; w_in = f.w_in; e_in = f.e_in; room = f.room };
    same_r = refl;
    same_hart = refl;
    same_lock = refl;
    more = omega arith;
    bytes = λ i h. refl;
  })
]

rub_out-Keeps : (k : Console) → IsConsole k → k.e ≢ k.w → Keeps k (rub_out k)
unfolding rub_out consputc
rub_out-Keeps k f ne = record {
  formed = record {
    r_in = f.r_in;
    w_in = f.w_in;
    e_in = omega arith;
    room = omega (arith, f.r_in, f.w_in, f.e_in, f.room, ne);
  };
  same_r = refl;
  same_hart = refl;
  same_lock = refl;
  more = omega arith;
  bytes = λ i h. refl;
}

get_or-set : (s : List ℕ) (i j v : ℕ) → i ≢ j → get_or (set s i v) j 0 ≡ get_or s j 0
get_or-set [] i j v h = refl
get_or-set (x ∷ s) zero zero v h = absurd (h refl)
get_or-set (x ∷ s) zero (suc j) v h = refl
get_or-set (x ∷ s) (suc i) zero v h = refl
get_or-set (x ∷ s) (suc i) (suc j) v h = get_or-set s i j v (λ q. h (ap suc q))

store_key-Keeps :
    (c : ℕ) (k : Console) → IsConsole k → minus32 k.e k.r < input_buf_size → Keeps k (store_key c k)
unfolding store_key
store_key-Keeps c k f space = record {
  formed = record {
    r_in = f.r_in;
    w_in = f.w_in;
    e_in = omega arith;
    room = omega (arith, f.r_in, f.w_in, f.e_in, f.room, space);
  };
  same_r = refl;
  same_hart = refl;
  same_lock = refl;
  more = omega arith;
  bytes = λ i h.
      get_or-set k.buf (k.e % input_buf_size) ((k.r + i) % 2 ^ 32 % input_buf_size) (c % 2 ^ 8)
        (omega (arith, f.r_in, f.w_in, f.e_in, f.room, space, h));
}

Keeps-same : (k : Console) → IsConsole k → Keeps k k
Keeps-same k f = record {
  formed = f;
  same_r = refl;
  same_hart = refl;
  same_lock = refl;
  more = omega arith;
  bytes = λ i h. refl;
}

Keeps-then : {k k1 k2 : Console} → Keeps k k1 → Keeps k1 k2 → Keeps k k2
Keeps-then p q = record {
  formed = q.formed;
  same_r = q.same_r ∙ p.same_r;
  same_hart = q.same_hart ∙ p.same_hart;
  same_lock = q.same_lock ∙ p.same_lock;
  more = omega (arith, p.more, q.more);
  bytes = λ i h. q.bytes i (omega (arith, h, p.more)) ∙ p.bytes i h;
}

end_line-Keeps : (c : ℕ) (k : Console) → IsConsole k → Keeps k (end_line c k)
unfolding end_line
end_line-Keeps c k f =
    elim (Bool-cases (c == b'\n' || (c == 4 || minus32 k.e k.r == input_buf_size))) [
      | inl ends ↦ rw ends (record {
        formed = record {
          r_in = f.r_in;
          w_in = f.e_in;
          e_in = f.e_in;
          room = omega (arith, f.r_in, f.w_in, f.e_in, f.room);
        };
        same_r = refl;
        same_hart = refl;
        same_lock = refl;
        more = omega (arith, f.r_in, f.w_in, f.e_in, f.room);
        bytes = λ i h. refl;
      })
      | inr goes_on ↦ rw goes_on (Keeps-same k f)
    ]

erase_last-Keeps : (k : Console) → IsConsole k → Keeps k (erase_last k)
unfolding erase_last
erase_last-Keeps k f = elim (Bool-cases (k.e == k.w)) [
  | inl none_left ↦ rw none_left (Keeps-same k f)
  | inr some_left ↦ rw some_left (rub_out-Keeps k f (differs k.e k.w some_left))
]
  where
    differs : (a b : ℕ) → (a == b) ≡ false → a ≢ b
    differs a b h = ground arith

kill_loop-Keeps : (rounds : ℕ) (k : Console) → IsConsole k → Keeps k (kill_loop rounds k)
unfolding kill_loop
kill_loop-Keeps zero k f = Keeps-same k f
kill_loop-Keeps (suc rounds) k f =
    elim (Bool-cases (k.e == k.w || get_or k.buf (minus32 k.e 1 % input_buf_size) 0 == b'\n')) [
      | inl stops ↦ rw stops (Keeps-same k f)
      | inr goes_on ↦ rw goes_on (
          let p = rub_out-Keeps k f (differs k.e k.w _ goes_on) in
          Keeps-then p (kill_loop-Keeps rounds (rub_out k) p.formed))
    ]
  where
    differs : (a b : ℕ) (x : Bool) → (a == b || x) ≡ false → a ≢ b
    differs a b x h = ground arith

type_key-Keeps : (c : ℕ) (k : Console) → IsConsole k → Keeps k (type_key c k)
unfolding type_key
type_key-Keeps c k f = elim (Bool-cases (not (c == 0) && ltb (minus32 k.e k.r) input_buf_size)) [
  | inl takes ↦
      rw takes (stores (if c == b'\r' then b'\n' else c) (has_room c (minus32 k.e k.r) takes))
  | inr ignores ↦ rw ignores (Keeps-same k f)
]
  where
    has_room : (c n : ℕ) → (not (c == 0) && ltb n input_buf_size) ≡ true → n < input_buf_size
    has_room c n h = ground arith

    echo_room :
        (c' : ℕ)
        → minus32 k.e k.r < input_buf_size
        → minus32 (consputc c' k).e (consputc c' k).r < input_buf_size
    echo_room c' h = unfold consputc in ground arith

    stores :
        (c' : ℕ)
        → minus32 k.e k.r < input_buf_size
        → Keeps k (end_line c' (store_key c' (consputc c' k)))
    stores c' h =
        let p = consputc-Keeps c' k f in
        let q = store_key-Keeps c' (consputc c' k) p.formed (echo_room c' h) in
        Keeps-then (Keeps-then p q) (end_line-Keeps c' (store_key c' (consputc c' k)) q.formed)

handle_key-Keeps :
    (procdump_text : List ℕ) (c : ℕ) (k : Console)
    → IsConsole k
    → Keeps k (handle_key procdump_text c k)
unfolding handle_key
handle_key-Keeps procdump_text c k f = elim (Bool-cases (c == 16)) [
  | inl p ↦ rw p (record {
    formed = record { r_in = f.r_in; w_in = f.w_in; e_in = f.e_in; room = f.room };
    same_r = refl;
    same_hart = refl;
    same_lock = refl;
    more = omega arith;
    bytes = λ i h. refl;
  })
  | inr p ↦ rw p (elim (Bool-cases (c == 21)) [
    | inl u ↦ rw u (kill_loop-Keeps (minus32 k.e k.w) k f)
    | inr u ↦ rw u (elim (Bool-cases (c == 8 || c == 0x7f)) [
      | inl h ↦ rw h (erase_last-Keeps k f)
      | inr h ↦ rw h (type_key-Keeps c k f)
    ])
  ])
]

-- A key is handled: the routine returns, and keeps what a reader may take; its lock is free again.
abbrev pub Handles : Console → Outcome Console (Unit {0}) → Type 0
Handles k r = (k' : Console) × (r ≡ ok tt k') × Reads k k' × IsFree k'.lock × IsSane k'.hart

-- With the console's lock free and a well-formed buffer, `consoleintr` returns for every key. The
-- buffer stays well-formed, so that the indices never run past each other, and no byte that a
-- reader may already take is lost or changed, not by editing keys either.
pub consoleintr_lem :
    (procdump_text : List ℕ) (c : ℕ) (k : Console)
    → IsConsole k
    → IsFree k.lock
    → IsSane k.hart
    → Handles k (consoleintr procdump_text c k)
unfolding consoleintr
consoleintr_lem procdump_text c k f free sane = (
  record h { hart = settle k.hart; lock = k.lock },
  and_then _ _ (zoom_of_ok _ _ acquire (acquire_free _ free)) (
      and_then _ _ refl
        (zoom_of_ok _ _ release (ap release pair ∙ release_on_taken start sane free))),
  record {
    formed = record {
      r_in = p.formed.r_in;
      w_in = p.formed.w_in;
      e_in = p.formed.e_in;
      room = p.formed.room;
    };
    same_r = p.same_r;
    more = p.more;
    bytes = p.bytes;
  },
  free,
  (settle_lem k.hart sane).0,
)
  where
    start : Pair
    start = record { hart = k.hart; lock = k.lock }

    inside : Console
    inside = record k { hart = (taken start).hart; lock = (taken start).lock }

    h : Console
    h = handle_key procdump_text c inside

    p : Keeps inside h
    p =
        handle_key-Keeps procdump_text c inside
          (record { r_in = f.r_in; w_in = f.w_in; e_in = f.e_in; room = f.room })

    pair : ◌≡◌ {A = Pair} (record { hart = h.hart; lock = h.lock }) (taken start)
    pair i = record { hart = p.same_hart i; lock = p.same_lock i }
