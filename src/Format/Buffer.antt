-- ===== src/Format/Buffer.antt =====
-- What `vsnprintf` leaves in its buffer: the bytes that `printf` would print, cut off to leave room
-- for the NUL, then the NUL, then the bytes that stood there before.
use mathlib.Core.Option
use kernel_panic_logger.Prelude.{
  ℕ, zero, suc, ◌+◌, ◌-◌, ◌%◌, ◌^◌, ◌<◌, ◌≤◌, ◌≡◌, refl, ◌∙◌, ap, sym, List, [], ◌∷◌, ◌++◌, Option,
  none, some, lt→ltb, length, arith, set, take, drop, map, append_assoc, length-append, set-append,
  length-map, length-take,
}
use native.Mathlib.Nat.{zero-add}
use kernel_panic_logger.Format.{Arg}
use kernel_panic_logger.Format.Vsnprintf.{Dst, putc, puts, vsnprintf_end, vsnprintf}
use kernel_panic_logger.Format.Printf.{printf_loop, printf_codes}
use kernel_panic_logger.Format.Agree.{loops_agree}

abbrev pub low_byte : ℕ → ℕ
low_byte c = c % 2 ^ 8

-- A buffer of which `done` is written, with room for `room` more bytes before the NUL's.
abbrev at_offset : List ℕ → List ℕ → ℕ → Dst
at_offset done rest room = record {
  buf = done ++ rest;
  dst = length done;
  end = length done + room;
}

putc_full : (c : ℕ) (done rest : List ℕ) → putc c (at_offset done rest 0) ≡ at_offset done rest 0
unfolding putc
putc_full c done rest = ground arith

putc_room :
    (c r : ℕ) (done rest : List ℕ) (room : ℕ)
    → putc c (at_offset done (r ∷ rest) (suc room))
      ≡ at_offset (done ++ (low_byte c ∷ [])) rest room
unfolding putc
putc_room c r done rest room = rw (lt→ltb (length done) (length done + suc room) (omega arith)) λ i.
    record {
      buf = (set-append done rest r (low_byte c) ∙ append_assoc') i;
      dst = here i;
      end = there i;
    }
  where
    append_assoc' : done ++ (low_byte c ∷ rest) ≡ (done ++ (low_byte c ∷ [])) ++ rest
    append_assoc' = sym (append_assoc done (low_byte c ∷ []) rest)

    here : length done + 1 ≡ length (done ++ (low_byte c ∷ []))
    here = omega (arith, length-append done (low_byte c ∷ []))

    there : length done + suc room ≡ length (done ++ (low_byte c ∷ [])) + room
    there = omega (arith, length-append done (low_byte c ∷ []))

puts_full : (cs done rest : List ℕ) → puts cs (at_offset done rest 0) ≡ at_offset done rest 0
unfolding puts
puts_full [] done rest = refl
puts_full (c ∷ cs) done rest = rw (putc_full c done rest) (puts_full cs done rest)

-- The buffer after `cs`, as far as they fit.
abbrev after : List ℕ → List ℕ → List ℕ → ℕ → Dst
after cs done rest room = record {
  buf = done ++ (map low_byte (take room cs) ++ drop (length (take room cs)) rest);
  dst = length done + length (take room cs);
  end = length done + room;
}

after-nil : (done rest : List ℕ) (room : ℕ) → at_offset done rest room ≡ after [] done rest room
after-nil done rest zero = ground arith
after-nil done rest (suc room) = ground arith

puts_lem :
    (cs done rest : List ℕ) (room : ℕ)
    → room ≤ length rest
    → puts cs (at_offset done rest room) ≡ after cs done rest room
unfolding puts
puts_lem [] done rest room h = after-nil done rest room
puts_lem (c ∷ cs) done rest zero h =
    rw (putc_full c done rest, puts_full cs done rest) (after-nil done rest 0)
puts_lem (c ∷ cs) done [] (suc room) h = absurd (omega arith)
puts_lem (c ∷ cs) done (r ∷ rest) (suc room) h =
    rw
      (
        putc_room c r done rest room,
        puts_lem cs (done ++ (low_byte c ∷ [])) rest room (omega arith),
      )
      (ground (
        arith,
        append_assoc done (low_byte c ∷ [])
            (map low_byte (take room cs) ++ drop (length (take room cs)) rest),
        length-append done (low_byte c ∷ []),
      ))

set-drop : (ys : List ℕ) (m v : ℕ) → m < length ys → set (drop m ys) 0 v ≡ v ∷ drop (suc m) ys
set-drop [] m v h = absurd (omega arith)
set-drop (y ∷ ys) zero v h = refl
set-drop (y ∷ ys) (suc m) v h = set-drop ys m v (omega arith)

set_after : (xs zs : List ℕ) (m v : ℕ) → length xs ≡ m → set (xs ++ zs) m v ≡ xs ++ set zs 0 v
set_after [] zs m v e = rw (← e)
set_after (x ∷ xs) zs zero v e = absurd (omega (arith, e))
set_after (x ∷ xs) zs (suc m) v e = ap (λ l. x ∷ l) (set_after xs zs m v (omega (arith, e)))

length_stored :
    (room : ℕ) (cs : List ℕ) → length (map low_byte (take room cs)) ≡ length (take room cs)
length_stored room cs = length-map (take room cs) low_byte

pub length_stored-le : (room : ℕ) (cs : List ℕ) → length (take room cs) ≤ room
length_stored-le room cs = omega (arith, length-take room cs)

-- The buffer and the result of `vsnprintf` when `printf` would print `cs`.
abbrev pub stored : List ℕ → ℕ → List ℕ → List ℕ × ℕ
stored buf n cs =
    let m = length (take (n - 1) cs) in
    (map low_byte (take (n - 1) cs) ++ (0 ∷ drop (suc m) buf), m)

end_after :
    (buf cs : List ℕ) (n : ℕ)
    → 0 < n
    → n ≤ length buf
    → vsnprintf_end (after cs [] buf (n - 1)) ≡ stored buf n cs
unfolding vsnprintf_end
end_after buf cs n pos fits = rw (
  zero-add (length (take (n - 1) cs)),
  set_after (map low_byte (take (n - 1) cs)) (drop (length (take (n - 1) cs)) buf)
      (length (take (n - 1) cs)) 0 (length_stored (n - 1) cs),
  set-drop buf (length (take (n - 1) cs)) 0 (omega (arith, length_stored-le (n - 1) cs)),
)

-- For a buffer of at least n ≥ 1 bytes and every format and argument list: where `printf` has
-- undefined behaviour so does `vsnprintf`; otherwise `vsnprintf` leaves the first n - 1 of the bytes
-- that `printf` would print, then a NUL, then the old bytes, and returns how many it stored.
pub vsnprintf-printf :
    (buf : List ℕ) (n : ℕ) (fmt : List ℕ) (args : List Arg)
    → 0 < n
    → n ≤ length buf
    → vsnprintf buf n fmt args ≡ Option.map (stored buf n) (printf_codes fmt args)
unfolding vsnprintf printf_codes
vsnprintf-printf buf n fmt args pos fits =
    rw (start, loops_agree fmt 0 args (at_offset [] buf (n - 1))) (mapped (printf_loop fmt 0 args))
  where
    start : ◌≡◌ {A = Dst} (record { buf = buf; dst = 0; end = n - 1 }) (at_offset [] buf (n - 1))
    start = ground arith

    mapped :
        (o : Option (List ℕ))
        → Option.map vsnprintf_end (Option.map (λ cs. puts cs (at_offset [] buf (n - 1))) o)
          ≡ Option.map (stored buf n) o
    mapped none = refl
    mapped (some cs) =
        ap some (
          ap vsnprintf_end (puts_lem cs [] buf (n - 1) (omega arith)) ∙ end_after buf cs n pos fits)
