-- ===== src/Digits/Bounds.antt =====
-- The digit arrays never overflow, and their digits have the value of the number.
use kernel_panic_logger.Prelude.{
  ℕ, zero, suc, ◌+◌, ◌-◌, ◌*◌, ◌/◌, ◌%◌, ◌^◌, ◌<◌, ◌≤◌, ◌≡◌, refl, List, [], ◌∷◌, Option, none,
  some, false, ltb, ◌==◌, if◌then◌else◌, arith, length, Bool-cases, ap, ==_iff, inl, inr, ◌⊎◌,
}
use native.Mathlib.Nat.{pow-zero, pow-suc, div-lt_iff_lt-mul, mod-lt, mod-add-div}
use mathlib.Core.Option
use kernel_panic_logger.Digits.{digit, digit_loop}

-- The number that the characters of an array, least significant first, stand for.
pub char_value : ℕ → ℕ
char_value c = if ltb c b'a' then c - b'0' else c - b'a' + 10

pub value : ℕ → List ℕ → ℕ
value base [] = 0
value base (c ∷ cs) = char_value c + base * value base cs

-- The numerals that the conversions use.
abbrev pub IsBase : ℕ → Type 0
IsBase base = (2 ≤ base) × (base ≤ 16)

char_value-digit : (d : ℕ) → d < 16 → char_value (digit d) ≡ d
unfolding char_value digit
char_value-digit zero h = refl
char_value-digit (suc zero) h = refl
char_value-digit (suc (suc zero)) h = refl
char_value-digit (suc (suc (suc zero))) h = refl
char_value-digit (suc (suc (suc (suc zero)))) h = refl
char_value-digit (suc (suc (suc (suc (suc zero))))) h = refl
char_value-digit (suc (suc (suc (suc (suc (suc zero)))))) h = refl
char_value-digit (suc (suc (suc (suc (suc (suc (suc zero))))))) h = refl
char_value-digit (suc (suc (suc (suc (suc (suc (suc (suc zero)))))))) h = refl
char_value-digit (suc (suc (suc (suc (suc (suc (suc (suc (suc zero))))))))) h = refl
char_value-digit (suc (suc (suc (suc (suc (suc (suc (suc (suc (suc zero)))))))))) h = refl
char_value-digit (suc (suc (suc (suc (suc (suc (suc (suc (suc (suc (suc zero))))))))))) h = refl
char_value-digit (suc (suc (suc (suc (suc (suc (suc (suc (suc (suc (suc (suc zero)))))))))))) h =
    refl
char_value-digit (suc (suc (suc (suc (suc (suc (suc (suc (suc (suc (suc (suc (suc zero)))))))))))))
      h =
    refl
char_value-digit
      (suc (suc (suc (suc (suc (suc (suc (suc (suc (suc (suc (suc (suc (suc zero)))))))))))))) h =
    refl
char_value-digit
      (suc (suc (suc (suc (suc (suc (suc (suc (suc (suc (suc (suc (suc (suc (suc zero)))))))))))))))
      h =
    refl
char_value-digit
      (suc
        (suc (suc (suc (suc (suc (suc (suc (suc (suc (suc (suc (suc (suc (suc (suc d))))))))))))))))
      h =
    absurd (omega arith)

div_lt_pow : (room base x : ℕ) → 2 ≤ base → x < base ^ suc room → x / base < base ^ room
div_lt_pow room base x h p =
    (div-lt_iff_lt-mul {k = base} {x = x} (omega arith)).1 (omega (arith, pow-suc base room))

room_left : (room base x : ℕ) → 2 ≤ base → x < base ^ suc room → (x / base == 0) ≡ false → 0 < room
room_left zero base x b h more = absurd (ground (arith, div_lt_pow zero base x b h, pow-zero base))
room_left (suc room) base x b h more = omega arith

-- What a conversion leaves in an array with room for `room` characters.
abbrev pub Converts : ℕ → ℕ → ℕ → Option (List ℕ) → Type 0
Converts room base x r =
    (ds : List ℕ) × (r ≡ some ds) × (value base ds ≡ x) × (0 < length ds) × (length ds ≤ room)

last_digit :
    (room base x : ℕ)
    → IsBase base
    → x / base ≡ 0
    → Converts (suc room) base x (some (digit (x % base) ∷ []))
unfolding value
last_digit room base x b h = (
  digit (x % base) ∷ [],
  refl,
  omega (
    arith,
    char_value-digit (x % base) (grind (arith, mod-lt)),
    mod-add-div x base,
    ap (λ (q : ℕ). base * q) h,
  ),
  omega arith,
  omega arith,
)

next_digit :
    (room base x : ℕ) (r : Option (List ℕ))
    → IsBase base
    → Converts room base (x / base) r
    → Converts (suc room) base x (Option.map (λ ds. digit (x % base) ∷ ds) r)
unfolding value
next_digit room base x r b (ds, e, v, some_digit, fits) = (
  digit (x % base) ∷ ds,
  rw e refl,
  omega (
    arith,
    char_value-digit (x % base) (grind (arith, mod-lt)),
    mod-add-div x base,
    ap (λ (q : ℕ). base * q) v,
  ),
  omega arith,
  omega arith,
)

-- With room for `room` digits, every number below base ^ room is converted: the loop stays inside
-- the array, fills at least one and at most `room` bytes, and these have the number's value.
pub digit_loop_lem :
    (room base x : ℕ)
    → IsBase base
    → x < base ^ room
    → 0 < room
    → Converts room base x (digit_loop room base x)
unfolding digit_loop
digit_loop_lem zero base x b h pos = elim pos [ ]
digit_loop_lem (suc room) base x b h pos = elim (Bool-cases (x / base == 0)) [
  | inl last ↦ rw last (last_digit room base x b ((==_iff _ _).0 last))
  | inr more ↦ rw more (
      next_digit room base x (digit_loop room base (x / base)) b (
        digit_loop_lem room base (x / base) b (div_lt_pow room base x b.0 h)
          (room_left room base x b.0 h more)))
]

-- More room in the array changes nothing.
pub digit_loop_more :
    (room more base x : ℕ)
    → room ≤ more
    → (digit_loop room base x ≡ none) ⊎ (digit_loop more base x ≡ digit_loop room base x)
unfolding digit_loop
digit_loop_more zero more base x h = inl refl
digit_loop_more (suc room) zero base x h = absurd (omega arith)
digit_loop_more (suc room) (suc more) base x h =
    ground (arith, digit_loop_more room more base (x / base))
