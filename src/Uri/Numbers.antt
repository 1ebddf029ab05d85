-- ===== src/Uri/Numbers.antt =====
-- core/uri.c: `prv_parse_number` reads the decimal texts of numbers.
use native.Mathlib.Nat.{pow-suc}
use galileom2m.Prelude.{
  ◌≢◌, Bool-cases, ℕ, zero, suc, ◌+◌, ◌-◌, ◌*◌, ◌/◌, ◌%◌, ◌^◌, ◌≤◌, ◌<◌, ◌≡◌, ◌⊎◌, inl, inr, refl,
  length-append, List, [], ◌∷◌, ◌++◌, arith, ltb, ◌==◌, if◌then◌else◌, All, length,
}
use galileom2m.Uri.{parse_loop, parse_number, get_number}

-- The text that `snprintf` makes of an `unsigned short` under "%hu", with the digits left as fuel.
unfoldable pub decimal_fuel : ℕ → ℕ → List ℕ
decimal_fuel zero n = []
decimal_fuel (suc fuel) n =
    let higher = decimal_fuel fuel (n / 10) in
    if ltb n 10 then (b'0' + n) ∷ [] else higher ++ ((b'0' + n % 10) ∷ [])

unfoldable pub decimal : ℕ → List ℕ
unfolding decimal_fuel
decimal n = decimal_fuel 5 n

-- The byte behind the text has no influence on the number.
parse_loop-behind :
    (text : List ℕ) (a b result mul used : ℕ)
    → (parse_loop text a result mul used).value ≡ (parse_loop text b result mul used).value
unfolding parse_loop
parse_loop-behind [] a b result mul used = refl
parse_loop-behind (c ∷ text) a b result mul used = ground (
  arith,
  parse_loop-behind text a b (((if mul == 0 then result else result * mul) + (c - b'0')) % 2 ^ 32)
      10 (used + 1),
)

-- The number that a text of decimal digits stands for, with `acc` in front.
unfoldable pub decimal_value : ℕ → List ℕ → ℕ
decimal_value acc [] = acc
decimal_value acc (c ∷ text) = decimal_value (acc * 10 + (c - b'0')) text

abbrev pub Digits : List ℕ → Type 0
Digits text = All (λ c. (b'0' ≤ c) × (c ≤ b'9')) text

parse_loop-value :
    (text : List ℕ) (behind acc mul used : ℕ)
    → Digits text
    → (mul ≡ 10) ⊎ ((mul ≡ 0) × (acc ≡ 0))
    → (parse_loop text behind (acc % 2 ^ 32) mul used).value ≡ decimal_value acc text % 2 ^ 32
unfolding parse_loop decimal_value
parse_loop-value [] behind acc mul used digits m = refl
parse_loop-value (c ∷ text) behind acc mul used (digit, digits) m =
    let step : ((if mul == 0 then acc % 2 ^ 32 else acc % 2 ^ 32 * mul) + (c - b'0')) % 2 ^ 32
        ≡ (acc * 10 + (c - b'0')) % 2 ^ 32 =
      ground arith in
    ground (
      arith,
      step,
      parse_loop-value text behind (acc * 10 + (c - b'0')) 10 (used + 1) digits (inl refl),
    )

-- A text of digits is read as its number modulo 2 ^ 32, whatever byte stands behind it.
pub parse_number-decimal_value :
    (text : List ℕ) (behind : ℕ)
    → Digits text
    → (parse_number text behind).value ≡ decimal_value 0 text % 2 ^ 32
unfolding parse_number
parse_number-decimal_value text behind digits =
    parse_loop-value text behind 0 0 0 digits (inr (refl, refl))

decimal_value-append :
    (xs ys : List ℕ) (acc : ℕ)
    → decimal_value acc (xs ++ ys) ≡ decimal_value (decimal_value acc xs) ys
unfolding decimal_value
decimal_value-append [] ys acc = refl
decimal_value-append (x ∷ xs) ys acc = decimal_value-append xs ys (acc * 10 + (x - b'0'))

Digits-append : (xs ys : List ℕ) → Digits xs → Digits ys → Digits (xs ++ ys)
Digits-append [] ys h k = k
Digits-append (x ∷ xs) ys h k = (h.0, Digits-append xs ys h.1 k)

pub decimal_fuel-Digits : (fuel n : ℕ) → Digits (decimal_fuel fuel n)
unfolding decimal_fuel
decimal_fuel-Digits zero n = tt
decimal_fuel-Digits (suc fuel) n =
    let last : Digits ((b'0' + n % 10) ∷ []) = omega arith in
    ground (
      arith,
      Digits-append (decimal_fuel fuel (n / 10)) ((b'0' + n % 10) ∷ [])
          (decimal_fuel-Digits fuel (n / 10)) last,
    )

pub decimal_value-decimal_fuel :
    (fuel n : ℕ) → n < 10 ^ fuel → decimal_value 0 (decimal_fuel fuel n) ≡ n
unfolding decimal_fuel decimal_value
decimal_value-decimal_fuel zero n h = omega arith
decimal_value-decimal_fuel (suc fuel) n h = ground (
  arith,
  pow-suc 10 fuel,
  decimal_value-append (decimal_fuel fuel (n / 10)) ((b'0' + n % 10) ∷ []) 0,
  decimal_value-decimal_fuel fuel (n / 10),
)

pub decimal-Digits : (n : ℕ) → Digits (decimal n)
unfolding decimal
decimal-Digits n = decimal_fuel-Digits 5 n

-- A 16-bit id that is printed in decimal is read back.
pub get_number-decimal : (n : ℕ) → n < 65536 → get_number (decimal n) ≡ n
unfolding get_number decimal
get_number-decimal n h = omega (
  arith,
  parse_number-decimal_value (decimal_fuel 5 n) 0 (decimal_fuel-Digits 5 n),
  decimal_value-decimal_fuel 5 n (omega arith),
)

-- The text of an id is not empty and has at most 5 characters, so with its NUL it fits the
-- 6 bytes of the buffers for it.
pub length-decimal : (n : ℕ) → (1 ≤ length (decimal n)) × (length (decimal n) ≤ 5)
unfolding decimal decimal_fuel
length-decimal n = ground (arith, length-append {0} {A = ℕ})

snoc-ne-nil : (xs : List ℕ) (x : ℕ) → xs ++ (x ∷ []) ≢ []
snoc-ne-nil [] x e = cc
snoc-ne-nil (y ∷ xs) x e = cc

-- A text of digits starts with one.
pub decimal_fuel-ne-nil : (fuel n : ℕ) → decimal_fuel (suc fuel) n ≢ []
unfolding decimal_fuel
decimal_fuel-ne-nil fuel n = elim (Bool-cases (ltb n 10)) [
  | inl one ↦ rw one (λ e. cc)
  | inr more ↦ rw more (snoc-ne-nil (decimal_fuel fuel (n / 10)) (b'0' + n % 10))
]
