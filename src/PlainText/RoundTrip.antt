-- ===== src/PlainText/RoundTrip.antt =====
-- core/utils.c: a text that was made of an integer is read back.
use galileom2m.Prelude.{
  ℕ, ◌+◌, ◌-◌, ◌*◌, ◌%◌, ◌^◌, ◌<◌, ◌≡◌, ◌≢◌, ap, ◌⊎◌, inl, inr, refl, true, some, List, [], ◌∷◌,
  arith, ltb, ◌==◌, if◌then◌else◌, Bool-cases,
}
use galileom2m.Uri.Numbers.{
  Digits, decimal_value, decimal_fuel, decimal_fuel-ne-nil, decimal_fuel-Digits,
  decimal_value-decimal_fuel,
}
use galileom2m.PlainText.{
  digit_loop, negated, plain_text_to_int64, signed_decimal, int64_to_plain_text,
}

digit_loop-decimal_value :
    (text : List ℕ) (acc mul : ℕ)
    → Digits text
    → (mul ≡ 10) ⊎ ((mul ≡ 0) × (acc ≡ 0))
    → digit_loop text (acc % 2 ^ 64) mul ≡ some (decimal_value acc text % 2 ^ 64)
unfolding digit_loop decimal_value
digit_loop-decimal_value [] acc mul digits m = refl
digit_loop-decimal_value (c ∷ text) acc mul (digit, digits) m =
    let step : ((if mul == 0 then acc % 2 ^ 64 else acc % 2 ^ 64 * mul % 2 ^ 64) + (c - b'0'))
          % 2 ^ 64
        ≡ (acc * 10 + (c - b'0')) % 2 ^ 64 =
      ground arith in
    ground (arith, step, digit_loop-decimal_value text (acc * 10 + (c - b'0')) 10 digits (inl refl))

plain_text_to_int64-digit_loop :
    (text : List ℕ) → Digits text → text ≢ [] → plain_text_to_int64 text ≡ digit_loop text 0 0
unfolding plain_text_to_int64
plain_text_to_int64-digit_loop [] digits some_text = absurd (some_text refl)
plain_text_to_int64-digit_loop (c ∷ text) (digit, digits) some_text = ground arith

fuel_digits : (n : ℕ) → n < 10 ^ 19 → digit_loop (decimal_fuel 19 n) 0 0 ≡ some (n % 2 ^ 64)
fuel_digits n small =
    rw (decimal_value-decimal_fuel 19 n small) at (
      digit_loop-decimal_value (decimal_fuel 19 n) 0 0 (decimal_fuel-Digits 19 n)
        (inr (refl, refl)))

-- Every `int64_t` comes back from its text, the least one included.
pub plain_text_to_int64-int64_to_plain_text :
    (word : ℕ) → word < 2 ^ 64 → plain_text_to_int64 (int64_to_plain_text true word) ≡ some word
unfolding int64_to_plain_text signed_decimal plain_text_to_int64
plain_text_to_int64-int64_to_plain_text word fits = elim (Bool-cases (ltb word (2 ^ 63))) [
  | inl positive ↦
      rw
        (
          positive,
          plain_text_to_int64-digit_loop (decimal_fuel 19 word) (decimal_fuel-Digits 19 word)
              (decimal_fuel-ne-nil 18 word),
          fuel_digits word (ground arith),
        )
        (ap some (omega arith))
  | inr negative ↦
      rw (negative, plain_text_to_int64, negated, fuel_digits (2 ^ 64 - word) (ground arith))
        (ap some (ground arith))
]

-- The text of an integer is not empty.
pub int64_to_plain_text-ne-nil : (word : ℕ) → int64_to_plain_text true word ≢ []
unfolding int64_to_plain_text signed_decimal
int64_to_plain_text-ne-nil word = ground (arith, decimal_fuel-ne-nil 18 word)
