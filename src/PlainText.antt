-- ===== src/PlainText.antt =====
-- core/utils.c: integers as text. An int64_t is its 64-bit pattern, and the shorter integers are
-- theirs. A `double` is its bit pattern too; its text is the work of `snprintf`, a parameter.
pub mod RoundTrip
mod Examples
use galileom2m.Prelude.{
  ℕ, zero, suc, ◌++◌, take, length, ◌+◌, ◌-◌, ◌*◌, ◌%◌, ◌^◌, ◌&&◌, Bool, true, false, Option, none,
  some, List, [], ◌∷◌, ltb, leb, ◌==◌, if◌then◌else◌,
}
use galileom2m.Uri.Numbers.{decimal_fuel}

-- The loop over the digits, in a uint64_t.
pub digit_loop : List ℕ → ℕ → ℕ → Option ℕ
digit_loop [] result mul = some result
digit_loop (c ∷ text) result mul =
    let next =
      digit_loop text (((if mul == 0 then result else result * mul % 2 ^ 64) + (c - b'0')) % 2 ^ 64)
        10 in
    if leb b'0' c && leb c b'9' then next else none

-- `result * -1`
negated : Option ℕ → Option ℕ
negated none = none
negated (some result) = some ((2 ^ 64 - result) % 2 ^ 64)

-- `*dataP`; `none` is the return value 0.
pub plain_text_to_int64 : List ℕ → Option ℕ
unfolding negated
plain_text_to_int64 [] = none
plain_text_to_int64 (c ∷ text) =
    if c == b'-' then negated (digit_loop text 0 0) else digit_loop (c ∷ text) 0 0

-- What `snprintf` makes of a `long` under "%ld"; the magnitude has at most 19 digits.
pub signed_decimal : ℕ → List ℕ
signed_decimal word =
    if ltb word (2 ^ 63) then decimal_fuel 19 word else b'-' ∷ decimal_fuel 19 (2 ^ 64 - word)

-- The buffer, of the length that is returned; it is empty, for the length 0, without memory for it.
pub int64_to_plain_text : Bool → ℕ → List ℕ
unfolding signed_decimal
int64_to_plain_text allocated word = if allocated then signed_decimal word else []

-- An integer of fewer bits as an int64_t.
pub widen : ℕ → ℕ → ℕ
widen width word = if ltb word (2 ^ (width - 1)) then word else word + 2 ^ 64 - 2 ^ width

pub int8_to_plain_text : Bool → ℕ → List ℕ
int8_to_plain_text allocated word = int64_to_plain_text allocated (widen 8 word)

pub int16_to_plain_text : Bool → ℕ → List ℕ
int16_to_plain_text allocated word = int64_to_plain_text allocated (widen 16 word)

pub int32_to_plain_text : Bool → ℕ → List ℕ
int32_to_plain_text allocated word = int64_to_plain_text allocated (widen 32 word)

pub bool_to_plain_text : Bool → Bool → List ℕ
bool_to_plain_text allocated b = int64_to_plain_text allocated (if b then 1 else 0)

abbrev zeros : ℕ → List ℕ
zeros zero = []
zeros (suc n) = 0 ∷ zeros n

-- `format` is the text of a `double` under "%lf", of the length that `snprintf` returns. `string`
-- holds the first 63 bytes of it, and `strncpy` fills up with zeros.
pub float64_to_plain_text : (ℕ → List ℕ) → Bool → ℕ → List ℕ
float64_to_plain_text format allocated word =
    let text = format word in if allocated then take 63 text ++ zeros (length text - 63) else []

-- `to_double` is the conversion of a `float`.
pub float32_to_plain_text : (ℕ → ℕ) → (ℕ → List ℕ) → Bool → ℕ → List ℕ
float32_to_plain_text to_double format allocated word =
    float64_to_plain_text format allocated (to_double word)
