-- ===== src/PlainText/Examples.antt =====
-- Texts of core/utils.c.
use galileom2m.Prelude.{ℕ, zero, suc, List, ◌++◌, ◌≡◌, refl, true, some, [], ◌∷◌, arith}
use galileom2m.PlainText.{
  float64_to_plain_text, digit_loop, plain_text_to_int64, int64_to_plain_text,
}
use galileom2m.PlainText.RoundTrip.{plain_text_to_int64-int64_to_plain_text}

-- The least int64_t.
plain_text_to_int64-int64_to_plain_text_example :
    plain_text_to_int64 (int64_to_plain_text true 0x8000_0000_0000_0000)
    ≡ some 0x8000_0000_0000_0000
plain_text_to_int64-int64_to_plain_text_example =
    plain_text_to_int64-int64_to_plain_text 0x8000_0000_0000_0000 (omega arith)

-- A minus sign alone is read as 0.
minus_sign : plain_text_to_int64 (b'-' ∷ []) ≡ some 0
unfolding plain_text_to_int64 digit_loop
minus_sign = refl

minus_twelve : plain_text_to_int64 (b'-' ∷ b'1' ∷ b'2' ∷ []) ≡ some 0xffff_ffff_ffff_fff4
unfolding plain_text_to_int64 digit_loop
minus_twelve = refl

abbrev replicated : ℕ → List ℕ
replicated zero = []
replicated (suc n) = b'9' ∷ replicated n

-- A text of 65 bytes: the last two are zeros.
long_text : float64_to_plain_text (λ w. replicated 65) true 0 ≡ replicated 63 ++ (0 ∷ 0 ∷ [])
unfolding float64_to_plain_text
long_text = refl
