-- ===== src/Tlv/Integers.antt =====
-- core/tlv.c: integers as sign and magnitude in 1 to 8 bytes, written and read back.
use native.Mathlib.Nat.{div-div-eq-div-mul, div-lt_iff_lt-mul, div-le_self, pow-le-pow_right}
use native.Mathlib.Numerals.{towards_suc, add-one}
use galileom2m.Prelude.{
  ℕ, zero, suc, ◌+◌, ◌-◌, ◌*◌, ◌/◌, ◌%◌, ◌^◌, ◌≤◌, ◌<◌, ◌≡◌, ◌↔◌, ◌⊎◌, refl, some, none, List, [],
  ◌∷◌, Option, arith, length, Bool, true, false, drop, All, bit_and_0x7f, bit_and_0x80, bit_or_0x80,
  leb, ltb, ◌==◌, bit_and, bit_or, if◌then◌else◌, ap, ◌∙◌, Bool-cases, inl, inr,
}
use galileom2m.Tlv.{
  int_loop, int_bytes, int_content, magnitude, mark_sign, opaque_to_int, int_fold, sign_extend,
  negate,
}

pow_byte : (n : ℕ) → 2 ^ (8 * suc n) ≡ 2 ^ (8 * n) * 256
pow_byte n = let e : 8 * suc n ≡ 8 * n + 8 = omega arith in rw e (simp towards_suc (omega arith))

pow_sign : (n : ℕ) → 2 ^ (8 * (n + 1) - 1) ≡ 2 ^ (8 * n) * 128
pow_sign n =
    let e : 8 * (n + 1) - 1 ≡ 8 * n + 7 = omega arith in rw e (simp towards_suc (omega arith))

pow_pos : (n : ℕ) → 0 < 2 ^ (8 * n)
pow_pos zero = omega arith
pow_pos (suc n) = omega (arith, pow_byte n, pow_pos n)

-- The `n` low bytes of `v`, the highest first.
digits_of : ℕ → ℕ → List ℕ
digits_of zero v = []
digits_of (suc n) v = v / 2 ^ (8 * n) % 256 ∷ digits_of n v

length-digits_of : (n v : ℕ) → length (digits_of n v) ≡ n
unfolding digits_of
length-digits_of zero v = refl
length-digits_of (suc n) v = ap suc (length-digits_of n v)

-- `v` needs more than `len` bytes.
abbrev Exceeds : ℕ → ℕ → Type 0
Exceeds len v = (len ≡ 0) ⊎ ((m : ℕ) × (len ≡ suc m) × (2 ^ (8 * m) * 128 ≤ v))

-- The loop ends with the bytes of `v`, the highest bit free, or it has no room left for them.
abbrev Ends : ℕ → ℕ → Option (List ℕ) → Type 0
Ends size v out =
    ((n : ℕ) × (n < size) × (out ≡ some (digits_of (suc n) v)) × (v < 2 ^ (8 * n) * 128))
    ⊎ ((out ≡ none) × Exceeds size v)

int_loop-Ends :
    (room len size v : ℕ)
    → len + room ≡ size
    → Exceeds len v
    → Ends size v (int_loop room len v (digits_of len v))
unfolding int_loop digits_of
int_loop-Ends zero len size v e q = let same : size ≡ len = omega arith in inr (refl, rw same q)
int_loop-Ends (suc room) len size v e q = elim (Bool-cases (ltb (2 ^ (8 * (len + 1) - 1) - 1) v)) [
  | inl more ↦
      rw (more, add-one len)
        (int_loop-Ends room (suc len) size v (omega arith)
          (inr (len, refl, ground (arith, pow_sign len))))
  | inr done ↦ rw done (inl (len, omega arith, refl, ground (arith, pow_sign len, pow_pos len)))
]

int_fold-digits_of :
    (n v : ℕ)
    → v < 2 ^ 64
    → All (λ x. x < 128) (digits_of n v)
    → int_fold (v / 2 ^ (8 * n)) (digits_of n v) ≡ v
unfolding int_fold digits_of sign_extend
int_fold-digits_of zero v h plain = omega arith
int_fold-digits_of (suc n) v h plain =
    let word : (v / 2 ^ (8 * suc n) * 2 ^ 8 + v / 2 ^ (8 * n) % 256) % 2 ^ 64 ≡ v / 2 ^ (8 * n) =
      omega (
        arith,
        ap (λ p. v / p) (pow_byte n),
        div-div-eq-div-mul v (2 ^ (8 * n)) 256,
        div-le_self v (2 ^ (8 * n)),
      ) in
    let (low, rest) = plain in ground (arith, word, int_fold-digits_of n v h rest)

int_bytes-Ends : (v : ℕ) → Ends 8 v (int_bytes v)
unfolding int_bytes digits_of
int_bytes-Ends v = int_loop-Ends 8 0 8 v refl (inl refl)

Exceeds-le : (v : ℕ) → Exceeds 8 v → 2 ^ 63 ≤ v
Exceeds-le v (inl e) = absurd (omega arith)
Exceeds-le v (inr (m, e, h)) = let e' : m ≡ 7 = omega arith in rw e' at h

magnitude-le : (word : ℕ) → word < 2 ^ 64 → magnitude word ≤ 2 ^ 63
unfolding magnitude
magnitude-le word h = ground arith

magnitude-eq : (word : ℕ) → word < 2 ^ 64 → magnitude word ≡ 2 ^ 63 → word ≡ 2 ^ 63
unfolding magnitude
magnitude-eq word h e = ground arith

magnitude_least : (word : ℕ) → word ≡ 2 ^ 63 → magnitude word ≡ 2 ^ 63
unfolding magnitude
magnitude_least word e = ground arith

pow_le : (n : ℕ) → n < 8 → 2 ^ (8 * n) ≤ 2 ^ 56
pow_le n h = pow-le-pow_right {n = 2} (omega arith) {i = 8 * n} {j = 56} (omega arith)

-- An `int64_t` is written within the 8 bytes of `data_buffer` unless it is the least one: exactly
-- for -2 ^ 63 the loop writes before the buffer.
pub int_content-none_iff : (word : ℕ) → word < 2 ^ 64 → (int_content word ≡ none) ↔ (word ≡ 2 ^ 63)
unfolding int_content
int_content-none_iff word h = elim (int_bytes-Ends (magnitude word)) [
  | inl (n, room, e, small) ↦ (
    λ e'. ground (arith, e),
    λ e'. absurd (omega (arith, magnitude_least word e', pow_le n room)),
  )
  | inr (e, q) ↦ (
    λ _. magnitude-eq word h (omega (arith, magnitude-le word h, Exceeds-le _ q)),
    λ _. rw (e, int_content) refl,
  )
]

head_byte : (n v : ℕ) → v < 2 ^ (8 * n) * 128 → v / 2 ^ (8 * n) < 128
head_byte n v h = (div-lt_iff_lt-mul (pow_pos n)).1 (omega arith)

signed_byte :
    (b : ℕ) (negative : Bool)
    → b < 128
    → (bit_and (if negative then bit_or b 0x80 else b) 0x7f ≡ b)
      × ((bit_and (if negative then bit_or b 0x80 else b) 0x80 == 0x80) ≡ negative)
signed_byte b true h =
    ground (
      arith,
      bit_or_0x80 b (omega arith),
      bit_and_0x7f (bit_or b 0x80),
      bit_and_0x80 (bit_or b 0x80),
    )
signed_byte b false h = ground (arith, bit_and_0x7f b, bit_and_0x80 b)

negate-magnitude : (word : ℕ) → word < 2 ^ 64 → negate (leb (2 ^ 63) word) (magnitude word) ≡ word
unfolding negate magnitude
negate-magnitude word h = ground arith

opaque_to_int-signed :
    (b : ℕ) (negative : Bool) (bytes : List ℕ)
    → b < 128
    → length bytes < 8
    → opaque_to_int ((if negative then bit_or b 0x80 else b) ∷ bytes)
      ≡ some (negate negative (int_fold b bytes))
unfolding opaque_to_int
opaque_to_int-signed b negative bytes h room =
    let (low, sign) = signed_byte b negative h in ground (arith, low, sign)

written_bytes :
    (word n : ℕ) (bytes : List ℕ)
    → int_bytes (magnitude word) ≡ some (digits_of (suc n) (magnitude word))
    → magnitude word < 2 ^ (8 * n) * 128
    → int_content word ≡ some bytes
    → let b = magnitude word / 2 ^ (8 * n) in
      bytes ≡ (if leb (2 ^ 63) word then bit_or b 0x80 else b) ∷ digits_of n (magnitude word)
unfolding int_content digits_of mark_sign
written_bytes word n bytes e small written =
    let top : magnitude word / 2 ^ (8 * n) % 256 ≡ magnitude word / 2 ^ (8 * n) =
      omega (arith, head_byte n (magnitude word) small) in
    ground (arith, e, top)

-- An integer that was written is read back as it was, as long as every byte of its content but the
-- first is below 128.
pub opaque_to_int-int_content :
    (word : ℕ) (bytes : List ℕ)
    → word < 2 ^ 64
    → int_content word ≡ some bytes
    → All (λ x. x < 128) (drop 1 bytes)
    → opaque_to_int bytes ≡ some word
opaque_to_int-int_content word bytes h written plain = elim (int_bytes-Ends (magnitude word)) [
  | inl (n, room, e, small) ↦
      let v = magnitude word in
      let same = written_bytes word n bytes e small written in
      rw same (
        opaque_to_int-signed (v / 2 ^ (8 * n)) (leb (2 ^ 63) word) (digits_of n v)
          (head_byte n v small) (omega (arith, length-digits_of n v))
        ∙ rw (int_fold-digits_of n v (omega (arith, magnitude-le word h)) (rw same at plain))
            (ap some (negate-magnitude word h)))
  | inr (e, q) ↦ absurd (
      ground (
        arith,
        (int_content-none_iff word h).1
            (magnitude-eq word h (omega (arith, magnitude-le word h, Exceeds-le _ q))),
      ))
]
