-- ===== src/Prelude/Bits.antt =====
-- Masks of one byte, read as quotients and remainders. Each law is checked at all 256 values.
use Prim.Native.Nat.{ℕ, zero, suc, ◌+◌, ◌*◌, ◌/◌, ◌%◌, ◌<◌, bit_and, bit_or}
use mathlib.Core.Path.{◌≡◌, refl}
use mathlib.Core.Bool.{Bool, true, false}
use native.Mathlib.Omega.{arith}
use galileom2m.Prelude.Tests.{◌==◌, if◌then◌else◌}

-- Two functions have the same values below a bound.
unfoldable pub same_below : (ℕ → ℕ) → (ℕ → ℕ) → ℕ → Bool
same_below f g zero = true
same_below f g (suc bound) = if f bound == g bound then same_below f g bound else false

pub same_at : (f g : ℕ → ℕ) (bound b : ℕ) → b < bound → same_below f g bound ≡ true → f b ≡ g b
unfolding same_below
same_at f g zero b inside same = absurd (omega arith)
same_at f g (suc bound) b inside same =
    let earlier : b < bound → f b ≡ g b = λ below. same_at f g bound b below (ground arith) in
    ground arith

module _ (b : ℕ) (h : b < 256) where
  pub bit_and_zero : bit_and b 0 ≡ 0
  unfolding same_below
  bit_and_zero = same_at (λ x. bit_and x 0) (λ x. 0) 256 b h refl

  pub bit_and_one : bit_and b 1 ≡ b % 2
  unfolding same_below
  bit_and_one = same_at (λ x. bit_and x 1) (λ x. x % 2) 256 b h refl

  pub bit_and_0xc0 : bit_and b 0xc0 ≡ b / 64 * 64
  unfolding same_below
  bit_and_0xc0 = same_at (λ x. bit_and x 0xc0) (λ x. x / 64 * 64) 256 b h refl

  pub bit_and_0x20 : bit_and b 0x20 ≡ b / 32 % 2 * 32
  unfolding same_below
  bit_and_0x20 = same_at (λ x. bit_and x 0x20) (λ x. x / 32 % 2 * 32) 256 b h refl

  pub bit_and_0x18 : bit_and b 0x18 ≡ b / 8 % 4 * 8
  unfolding same_below
  bit_and_0x18 = same_at (λ x. bit_and x 0x18) (λ x. x / 8 % 4 * 8) 256 b h refl

  pub bit_and_0x07 : bit_and b 0x07 ≡ b % 8
  unfolding same_below
  bit_and_0x07 = same_at (λ x. bit_and x 0x07) (λ x. x % 8) 256 b h refl

  pub bit_and_0x7f : bit_and b 0x7f ≡ b % 128
  unfolding same_below
  bit_and_0x7f = same_at (λ x. bit_and x 0x7f) (λ x. x % 128) 256 b h refl

  pub bit_and_0x80 : bit_and b 0x80 ≡ b / 128 * 128
  unfolding same_below
  bit_and_0x80 = same_at (λ x. bit_and x 0x80) (λ x. x / 128 * 128) 256 b h refl

  pub bit_or_0x80 : bit_or b 0x80 ≡ b % 128 + 128
  unfolding same_below
  bit_or_0x80 = same_at (λ x. bit_or x 0x80) (λ x. x % 128 + 128) 256 b h refl
