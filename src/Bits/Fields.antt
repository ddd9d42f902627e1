-- ===== src/Bits/Fields.antt =====
-- The operations on numbers made of two fields: a low part of `w` bits and the rest.
use aflgo.Common.{
  ℕ, zero, suc, ◌+◌, ◌*◌, ◌/◌, ◌%◌, ◌^◌, ◌<◌, min, max, bit_and, bit_or, ◌≡◌, refl, ap, arith,
}
use native.Mathlib.Nat.{pow-suc}
use aflgo.Bits.Step.{bit_and_halves, bit_or_halves}

-- One more bit in the low part.
split_bit : (w a b : ℕ) → (a + 2 ^ suc w * b) / 2 ≡ a / 2 + 2 ^ w * b
split_bit w a b = omega (arith, ap (λ (t : ℕ). t * b) (pow-suc 2 w))

split_low : (w a b : ℕ) → (a + 2 ^ suc w * b) % 2 ≡ a % 2
split_low w a b = omega (arith, ap (λ (t : ℕ). t * b) (pow-suc 2 w))

module _ (op digit : ℕ → ℕ → ℕ)
    (step : (a b : ℕ) → op a b ≡ digit (a % 2) (b % 2) + 2 * op (a / 2) (b / 2))
    (zeros : op 0 0 ≡ 0) where
  fields :
      (w a b c d : ℕ)
      → a < 2 ^ w
      → c < 2 ^ w
      → op (a + 2 ^ w * b) (c + 2 ^ w * d) ≡ op a c + 2 ^ w * op b d
  fields zero a b c d p q = ground (arith, zeros)
  fields (suc w) a b c d p q = ground (
    arith,
    step (a + 2 ^ suc w * b) (c + 2 ^ suc w * d),
    step a c,
    split_bit w a b,
    split_bit w c d,
    split_low w a b,
    split_low w c d,
    fields w (a / 2) b (c / 2) d (omega (arith, pow-suc 2 w)) (omega (arith, pow-suc 2 w)),
    ap (λ (t : ℕ). t * op b d) (pow-suc 2 w),
  )

pub bit_and_fields :
    (w a b c d : ℕ)
    → a < 2 ^ w
    → c < 2 ^ w
    → bit_and (a + 2 ^ w * b) (c + 2 ^ w * d) ≡ bit_and a c + 2 ^ w * bit_and b d
bit_and_fields = fields bit_and min bit_and_halves refl

pub bit_or_fields :
    (w a b c d : ℕ)
    → a < 2 ^ w
    → c < 2 ^ w
    → bit_or (a + 2 ^ w * b) (c + 2 ^ w * d) ≡ bit_or a c + 2 ^ w * bit_or b d
bit_or_fields = fields bit_or max bit_or_halves refl
