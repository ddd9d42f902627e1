-- ===== src/Bits/Powers.antt =====
-- The order of the powers of two, and of the powers of 256.
use aflgo.Bits.Step.{bit_xor_halves}
use aflgo.Common.{ℕ, zero, suc, ◌*◌, ◌/◌, ◌^◌, ◌<◌, ◌≤◌, ◌≡◌, refl, sym, ap, ◌∙◌, arith, bit_xor}
use native.Mathlib.Nat.{pow-suc}

pub pow_pos : (k : ℕ) → 0 < 2 ^ k
pow_pos zero = omega arith
pow_pos (suc k) = omega (arith, pow-suc 2 k, pow_pos k)

pub pow_gap : (k e : ℕ) → 2 ^ k < 2 ^ e → 2 ^ suc k ≤ 2 ^ e
pow_gap zero zero h = absurd (omega arith)
pow_gap zero (suc e) h = omega (arith, pow-suc 2 0, pow-suc 2 e, pow_pos e)
pow_gap (suc k) zero h = absurd (omega (arith, pow_pos (suc k)))
pow_gap (suc k) (suc e) h = omega (
  arith,
  pow-suc 2 (suc k),
  pow-suc 2 k,
  pow-suc 2 e,
  pow_gap k e (omega (arith, pow-suc 2 k, pow-suc 2 e)),
)

-- The exponents are in the order of the powers.
pub pow_order : (k e : ℕ) → 2 ^ k < 2 ^ e → k < e
pow_order k zero h = absurd (omega (arith, pow_pos k))
pow_order zero (suc e) h = omega arith
pow_order (suc k) (suc e) h = omega (arith, pow_order k e (omega (arith, pow-suc 2 k, pow-suc 2 e)))

pow_eight : (n : ℕ) → 2 ^ suc (suc (suc (suc (suc (suc (suc (suc n))))))) ≡ 256 * 2 ^ n
pow_eight n = simp pow-suc (omega arith)

pub pow-bytes : (k : ℕ) → 256 ^ k ≡ 2 ^ (k * 8)
pow-bytes zero = refl
pow-bytes (suc k) =
    pow-suc 256 k
    ∙ omega (arith, pow-bytes k)
    ∙ sym (pow_eight (k * 8))
    ∙ ap (λ n. 2 ^ n) (omega arith)

bit_xor_zeros : (a b : ℕ) → a ≡ 0 → b ≡ 0 → bit_xor a b ≡ 0
bit_xor_zeros a b h g = rw (h, g) refl

-- What two words of `k` bits differ by has `k` bits.
bit_xor-bits-lt : (k a b : ℕ) → a < 2 ^ k → b < 2 ^ k → bit_xor a b < 2 ^ k
bit_xor-bits-lt zero a b h g =
    omega (arith, bit_xor_zeros a b (omega (arith, h)) (omega (arith, g)))
bit_xor-bits-lt (suc k) a b h g = omega (
  arith,
  pow-suc 2 k,
  bit_xor_halves a b,
  bit_xor-bits-lt k (a / 2) (b / 2) (omega (arith, pow-suc 2 k)) (omega (arith, pow-suc 2 k)),
)

pub bit_xor-lt : (k a b : ℕ) → a < 256 ^ k → b < 256 ^ k → bit_xor a b < 256 ^ k
bit_xor-lt k a b h g = omega (
  arith,
  pow-bytes k,
  bit_xor-bits-lt (k * 8) a b (omega (arith, pow-bytes k)) (omega (arith, pow-bytes k)),
)
