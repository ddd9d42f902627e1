-- ===== src/Bits/Test.antt =====
-- One bit of a number, and the value of each operation bit by bit.
use aflgo.Common.{
  ℕ, zero, suc, ◌+◌, ◌-◌, ◌*◌, ◌/◌, ◌%◌, ◌^◌, ◌≤◌, ◌<◌, min, max, bit_and, bit_or, bit_xor, ◌≡◌,
  refl, ◌∙◌, ap, arith, ◌≢◌,
}
use native.Mathlib.Nat.{pow-suc}
use aflgo.Bits.Step.{bit_and_halves, bit_or_halves, bit_xor_halves}

-- Bit `k` of `a`, 0 or 1.
abbrev pub test : ℕ → ℕ → ℕ
test zero a = a % 2
test (suc k) a = test k (a / 2)

pub test-le-one : (k a : ℕ) → test k a ≤ 1
test-le-one zero a = omega arith
test-le-one (suc k) a = test-le-one k (a / 2)

pub test-zero : (k : ℕ) → test k 0 ≡ 0
test-zero zero = refl
test-zero (suc k) = test-zero k

pub test-bit_and : (k a b : ℕ) → test k (bit_and a b) ≡ min (test k a) (test k b)
test-bit_and zero a b = omega (arith, bit_and_halves a b)
test-bit_and (suc k) a b =
    ap (test k) (omega (arith, bit_and_halves a b)) ∙ test-bit_and k (a / 2) (b / 2)

pub test-bit_or : (k a b : ℕ) → test k (bit_or a b) ≡ max (test k a) (test k b)
test-bit_or zero a b = omega (arith, bit_or_halves a b)
test-bit_or (suc k) a b =
    ap (test k) (omega (arith, bit_or_halves a b)) ∙ test-bit_or k (a / 2) (b / 2)

pub test-bit_xor : (k a b : ℕ) → test k (bit_xor a b) ≡ (test k a + test k b) % 2
test-bit_xor zero a b = omega (arith, bit_xor_halves a b)
test-bit_xor (suc k) a b =
    ap (test k) (omega (arith, bit_xor_halves a b)) ∙ test-bit_xor k (a / 2) (b / 2)

-- Numbers with the same bits are equal.
test_ext_fuel : (n a b : ℕ) → a ≤ n → b ≤ n → ((k : ℕ) → test k a ≡ test k b) → a ≡ b
test_ext_fuel zero a b p q h = omega arith
test_ext_fuel (suc n) a b p q h =
    omega (arith, h 0, test_ext_fuel n (a / 2) (b / 2) (omega arith) (omega arith) (λ k. h (suc k)))

pub test_ext : (a b : ℕ) → ((k : ℕ) → test k a ≡ test k b) → a ≡ b
test_ext a b h = test_ext_fuel (a + b) a b (omega arith) (omega arith) h

-- The bits of a power of two.
pub test-pow_self : (k : ℕ) → test k (2 ^ k) ≡ 1
test-pow_self zero = refl
test-pow_self (suc k) = ap (test k) (omega (arith, pow-suc 2 k)) ∙ test-pow_self k

pub test-pow_ne : (j k : ℕ) → j ≢ k → test j (2 ^ k) ≡ 0
test-pow_ne zero zero h = absurd (h refl)
test-pow_ne zero (suc k) h = omega (arith, pow-suc 2 k)
test-pow_ne (suc j) zero h = ap (test j) (omega arith) ∙ test-zero j
test-pow_ne (suc j) (suc k) h =
    ap (test j) (omega (arith, pow-suc 2 k)) ∙ test-pow_ne j k (λ e. h (ap suc e))

pub bit_and-zero : (a : ℕ) → bit_and a 0 ≡ 0
bit_and-zero a = test_ext (bit_and a 0) 0 λ k. omega (arith, test-bit_and k a 0, test-zero k)

-- A mask of one bit keeps that bit in its place.
pub bit_and-pow : (k a : ℕ) → bit_and a (2 ^ k) ≡ test k a * 2 ^ k
bit_and-pow zero a = omega (arith, bit_and_halves a 1, bit_and-zero (a / 2))
bit_and-pow (suc k) a = omega (
  arith,
  bit_and_halves a (2 ^ suc k),
  pow-suc 2 k,
  ap (λ (t : ℕ). bit_and (a / 2) t) (halved k),
  bit_and-pow k (a / 2),
  ap (λ (t : ℕ). test k (a / 2) * t) (pow-suc 2 k),
)
  where
    halved : (k : ℕ) → 2 ^ suc k / 2 ≡ 2 ^ k
    halved k = omega (arith, pow-suc 2 k)

-- The low bits of a complement within `w` bits.
pub test-complement : (w k a : ℕ) → k < w → a < 2 ^ w → test k (2 ^ w - 1 - a) + test k a ≡ 1
test-complement zero k a h p = absurd (omega arith)
test-complement (suc w) zero a h p = omega (arith, pow-suc 2 w)
test-complement (suc w) (suc k) a h p = omega (
  arith,
  test-complement w k (a / 2) (omega arith) (omega (arith, pow-suc 2 w)),
  ap (test k) (halved w a p),
)
  where
    halved : (w a : ℕ) → a < 2 ^ suc w → (2 ^ suc w - 1 - a) / 2 ≡ 2 ^ w - 1 - a / 2
    halved w a p = omega (arith, pow-suc 2 w)

pub test_beyond : (w k a : ℕ) → a < 2 ^ w → w ≤ k → test k a ≡ 0
test_beyond zero k a p h = ap (test k) (omega arith) ∙ test-zero k
test_beyond (suc w) zero a p h = absurd (omega arith)
test_beyond (suc w) (suc k) a p h =
    test_beyond w k (a / 2) (omega (arith, pow-suc 2 w)) (omega arith)

-- Flipping the bits of a mask twice changes nothing.
pub bit_xor_twice : (a m : ℕ) → bit_xor (bit_xor a m) m ≡ a
bit_xor_twice a m =
    test_ext (bit_xor (bit_xor a m) m) a
      λ k. omega (arith, test-bit_xor k (bit_xor a m) m, test-bit_xor k a m, test-le-one k a)

bit_and-le_fuel : (n a b : ℕ) → b ≤ n → bit_and a b ≤ b
bit_and-le_fuel n a zero h = omega (arith, bit_and-zero a)
bit_and-le_fuel zero a (suc b) h = absurd (omega arith)
bit_and-le_fuel (suc n) a (suc b) h =
    omega (arith, bit_and_halves a (suc b), bit_and-le_fuel n (a / 2) (suc b / 2) (omega arith))

pub bit_and_comm : (a b : ℕ) → bit_and a b ≡ bit_and b a
bit_and_comm a b =
    test_ext (bit_and a b) (bit_and b a) λ k. omega (arith, test-bit_and k a b, test-bit_and k b a)

pub bit_and-le : (a b : ℕ) → bit_and a b ≤ b
bit_and-le a b = bit_and-le_fuel b a b (omega arith)

pub bit_and-le_left : (a b : ℕ) → bit_and a b ≤ a
bit_and-le_left a b = omega (arith, bit_and_comm a b, bit_and-le b a)

pub bit_or-zero : (a : ℕ) → bit_or a 0 ≡ a
bit_or-zero a = test_ext (bit_or a 0) a λ k. omega (arith, test-bit_or k a 0, test-zero k)

pub zero-bit_or : (a : ℕ) → bit_or 0 a ≡ a
zero-bit_or a = test_ext (bit_or 0 a) a λ k. omega (arith, test-bit_or k 0 a, test-zero k)
