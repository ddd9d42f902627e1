-- ===== src/Bits/Step.antt =====
-- One binary digit of `&`, `|` and `^`, from the recursion on digits that the native operations
-- stand for.
use Prim.Native.Nat.{digits, bitwise, bit_and-bitwise, bit_or-bitwise, bit_xor-bitwise, differ}
use aflgo.Common.{
  ℕ, zero, suc, ◌+◌, ◌*◌, ◌/◌, ◌%◌, ◌≤◌, min, max, bit_and, bit_or, bit_xor, ◌≡◌, refl, sym, ap,
  ◌∙◌, ◌-◌, arith,
}

-- A number raised `k` times by one.
abbrev above : ℕ → ℕ → ℕ
above zero n = n
above (suc k) n = suc (above k n)

above-eq : (k n : ℕ) → above k n ≡ k + n
above-eq zero n = omega arith
above-eq (suc k) n = omega (arith, above-eq k n)

module _ (keep : ℕ → ℕ) (op : ℕ → ℕ → ℕ) where
  -- Fuel beyond the first operand is not used: a step more changes nothing, and so do many.
  one_more : (b a fuel : ℕ) → a ≤ fuel → digits keep op (suc fuel) a b ≡ digits keep op fuel a b
  one_more b zero zero h = refl
  one_more b zero (suc fuel) h = refl
  one_more b (suc a) zero h = absurd (omega arith)
  one_more b (suc a) (suc fuel) h =
      ap (λ r. r * 2 + op (suc a % 2) (b % 2)) (one_more (b / 2) (suc a / 2) fuel (omega arith))

  many_more :
      (k b a fuel : ℕ) → a ≤ fuel → digits keep op (above k fuel) a b ≡ digits keep op fuel a b
  many_more zero b a fuel h = refl
  many_more (suc k) b a fuel h =
      one_more b a (above k fuel) (omega (arith, above-eq k fuel)) ∙ many_more k b a fuel h

  lowest_digit :
      (a b : ℕ)
      → bitwise keep op (suc a) b ≡ bitwise keep op (suc a / 2) (b / 2) * 2 + op (suc a % 2) (b % 2)
  lowest_digit a b =
      let half : ℕ = suc a / 2 in
      let spare : above (a - half) half ≡ a = omega (arith, above-eq (a - half) half) in
      ap (λ fuel. digits keep op fuel half (b / 2) * 2 + op (suc a % 2) (b % 2)) (sym spare)
      ∙ ap (λ r. r * 2 + op (suc a % 2) (b % 2))
          (many_more (a - half) (b / 2) half half (le_self half))
    where
      le_self : (n : ℕ) → n ≤ n
      le_self n = omega arith

turned : (h d : ℕ) → h * 2 + d ≡ d + 2 * h
turned h d = omega arith

pub bit_and_halves : (m n : ℕ) → bit_and m n ≡ min (m % 2) (n % 2) + 2 * bit_and (m / 2) (n / 2)
bit_and_halves zero n = simp bit_and-bitwise (omega arith)
bit_and_halves (suc m) n = simp bit_and-bitwise (lowest_digit (λ y. 0) min m n ∙ turned _ _)

pub bit_or_halves : (m n : ℕ) → bit_or m n ≡ max (m % 2) (n % 2) + 2 * bit_or (m / 2) (n / 2)
bit_or_halves zero n = simp bit_or-bitwise (omega arith)
bit_or_halves (suc m) n = simp bit_or-bitwise (lowest_digit (λ y. y) max m n ∙ turned _ _)

differ_digits : (x y : ℕ) → x ≤ 1 → y ≤ 1 → differ x y ≡ (x + y) % 2
differ_digits zero y p q = omega arith
differ_digits (suc zero) zero p q = refl
differ_digits (suc zero) (suc zero) p q = refl
differ_digits (suc zero) (suc (suc y)) p q = absurd (omega arith)
differ_digits (suc (suc x)) y p q = absurd (omega arith)

differ_sum : (a b : ℕ) → differ (a % 2) (b % 2) ≡ (a + b) % 2
differ_sum a b = omega (arith, differ_digits (a % 2) (b % 2) (omega arith) (omega arith))

pub bit_xor_halves : (a b : ℕ) → bit_xor a b ≡ bit_xor (a / 2) (b / 2) * 2 + (a + b) % 2
bit_xor_halves zero b = simp bit_xor-bitwise (omega arith)
bit_xor_halves (suc a) b = simp (bit_xor-bitwise, ← differ_sum) (lowest_digit (λ y. y) differ a b)
