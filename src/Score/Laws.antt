-- ===== src/Score/Laws.antt =====
-- Entries that are closer to the targets get at least as much energy.
use aflgo.Common.{ℕ, ◌≤◌, ◌≡◌, arith, ltb, if◌then◌else◌, true, false, Bool-cases, inl, inr}
use aflgo.Score.{
  Floats, Seed, Totals, max_score, scale, temperature, normalized, factor_at, power_factor,
  base_score, calculate_score,
}

-- Rounding is monotone, so each operation of IEEE 754 is, on numbers that are no NaN; so are `pow` with base 2 and the
-- conversion to an integer.
pub record IsMonotone {D : Type 0} (f : Floats D) : Type 0 where
  pub le_self : (a : D) → f.le a a ≡ true
  pub add_le : (a b c : D) → f.le a b ≡ true → f.le (f.add a c) (f.add b c) ≡ true
  pub sub_le : (a b c : D) → f.le a b ≡ true → f.le (f.sub a c) (f.sub b c) ≡ true
  pub le_sub : (a b c : D) → f.le a b ≡ true → f.le (f.sub c b) (f.sub c a) ≡ true
  pub sub_not_negative : (a b : D) → f.le a b ≡ true → f.le (f.lit 0 1) (f.sub b a) ≡ true
  pub mul_le :
      (a b c : D)
      → f.le (f.lit 0 1) c ≡ true
      → f.le a b ≡ true
      → f.le (f.mul a c) (f.mul b c) ≡ true
  pub le_mul :
      (a b c : D)
      → f.le (f.lit 0 1) c ≡ true
      → f.le a b ≡ true
      → f.le (f.mul c a) (f.mul c b) ≡ true
  pub div_le :
      (a b c : D)
      → f.lt (f.lit 0 1) c ≡ true
      → f.le a b ≡ true
      → f.le (f.div a c) (f.div b c) ≡ true
  pub div_not_negative :
      (a c : D)
      → f.lt (f.lit 0 1) c ≡ true
      → f.le (f.lit 0 1) a ≡ true
      → f.le (f.lit 0 1) (f.div a c) ≡ true
  pub pow_le : (a b : D) → f.le a b ≡ true → f.le (f.pow (f.lit 2 1) a) (f.pow (f.lit 2 1) b) ≡ true
  pub truncate_le : (a b : D) → f.le a b ≡ true → f.truncate a ≤ f.truncate b
  pub of_nat_not_negative : (n : ℕ) → f.le (f.lit 0 1) (f.of_nat n) ≡ true
  pub log_not_negative : f.le (f.lit 0 1) (f.mul (f.lit 2 1) (f.log2 (f.of_nat 32))) ≡ true

module _ {D : Type 0} (f : Floats D) (mono : IsMonotone f) where
  factor_at-le :
      (t a b : D)
      → f.le (f.lit 0 1) (f.sub (f.lit 1 1) t) ≡ true
      → f.le a b ≡ true
      → f.le (factor_at f t b) (factor_at f t a) ≡ true
  factor_at-le t a b cool h = mono.pow_le _ _ (
      mono.le_mul _ _ _ mono.log_not_negative (
        mono.sub_le _ _ _
          (mono.add_le _ _ _ (mono.mul_le _ _ _ cool (mono.le_sub a b (f.lit 1 1) h)))))

  normalized-le :
      (g : Totals D) (a b : D)
      → (f.eq g.max_distance g.min_distance ≡ false
          → f.lt (f.lit 0 1) (f.sub g.max_distance g.min_distance) ≡ true)
      → f.le a b ≡ true
      → f.le (normalized f g a) (normalized f g b) ≡ true
  normalized-le g a b wide h = elim (Bool-cases (f.eq g.max_distance g.min_distance)) [
    | inl narrow ↦ rw narrow (mono.le_self (f.lit 0 1))
    | inr apart ↦ rw apart (mono.div_le _ _ _ (wide apart) (mono.sub_le a b g.min_distance h))
  ]

  normalized_not_negative :
      (g : Totals D) (a : D)
      → (f.eq g.max_distance g.min_distance ≡ false
          → f.lt (f.lit 0 1) (f.sub g.max_distance g.min_distance) ≡ true)
      → f.le g.min_distance a ≡ true
      → f.le (f.lit 0 1) (normalized f g a) ≡ true
  normalized_not_negative g a wide h = elim (Bool-cases (f.eq g.max_distance g.min_distance)) [
    | inl narrow ↦ rw narrow (mono.le_self (f.lit 0 1))
    | inr apart ↦
        rw apart (mono.div_not_negative _ _ (wide apart) (mono.sub_not_negative g.min_distance a h))
  ]

  power_factor-le :
      (g : Totals D) (a b : D)
      → (f.eq g.max_distance g.min_distance ≡ false
          → f.lt (f.lit 0 1) (f.sub g.max_distance g.min_distance) ≡ true)
      → f.le (f.lit 0 1) (f.sub (f.lit 1 1) (temperature f g)) ≡ true
      → (f.lt (f.lit 0 1) a ≡ true) × (f.lt (f.lit 0 1) b ≡ true)
      → (f.le g.min_distance a ≡ true) × (f.le g.min_distance b ≡ true)
      → f.le a b ≡ true
      → f.le (power_factor f g b) (power_factor f g a) ≡ true
  power_factor-le g a b wide cool known inside h =
      rw
        (
          known.0,
          known.1,
          normalized_not_negative g a wide inside.0,
          normalized_not_negative g b wide inside.1,
          power_factor,
        )
        (factor_at-le (temperature f g) (normalized f g a) (normalized f g b) cool
          (normalized-le g a b wide h))

  capped_le :
      (x y : ℕ)
      → x ≤ y
      → (if ltb max_score x then max_score else x) ≤ (if ltb max_score y then max_score else y)
  capped_le x y h = ground arith

  -- If the operations on doubles are monotone, the temperature is at most 1 and the largest distance is above the smallest
  -- unless they are equal: of two entries that differ in their distances alone, both positive and not below the smallest
  -- distance, the one that is closer to the targets gets at least as high a score, and no score is above 1600.
  pub calculate_score-le :
      (g : Totals D) (q : Seed D) (a b : D)
      → (f.eq g.max_distance g.min_distance ≡ false
          → f.lt (f.lit 0 1) (f.sub g.max_distance g.min_distance) ≡ true)
      → f.le (f.lit 0 1) (f.sub (f.lit 1 1) (temperature f g)) ≡ true
      → (f.lt (f.lit 0 1) a ≡ true) × (f.lt (f.lit 0 1) b ≡ true)
      → (f.le g.min_distance a ≡ true) × (f.le g.min_distance b ≡ true)
      → f.le a b ≡ true
      → ((calculate_score f g (record q { distance = b })).0
          ≤ (calculate_score f g (record q { distance = a })).0)
        × ((calculate_score f g (record q { distance = a })).0 ≤ max_score)
  unfolding calculate_score
  calculate_score-le g q a b wide cool known inside h = (
    capped_le (scale f (base_score f g q).0 (power_factor f g b))
        (scale f (base_score f g q).0 (power_factor f g a))
        (mono.truncate_le _ _ (
          mono.le_mul _ _ _ (mono.of_nat_not_negative (base_score f g q).0)
            (power_factor-le g a b wide cool known inside h))),
    ground arith,
  )
