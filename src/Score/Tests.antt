-- ===== src/Score/Tests.antt =====
-- Witness of the theorem on scores, with whole numbers for doubles.
use native.Mathlib.Nat.{mul-le-mul_right, mul-le-mul_left, le-div_iff_mul-le, div-mul-le_self}
use aflgo.Common.{
  ltb→lt, ◌<◌, le→leb, leb→le, ℕ, ◌+◌, ◌-◌, ◌*◌, ◌/◌, ◌≤◌, ◌==◌, ltb, leb, refl, arith,
}
use aflgo.Score.{Floats, Seed, Totals, san_lin, max_score, calculate_score}
use aflgo.Score.Laws.{IsMonotone, calculate_score-le}

-- Differences stop at 0, and powers are products.
abbrev whole : Floats ℕ
whole = record {
  lit = λ a b. a / b;
  of_nat = λ n. n;
  truncate = λ n. n;
  add = λ a b. a + b;
  sub = λ a b. a - b;
  mul = λ a b. a * b;
  div = λ a b. a / b;
  pow = λ a b. a * b;
  log = λ a. a;
  log2 = λ a. a;
  lt = ltb;
  le = leb;
  eq = λ a b. a == b;
}

quotients_le : (a b c : ℕ) → 0 < c → a ≤ b → a / c ≤ b / c
quotients_le a b c h g = (le-div_iff_mul-le h).1 (omega (arith, div-mul-le_self a c))

whole-IsMonotone : IsMonotone whole
whole-IsMonotone = record {
  le_self = λ a. ground arith;
  add_le = λ a b c h. ground arith;
  sub_le = λ a b c h. ground arith;
  le_sub = λ a b c h. ground arith;
  sub_not_negative = λ a b h. ground arith;
  mul_le = λ a b c h g. le→leb (a * c) (b * c) (mul-le-mul_right c (leb→le a b g));
  le_mul = λ a b c h g. le→leb (c * a) (c * b) (mul-le-mul_left c (leb→le a b g));
  div_le = λ a b c h g. le→leb (a / c) (b / c) (quotients_le a b c (ltb→lt 0 c h) (leb→le a b g));
  div_not_negative = λ a c h g. ground arith;
  pow_le = λ a b h. ground arith;
  truncate_le = λ a b h. ground arith;
  of_nat_not_negative = λ n. ground arith;
  log_not_negative = refl;
}

abbrev totals : Totals ℕ
totals = record {
  total_cal_us = 100;
  total_cal_cycles = 1;
  total_bitmap_size = 10;
  total_bitmap_entries = 1;
  max_distance = 9;
  min_distance = 1;
  cooling_schedule = san_lin;
  seconds = 600;
  t_x = 1;
}

abbrev seed : Seed ℕ
seed = record { exec_us = 100; bitmap_size = 10; handicap = 0; depth = 1; distance = 5 }

calculate_score-le_example :
    ((calculate_score whole totals (record seed { distance = 4 })).0
      ≤ (calculate_score whole totals (record seed { distance = 2 })).0)
    × ((calculate_score whole totals (record seed { distance = 2 })).0 ≤ max_score)
calculate_score-le_example =
    calculate_score-le whole whole-IsMonotone totals seed 2 4 (λ apart. refl) refl (refl, refl)
      (refl, refl) refl
