-- ===== src/Doubles.antt =====
-- The C type `double` as afl-2.57b/afl-fuzz.c uses it for distances. Its values and operations
-- are a parameter; `IsOrder` states what IEEE 754 says of `>` on numbers that are no NaN.
use aflgo.Common.{ℕ, Bool, true, false, ◌≡◌, ◌⊎◌}

pub record Doubles (D : Type 0) : Type 0 where
  pub zero : D
  pub minus_one : D
  -- (double) a / (double) b
  pub ratio : ℕ → ℕ → D
  -- a > b
  pub gt : D → D → Bool

pub record IsOrder {D : Type 0} (d : Doubles D) : Type 0 where
  pub irreflexive : (a : D) → d.gt a a ≡ false
  pub transitive : (a b c : D) → d.gt a b ≡ true → d.gt b c ≡ true → d.gt a c ≡ true
  pub total : (a b c : D) → d.gt a b ≡ true → (d.gt a c ≡ true) ⊎ (d.gt c b ≡ true)
