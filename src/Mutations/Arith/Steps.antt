-- ===== src/Mutations/Arith/Steps.antt =====
-- The steps that `could_be_arith` recognises.
use aflgo.Common.{
  ℕ, ◌+◌, ◌-◌, ◌/◌, ◌%◌, ◌^◌, ◌<◌, ◌≤◌, ◌≡◌, ◌↔◌, ◌⊎◌, refl, arith, ◌==◌, leb, if◌then◌else◌, Bool,
  true, false, ◌||◌, Bool-cases, inl, inr,
}
use aflgo.Mutations.Arith.{could_be_arith, diffs_of, in_reach, arith_max}

-- One value is the other plus at most arith_max, in `width` bits.
pub record IsNear (width a b : ℕ) : Type 0 where
  pub amount : ℕ
  pub small : amount ≤ arith_max
  pub reached : (b ≡ (a + amount) % 2 ^ width) ⊎ (a ≡ (b + amount) % 2 ^ width)

in_reach-byte : (a b : ℕ) → a < 2 ^ 8 → b < 2 ^ 8 → IsNear 8 a b → in_reach 8 a b ≡ true
in_reach-byte a b p q n = elim n.reached [
  | inl e ↦ ground (arith, n.small, e)
  | inr e ↦ ground (arith, n.small, e)
]

in_reach-dword : (a b : ℕ) → a < 2 ^ 32 → b < 2 ^ 32 → IsNear 32 a b → in_reach 32 a b ≡ true
in_reach-dword a b p q n = elim n.reached [
  | inl e ↦ ground (arith, n.small, e)
  | inr e ↦ ground (arith, n.small, e)
]

byte-IsNear : (a b : ℕ) → a < 2 ^ 8 → b < 2 ^ 8 → in_reach 8 a b ≡ true → IsNear 8 a b
byte-IsNear a b p q h = elim (Bool-cases (leb ((a + 2 ^ 32 - b) % 2 ^ 8) arith_max)) [
  | inl down ↦ record {
    amount = (a + 2 ^ 32 - b) % 2 ^ 8;
    small = ground arith;
    reached = inr (omega arith);
  }
  | inr up ↦ record {
    amount = (b + 2 ^ 32 - a) % 2 ^ 8;
    small = ground arith;
    reached = inl (omega arith);
  }
]

-- The loop over one byte.
one_byte :
    (a b : ℕ)
    → a < 2 ^ 8
    → b < 2 ^ 8
    → could_be_arith a b 1 ≡ (if a == b then true else in_reach 8 a b)
unfolding could_be_arith diffs_of
one_byte a b p q =
    let whole_a : a / 1 % 256 ≡ a = omega arith in
    let whole_b : b / 1 % 256 ≡ b = omega arith in
    elim (Bool-cases (a == b)) [
      | inl same ↦ rw (whole_a, whole_b, same) refl
      | inr other ↦ rw (whole_a, whole_b, other) (chosen (in_reach 8 a b))
    ]
  where
    chosen : (r : Bool) → (if r then true else false) ≡ r
    chosen true = refl
    chosen false = refl

last_test :
    (e b w x y : Bool)
    → x ≡ true
    → (if e then true else if b then true else if w then true else (x || y)) ≡ true
last_test e b w x y h = ground arith

-- For single bytes, `could_be_arith` says yes exactly if one byte is the other plus at most 35,
-- with wrap-around.
pub could_be_arith-byte_iff :
    (old_val new_val : ℕ)
    → old_val < 2 ^ 8
    → new_val < 2 ^ 8
    → (could_be_arith old_val new_val 1 ≡ true) ↔ IsNear 8 old_val new_val
could_be_arith-byte_iff old_val new_val p q = rw (one_byte old_val new_val p q) (
  (λ h. elim (Bool-cases (old_val == new_val)) [
    | inl same ↦ record { amount = 0; small = omega arith; reached = inl (ground arith) }
    | inr other ↦ byte-IsNear old_val new_val p q (ground arith)
  ]),
  (λ n. ground (arith, in_reach-byte old_val new_val p q n)),
)

-- For four bytes, `could_be_arith` says yes whenever one value is the other plus at most 35, with
-- wrap-around.
pub could_be_arith-dword :
    (old_val new_val : ℕ)
    → old_val < 2 ^ 32
    → new_val < 2 ^ 32
    → IsNear 32 old_val new_val
    → could_be_arith old_val new_val 4 ≡ true
unfolding could_be_arith
could_be_arith-dword old_val new_val p q n =
    last_test (old_val == new_val) _ _ (in_reach 32 old_val new_val) _
      (in_reach-dword old_val new_val p q n)
