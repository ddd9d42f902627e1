-- ===== src/Mutations/Flips.antt =====
-- The numbers that `could_be_bitflip` recognises.
use aflgo.Common.{
  ℕ, zero, suc, ◌+◌, ◌-◌, ◌*◌, ◌/◌, ◌%◌, ◌^◌, ◌<◌, ◌≤◌, ◌≡◌, ◌↔◌, refl, ap, ap₂, sym, ◌∙◌, arith,
  ◌==◌, if◌then◌else◌, Bool, true, false, Bool-cases, inl, inr, ◌⊎◌, ◌||◌, ◌&&◌,
}
use native.Mathlib.Nat.{pow-suc}
use aflgo.Bits.Powers.{pow_order}
use aflgo.Mutations.{shift_loop, could_be_bitflip, is_pattern}

-- Runs of `n` bits from bit `p` of a word on, counted from its lowest: 1, 2 and 4 bits at any place,
-- 8, 16 and 32 bits at a byte.
abbrev pub is_step : ℕ → ℕ → Bool
is_step n p = n == 1 || n == 2 || n == 4 || (n == 8 || n == 16 || n == 32) && p % 8 == 0

pub record IsBitRun (xor_val : ℕ) : Type 0 where
  pub bits : ℕ
  pub place : ℕ
  pub step : is_step bits place ≡ true
  pub value : xor_val ≡ (2 ^ bits - 1) * 2 ^ place

twice : (m p : ℕ) → m * 2 ^ suc p ≡ m * 2 ^ p * 2
twice m p = grind (arith, pow-suc 2 p)

-- The loop takes out the factors of two.
shift_loop-factor :
    (fuel sh m p : ℕ) → m % 2 ≡ 1 → p ≤ fuel → shift_loop fuel sh (m * 2 ^ p) ≡ (sh + p, m)
unfolding shift_loop
shift_loop-factor zero sh m zero odd enough = ap₂ (λ a b. (a, b)) (omega arith) (omega arith)
shift_loop-factor zero sh m (suc p) odd enough = absurd (omega arith)
shift_loop-factor (suc fuel) sh m zero odd enough =
    let stop : (m * 2 ^ 0 % 2 == 0) ≡ false = ground arith in
    rw stop (ap₂ (λ a b. (a, b)) (omega arith) (omega arith))
shift_loop-factor (suc fuel) sh m (suc p) odd enough =
    let double : m * 2 ^ suc p ≡ m * 2 ^ p * 2 = twice m p in
    let even : (m * 2 ^ suc p % 2 == 0) ≡ true = ground (arith, double) in
    let half : m * 2 ^ suc p / 2 ≡ m * 2 ^ p = omega (arith, double) in
    rw (even, half)
      (shift_loop-factor fuel (sh + 1) m p odd (omega arith)
        ∙ ap₂ (λ a b. (a, b)) (omega arith) refl)

shift_loop-value :
    (fuel sh x : ℕ)
    → (p : ℕ) × ((shift_loop fuel sh x).0 ≡ sh + p) × (x ≡ (shift_loop fuel sh x).1 * 2 ^ p)
unfolding shift_loop
shift_loop-value zero sh x = (0, omega arith, omega arith)
shift_loop-value (suc fuel) sh x = elim (Bool-cases (x % 2 == 0)) [
  | inl even ↦
      let rest = shift_loop-value fuel (sh + 1) (x / 2) in
      let half : x / 2 * 2 ≡ x = ground arith in
      rw even
        (suc rest.0, rest.1 ∙ omega arith, sym half ∙ ap (λ t. t * 2) rest.2 ∙ sym (twice _ rest.0))
  | inr odd ↦ rw odd (0, omega arith, omega arith)
]

-- The runs behind the patterns.
abbrev run_length : ℕ → ℕ
run_length m =
    if m == 1
    then 1
    else if m == 3
    then 2
    else if m == 15
    then 4
    else if m == 0xff
    then 8
    else if m == 0xffff
    then 16
    else 32

pattern_step :
    (sh m : ℕ)
    → is_pattern sh m ≡ true
    → (is_step (run_length m) sh ≡ true) × (m ≡ 2 ^ run_length m - 1)
pattern_step sh m h = (ground arith, ground arith)

step_runs :
    (n p : ℕ)
    → is_step n p ≡ true
    → ((n ≡ 1) ⊎ ((n ≡ 2) ⊎ (n ≡ 4))) ⊎ (((n ≡ 8) ⊎ ((n ≡ 16) ⊎ (n ≡ 32))) × (p % 8 ≡ 0))
step_runs n p h = ground arith

step_pattern :
    (n p : ℕ) → is_step n p ≡ true → (is_pattern p (2 ^ n - 1) ≡ true) × ((2 ^ n - 1) % 2 ≡ 1)
step_pattern n p h = elim (step_runs n p h) [
  | inl (inl e) ↦ rw e (refl, refl)
  | inl (inr (inl e)) ↦ rw e (refl, refl)
  | inl (inr (inr e)) ↦ rw e (refl, refl)
  | inr (inl e, a) ↦ rw e (ground arith, refl)
  | inr (inr (inl e), a) ↦ rw e (ground arith, refl)
  | inr (inr (inr e), a) ↦ rw e (ground arith, refl)
]

recognised : (x : ℕ) → is_pattern (shift_loop 32 0 x).0 (shift_loop 32 0 x).1 ≡ true → IsBitRun x
recognised x h =
    let v = shift_loop-value 32 0 x in
    let found = pattern_step (shift_loop 32 0 x).0 (shift_loop 32 0 x).1 h in
    record {
      bits = run_length (shift_loop 32 0 x).1;
      place = (shift_loop 32 0 x).0;
      step = found.0;
      value = v.2 ∙ ap₂ (λ m p. m * 2 ^ p) found.1 (sym (v.1 ∙ omega arith));
    }

accepted :
    (x : ℕ)
    → x < 2 ^ 32
    → IsBitRun x
    → is_pattern (shift_loop 32 0 x).0 (shift_loop 32 0 x).1 ≡ true
accepted x small f =
    let run = step_pattern f.bits f.place f.step in
    let reach : f.place < 32 = pow_order f.place 32 (grind (arith, f.value, run.1)) in
    let end =
      ap (shift_loop 32 0) f.value
      ∙ shift_loop-factor 32 0 (2 ^ f.bits - 1) f.place run.1 (omega arith) in
    rw end (rw (zero_add f.place) run.0)
  where
    zero_add : (n : ℕ) → 0 + n ≡ n
    zero_add n = omega arith

-- For a `u32`, `could_be_bitflip` says yes exactly to 0 and to a run of bits of the number, counted
-- from its lowest bit: 1, 2 or 4 bits at any place, or 8, 16 or 32 bits from a multiple of 8 on. Such
-- a run need not be a product of `FLIP_BIT`, which counts the bits of each byte from its highest.
pub could_be_bitflip_iff :
    (xor_val : ℕ)
    → xor_val < 2 ^ 32
    → (could_be_bitflip xor_val ≡ true) ↔ ((xor_val ≡ 0) ⊎ IsBitRun xor_val)
unfolding could_be_bitflip
could_be_bitflip_iff x small = elim (Bool-cases (x == 0)) [
  | inl none_set ↦ rw (none_set, could_be_bitflip) ((λ h. inl (ground arith)), (λ h. refl))
  | inr some_set ↦
      rw (some_set, could_be_bitflip)
        (
          (λ h. inr (recognised x h)),
          (λ o. elim o [ inl z ↦ absurd (ground arith) | inr f ↦ accepted x small f ]),
        )
]
