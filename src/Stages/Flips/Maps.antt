-- ===== src/Stages/Flips/Maps.antt =====
-- Effector maps that mark the blocks of a test, and the number of the marks.
use native.Mathlib.Decide.{ℕ_discrete}
use aflgo.Common.{
  ℕ, zero, suc, ◌+◌, ◌<◌, ◌≡◌, ◌≢◌, refl, ap, sym, ◌∙◌, arith, if◌then◌else◌, Bool, true, false,
  List, [], ◌∷◌, length, get_or, set, replicate, sum, length-set, length-replicate, get_or-set_self,
  get_or-set_ne,
}

sum-set : (m : List ℕ) (i : ℕ) → i < length m → get_or m i 0 ≡ 0 → sum (set m i 1) ≡ sum m + 1
sum-set [] i h e = absurd (omega arith)
sum-set (x ∷ m) zero h e = omega (arith, e)
sum-set (x ∷ m) (suc i) h e = omega (arith, sum-set m i (omega arith) e)

sum_zeros : (n : ℕ) → sum (replicate n 0) ≡ 0
sum_zeros zero = refl
sum_zeros (suc n) = omega (arith, sum_zeros n)

zeros : (n b : ℕ) → get_or {A = ℕ} (replicate n 0) b 0 ≡ 0
zeros zero b = refl
zeros (suc n) zero = refl
zeros (suc n) (suc b) = zeros n b

-- A map of `n` blocks that marks the blocks of a test, and their number.
pub record IsMap (n : ℕ) (test : ℕ → Bool) (map : List ℕ) (cnt : ℕ) : Type 0 where
  pub whole : length map ≡ n
  pub marks : (b : ℕ) → b < n → get_or map b 0 ≡ (if test b then 1 else 0)
  pub counted : cnt ≡ sum map

pub none-IsMap : (n : ℕ) → IsMap n (λ b. false) (replicate n 0) 0
none-IsMap n = record {
  whole = length-replicate n 0;
  marks = λ b h. zeros n b;
  counted = sym (sum_zeros n);
}

pub same-IsMap :
    (n : ℕ) (p q : ℕ → Bool) (map : List ℕ) (cnt : ℕ)
    → ((b : ℕ) → q b ≡ p b)
    → IsMap n p map cnt
    → IsMap n q map cnt
same-IsMap n p q map cnt same m = record {
  whole = m.whole;
  marks = λ b h. rw (same b) (m.marks b h);
  counted = m.counted;
}

pub set-IsMap :
    (n : ℕ) (p q : ℕ → Bool) (map : List ℕ) (cnt i : ℕ)
    → i < n
    → p i ≡ false
    → q i ≡ true
    → ((b : ℕ) → b ≢ i → q b ≡ p b)
    → IsMap n p map cnt
    → IsMap n q (set map i 1) (cnt + 1)
set-IsMap n p q map cnt i inside off on others m =
    let empty : get_or map i 0 ≡ 0 = m.marks i inside ∙ ap (λ t. if t then 1 else 0) off in
    record {
      whole = length-set map i 1 ∙ m.whole;
      marks = λ b h. elim (ℕ_discrete b i) [
        | yes same ↦ rw (same, on) (get_or-set_self map i 1 0 (omega (arith, m.whole)))
        | no other ↦
            get_or-set_ne map i b 1 0 (λ e. other (sym e))
            ∙ m.marks b h
            ∙ ap (λ t. if t then 1 else 0) (sym (others b other))
      ];
      counted = omega (arith, m.counted, sum-set map i (omega (arith, m.whole)) empty);
    }
