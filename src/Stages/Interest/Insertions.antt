-- ===== src/Stages/Interest/Insertions.antt =====
-- The masks of `could_be_interest` as numbers: what putting a value into a word makes of it.
use aflgo.Common.{
  ℕ, zero, suc, ◌+◌, ◌-◌, ◌*◌, ◌/◌, ◌%◌, ◌^◌, ◌<◌, ◌≡◌, refl, ap, ap₂, ◌∙◌, arith, ltb, bit_and,
  bit_or, Bool-cases, inl, inr, ltb→lt,
}
use aflgo.Bits.Fields.{bit_and_fields, bit_or_fields}
use aflgo.Bits.Test.{
  test, test_ext, test-bit_and, test-le-one, test-complement, test-zero, test_beyond, bit_and-zero,
  bit_or-zero, zero-bit_or,
}
use aflgo.Stages.Interest.{tval}

less_none : (n : ℕ) → 2 ^ n - 1 - 0 ≡ 2 ^ n - 1
less_none n = omega arith

bit_and-ones : (n a : ℕ) → a < 2 ^ n → bit_and a (2 ^ n - 1) ≡ a
bit_and-ones n a h = test_ext _ _ (λ k. elim (Bool-cases (ltb k n)) [
  | inl low ↦ omega (
    arith,
    test-bit_and k a (2 ^ n - 1),
    test-le-one k a,
    test-complement n k 0 (ltb→lt k n low) (omega arith),
    test-zero k,
    ap (test k) (less_none n),
  )
  | inr high ↦ omega (arith, test-bit_and k a (2 ^ n - 1), test_beyond n k a h (ground arith))
])

-- Putting `v` in place of the `w` bits from bit `s` on.
insert_fields :
    (s w r lo mid hi v : ℕ)
    → lo < 2 ^ s
    → mid < 2 ^ w
    → hi < 2 ^ r
    → v < 2 ^ w
    → bit_or
        (bit_and
          (lo + 2 ^ s * (mid + 2 ^ w * hi))
          ((2 ^ s - 1) + 2 ^ s * (0 + 2 ^ w * (2 ^ r - 1))))
        (0 + 2 ^ s * (v + 2 ^ w * 0))
      ≡ lo + 2 ^ s * (v + 2 ^ w * hi)
insert_fields s w r lo mid hi v l m h u =
    rw
      (
        bit_and_fields s lo (mid + 2 ^ w * hi) (2 ^ s - 1) (0 + 2 ^ w * (2 ^ r - 1)) l
            (omega arith),
        bit_and_fields w mid hi 0 (2 ^ r - 1) m (omega arith),
        bit_and-ones s lo l,
        bit_and-zero mid,
        bit_and-ones r hi h,
        bit_or_fields s lo (0 + 2 ^ w * hi) 0 (v + 2 ^ w * 0) l (omega arith),
        bit_or_fields w 0 hi v 0 (omega arith) u,
        bit_or-zero lo,
        zero-bit_or v,
        bit_or-zero hi,
      )
      refl

-- The number `old` with `v` in the place of the `w` bits from bit `s` on.
abbrev pub inserted : ℕ → ℕ → ℕ → ℕ → ℕ
inserted w s old v = old % 2 ^ s + 2 ^ s * (v + 2 ^ w * (old / 2 ^ s / 2 ^ w))

pub byte_lem :
    (i old v : ℕ) → i < 4 → old < 2 ^ 32 → v < 2 ^ 8 → tval 0xff old i v ≡ inserted 8 (i * 8) old v
byte_lem zero old v p q r =
    ap₂ bit_or (ap₂ bit_and (omega arith) refl) (omega arith)
    ∙ insert_fields 0 8 24 (old % 1) (old % 256) (old / 256) v (omega arith) (omega arith)
        (omega arith) r
    ∙ omega arith
byte_lem (suc zero) old v p q r =
    ap₂ bit_or (ap₂ bit_and (omega arith) refl) (omega arith)
    ∙ insert_fields 8 8 16 (old % 2 ^ 8) (old / 2 ^ 8 % 256) (old / 2 ^ 16) v (omega arith)
        (omega arith) (omega arith) r
    ∙ omega arith
byte_lem (suc (suc zero)) old v p q r =
    ap₂ bit_or (ap₂ bit_and (omega arith) refl) (omega arith)
    ∙ insert_fields 16 8 8 (old % 2 ^ 16) (old / 2 ^ 16 % 256) (old / 2 ^ 24) v (omega arith)
        (omega arith) (omega arith) r
    ∙ omega arith
byte_lem (suc (suc (suc zero))) old v p q r =
    ap₂ bit_or (ap₂ bit_and (omega arith) refl) (omega arith)
    ∙ insert_fields 24 8 0 (old % 2 ^ 24) (old / 2 ^ 24) 0 v (omega arith) (omega arith)
        (omega arith) r
    ∙ omega arith
byte_lem (suc (suc (suc (suc i)))) old v p q r = absurd (omega arith)

pub word_lem :
    (i old v : ℕ)
    → i < 3
    → old < 2 ^ 32
    → v < 2 ^ 16
    → tval 0xffff old i v ≡ inserted 16 (i * 8) old v
word_lem zero old v p q r =
    ap₂ bit_or (ap₂ bit_and (omega arith) refl) (omega arith)
    ∙ insert_fields 0 16 16 (old % 1) (old % 2 ^ 16) (old / 2 ^ 16) v (omega arith) (omega arith)
        (omega arith) r
    ∙ omega arith
word_lem (suc zero) old v p q r =
    ap₂ bit_or (ap₂ bit_and (omega arith) refl) (omega arith)
    ∙ insert_fields 8 16 8 (old % 2 ^ 8) (old / 2 ^ 8 % 2 ^ 16) (old / 2 ^ 24) v (omega arith)
        (omega arith) (omega arith) r
    ∙ omega arith
word_lem (suc (suc zero)) old v p q r =
    ap₂ bit_or (ap₂ bit_and (omega arith) refl) (omega arith)
    ∙ insert_fields 16 16 0 (old % 2 ^ 16) (old / 2 ^ 16) 0 v (omega arith) (omega arith)
        (omega arith) r
    ∙ omega arith
word_lem (suc (suc (suc i))) old v p q r = absurd (omega arith)
