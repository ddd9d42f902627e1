-- ===== src/Queue/Strip.antt =====
-- The inner loop of `cull_queue` takes the bits of an entry out of `temp_v`.
use native.Mathlib.Decide.{ℕ_discrete}
use native.Mathlib.Nat.{one-le-pow}
use aflgo.Common.{
  ℕ, zero, suc, ◌-◌, ◌*◌, ◌/◌, ◌%◌, ◌^◌, ◌<◌, ◌≤◌, min, ◌≡◌, refl, ap, sym, ◌∙◌, arith,
  if◌then◌else◌, false, Bool-cases, inl, inr, ltb, ◌!=◌, ◌==◌, bit_and, List, length, get_or, set,
  length-set, get_or-set_self, get_or-set_ne, get_or-All,
}
use aflgo.Bits.Test.{test, test-bit_and, test-complement, test-le-one, test-zero, bit_and-pow}
use aflgo.Bitmap.Memory.{IsByte, IsBytes}
use aflgo.Bitmap.Minimize.Laws.{bit_at}
use aflgo.Queue.{strip, unseen}

scaled : (b k : ℕ) → (b * 2 ^ k != 0) ≡ (b != 0)
scaled zero k = ground (arith, zero_mul (2 ^ k))
  where
    zero_mul : (p : ℕ) → 0 * p ≡ 0
    zero_mul p = omega arith
scaled (suc b) k = ground (arith, grows b (2 ^ k) (one-le-pow k 2 (omega arith)))
  where
    grows : (b p : ℕ) → 1 ≤ p → 1 ≤ suc b * p
    grows b p h = omega arith

-- `temp_v[i >> 3] & (1 << (i & 7))` tests bit `i`.
pub unseen_lem : (temp : List ℕ) (i : ℕ) → unseen temp i ≡ (bit_at temp i != 0)
unseen_lem temp i =
    rw (bit_and-pow (i % 8) (get_or temp (i / 8) 0)) (scaled (bit_at temp i) (i % 8))

-- One byte of `temp_v` without the bits of `m`.
abbrev stripped : ℕ → ℕ → ℕ
stripped x m = if m != 0 then bit_and x (255 - m) else x

stripped_bit : (k x m : ℕ) → k < 8 → m < 256 → test k (stripped x m) ≡ min (test k x) (1 - test k m)
stripped_bit k x m p q = elim (Bool-cases (m != 0)) [
  | inl e ↦ rw e (omega (arith, test-bit_and k x (255 - m), test-complement 8 k m p q))
  | inr e ↦ rw e (omega (arith, ap (test k) (vanish m e), test-zero k, test-le-one k x))
]
  where
    vanish : (m : ℕ) → (m != 0) ≡ false → m ≡ 0
    vanish m e = ground arith

-- One round of the loop.
abbrev round : ℕ → List ℕ → List ℕ → List ℕ
round j mini temp =
    if get_or mini j 0 != 0
    then set temp j (bit_and (get_or temp j 0) (255 - get_or mini j 0))
    else temp

length-round : (j : ℕ) (mini temp : List ℕ) → length (round j mini temp) ≡ length temp
length-round j mini temp = elim (Bool-cases (get_or mini j 0 != 0)) [
  | inl e ↦ rw e (length-set temp j _)
  | inr e ↦ rw e
]

round_byte :
    (j : ℕ) (mini temp : List ℕ) (b : ℕ)
    → j < length temp
    → get_or (round j mini temp) b 0
      ≡ (if b == j then stripped (get_or temp b 0) (get_or mini b 0) else get_or temp b 0)
round_byte j mini temp b h = elim (ℕ_discrete j b) [
  | yes e ↦ elim (Bool-cases (get_or mini j 0 != 0)) [
    | inl on ↦ rw on (
        ap (λ k. get_or (set temp j (bit_and (get_or temp j 0) (255 - get_or mini j 0))) k 0)
          (sym e)
        ∙ get_or-set_self temp j _ 0 h
        ∙ ground (arith, ap (λ k. get_or temp k 0) e, ap (λ k. get_or mini k 0) e))
    | inr off ↦ rw off (ground (arith, ap (λ k. get_or temp k 0) e, ap (λ k. get_or mini k 0) e))
  ]
  | no e ↦ elim (Bool-cases (get_or mini j 0 != 0)) [
    | inl on ↦ rw on (get_or-set_ne temp j b _ 0 e ∙ ground arith)
    | inr off ↦ rw off (ground arith)
  ]
]

strip_byte :
    (n : ℕ) (mini temp : List ℕ) (b : ℕ)
    → n ≤ length temp
    → get_or (strip n mini temp) b 0
      ≡ (if ltb b n then stripped (get_or temp b 0) (get_or mini b 0) else get_or temp b 0)
unfolding strip
strip_byte zero mini temp b h = ground arith
strip_byte (suc j) mini temp b h =
    strip_byte j mini (round j mini temp) b (omega (arith, length-round j mini temp))
    ∙ ground (arith, round_byte j mini temp b (omega arith))

pub length-strip : (n : ℕ) (mini temp : List ℕ) → length (strip n mini temp) ≡ length temp
unfolding strip
length-strip zero mini temp = refl
length-strip (suc j) mini temp = length-strip j mini (round j mini temp) ∙ length-round j mini temp

-- A bit is left exactly if it was there and the entry does not have it.
pub strip_lem :
    (n : ℕ) (mini temp : List ℕ) (j : ℕ)
    → IsBytes mini
    → n ≤ length temp
    → j / 8 < n
    → bit_at (strip n mini temp) j ≡ min (bit_at temp j) (1 - bit_at mini j)
strip_lem n mini temp j hm h inside =
    ap (test (j % 8)) (strip_byte n mini temp (j / 8) h ∙ ground arith)
    ∙ stripped_bit (j % 8) (get_or temp (j / 8) 0) (get_or mini (j / 8) 0) (omega arith)
        (get_or-All IsByte mini (j / 8) 0 hm (omega arith))
