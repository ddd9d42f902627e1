-- ===== src/Bitmap/Minimize/Laws.antt =====
-- The bits that `minimize_bits` sets.
use native.Mathlib.Decide.{ℕ_discrete}
use aflgo.Common.{
  ℕ, zero, suc, ◌+◌, ◌-◌, ◌*◌, ◌/◌, ◌%◌, ◌^◌, ◌<◌, ◌≤◌, max, ◌==◌, ◌!=◌, if◌then◌else◌, bit_or,
  List, [], ◌∷◌, length, get_or, ◌≡◌, refl, ap, ◌∙◌, sym, arith, length-set, get_or-set_self,
  get_or-set_ne, Bool-cases, get_or-cons_zero, get_or-cons_suc, inl, inr, leb, ◌&&◌,
}
use aflgo.Bits.Test.{test, test-bit_or, test-pow_self, test-pow_ne, test-le-one}
use aflgo.Bitmap.Minimize.{set_bit, minimize_loop}

-- Bit `j` of a bitmap.
abbrev pub bit_at : List ℕ → ℕ → ℕ
bit_at dst j = test (j % 8) (get_or dst (j / 8) 0)

test-byte : (k a : ℕ) → k < 8 → test k (a % 256) ≡ test k a
test-byte zero a h = omega arith
test-byte (suc zero) a h = omega arith
test-byte (suc (suc zero)) a h = omega arith
test-byte (suc (suc (suc zero))) a h = omega arith
test-byte (suc (suc (suc (suc zero)))) a h = omega arith
test-byte (suc (suc (suc (suc (suc zero))))) a h = omega arith
test-byte (suc (suc (suc (suc (suc (suc zero)))))) a h = omega arith
test-byte (suc (suc (suc (suc (suc (suc (suc zero))))))) a h = omega arith
test-byte (suc (suc (suc (suc (suc (suc (suc (suc k)))))))) a h = absurd (omega arith)

test-pow : (k m : ℕ) → test k (2 ^ m) ≡ (if k == m then 1 else 0)
test-pow k m = elim (ℕ_discrete k m) [
  | yes e ↦ ap (λ t. test k (2 ^ t)) (sym e) ∙ test-pow_self k ∙ ground arith
  | no e ↦ test-pow_ne k m e ∙ ground arith
]

set_bit_same :
    (dst : List ℕ) (i j : ℕ)
    → i / 8 < length dst
    → i / 8 ≡ j / 8
    → bit_at (set_bit dst i) j ≡ max (bit_at dst j) (if j % 8 == i % 8 then 1 else 0)
set_bit_same dst i j h e =
    ap (λ t. test (j % 8) (get_or (set_bit dst i) t 0)) (sym e)
    ∙ ap (test (j % 8)) (get_or-set_self dst (i / 8) _ 0 h)
    ∙ test-byte (j % 8) (bit_or (get_or dst (i / 8) 0) (2 ^ (i % 8))) (omega arith)
    ∙ test-bit_or (j % 8) (get_or dst (i / 8) 0) (2 ^ (i % 8))
    ∙ ap (λ t. max (test (j % 8) (get_or dst t 0)) (test (j % 8) (2 ^ (i % 8)))) e
    ∙ ap (max (bit_at dst j)) (test-pow (j % 8) (i % 8))

-- Setting bit `i` sets that bit and no other.
pub set_bit_lem :
    (dst : List ℕ) (i j : ℕ)
    → i / 8 < length dst
    → bit_at (set_bit dst i) j ≡ (if j == i then 1 else bit_at dst j)
set_bit_lem dst i j h = elim (ℕ_discrete (i / 8) (j / 8)) [
  | yes e ↦ ground (arith, set_bit_same dst i j h e, test-le-one (j % 8) (get_or dst (j / 8) 0))
  | no e ↦ ap (test (j % 8)) (get_or-set_ne dst (i / 8) (j / 8) _ 0 e) ∙ ground arith
]

-- The destination after one byte.
abbrev next : ℕ → ℕ → List ℕ → List ℕ
next s i dst = if s != 0 then set_bit dst i else dst

length-next : (s i : ℕ) (dst : List ℕ) → length (next s i dst) ≡ length dst
length-next s i dst = elim (Bool-cases (s != 0)) [
  | inl e ↦ rw e (length-set dst (i / 8) _)
  | inr e ↦ rw e
]

next_lem :
    (s i : ℕ) (dst : List ℕ) (j : ℕ)
    → i / 8 < length dst
    → bit_at (next s i dst) j ≡ (if s != 0 && j == i then 1 else bit_at dst j)
next_lem s i dst j h = elim (Bool-cases (s != 0)) [
  | inl e ↦ rw e (set_bit_lem dst i j h)
  | inr e ↦ rw e
]

-- The loop adds the bits of the bytes that it meets.
pub minimize_loop_lem :
    (i : ℕ) (src dst : List ℕ) (j : ℕ)
    → i + length src ≤ 8 * length dst
    → bit_at (minimize_loop i src dst) j
      ≡ (if leb i j && get_or src (j - i) 0 != 0 then 1 else bit_at dst j)
unfolding minimize_loop
minimize_loop_lem i [] dst j h = ground arith
minimize_loop_lem i (s ∷ src) dst j h =
    minimize_loop_lem (i + 1) src (next s i dst) j (omega (arith, length-next s i dst))
    ∙ rw (next_lem s i dst j (omega arith)) (
        ground
          (arith, get_or-cons_zero s 0 src (j - i), get_or-cons_suc s 0 src (j - i) (j - (i + 1))))

pub length-minimize_loop :
    (i : ℕ) (src dst : List ℕ) → length (minimize_loop i src dst) ≡ length dst
unfolding minimize_loop
length-minimize_loop i [] dst = refl
length-minimize_loop i (s ∷ src) dst =
    length-minimize_loop (i + 1) src (next s i dst) ∙ length-next s i dst
