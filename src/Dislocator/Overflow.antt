-- ===== src/Dislocator/Overflow.antt =====
-- The overflow check of `calloc`.
use aflgo.Common.{
  ℕ, zero, suc, ◌*◌, ◌/◌, ◌%◌, ◌^◌, ◌<◌, ◌≡◌, ◌!=◌, ◌&&◌, Bool-cases, inl, inr, ◌∙◌, ap, refl,
  arith, if◌then◌else◌, none, leb,
}
use native.Mathlib.Decide.{dec_lt}
use native.Mathlib.Nat.{mod-eq_of_lt}
use aflgo.Dislocator.{System, Heap, ok, abort, calloc, dislocator_alloc}

-- Dividing a product.
mul-div : (a b : ℕ) → 0 < b → a * b / b ≡ a
mul-div a b h = grind arith

div-lt : (x a b : ℕ) → 0 < b → x < a * b → x / b < a
div-lt x a b h k = grind arith

mul_zero : (a : ℕ) → a * 0 ≡ 0
mul_zero a = omega arith

-- The check finds exactly the products that do not fit a `size_t`.
pub overflow_check :
    (a b : ℕ) → a < 2 ^ 64 → (b != 0 && a * b % 2 ^ 64 / b != a) ≡ leb (2 ^ 64) (a * b)
overflow_check a zero h = ground (arith, mul_zero a)
overflow_check a (suc b) h = elim (dec_lt (a * suc b) (2 ^ 64)) [
  | yes fits ↦
      let whole : a * suc b % 2 ^ 64 / suc b ≡ a =
        ap (λ t. t / suc b) (mod-eq_of_lt fits) ∙ mul-div a (suc b) (omega arith) in
      ground (arith, whole)
  | no wraps ↦
      let cut = div-lt (a * suc b % 2 ^ 64) a (suc b) (omega arith) (omega arith) in
      ground (arith, cut)
]

-- For an element length of 64 bits, `calloc` with a product that does not fit fails as the settings say, and allocates nothing;
-- with one that fits it is an allocation of the product.
pub calloc_lem :
    (sys : System) (a b : ℕ) (h : Heap)
    → a < 2 ^ 64
    → calloc sys a b h ≡ (
        if leb (2 ^ 64) (a * b)
        then (if h.no_calloc_over then ok (none, h) else abort)
        else dislocator_alloc sys (a * b) h)
unfolding calloc
calloc_lem sys a b h small = elim (Bool-cases (leb (2 ^ 64) (a * b))) [
  | inl wraps ↦ rw (overflow_check a b small, wraps) refl
  | inr fits ↦
      let exact : a * b % 2 ^ 64 ≡ a * b = mod-eq_of_lt (ground arith) in
      rw (overflow_check a b small, fits, exact) refl
]
