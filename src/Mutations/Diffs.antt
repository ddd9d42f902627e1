-- ===== src/Mutations/Diffs.antt =====
-- What `locate_diffs` finds.
use aflgo.Common.{
  ℕ, zero, suc, ◌+◌, ◌<◌, ◌≡◌, ◌≢◌, sym, subst, arith, ◌!=◌, Bool-cases, inl, inr, Option, none,
  some, List, get_or,
}
use native.Mathlib.Decide.{ℕ_discrete}
use aflgo.Mutations.{diffs_loop, locate_diffs}

module _ (ptr1 ptr2 : List ℕ) where
  abbrev pub IsSame : ℕ → Type 0
  IsSame j = get_or ptr1 j 0 ≡ get_or ptr2 j 0

  -- Below `len`, the first difference; `none` if there is none.
  abbrev pub IsFirst : ℕ → Option ℕ → Type 0
  IsFirst len none = (j : ℕ) → j < len → IsSame j
  IsFirst len (some f) =
      (f < len) × (get_or ptr1 f 0 ≢ get_or ptr2 f 0) × ((j : ℕ) → j < f → IsSame j)

  -- Below `len`, the last difference.
  abbrev pub IsLast : ℕ → Option ℕ → Type 0
  IsLast len none = (j : ℕ) → j < len → IsSame j
  IsLast len (some l) =
      (l < len) × (get_or ptr1 l 0 ≢ get_or ptr2 l 0) × ((j : ℕ) → l < j → j < len → IsSame j)

  IsSame-more :
      (pos : ℕ) → IsSame pos → ((j : ℕ) → j < pos → IsSame j) → (j : ℕ) → j < pos + 1 → IsSame j
  IsSame-more pos here below j h = elim (ℕ_discrete j pos) [
    | yes e ↦ subst IsSame (sym e) here
    | no e ↦ below j (omega arith)
  ]

  IsFirst-same : (pos : ℕ) (f : Option ℕ) → IsSame pos → IsFirst pos f → IsFirst (pos + 1) f
  IsFirst-same pos none here v = IsSame-more pos here v
  IsFirst-same pos (some f) here v = (omega (arith, v.0), v.1, v.2)

  IsLast-same : (pos : ℕ) (l : Option ℕ) → IsSame pos → IsLast pos l → IsLast (pos + 1) l
  IsLast-same pos none here v = IsSame-more pos here v
  IsLast-same pos (some l) here v = (
    omega (arith, v.0),
    v.1,
    λ j p q. elim (ℕ_discrete j pos) [
      | yes e ↦ subst IsSame (sym e) here
      | no e ↦ v.2 j p (omega arith)
    ],
  )

  -- The first difference stays the first.
  IsFirst-differs :
      (pos : ℕ) (f : Option ℕ)
      → get_or ptr1 pos 0 ≢ get_or ptr2 pos 0
      → IsFirst pos f
      → IsFirst (pos + 1) (elim f [ none ↦ some pos | some g ↦ some g ])
  IsFirst-differs pos none here v = (omega arith, here, v)
  IsFirst-differs pos (some f) here v = (omega (arith, v.0), v.1, v.2)

  diffs_loop_lem :
      (n pos : ℕ) (f l : Option ℕ)
      → IsFirst pos f
      → IsLast pos l
      → let out = diffs_loop n pos ptr1 ptr2 f l in IsFirst (pos + n) out.0 × IsLast (pos + n) out.1
  unfolding diffs_loop
  diffs_loop_lem zero pos f l v w = (rw (plus_zero pos) v, rw (plus_zero pos) w)
    where
      plus_zero : (n : ℕ) → n + 0 ≡ n
      plus_zero n = omega arith
  diffs_loop_lem (suc n) pos f l v w = elim (Bool-cases (get_or ptr1 pos 0 != get_or ptr2 pos 0)) [
    | inl differs ↦
        let here : get_or ptr1 pos 0 ≢ get_or ptr2 pos 0 = ground arith in
        rw (differs, plus_suc pos n)
          (diffs_loop_lem n (pos + 1) (elim f [ none ↦ some pos | some g ↦ some g ]) (some pos)
            (IsFirst-differs pos f here v) (omega arith, here, λ j p q. absurd (omega arith)))
    | inr same ↦
        let here : IsSame pos = ground arith in
        rw (same, plus_suc pos n)
          (diffs_loop_lem n (pos + 1) f l (IsFirst-same pos f here v) (IsLast-same pos l here w))
  ]
    where
      plus_suc : (m n : ℕ) → m + suc n ≡ m + 1 + n
      plus_suc m n = omega arith

  -- `locate_diffs` returns the first and the last index below `len` at which the buffers differ,
  -- and no index exactly when they agree up to `len`.
  pub locate_diffs_lem :
      (len : ℕ)
      → IsFirst len (locate_diffs ptr1 ptr2 len).0 × IsLast len (locate_diffs ptr1 ptr2 len).1
  unfolding locate_diffs
  locate_diffs_lem len =
      rw zero_add at
        (diffs_loop_lem len 0 none none (λ j h. absurd (omega arith)) (λ j h. absurd (omega arith)))
    where
      zero_add : (n : ℕ) → 0 + n ≡ n
      zero_add n = omega arith
