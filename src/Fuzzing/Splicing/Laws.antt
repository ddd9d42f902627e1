-- ===== src/Fuzzing/Splicing/Laws.antt =====
-- The entry that a random number leads to.
use aflgo.Common.{
  ℕ, zero, suc, ◌+◌, ◌-◌, ◌*◌, ◌/◌, ◌%◌, ◌<◌, ◌≤◌, ◌≡◌, ap, ◌∙◌, arith, leb, leb→le, leb_off, ltb,
  lt→ltb, if◌then◌else◌, Bool-cases, inl, inr, Option, some, length, ap₂, ltb→lt, ltb_off,
}
use aflgo.Doubles.{Doubles}
use aflgo.Fuzzer.{Fuzzer}
use aflgo.Queue.Hundreds.{mark, IsChained}
use aflgo.Fuzzing.Splicing.{jump, walk, seek}

-- Where the jumps end: what is left of the number, and the pointer.
abbrev landing : ℕ → ℕ → Option (ℕ × Option ℕ)
landing r k = some (r, some (mark k))

reached : (r r' k k' : ℕ) → r ≡ r' → k ≡ k' → landing r k ≡ landing r' k'
reached r r' k k' e f = ap₂ landing e f

-- Behind the jumps, the walk goes on from a mark.
mark-walk : (tid : ℕ) → mark (0 + tid / 100) + tid % 100 ≡ (if ltb tid 100 then tid else tid - 1)
mark-walk tid = elim (Bool-cases (ltb tid 100)) [
  | inl near ↦
      let small = ltb→lt tid 100 near in
      let e : mark (0 + tid / 100) ≡ 0 =
        ap mark (let z : 0 + tid / 100 ≡ 0 = omega (arith, small) in z) in
      rw near (omega (arith, e, small))
  | inr far ↦
      let big = ltb_off tid 100 far in
      let e : mark (0 + tid / 100) ≡ 100 * (tid / 100 - 1) + 99 =
        ap mark (let z : 0 + tid / 100 ≡ suc (tid / 100 - 1) = omega (arith, big) in z) in
      rw far (omega (arith, e, big))
]

back-le : (tid : ℕ) → (if ltb tid 100 then tid else tid - 1) ≤ tid
back-le tid = ground arith

module _ {D : Type 0} (d : Doubles D) where
  walk_lem :
      (r t u : ℕ) (s : Fuzzer D)
      → t + r ≡ u
      → u < length s.queue
      → walk d r (some t) s ≡ some (some u)
  unfolding walk
  walk_lem zero t u s e inside = ap (λ i. some (some i)) (omega arith)
  walk_lem (suc r) t u s e inside =
      rw (lt→ltb (t + 1) (length s.queue) (omega arith), walk)
        (walk_lem r (t + 1) u s (omega arith) inside)

  -- The jumps from the mark `k`.
  jump_lem :
      (fuel tid k : ℕ) (s : Fuzzer D)
      → IsChained d s
      → tid < fuel
      → 100 * k + tid < length s.queue
      → jump d fuel tid (some (mark k)) s ≡ some (tid % 100, some (mark (k + tid / 100)))
  unfolding jump
  jump_lem zero tid k s h enough inside = absurd (omega arith)
  jump_lem (suc fuel) tid k s h enough inside = elim (Bool-cases (leb 100 tid)) [
    | inr near ↦
        let small = leb_off 100 tid near in
        rw (near, jump)
          (reached tid (tid % 100) k (k + tid / 100) (omega (arith, small)) (omega (arith, small)))
    | inl far ↦
        let big = leb→le 100 tid far in
        rw (far, jump, h.links k (omega arith))
          (jump_lem fuel (tid - 100) (suc k) s h (omega arith) (omega arith)
            ∙ reached ((tid - 100) % 100) (tid % 100) (suc k + (tid - 100) / 100) (k + tid / 100)
                (omega (arith, big)) (omega (arith, big)))
  ]

  -- On a queue with its marks in order, the random number `tid` of a splice leads to the entry with
  -- that number if it is below 100, but to the one before it from 100 on, since the marks of the
  -- hundreds stand on the last entries of the hundreds.
  pub seek_lem :
      (tid : ℕ) (s : Fuzzer D)
      → IsChained d s
      → tid < length s.queue
      → seek d tid s ≡ some (some (if ltb tid 100 then tid else tid - 1))
  unfolding seek
  seek_lem tid s h inside =
      let there = jump_lem (tid + 1) tid 0 s h (omega arith) (omega arith) in
      rw (there, seek)
        (walk_lem (tid % 100) (mark (0 + tid / 100)) (if ltb tid 100 then tid else tid - 1) s
          (mark-walk tid) (omega (arith, back-le tid, inside)))
