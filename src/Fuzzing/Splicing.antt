-- ===== src/Fuzzing/Splicing.antt =====
-- How `fuzz_one` of afl-2.57b/afl-fuzz.c chooses the second file of a splice.
pub mod Laws
use aflgo.Common.{
  ℕ, zero, suc, ◌+◌, ◌-◌, ◌==◌, leb, ltb, if◌then◌else◌, Bool, true, false, ◌||◌, Option, none,
  some, List, length,
}
use aflgo.Doubles.{Doubles}
use aflgo.Fuzzer.{QueueEntry, Fuzzer, entry}

module _ {D : Type 0} (d : Doubles D) where
  -- `target->next`; `none` is NULL.
  abbrev pub next_entry : Fuzzer D → ℕ → Option ℕ
  next_entry s t = if ltb (t + 1) (length s.queue) then some (t + 1) else none

  -- `while (tid >= 100) { target = target->next_100; tid -= 100; }`, on fuel: what is left of
  -- `tid`, and the pointer. `none` is out of fuel, or a read through NULL.
  unfoldable pub jump : ℕ → ℕ → Option ℕ → Fuzzer D → Option (ℕ × Option ℕ)
  jump zero tid target s = none
  jump (suc fuel) tid target s = elim (leb 100 tid) as (λ _. Option (ℕ × Option ℕ)) [
    | false ↦ some (tid, target)
    | true ↦ elim target as (λ _. Option (ℕ × Option ℕ)) [
      | none ↦ none
      | some t ↦ jump fuel (tid - 100) (entry d s t).next_100 s
    ]
  ]

  -- `while (tid--) target = target->next;`
  unfoldable pub walk : ℕ → Option ℕ → Fuzzer D → Option (Option ℕ)
  walk zero target s = some target
  walk (suc tid) target s = elim target as (λ _. Option (Option ℕ)) [
    | none ↦ none
    | some t ↦ walk tid (next_entry s t) s
  ]

  -- The target for a random `tid`, through the marks of the hundreds.
  unfoldable pub seek : ℕ → Fuzzer D → Option (Option ℕ)
  seek tid s = elim (jump (tid + 1) tid (some 0) s) as (λ _. Option (Option ℕ)) [
    | none ↦ none
    | some at ↦ walk at.0 at.1 s
  ]

  -- The loop that passes over short entries and the current one, on fuel: the pointer, and
  -- `splicing_with`. The outer `none` is out of fuel.
  unfoldable pub pass_over : ℕ → ℕ → Option ℕ → ℕ → Fuzzer D → Option (Option ℕ × ℕ)
  pass_over zero queue_cur target splicing_with s = none
  pass_over (suc fuel) queue_cur target splicing_with s =
      elim target as (λ _. Option (Option ℕ × ℕ)) [
        | none ↦ some (none, splicing_with)
        | some t ↦
            elim (ltb (entry d s t).len 2 || t == queue_cur) as (λ _. Option (Option ℕ × ℕ)) [
              | false ↦ some (some t, splicing_with)
              | true ↦ pass_over fuel queue_cur (next_entry s t) (splicing_with + 1) s
            ]
      ]

  -- From a random `tid` to a target of a reasonable length.
  unfoldable pub splice_target : ℕ → ℕ → Fuzzer D → Option (Option ℕ × ℕ)
  splice_target tid queue_cur s = elim (seek tid s) as (λ _. Option (Option ℕ × ℕ)) [
    | none ↦ none
    | some target ↦ pass_over (length s.queue + 1) queue_cur target tid s
  ]
