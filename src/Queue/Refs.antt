-- ===== src/Queue/Refs.antt =====
-- The reference counts of `update_bitmap_score`: `tc_ref` is the number of slots that an entry
-- holds, and `trace_mini` is allocated exactly while it holds one.
use native.Mathlib.Decide.{ℕ_discrete}
use aflgo.Common.{
  ℕ, zero, suc, ◌+◌, ◌^◌, ◌<◌, ◌≤◌, ◌==◌, ◌≡◌, ap, sym, ◌∙◌, subst, arith, if◌then◌else◌, Option,
  none, some, List, [], ◌∷◌, length, get_or, set, modify, length-set, length-modify,
  get_or-set_self, get_or-set_ne, get_or-modify_elim, set_twice, Option-cases, inl, inr,
}
use aflgo.Doubles.{Doubles}
use aflgo.Fuzzer.{QueueEntry, Fuzzer, blank, entry_at}
use aflgo.Queue.{dropped, grabbed, release, claim_slot}

-- Whether a slot points to entry `e`.
abbrev pub points_to : ℕ → Option ℕ → ℕ
points_to e none = 0
points_to e (some t) = if t == e then 1 else 0

-- The slots that point to entry `e`.
abbrev pub refs : ℕ → List (Option ℕ) → ℕ
refs e [] = 0
refs e (v ∷ tops) = points_to e v + refs e tops

points_to-le : (e : ℕ) (v : Option ℕ) → points_to e v ≤ 1
points_to-le e none = omega arith
points_to-le e (some t) = ground arith

pub refs-le : (e : ℕ) (tops : List (Option ℕ)) → refs e tops ≤ length tops
refs-le e [] = omega arith
refs-le e (v ∷ tops) = omega (arith, points_to-le e v, refs-le e tops)

pub refs-set :
    (e : ℕ) (tops : List (Option ℕ)) (i : ℕ) (v : Option ℕ)
    → i < length tops
    → refs e (set tops i v) + points_to e (get_or tops i none) ≡ refs e tops + points_to e v
refs-set e [] i v h = absurd (omega arith)
refs-set e (w ∷ tops) zero v h = omega arith
refs-set e (w ∷ tops) (suc i) v h = omega (arith, refs-set e tops i v (omega arith))

-- Whether bits are allocated.
abbrev pub allocated : Option (List ℕ) → ℕ
allocated none = 0
allocated (some m) = 1

module _ {D : Type 0} where
  -- The bits of an entry are allocated exactly while it is referenced.
  abbrev pub IsKept : QueueEntry D → Type 0
  IsKept e = allocated e.trace_mini ≡ (if e.tc_ref == 0 then 0 else 1)

  dropped-IsKept :
      (e : QueueEntry D) → 0 < e.tc_ref → e.tc_ref < 2 ^ 32 → IsKept e → IsKept (dropped e)
  dropped-IsKept e p q k = ground arith

  grabbed-IsKept : (s : Fuzzer D) (e : QueueEntry D) → e.tc_ref + 1 < 2 ^ 32 → IsKept (grabbed s e)
  grabbed-IsKept s e h = elim (Option-cases e.trace_mini) [
    | inl z ↦ rw z (ground arith)
    | inr m ↦ rw m.1 (ground arith)
  ]

in_range-set :
    (n : ℕ) (tops : List (Option ℕ)) (i : ℕ) (v : Option ℕ)
    → i < length tops
    → ((j t : ℕ) → get_or tops j none ≡ some t → t < n)
    → ((t : ℕ) → v ≡ some t → t < n)
    → (j t : ℕ) → get_or (set tops i v) j none ≡ some t
    → t < n
in_range-set n tops i v h all new j t e = elim (ℕ_discrete i j) [
  | yes p ↦
      new t (sym (get_or-set_self tops i v none h) ∙ ap (λ k. get_or (set tops i v) k none) p ∙ e)
  | no p ↦ all j t (sym (get_or-set_ne tops i j v none p) ∙ e)
]

pub refs_pos : (tops : List (Option ℕ)) (i t : ℕ) → get_or tops i none ≡ some t → 0 < refs t tops
refs_pos [] i t e = cc
refs_pos (v ∷ tops) zero t e = rw e (ground arith)
refs_pos (v ∷ tops) (suc i) t e = omega (arith, refs_pos tops i t e)

refs_vacate :
    (e : ℕ) (tops : List (Option ℕ)) (i t : ℕ)
    → i < length tops
    → get_or tops i none ≡ some t
    → refs e (set tops i none) + (if t == e then 1 else 0) ≡ refs e tops
refs_vacate e tops i t h held = omega (arith, refs-set e tops i none h, ap (points_to e) held)

refs_occupy :
    (e : ℕ) (tops : List (Option ℕ)) (i q : ℕ)
    → i < length tops
    → get_or tops i none ≡ none
    → refs e (set tops i (some q)) ≡ refs e tops + (if q == e then 1 else 0)
refs_occupy e tops i q h vacant =
    omega (arith, refs-set e tops i (some q) h, ap (points_to e) vacant)

module _ {D : Type 0} (d : Doubles D) where
  pub record IsRated (queue : List (QueueEntry D)) (tops : List (Option ℕ)) : Type 0 where
    pub in_range : (i t : ℕ) → get_or tops i none ≡ some t → t < length queue
    pub counted : (e : ℕ) → e < length queue → (entry_at d queue e).tc_ref ≡ refs e tops
    pub kept : (e : ℕ) → e < length queue → IsKept (entry_at d queue e)

  -- The winner of slot `i` gives it up.
  pub drop-IsRated :
      (queue : List (QueueEntry D)) (tops : List (Option ℕ)) (i t : ℕ)
      → IsRated queue tops
      → i < length tops
      → length tops < 2 ^ 32
      → get_or tops i none ≡ some t
      → IsRated (modify queue t dropped) (set tops i none)
  drop-IsRated queue tops i t r h small held = record {
    in_range =
        rw length-modify
          (in_range-set (length queue) tops i none h r.in_range (λ u e. absurd (cc)));
    counted = λ e l.
        let old = r.counted e (rw length-modify at l) in
        get_or-modify_elim (λ x. x.tc_ref ≡ refs e (set tops i none)) queue t e dropped (blank d)
          (rw length-modify at l)
          (λ p. ground (arith, refs_vacate e tops i t h held, old, refs-le e tops))
          (λ p. ground (arith, refs_vacate e tops i t h held, old));
    kept = λ e l.
        let old = r.counted e (rw length-modify at l) in
        get_or-modify_elim IsKept queue t e dropped (blank d) (rw length-modify at l)
          (λ p.
            dropped-IsKept (entry_at d queue e)
              (rw old (subst (λ k. 0 < refs k tops) p (refs_pos tops i t held)))
              (omega (arith, old, refs-le e tops)) (r.kept e (rw length-modify at l)))
          (λ p. r.kept e (rw length-modify at l));
  }

  -- An entry takes slot `i`, which nobody holds.
  pub grab-IsRated :
      (s : Fuzzer D) (queue : List (QueueEntry D)) (tops : List (Option ℕ)) (i q : ℕ)
      → IsRated queue tops
      → i < length tops
      → length tops + 1 < 2 ^ 32
      → q < length queue
      → get_or tops i none ≡ none
      → IsRated (modify queue q (grabbed s)) (set tops i (some q))
  grab-IsRated s queue tops i q r h small there vacant = record {
    in_range = rw length-modify (
        in_range-set (length queue) tops i (some q) h r.in_range
          (λ u e. let same : q ≡ u = cc in rw (← same) there));
    counted = λ e l.
        let old = r.counted e (rw length-modify at l) in
        get_or-modify_elim (λ x. x.tc_ref ≡ refs e (set tops i (some q))) queue q e (grabbed s)
          (blank d) (rw length-modify at l)
          (λ p. ground (arith, refs_occupy e tops i q h vacant, old, refs-le e tops))
          (λ p. ground (arith, refs_occupy e tops i q h vacant, old));
    kept = λ e l.
        let old = r.counted e (rw length-modify at l) in
        get_or-modify_elim IsKept queue q e (grabbed s) (blank d) (rw length-modify at l)
          (λ p. grabbed-IsKept s (entry_at d queue e) (omega (arith, old, refs-le e tops)))
          (λ p. r.kept e (rw length-modify at l));
  }

  -- The state between two calls: every slot is accounted for, and no count can wrap.
  pub record IsScored (s : Fuzzer D) : Type 0 where
    pub rated : IsRated s.queue s.top_rated
    pub width : length s.top_rated ≡ s.map_size
    pub small : s.map_size + 1 < 2 ^ 32

  pub claim_slot-IsScored :
      (q i : ℕ) (s : Fuzzer D)
      → IsScored s
      → i < s.map_size
      → q < length s.queue
      → get_or s.top_rated i none ≡ none
      → IsScored (claim_slot q i s)
  unfolding claim_slot
  claim_slot-IsScored q i s v h there vacant = record {
    rated =
        grab-IsRated s s.queue s.top_rated i q v.rated (omega (arith, v.width))
          (omega (arith, v.width, v.small)) there vacant;
    width = length-set s.top_rated i (some q) ∙ v.width;
    small = v.small;
  }

  pub replace-IsScored :
      (q t i : ℕ) (s : Fuzzer D)
      → IsScored s
      → i < s.map_size
      → q < length s.queue
      → get_or s.top_rated i none ≡ some t
      → IsScored (claim_slot q i (release t s))
  unfolding claim_slot release
  replace-IsScored q t i s v h there held =
      let inside : i < length s.top_rated = omega (arith, v.width) in
      let vacated =
        drop-IsRated s.queue s.top_rated i t v.rated inside (omega (arith, v.width, v.small))
          held in
      record {
        rated = rw set_twice at (
            grab-IsRated (release t s) (modify s.queue t dropped) (set s.top_rated i none) i q
              vacated (rw length-set inside) (rw length-set (omega (arith, v.width, v.small)))
              (rw length-modify there) (get_or-set_self s.top_rated i none none inside));
        width = length-set s.top_rated i (some q) ∙ v.width;
        small = v.small;
      }
