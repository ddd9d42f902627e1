-- ===== src/Queue/Distances.antt =====
-- The bounds that `add_to_queue` keeps on the distances of the queue.
use aflgo.Common.{
  ℕ, ◌+◌, ◌<◌, ◌≡◌, refl, ap, ap₂, subst, sym, ◌∙◌, arith, if◌then◌else◌, true, false, Bool-cases,
  inl, inr, some, Option-cases, List, [], ◌∷◌, ◌++◌, length, length-append, length-modify,
  get_or-modify_keep, ◌%◌, ◌==◌, ltb,
}
use native.Mathlib.Decide.{ℕ_discrete}
use aflgo.Doubles.{Doubles, IsOrder}
use aflgo.Fuzzer.{QueueEntry, Fuzzer, blank, entry_at, entry}
use aflgo.Queue.{
  add_to_queue, track_distance, seed_bounds, raise_max, lower_min, link_hundred, append_entry,
  fresh_entry,
}
use aflgo.Queue.Tracking.{tracked, seed-IsBounded, raise-IsBounded, lower_keep, track-IsTracking}
use aflgo.Queue.Arrivals.{entry_append, entry_last}

module _ {D : Type 0} (d : Doubles D) where
  -- A distance between the bounds.
  abbrev pub IsWithin : Fuzzer D → D → Type 0
  IsWithin s x = (d.gt x s.max_distance ≡ false) × (d.gt s.min_distance x ≡ false)

  -- Each distance above 0 in the queue is between the bounds.
  abbrev pub IsBracketed : Fuzzer D → Type 0
  IsBracketed s =
      (t : ℕ)
      → t < length s.queue
      → d.gt (entry d s t).distance d.zero ≡ true
      → IsWithin s (entry d s t).distance

  -- A mark for a hundred entries changes no distance.
  link_hundred-distance :
      (q t : ℕ) (s : Fuzzer D)
      → ((entry d (link_hundred q s) t).distance ≡ (entry d s t).distance)
        × (length (link_hundred q s).queue ≡ length s.queue)
        × ((link_hundred q s).max_distance ≡ s.max_distance)
        × ((link_hundred q s).min_distance ≡ s.min_distance)
  link_hundred-distance q t s = elim (Bool-cases (s.queued_paths % 100 == 0)) [
    | inr no_mark ↦ rw no_mark (refl, refl, refl, refl)
    | inl mark ↦ rw mark (elim (Option-cases s.q_prev100) [
      | inl e ↦ rw e (refl, refl, refl, refl)
      | inr p ↦ rw p.1 (
        get_or-modify_keep (λ (e : QueueEntry D). e.distance) s.queue p.0 t
            (λ e. record e { next_100 = some q }) (blank d) (λ x. refl),
        length-modify s.queue p.0 (λ e. record e { next_100 = some q }),
        refl,
        refl,
      )
    ])
  ]

  module _ (o : IsOrder d) where
    not_gt : (a b : D) → (d.gt a b ≡ true → true ≡ false) → d.gt a b ≡ false
    not_gt a b h = elim (Bool-cases (d.gt a b)) [ inl e ↦ e ∙ h e | inr e ↦ e ]

    seed-IsWithin :
        (s : Fuzzer D) (x : D) → d.gt x d.zero ≡ true → IsWithin s x → IsWithin (seed_bounds d s) x
    unfolding seed_bounds
    seed-IsWithin s x above w = elim (Bool-cases (d.gt s.max_distance d.zero)) [
      | inl set ↦ rw set w
      | inr unset ↦ elim (o.total x d.zero s.max_distance above) [
        | inl over ↦ absurd (cc (over, w.0))
        | inr positive ↦ absurd (cc (positive, unset))
      ]
    ]

    raise-IsWithin : (s : Fuzzer D) (x : D) → IsWithin s x → IsWithin (raise_max d s) x
    unfolding raise_max
    raise-IsWithin s x w = elim (Bool-cases (d.gt s.cur_distance s.max_distance)) [
      | inr old ↦ rw old w
      | inl new ↦ rw new (
        not_gt x s.cur_distance
            (λ e. sym (o.transitive x s.cur_distance s.max_distance e new) ∙ w.0),
        w.1,
      )
    ]

    lower-IsWithin : (s : Fuzzer D) (x : D) → IsWithin s x → IsWithin (lower_min d s) x
    unfolding lower_min
    lower-IsWithin s x w = elim (Bool-cases (d.gt s.min_distance s.cur_distance)) [
      | inr old ↦ rw old w
      | inl new ↦ rw new (
        w.0,
        not_gt s.cur_distance x
            (λ e. sym (o.transitive s.min_distance s.cur_distance x new e) ∙ w.1),
      )
    ]

    -- The current distance itself.
    raise-current : (s : Fuzzer D) → d.gt s.cur_distance (raise_max d s).max_distance ≡ false
    unfolding raise_max
    raise-current s = elim (Bool-cases (d.gt s.cur_distance s.max_distance)) [
      | inl new ↦ rw new (o.irreflexive s.cur_distance)
      | inr old ↦ rw old old
    ]

    lower-current : (s : Fuzzer D) → d.gt (lower_min d s).min_distance s.cur_distance ≡ false
    unfolding lower_min
    lower-current s = elim (Bool-cases (d.gt s.min_distance s.cur_distance)) [
      | inl new ↦ rw new (o.irreflexive s.cur_distance)
      | inr old ↦ rw old old
    ]

    track-old :
        (s : Fuzzer D) (x : D)
        → d.gt x d.zero ≡ true
        → IsWithin s x
        → IsWithin (track_distance d s) x
    unfolding track_distance
    track-old s x above w = elim (Bool-cases (d.gt s.cur_distance d.zero)) [
      | inr off ↦ rw off w
      | inl on ↦ rw on (
          lower-IsWithin (raise_max d (seed_bounds d s)) x
            (raise-IsWithin (seed_bounds d s) x (seed-IsWithin s x above w)))
    ]

    tracked-new : (s : Fuzzer D) → IsWithin (tracked d s) s.cur_distance
    tracked-new s =
        let s1 = seed_bounds d s in
        let s2 = raise_max d s1 in
        let a = ap (λ (f : Fuzzer D). f.cur_distance) (seed-IsBounded d s) in
        let b = ap (λ (f : Fuzzer D). f.cur_distance) (raise-IsBounded d s1) in
        (
          ap₂ d.gt (sym a) (lower_keep d s2) ∙ raise-current s1,
          ap (d.gt (tracked d s).min_distance) (sym (b ∙ a)) ∙ lower-current s2,
        )

    track-new :
        (s : Fuzzer D)
        → d.gt s.cur_distance d.zero ≡ true
        → IsWithin (track_distance d s) s.cur_distance
    unfolding track_distance
    track-new s on = rw on (tracked-new s)

    -- The entries of the queue with a new one behind them.
    appended-IsWithin :
        (s : Fuzzer D) (e : QueueEntry D) (t : ℕ)
        → e.distance ≡ s.cur_distance
        → IsBracketed s
        → t < length s.queue + 1
        → let x = (entry_at d ((track_distance d s).queue ++ (e ∷ [])) t).distance in
          d.gt x d.zero ≡ true → IsWithin (track_distance d s) x
    appended-IsWithin s e t current v inside above =
        let same = (track-IsTracking d s).same_queue in
        elim (ℕ_discrete t (length s.queue)) [
          | yes new ↦
              let this : (entry_at d ((track_distance d s).queue ++ (e ∷ [])) t).distance
                  ≡ s.cur_distance =
                ap (λ i. (entry_at d ((track_distance d s).queue ++ (e ∷ [])) i).distance)
                  (new ∙ sym (ap length same))
                ∙ ap (λ (x : QueueEntry D). x.distance) (entry_last d (track_distance d s).queue e)
                ∙ current in
              subst (IsWithin (track_distance d s)) (sym this)
                (track-new s (ap (λ x. d.gt x d.zero) (sym this) ∙ above))
          | no old ↦
              let this : (entry_at d ((track_distance d s).queue ++ (e ∷ [])) t).distance
                  ≡ (entry d s t).distance =
                ap (λ (x : QueueEntry D). x.distance)
                  (entry_append d (track_distance d s).queue e t (rw same (omega arith))
                    ∙ ap (λ q. entry_at d q t) same) in
              let positive = ap (λ x. d.gt x d.zero) (sym this) ∙ above in
              subst (IsWithin (track_distance d s)) (sym this)
                (track-old s (entry d s t).distance positive (v t (omega arith) positive))
        ]

    -- When `>` on distances is a strict order, `add_to_queue` keeps the distances bracketed: after
    -- it, too, no distance above 0 in the queue, the new one included, is above `max_distance` or
    -- below `min_distance`.
    pub add_to_queue-IsBracketed :
        (fname : List ℕ) (len passed_det now : ℕ) (s : Fuzzer D)
        → IsBracketed s
        → IsBracketed (add_to_queue d fname len passed_det now s)
    unfolding add_to_queue
    add_to_queue-IsBracketed fname len passed_det now s v t l above =
        let e = fresh_entry d fname len passed_det s in
        let s1 = track_distance d s in
        let s2 = record s1 {
          max_depth = (if ltb s1.max_depth e.depth then e.depth else s1.max_depth);
        } in
        let k = link_hundred-distance (length s.queue) t (append_entry e s2) in
        let w =
          appended-IsWithin s e t refl v
            (omega (
              arith,
              k.1,
              l,
              length-append s1.queue (e ∷ []),
              ap length (track-IsTracking d s).same_queue,
            ))
            (ap (λ x. d.gt x d.zero) (sym k.0) ∙ above) in
        (ap₂ d.gt k.0 k.2 ∙ w.0, ap₂ d.gt k.3 k.0 ∙ w.1)
