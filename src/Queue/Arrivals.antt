-- ===== src/Queue/Arrivals.antt =====
-- What `add_to_queue` keeps: the slots and their reference counts.
use aflgo.Common.{
  ℕ, zero, suc, ◌%◌, ◌<◌, ◌≡◌, refl, sym, ◌∙◌, arith, if◌then◌else◌, ◌==◌, ltb, Bool-cases, inl,
  inr, Option, none, some, Option-cases, List, [], ◌∷◌, ◌++◌, length, length-append, get_or,
  length-modify, get_or-modify_keep, get_or-modify_elim, not,
}
use native.Mathlib.Decide.{ℕ_discrete}
use aflgo.Doubles.{Doubles}
use aflgo.Fuzzer.{QueueEntry, Fuzzer, blank, entry_at}
use aflgo.Queue.{
  add_to_queue, track_distance, seed_bounds, raise_max, lower_min, link_hundred, append_entry,
  fresh_entry,
}
use aflgo.Queue.Refs.{refs, IsKept, IsRated, IsScored}

module _ {D : Type 0} (d : Doubles D) where
  pub entry_append :
      (queue : List (QueueEntry D)) (e : QueueEntry D) (t : ℕ)
      → t < length queue
      → entry_at d (queue ++ (e ∷ [])) t ≡ entry_at d queue t
  entry_append [] e t h = absurd (omega arith)
  entry_append (x ∷ queue) e zero h = refl
  entry_append (x ∷ queue) e (suc t) h = entry_append queue e t (omega arith)

  pub entry_last :
      (queue : List (QueueEntry D)) (e : QueueEntry D)
      → entry_at d (queue ++ (e ∷ [])) (length queue) ≡ e
  entry_last [] e = refl
  entry_last (x ∷ queue) e = entry_last queue e

  -- No slot points behind the queue.
  refs_beyond :
      (n : ℕ) (tops : List (Option ℕ))
      → ((i t : ℕ) → get_or tops i none ≡ some t → t < n)
      → refs n tops ≡ 0
  refs_beyond n [] h = refl
  refs_beyond n (none ∷ tops) h = omega (arith, refs_beyond n tops (λ i. h (suc i)))
  refs_beyond n (some t ∷ tops) h = ground (arith, h 0 t refl, refs_beyond n tops (λ i. h (suc i)))

  append-IsRated :
      (queue : List (QueueEntry D)) (tops : List (Option ℕ)) (e : QueueEntry D)
      → e.tc_ref ≡ 0
      → e.trace_mini ≡ none
      → IsRated d queue tops
      → IsRated d (queue ++ (e ∷ [])) tops
  append-IsRated queue tops e free bare r = record {
    in_range = λ i t held. omega (arith, r.in_range i t held, length-append queue (e ∷ []));
    counted = λ k l. elim (ℕ_discrete k (length queue)) [
      | yes new ↦ rw (new, entry_last) (free ∙ sym (refs_beyond (length queue) tops r.in_range))
      | no old ↦
          let inside : k < length queue = omega (arith, length-append queue (e ∷ [])) in
          rw (entry_append queue e k inside) (r.counted k inside)
    ];
    kept = λ k l. elim (ℕ_discrete k (length queue)) [
      | yes new ↦ rw (new, entry_last, bare, free) refl
      | no old ↦
          let inside : k < length queue = omega (arith, length-append queue (e ∷ [])) in
          rw (entry_append queue e k inside) (r.kept k inside)
    ];
  }

  link_hundred-IsScored : (q : ℕ) (s : Fuzzer D) → IsScored d s → IsScored d (link_hundred q s)
  link_hundred-IsScored q s v = elim (Bool-cases (s.queued_paths % 100 == 0)) [
    | inr no_mark ↦ rw no_mark v
    | inl mark ↦ rw mark (elim (Option-cases s.q_prev100) [
      | inl e ↦ rw e v
      | inr p ↦ rw p.1 (record {
        rated = record {
          in_range = rw length-modify v.rated.in_range;
          counted = λ k l.
              get_or-modify_keep (λ (e : QueueEntry D). e.tc_ref) s.queue p.0 k
                (λ e. record e { next_100 = some q }) (blank d) (λ x. refl)
              ∙ v.rated.counted k (rw length-modify at l);
          kept = λ k l.
              get_or-modify_elim IsKept s.queue p.0 k (λ e. record e { next_100 = some q })
                (blank d) (rw length-modify at l) (λ same. v.rated.kept k (rw length-modify at l))
                (λ other. v.rated.kept k (rw length-modify at l));
        };
        width = v.width;
        small = v.small;
      })
    ])
  ]

  -- The distances are not what the slots are about.
  pub track_distance-IsScored : (s : Fuzzer D) → IsScored d s → IsScored d (track_distance d s)
  unfolding track_distance seed_bounds raise_max lower_min
  track_distance-IsScored s v = elim (Bool-cases (d.gt s.cur_distance d.zero)) [
    | inr off ↦ rw off v
    | inl on ↦ rw on (lower (raise_max d (seed_bounds d s)) (upper (seed_bounds d s) (seed s v)))
  ]
    where
      seed : (s : Fuzzer D) → IsScored d s → IsScored d (seed_bounds d s)
      seed s v = elim (Bool-cases (not (d.gt s.max_distance d.zero))) [
        | inl b ↦ rw b (record { rated = v.rated; width = v.width; small = v.small })
        | inr b ↦ rw b v
      ]

      upper : (s : Fuzzer D) → IsScored d s → IsScored d (raise_max d s)
      upper s v = elim (Bool-cases (d.gt s.cur_distance s.max_distance)) [
        | inl b ↦ rw b (record { rated = v.rated; width = v.width; small = v.small })
        | inr b ↦ rw b v
      ]

      lower : (s : Fuzzer D) → IsScored d s → IsScored d (lower_min d s)
      lower s v = elim (Bool-cases (d.gt s.min_distance s.cur_distance)) [
        | inl b ↦ rw b (record { rated = v.rated; width = v.width; small = v.small })
        | inr b ↦ rw b v
      ]

  -- `add_to_queue` keeps the invariant of the slots: each slot points into the queue, `tc_ref` of
  -- each entry, the new one included, is the number of slots that point to it, and its `trace_mini`
  -- is allocated exactly if that number is not 0.
  pub add_to_queue-IsScored :
      (fname : List ℕ) (len passed_det now : ℕ) (s : Fuzzer D)
      → IsScored d s
      → IsScored d (add_to_queue d fname len passed_det now s)
  unfolding add_to_queue
  add_to_queue-IsScored fname len passed_det now s v =
      let e = fresh_entry d fname len passed_det s in
      let t = track_distance-IsScored s v in
      let s1 = track_distance d s in
      let s2 = record s1 {
        max_depth = (if ltb s1.max_depth e.depth then e.depth else s1.max_depth);
      } in
      let appended : IsScored d (append_entry e s2) = record {
        rated = append-IsRated s1.queue s1.top_rated e refl refl t.rated;
        width = t.width;
        small = t.small;
      } in
      let linked = link_hundred-IsScored (length s.queue) (append_entry e s2) appended in
      record { rated = linked.rated; width = linked.width; small = linked.small }
