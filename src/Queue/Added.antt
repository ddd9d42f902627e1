-- ===== src/Queue/Added.antt =====
-- The entry that `add_to_queue` puts behind the queue.
use aflgo.Common.{
  ℕ, ◌+◌, ◌%◌, ◌≡◌, refl, ap, sym, ◌∙◌, arith, ◌==◌, ltb, if◌then◌else◌, Bool-cases, Option-cases,
  inl, inr, some, List, [], ◌∷◌, ◌++◌, length, length-append, length-modify, get_or-modify_keep,
}
use aflgo.Doubles.{Doubles}
use aflgo.Fuzzer.{QueueEntry, Fuzzer, blank, entry, entry_at}
use aflgo.Queue.{add_to_queue, track_distance, link_hundred, append_entry, fresh_entry}
use aflgo.Queue.Arrivals.{entry_last}
use aflgo.Queue.Tracking.{track-IsTracking}

module _ {D : Type 0} (d : Doubles D) where
  -- A mark for a hundred entries names none of them.
  link_hundred-name :
      (q t : ℕ) (s : Fuzzer D)
      → ((entry d (link_hundred q s) t).fname ≡ (entry d s t).fname)
        × (length (link_hundred q s).queue ≡ length s.queue)
  link_hundred-name q t s = elim (Bool-cases (s.queued_paths % 100 == 0)) [
    | inr no_mark ↦ rw no_mark (refl, refl)
    | inl mark ↦ rw mark (elim (Option-cases s.q_prev100) [
      | inl e ↦ rw e (refl, refl)
      | inr p ↦ rw p.1 (
        get_or-modify_keep (λ (e : QueueEntry D). e.fname) s.queue p.0 t
            (λ e. record e { next_100 = some q }) (blank d) (λ x. refl),
        length-modify s.queue p.0 (λ e. record e { next_100 = some q }),
      )
    ])
  ]

  pub add_to_queue-last :
      (fname : List ℕ) (len passed_det now : ℕ) (s : Fuzzer D)
      → let s' = add_to_queue d fname len passed_det now s in
        (length s'.queue ≡ length s.queue + 1) × ((entry d s' (length s.queue)).fname ≡ fname)
  unfolding add_to_queue
  add_to_queue-last fname len passed_det now s =
      let e = fresh_entry d fname len passed_det s in
      let s1 = track_distance d s in
      let s2 = record s1 {
        max_depth = (if ltb s1.max_depth e.depth then e.depth else s1.max_depth);
      } in
      let same = (track-IsTracking d s).same_queue in
      let k = link_hundred-name (length s.queue) (length s.queue) (append_entry e s2) in
      (
        omega (arith, k.1, length-append s1.queue (e ∷ []), ap length same),
        k.0
            ∙ ap (λ i. (entry_at d (s1.queue ++ (e ∷ [])) i).fname) (ap length (sym same))
            ∙ ap (λ (x : QueueEntry D). x.fname) (entry_last d s1.queue e),
      )
