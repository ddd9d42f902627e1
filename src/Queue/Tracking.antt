-- ===== src/Queue/Tracking.antt =====
-- What the writes to the bounds of the distances in `add_to_queue` leave alone.
use aflgo.Common.{◌≡◌, refl, ap, ◌∙◌, not, Bool-cases, inl, inr}
use aflgo.Doubles.{Doubles}
use aflgo.Fuzzer.{Fuzzer}
use aflgo.Queue.{track_distance, seed_bounds, raise_max, lower_min}

module _ {D : Type 0} where
  -- A state that differs from another only in the bounds.
  abbrev pub IsBounded : Fuzzer D → Fuzzer D → Type 0
  IsBounded s s' = s' ≡ record s { max_distance = s'.max_distance; min_distance = s'.min_distance }

  IsBounded-trans : (s t u : Fuzzer D) → IsBounded s t → IsBounded t u → IsBounded s u
  IsBounded-trans s t u e f =
      f
      ∙ ap
          (λ (x : Fuzzer D). record x {
            max_distance = u.max_distance;
            min_distance = u.min_distance;
          })
          e

  -- What others read of such a state.
  pub record IsTracking (s s' : Fuzzer D) : Type 0 where
    pub same_queue : s'.queue ≡ s.queue
    pub same_trace : s'.trace_bits ≡ s.trace_bits
    pub same_size : s'.map_size ≡ s.map_size
    pub same_paths : s'.queued_paths ≡ s.queued_paths
    pub same_prev : s'.q_prev100 ≡ s.q_prev100
    pub same_waiting : s'.pending_not_fuzzed ≡ s.pending_not_fuzzed
    pub same_wanted : s'.pending_favored ≡ s.pending_favored

module _ {D : Type 0} (d : Doubles D) where
  pub seed-IsBounded : (s : Fuzzer D) → IsBounded s (seed_bounds d s)
  unfolding seed_bounds
  seed-IsBounded s = elim (Bool-cases (not (d.gt s.max_distance d.zero))) [
    | inl unset ↦ rw unset refl
    | inr set ↦ rw set refl
  ]

  pub raise-IsBounded : (s : Fuzzer D) → IsBounded s (raise_max d s)
  unfolding raise_max
  raise-IsBounded s = elim (Bool-cases (d.gt s.cur_distance s.max_distance)) [
    | inl above ↦ rw above refl
    | inr below ↦ rw below refl
  ]

  pub lower_keep : (s : Fuzzer D) → (lower_min d s).max_distance ≡ s.max_distance
  unfolding lower_min
  lower_keep s = elim (Bool-cases (d.gt s.min_distance s.cur_distance)) [
    | inl below ↦ rw below refl
    | inr above ↦ rw above refl
  ]

  lower-IsBounded : (s : Fuzzer D) → IsBounded s (lower_min d s)
  unfolding lower_min
  lower-IsBounded s = elim (Bool-cases (d.gt s.min_distance s.cur_distance)) [
    | inl below ↦ rw below refl
    | inr above ↦ rw above refl
  ]

  -- The three writes in their order.
  abbrev pub tracked : Fuzzer D → Fuzzer D
  tracked s = lower_min d (raise_max d (seed_bounds d s))

  tracked-IsBounded : (s : Fuzzer D) → IsBounded s (tracked s)
  tracked-IsBounded s =
      let s1 = seed_bounds d s in
      let s2 = raise_max d s1 in
      IsBounded-trans s s1 (lower_min d s2) (seed-IsBounded s)
        (IsBounded-trans s1 s2 (lower_min d s2) (raise-IsBounded s1) (lower-IsBounded s2))

  track-IsBounded : (s : Fuzzer D) → IsBounded s (track_distance d s)
  unfolding track_distance
  track-IsBounded s = elim (Bool-cases (d.gt s.cur_distance d.zero)) [
    | inl on ↦ rw on (tracked-IsBounded s)
    | inr off ↦ rw off refl
  ]

  pub track-IsTracking : (s : Fuzzer D) → IsTracking s (track_distance d s)
  track-IsTracking s =
      let e = track-IsBounded s in
      record {
        same_queue = ap (λ (f : Fuzzer D). f.queue) e;
        same_trace = ap (λ (f : Fuzzer D). f.trace_bits) e;
        same_size = ap (λ (f : Fuzzer D). f.map_size) e;
        same_paths = ap (λ (f : Fuzzer D). f.queued_paths) e;
        same_prev = ap (λ (f : Fuzzer D). f.q_prev100) e;
        same_waiting = ap (λ (f : Fuzzer D). f.pending_not_fuzzed) e;
        same_wanted = ap (λ (f : Fuzzer D). f.pending_favored) e;
      }
