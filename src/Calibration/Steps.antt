-- ===== src/Calibration/Steps.antt =====
-- The steps of a round of a calibration keep what Steady lists, and `stage_max` between its limits.
use aflgo.Common.{
  ℕ, zero, suc, ◌+◌, ◌≤◌, ◌≡◌, ◌≢◌, arith, get_or, set, ◌&&◌, refl, ap, sym, ◌∙◌, ◌==◌, ◌!=◌,
  Bool-cases, inl, inr, List, length,
}
use aflgo.Doubles.{Doubles}
use aflgo.Fuzzer.{entry_at}
use aflgo.Queue.Arrivals.{track_distance-IsScored}
use aflgo.Queue.Tracking.{track-IsTracking}
use aflgo.Session.{Globals}
use aflgo.Calibration.{
  Calibration, trace_of, trace_cksum, update_entry, check_bits, at_entry, take_distance,
  measure_distance, gather_bits, mark_varying, keep_trace, compare_traces, examine,
}
use aflgo.Calibration.Steady.{Finds, IsSteady, carry-IsSteady, update_entry-IsSteady}
use aflgo.Calibration.{vary, cal_cycles_long}

module _ {D W : Type 0} (d : Doubles D) (q n tries : ℕ) (name : List ℕ) (f : Finds) where
  pub check_bits-IsSteady :
      (s : Globals D W)
      → IsSteady d q n tries name f s
      → IsSteady d q n tries name f (check_bits d s).1
  unfolding check_bits
  check_bits-IsSteady s h =
      carry-IsSteady d q n tries name f s (check_bits d s).1 refl refl refl refl h

  take_distance-IsSteady :
      (s : Globals D W)
      → IsSteady d q n tries name f s
      → IsSteady d q n tries name f (take_distance d q s)
  unfolding take_distance
  take_distance-IsSteady s h =
      let s1 = (check_bits d s).1 in
      let s2 = update_entry q (λ e. record e { distance = s1.fuzzer.cur_distance }) s1 in
      let h2 =
        update_entry-IsSteady d q n tries name f q
          (λ e. record e { distance = s1.fuzzer.cur_distance }) s1 (λ e. (refl, refl, refl, refl))
          (check_bits-IsSteady s h) in
      record {
        scored = track_distance-IsScored d s2.fuzzer h2.scored;
        same_length = ap length (track-IsTracking d s2.fuzzer).same_queue ∙ h2.same_length;
        same_finds = h2.same_finds;
        same_tries =
            ap (λ k. (entry_at d k q).cal_failed) (track-IsTracking d s2.fuzzer).same_queue
            ∙ h2.same_tries;
        same_name =
            ap (λ k. (entry_at d k q).fname) (track-IsTracking d s2.fuzzer).same_queue
            ∙ h2.same_name;
      }

  measure_distance-IsSteady :
      (s : Globals D W)
      → IsSteady d q n tries name f s
      → IsSteady d q n tries name f (measure_distance d q s)
  unfolding measure_distance
  measure_distance-IsSteady s h = elim (Bool-cases (d.gt (at_entry d q s).distance d.zero)) [
    | inl far ↦ rw (far, measure_distance) h
    | inr unknown ↦ rw (unknown, measure_distance) (take_distance-IsSteady s h)
  ]

  pub gather_bits-IsSteady :
      (c : Calibration D W)
      → IsSteady d q n tries name f c.session
      → IsSteady d q n tries name f (gather_bits d c).session
  unfolding gather_bits
  gather_bits-IsSteady c h = check_bits-IsSteady c.session h

  compare_traces-IsSteady :
      (cksum : ℕ) (c : Calibration D W)
      → IsSteady d q n tries name f c.session
      → IsSteady d q n tries name f (compare_traces d q cksum c).session
  unfolding compare_traces mark_varying keep_trace
  compare_traces-IsSteady cksum c h =
      let c1 = gather_bits d c in
      let s = c1.session in
      let h1 = gather_bits-IsSteady c h in
      elim (Bool-cases ((at_entry d q s).exec_cksum != 0)) [
        | inl known ↦
            rw (known, compare_traces, mark_varying)
              (carry-IsSteady d q n tries name f s _ refl refl refl refl h1)
        | inr first ↦
            rw (first, compare_traces, keep_trace)
              (carry-IsSteady d q n tries name f
                (update_entry q (λ e. record e { exec_cksum = cksum }) s) _ refl refl refl refl
                (update_entry-IsSteady d q n tries name f q (λ e. record e { exec_cksum = cksum }) s
                  (λ e. (refl, refl, refl, refl)) h1))
      ]

  pub examine-IsSteady :
      (c : Calibration D W)
      → IsSteady d q n tries name f c.session
      → IsSteady d q n tries name f (examine d q c).session
  unfolding examine
  examine-IsSteady c h =
      let cksum = trace_cksum c.session in
      let s1 = measure_distance d q c.session in
      let h1 = measure_distance-IsSteady c.session h in
      elim (Bool-cases ((at_entry d q s1).exec_cksum != cksum)) [
        | inl differs ↦
            rw (differs, examine) (compare_traces-IsSteady cksum (record c { session = s1 }) h1)
        | inr same ↦ rw (same, examine) h1
      ]

vary-le :
    (n i : ℕ) (first_trace trace : List ℕ) (v : List ℕ × ℕ)
    → 3 ≤ v.1
    → v.1 ≤ cal_cycles_long
    → (3 ≤ (vary n i first_trace trace v).1) × ((vary n i first_trace trace v).1 ≤ cal_cycles_long)
unfolding vary
vary-le zero i first_trace trace v low high = (low, high)
vary-le (suc n) i first_trace trace v low high =
    elim (Bool-cases (get_or v.0 i 0 == 0 && get_or first_trace i 0 != get_or trace i 0)) [
      | inl varies ↦
          rw (varies, vary)
            (vary-le n (i + 1) first_trace trace (set v.0 i 1, cal_cycles_long) (omega arith)
              (omega arith))
      | inr steady ↦ rw (steady, vary) (vary-le n (i + 1) first_trace trace v low high)
    ]

module _ {D W : Type 0} (d : Doubles D) (q n tries : ℕ) (name : List ℕ) (f : Finds) where
  -- The locals between two rounds.
  pub record IsCalm (c : Calibration D W) : Type 0 where
    pub steady : IsSteady d q n tries name f c.session
    pub low : 3 ≤ c.stage_max
    pub high : c.stage_max ≤ cal_cycles_long
    pub fine : c.fault ≢ 3

  compare_traces-stage :
      (cksum : ℕ) (c : Calibration D W)
      → 3 ≤ c.stage_max
      → c.stage_max ≤ cal_cycles_long
      → (3 ≤ (compare_traces d q cksum c).stage_max)
        × ((compare_traces d q cksum c).stage_max ≤ cal_cycles_long)
        × ((compare_traces d q cksum c).fault ≡ c.fault)
  unfolding compare_traces mark_varying keep_trace gather_bits
  compare_traces-stage cksum c low high =
      let s = (gather_bits d c).session in
      elim (Bool-cases ((at_entry d q s).exec_cksum != 0)) [
        | inl known ↦
            let v =
              vary-le s.fuzzer.map_size 0 s.first_trace (trace_of s) (s.var_bytes, c.stage_max) low
                high in
            rw (known, compare_traces, mark_varying, gather_bits) (v.0, v.1, refl)
        | inr first ↦ rw (first, compare_traces, keep_trace, gather_bits) (low, high, refl)
      ]

  pub examine-IsCalm : (c : Calibration D W) → IsCalm c → IsCalm (examine d q c)
  unfolding examine
  examine-IsCalm c h =
      let cksum = trace_cksum c.session in
      let s1 = measure_distance d q c.session in
      let c1 = record c { session = s1 } in
      let steady = examine-IsSteady d q n tries name f c h.steady in
      elim (Bool-cases ((at_entry d q s1).exec_cksum != cksum)) [
        | inl differs ↦
            let k = compare_traces-stage cksum c1 h.low h.high in
            rw (differs, examine)
              (record {
                steady = rw (differs, examine) at steady;
                low = k.0;
                high = k.1;
                fine = λ e. h.fine (sym k.2 ∙ e);
              })
        | inr same ↦
            rw (same, examine)
              (record {
                steady = rw (same, examine) at steady;
                low = h.low;
                high = h.high;
                fine = h.fine;
              })
      ]
