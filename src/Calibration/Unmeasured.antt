-- ===== src/Calibration/Unmeasured.antt =====
-- The first round of an entry without a distance.
use aflgo.Common.{
  ℕ, ◌%◌, ◌^◌, ◌<◌, ◌≡◌, refl, ap, ◌∙◌, arith, ◌!=◌, true, false, Bool-cases, inl, inr, List,
  length, max, length-zip_with,
}
use aflgo.Doubles.{Doubles}
use aflgo.Bitmap.Memory.{IsBytes}
use aflgo.Bitmap.Virgin.Reference.{novelty, wiped, wipe}
use aflgo.Bitmap.Virgin.Chunk.{wiped-IsBytes}
use aflgo.Bitmap.Virgin.Whole.{novelty-wiped}
use aflgo.Novelty.{Verdict}
use aflgo.Novelty.Laws.{laid, has_new_bits_lem}
use aflgo.Session.{Globals}
use aflgo.Queue.Tracking.{track-IsTracking}
use aflgo.Calibration.{
  Calibration, trace_of, trace_cksum, at_entry, check_bits, take_distance, measure_distance,
  gather_bits, mark_varying, keep_trace, compare_traces, examine, update_entry,
}

module _ {D W : Type 0} (d : Doubles D) where
  -- A state whose trace is laid out as the target leaves it, on maps of whole words.
  pub record IsLaid (hits : List ℕ) (total count : ℕ) (s : Globals D W) : Type 0 where
    pub layout : trace_of s ≡ laid 8 hits total count
    pub size : s.fuzzer.map_size ≡ length hits
    pub whole : length hits % 8 ≡ 0
    pub virgin : length s.virgin_bits ≡ length hits
    pub hit_bytes : IsBytes hits
    pub virgin_bytes : IsBytes s.virgin_bits
    pub total_small : total < 256 ^ 8
    pub count_small : count < 256 ^ 8

  check_bits-ret :
      (hits : List ℕ) (total count : ℕ) (s : Globals D W)
      → IsLaid hits total count s
      → ((check_bits d s).0 ≡ novelty hits s.virgin_bits)
        × ((check_bits d s).1.virgin_bits ≡ wiped hits s.virgin_bits)
  unfolding check_bits
  check_bits-ret hits total count s h =
      let v =
        has_new_bits_lem d 8 hits s.virgin_bits total count true s.bitmap_changed (omega arith)
          h.whole h.virgin h.hit_bytes h.virgin_bytes h.total_small h.count_small in
      rw (h.size, h.layout)
        (ap (λ (x : Verdict D). x.ret) v, ap (λ (x : Verdict D). x.virgin_map) v)

  check_bits-frame :
      (s : Globals D W)
      → (trace_of (check_bits d s).1 ≡ trace_of s)
        × ((check_bits d s).1.fuzzer.map_size ≡ s.fuzzer.map_size)
  unfolding check_bits
  check_bits-frame s = (refl, refl)

  -- The trace is not written, and the virgin map is the one that the first check leaves.
  take_distance-IsLaid :
      (q : ℕ) (hits : List ℕ) (total count : ℕ) (s : Globals D W)
      → IsLaid hits total count s
      → IsLaid hits total count (take_distance d q s)
        × ((take_distance d q s).virgin_bits ≡ wiped hits s.virgin_bits)
  unfolding take_distance
  take_distance-IsLaid q hits total count s h =
      let s1 = (check_bits d s).1 in
      let s2 = update_entry q (λ e. record e { distance = s1.fuzzer.cur_distance }) s1 in
      let k = track-IsTracking d s2.fuzzer in
      let frame = check_bits-frame s in
      let left = (check_bits-ret hits total count s h).1 in
      (
        record {
          layout = k.same_trace ∙ frame.0 ∙ h.layout;
          size = k.same_size ∙ frame.1 ∙ h.size;
          whole = h.whole;
          virgin =
              ap length left ∙ omega (arith, length-zip_with wipe hits s.virgin_bits, h.virgin);
          hit_bytes = h.hit_bytes;
          virgin_bytes = rw left (wiped-IsBytes hits s.virgin_bits);
          total_small = h.total_small;
          count_small = h.count_small;
        },
        left,
      )

  compare_traces-new_bits :
      (q cksum : ℕ) (c : Calibration D W)
      → (compare_traces d q cksum c).new_bits ≡ max c.new_bits (check_bits d c.session).0
  unfolding compare_traces gather_bits mark_varying keep_trace
  compare_traces-new_bits q cksum c =
      elim (Bool-cases ((at_entry d q (gather_bits d c).session).exec_cksum != 0)) [
        | inl known ↦ rw (known, compare_traces, gather_bits, mark_varying) refl
        | inr first ↦ rw (first, compare_traces, gather_bits, keep_trace) refl
      ]

  -- When an entry has no distance above 0, the round that measures it takes the new bits of the
  -- trace out of the virgin map before it looks for them: if no new bits were gathered before, none
  -- are after it. This is for a trace as the target leaves it, on a map of whole words.
  pub examine-new_bits :
      (q : ℕ) (hits : List ℕ) (total count : ℕ) (c : Calibration D W)
      → IsLaid hits total count c.session
      → d.gt (at_entry d q c.session).distance d.zero ≡ false
      → c.new_bits ≡ 0
      → (examine d q c).new_bits ≡ 0
  unfolding examine measure_distance
  examine-new_bits q hits total count c h unmeasured none_yet =
      let s = c.session in
      let s1 = take_distance d q s in
      let k = take_distance-IsLaid q hits total count s h in
      let seen : (check_bits d s1).0 ≡ 0 =
        (check_bits-ret hits total count s1 k.0).0
        ∙ ap (novelty hits) k.1
        ∙ novelty-wiped hits s.virgin_bits h.hit_bytes h.virgin_bytes in
      elim (Bool-cases ((at_entry d q s1).exec_cksum != trace_cksum s)) [
        | inr same ↦ rw (unmeasured, same, examine, measure_distance) none_yet
        | inl differs ↦
            rw (unmeasured, differs, examine, measure_distance)
              (compare_traces-new_bits q (trace_cksum s) (record c { session = s1 })
                ∙ rw (seen, none_yet) refl)
      ]
