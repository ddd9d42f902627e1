-- ===== src/Queue/Marks.antt =====
-- `cull_queue` as a whole, where every system call succeeds and every file name has a `/`.
use aflgo.Common.{
  ◌||◌, ℕ, ◌%◌, ◌<◌, ◌≡◌, ◌≢◌, ◌∙◌, arith, if◌then◌else◌, Bool, true, false, inl, inr, ◌!=◌, ◌==◌,
  Option, some, List, length, length-map,
}
use aflgo.Doubles.{Doubles}
use aflgo.Fuzzer.{QueueEntry, Fuzzer, SysCall, entry}
use aflgo.Queue.{cull_queue, cull_reset}
use aflgo.Queue.Refs.{IsRated}
use aflgo.Queue.Cull.{IsServed, cull_loop-IsCulled, cull_reset-IsCulling, entry-unfavored}
use aflgo.Queue.Selected.{HasBytes}
use aflgo.Queue.Redundant.{IsMarking, HasNames, mark_loop-IsMarked}

module _ {D : Type 0} (d : Doubles D) (sys : List SysCall → SysCall → Bool)
    (succeeds : (l : List SysCall) (c : SysCall) → sys l c ≡ true) where
  -- What a call of `cull_queue` that has work to do leaves behind.
  pub record IsCulledQueue (s : Fuzzer D) (out : Option (Fuzzer D)) : Type 0 where
    pub after : Fuzzer D
    pub returns : out ≡ some after
    pub served : (k : ℕ) → k < s.map_size → IsServed d after k
    pub marks :
        (q : ℕ)
        → q < length s.queue
        → (entry d after q).fs_redundant ≡ (if (entry d after q).favored == 0 then 1 else 0)
    pub rated : IsRated d after.queue after.top_rated
    pub same_slots : after.top_rated ≡ s.top_rated
    pub cleared : after.score_changed ≡ 0

  IsServed-IsMarking :
      (s s' : Fuzzer D) (k : ℕ) → IsMarking d s s' → IsServed d s k → IsServed d s' k
  IsServed-IsMarking s s' k m v t e = elim (v t (rw m.same_slots at e)) [
    | inl fav ↦ inl (m.same_favored t ∙ fav)
    | inr c ↦ inr (c.0, m.same_favored c.0 ∙ c.1, (c.2.0, m.same_mini c.0 ∙ c.2.1, c.2.2))
  ]

  IsRated-IsMarking :
      (s s' : Fuzzer D)
      → IsMarking d s s'
      → IsRated d s.queue s.top_rated
      → IsRated d s'.queue s'.top_rated
  IsRated-IsMarking s s' m r = record {
    in_range = λ i t e. rw m.same_length (r.in_range i t (rw m.same_slots at e));
    counted = λ e l. rw (m.same_refs e, m.same_slots) (r.counted e (rw m.same_length at l));
    kept = λ e l. rw (m.same_refs e, m.same_mini e) (r.kept e (rw m.same_length at l));
  }

  -- Where every system call succeeds, and on a state with work to do whose map size is a multiple
  -- of 8, whose slots are rated, whose `trace_mini` hold bytes and whose files have names,
  -- `cull_queue` returns: it reads no NULL `trace_mini`. Afterwards each slot that has a holder is served: the
  -- holder is a favorite, or a favorite's `trace_mini` has the bit of the slot. The redundancy mark
  -- of every entry says whether it is no favorite, the slots are as before and stay rated, and
  -- `score_changed` is 0.
  pub cull_queue-IsCulledQueue :
      (s : Fuzzer D)
      → s.dumb_mode ≡ 0
      → s.score_changed ≢ 0
      → s.map_size % 8 ≡ 0
      → IsRated d s.queue s.top_rated
      → HasBytes d s
      → HasNames d sys succeeds s
      → IsCulledQueue s (cull_queue d sys s)
  unfolding cull_queue
  cull_queue-IsCulledQueue s smart changed whole r bytes names =
      let s0 = cull_reset s in
      let loop =
        cull_loop-IsCulled d s.map_size 0 s0 (cull_reset-IsCulling d s whole bytes r)
          (omega arith) in
      let s1 = loop.after in
      let names1 : HasNames d sys succeeds s1 = λ t h.
        rw (loop.selected.same_name t, entry-unfavored)
          (names t (
            omega (
              arith,
              loop.selected.same_length,
              length-map (λ (e : QueueEntry D). record e { favored = 0 }) s.queue,
            ))) in
      let last = mark_loop-IsMarked d sys succeeds (length s1.queue) 0 s1 names1 (omega arith) in
      let s2 = last.after in
      record {
        after = s2;
        returns = rw (work s smart changed, loop.returns, cull_queue) last.returns;
        served = λ k h.
            IsServed-IsMarking s1 s2 k last.marking (loop.served k (omega arith) (omega arith));
        marks = λ q h. last.marks q (omega arith) (
            omega (
              arith,
              loop.selected.same_length,
              length-map (λ (e : QueueEntry D). record e { favored = 0 }) s.queue,
            ));
        rated = IsRated-IsMarking s1 s2 last.marking loop.culling.rated;
        same_slots = last.marking.same_slots ∙ loop.selected.same_slots;
        cleared = last.marking.same_score ∙ loop.selected.same_score;
      }
    where
      work :
          (s : Fuzzer D)
          → s.dumb_mode ≡ 0
          → s.score_changed ≢ 0
          → (s.dumb_mode != 0 || s.score_changed == 0) ≡ false
      work s smart changed = ground arith
