-- ===== src/Fuzzing/Outcome.antt =====
-- How `common_fuzz_stuff` ends.
use aflgo.Common.{
  ℕ, ◌+◌, ◌%◌, ◌^◌, ◌<◌, ◌≤◌, ◌≡◌, ◌≢◌, refl, ap, arith, ◌==◌, ltb, if◌then◌else◌, ◌&&◌, Bool-cases,
  Option-cases, inl, inr, Option, none, some, List, length, subst,
}
use aflgo.Doubles.{Doubles}
use aflgo.Fuzzer.{Fuzzer}
use aflgo.Session.{Machine, Globals, fault_tmout}
use aflgo.Execution.Laws.{IsServing, run_target-served, run_target-IsRun}
use aflgo.Calibration.Steady.{Finds, finds}
use aflgo.Calibration.Ends.{IsLinking}
use aflgo.Saving.Filed.{IsFiled, run-IsUntouched, untouched-IsFiled}
use aflgo.Saving.Whole.{IsWriting}
use aflgo.Saving.Outcome.{save_if_interesting-IsSaved}
use aflgo.Fuzzing.{tmout_limit, skip_path, process_run, run_buffer, common_fuzz_stuff}

module _ {D W : Type 0} (d : Doubles D) (m : Machine W) where
  -- What the call returns, and a state in order, with at most one entry more.
  pub record IsProcessed (n : ℕ) (out : Option (ℕ × Globals D W)) : Type 0 where
    pub ret : ℕ
    pub more : ℕ
    pub after : Globals D W
    pub returns : out ≡ some (ret, after)
    pub flag : ret ≤ 1
    pub one : ret + more ≤ 1
    pub filed : IsFiled d (n + more) after

  -- The call returns and leaves the queue alone.
  idle :
      (n ret : ℕ) (s t : Globals D W)
      → ret ≤ 1
      → t.fuzzer ≡ s.fuzzer
      → finds t ≡ finds s
      → IsFiled d n s
      → IsProcessed n (some (ret, t))
  idle n ret s t flag same found h =
      let none_more : n ≡ n + 0 = omega arith in
      record {
        ret = ret;
        more = 0;
        after = t;
        returns = refl;
        flag = flag;
        one = omega (arith, flag);
        filed =
            subst (λ k. IsFiled d k t) none_more
              (untouched-IsFiled d m n s t
                (
                  ap (λ (f : Fuzzer D). f.queue) same,
                  ap (λ (f : Fuzzer D). f.top_rated) same,
                  ap (λ (f : Fuzzer D). f.map_size) same,
                  found,
                )
                h);
      }

  process_run-IsProcessed :
      (out_buf : List ℕ) (fault n : ℕ) (s : Globals D W)
      → IsServing m
      → IsLinking m
      → IsWriting m
      → fault ≢ 3
      → s.total_crashes + 1 < 2 ^ 64
      → s.total_tmouts + 1 < 2 ^ 64
      → IsFiled d n s
      → IsProcessed n (process_run d m out_buf fault s)
  unfolding process_run
  process_run-IsProcessed out_buf fault n s serving links writing fine room more h =
      let counted = record s {
        subseq_tmouts = (if fault == fault_tmout then (s.subseq_tmouts + 1) % 2 ^ 32 else 0);
      } in
      elim (Bool-cases (m.stop_soon s.world)) [
        | inl stopped ↦ rw (stopped, process_run) (idle n 1 s s (omega arith) refl refl h)
        | inr going ↦ elim (Bool-cases (fault == fault_tmout && ltb tmout_limit s.subseq_tmouts)) [
          | inl hung ↦
              rw (going, hung, process_run)
                (idle n 1 s (skip_path d counted) (omega arith) refl refl h)
          | inr live ↦ elim (Bool-cases (m.skip_requested s.world)) [
            | inl skipped ↦
                rw (going, live, skipped, process_run)
                  (idle n 1 s (skip_path d (record counted { world = m.clear_skip s.world }))
                    (omega arith) refl refl h)
            | inr wanted ↦
                let k =
                  save_if_interesting-IsSaved d m out_buf fault n counted serving links writing fine
                    room more (untouched-IsFiled d m n s counted (refl, refl, refl, refl) h) in
                rw (going, live, wanted, k.returns, process_run)
                  (record {
                    ret = 0;
                    more = k.keeping;
                    after = record k.after {
                      queued_discovered = (k.after.queued_discovered + k.keeping) % 2 ^ 32;
                    };
                    returns = refl;
                    flag = omega arith;
                    one = omega (arith, k.one);
                    filed =
                        untouched-IsFiled d m (n + k.keeping) k.after _ (refl, refl, refl, refl)
                          k.filed;
                  })
          ]
        ]
      ]

  run_buffer-IsProcessed :
      (out_buf : List ℕ) (n : ℕ) (s : Globals D W)
      → IsServing m
      → IsLinking m
      → IsWriting m
      → s.total_crashes + 1 < 2 ^ 64
      → s.total_tmouts + 1 < 2 ^ 64
      → IsFiled d n s
      → IsProcessed n (run_buffer d m out_buf s)
  unfolding run_buffer
  run_buffer-IsProcessed out_buf n s serving links writing room more h =
      let ran = run_target-served m s.exec_tmout out_buf s serving in
      let s1 = ran.0.1 in
      let u = run-IsUntouched s s1 (run_target-IsRun m s.exec_tmout out_buf s ran.0 ran.1) in
      let crashes = ap (λ (f : Finds). f.total_crashes) u.3 in
      let tmouts = ap (λ (f : Finds). f.total_tmouts) u.3 in
      rw (ran.1, run_buffer)
        (process_run-IsProcessed out_buf ran.0.0 n s1 serving links writing ran.2
          (omega (arith, crashes, room)) (omega (arith, tmouts, more))
          (untouched-IsFiled d m n s s1 u h))

  -- When the target is served, no run fails to start, and links and files can be made,
  -- `common_fuzz_stuff` returns 0 or 1 on every input, also on one that the post-processing library
  -- changes or drops, and leaves a state in order: the queue has one entry more or none, and none if the call returns 1, and the
  -- invariants that `save_if_interesting` keeps hold. This is for a state that is in order, with
  -- counts of timeouts and crashes that do not wrap around.
  pub common_fuzz_stuff-IsProcessed :
      (post_handler : Option (List ℕ → Option (List ℕ))) (out_buf : List ℕ) (n : ℕ)
      (s : Globals D W)
      → IsServing m
      → IsLinking m
      → IsWriting m
      → s.total_crashes + 1 < 2 ^ 64
      → s.total_tmouts + 1 < 2 ^ 64
      → IsFiled d n s
      → IsProcessed n (common_fuzz_stuff d m post_handler out_buf s)
  unfolding common_fuzz_stuff
  common_fuzz_stuff-IsProcessed none out_buf n s serving links writing room more h =
      run_buffer-IsProcessed out_buf n s serving links writing room more h
  common_fuzz_stuff-IsProcessed (some post) out_buf n s serving links writing room more h =
      elim (Option-cases (post out_buf)) [
        | inl dropped ↦ rw (dropped, common_fuzz_stuff) (idle n 0 s s (omega arith) refl refl h)
        | inr changed ↦ elim (Bool-cases (length changed.0 == 0)) [
          | inl empty ↦
              rw (changed.1, empty, common_fuzz_stuff) (idle n 0 s s (omega arith) refl refl h)
          | inr full ↦
              rw (changed.1, full, common_fuzz_stuff)
                (run_buffer-IsProcessed changed.0 n s serving links writing room more h)
        ]
      ]
