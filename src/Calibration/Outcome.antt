-- ===== src/Calibration/Outcome.antt =====
-- The whole of `calibrate_case`.
use aflgo.Common.{
  ℕ, ◌+◌, ◌%◌, ◌^◌, ◌<◌, ◌≤◌, ◌≡◌, ◌≢◌, ◌⊎◌, refl, ap, arith, ◌==◌, ◌!=◌, Bool, true, not, ◌||◌,
  Bool-cases, inl, inr, Option, some, List, length,
}
use aflgo.Doubles.{Doubles}
use aflgo.Queue.{after_slash}
use aflgo.Queue.Refs.{IsScored}
use aflgo.Session.{Machine, Globals, fault_noinst}
use aflgo.Execution.Laws.{IsServing}
use aflgo.Calibration.{cal_cycles_long, cal_tmout, at_entry}
use aflgo.Calibration.Case.{settle, recall, start_clock, first_locals, calibrate_case}
use aflgo.Calibration.Steady.{finds, IsSteady, carry-IsSteady, recount-IsSteady}
use aflgo.Calibration.Steps.{IsCalm}
use aflgo.Calibration.Ends.{IsLinking, calibrate_rounds-IsOver}
use aflgo.Calibration.Whole.{conclude-IsKeeping, settle-IsSteady, settle-fault, recall-IsCalm}

module _ {D W : Type 0} (d : Doubles D) (m : Machine W) (q : ℕ) where
  -- How a calibration ends, against the state before it.
  pub record IsCalibrated (s : Globals D W) (out : Option (ℕ × Globals D W)) : Type 0 where
    pub fault : ℕ
    pub after : Globals D W
    pub returns : out ≡ some (fault, after)
    pub scored : IsScored d after.fuzzer
    pub same_length : length after.fuzzer.queue ≡ length s.fuzzer.queue
    pub same_finds : finds after ≡ finds s
    pub fine : fault ≢ 3
    pub tried :
        ((at_entry d q after).cal_failed ≡ 0)
        ⊎ (((at_entry d q after).cal_failed ≡ ((at_entry d q s).cal_failed + 1) % 2 ^ 8)
            × (((m.stop_soon after.world || fault != after.crash_mode) ≡ true)
                ⊎ (fault ≡ fault_noinst)))

  first_locals-le :
      (s : Globals D W)
      → (3 ≤ (first_locals d m q s).stage_max)
        × ((first_locals d m q s).stage_max ≤ cal_cycles_long)
  first_locals-le s = elim (Bool-cases s.fast_cal) [
    | inl fast ↦ rw fast (omega arith, omega arith)
    | inr slow ↦ rw slow (omega arith, omega arith)
  ]

  -- When the target is served, no run fails to start, and links can be made, `calibrate_case` on an
  -- entry of the queue whose name has a `/` returns. If the calibration was completed, the entry has
  -- no failed calibrations any more; else it has one more than before (in 8 bits), and the
  -- result is FAULT_NOINST, or the user has stopped the fuzzer, or the result is not the expected
  -- fault. The counters of the hangs and the crashes and the length of the queue stay, and each slot
  -- points into the queue, `tc_ref` of each entry is the number of slots that point to it, and its
  -- `trace_mini` is allocated exactly if that number is not 0, when this was so before.
  pub calibrate_case-IsCalibrated :
      (use_mem fn : List ℕ) (handicap : ℕ) (from_queue : Bool) (s : Globals D W)
      → IsServing m
      → IsLinking m
      → IsScored d s.fuzzer
      → q < length s.fuzzer.queue
      → after_slash (at_entry d q s).fname ≡ some fn
      → IsCalibrated s (calibrate_case d m q use_mem handicap from_queue s)
  unfolding calibrate_case
  calibrate_case-IsCalibrated use_mem fn handicap from_queue s serving links scored there named =
      let e = at_entry d q s in
      let n = length s.fuzzer.queue in
      let tries = (e.cal_failed + 1) % 2 ^ 8 in
      let f = finds s in
      let begun = first_locals d m q s in
      let steady : IsSteady d q n tries e.fname f begun.session =
        recount-IsSteady d q n e.cal_failed e.fname f tries
          (λ x. record x { cal_failed = (x.cal_failed + 1) % 2 ^ 8 }) s
          (λ x. (refl, refl, refl, λ p. ap (λ k. (k + 1) % 2 ^ 8) p)) there
          (record {
            scored = scored;
            same_length = refl;
            same_finds = refl;
            same_tries = refl;
            same_name = refl;
          }) in
      let calm : IsCalm d q n tries e.fname f begun = record {
        steady = steady;
        low = (first_locals-le s).0;
        high = (first_locals-le s).1;
        fine = λ p. omega arith;
      } in
      let recalled = recall-IsCalm d m q n tries e.fname f begun calm in
      let started = start_clock d m (recall d m q begun) in
      let tmout = cal_tmout (not from_queue || s.resuming_fuzz) s.exec_tmout in
      let over =
        calibrate_rounds-IsOver d m q n tries e.fname f (cal_cycles_long + 1) tmout 0 use_mem
          started.1 serving (omega arith) (omega arith)
          (record {
            steady =
                carry-IsSteady d q n tries e.fname f (recall d m q begun).session _ refl refl refl
                  refl recalled.steady;
            low = recalled.low;
            high = recalled.high;
            fine = recalled.fine;
          }) in
      let c = over.0 in
      elim over.2 [
        | inl done ↦
            let last = settle d m q handicap started.0 (e.exec_cksum == 0) c in
            let k = conclude-IsKeeping d m q n 0 e.fname f fn last links named (
              settle-IsSteady d m q n tries e.fname f handicap started.0 (e.exec_cksum == 0) c there
                over.1.steady) in
            rw (done, calibrate_case)
              (record {
                fault = last.fault;
                after = k.0;
                returns = k.1;
                scored = k.2.0.scored;
                same_length = k.2.0.same_length;
                same_finds = k.2.0.same_finds;
                fine =
                    settle-fault d m q n tries e.fname f handicap started.0 (e.exec_cksum == 0) c
                      over.1.fine;
                tried = inl k.2.0.same_tries;
              })
        | inr stopped ↦
            let k = conclude-IsKeeping d m q n tries e.fname f fn c links named over.1.steady in
            rw (stopped.0, calibrate_case)
              (record {
                fault = c.fault;
                after = k.0;
                returns = k.1;
                scored = k.2.0.scored;
                same_length = k.2.0.same_length;
                same_finds = k.2.0.same_finds;
                fine = over.1.fine;
                tried = inr (k.2.0.same_tries, rw (k.2.1, k.2.2) stopped.1);
              })
      ]
