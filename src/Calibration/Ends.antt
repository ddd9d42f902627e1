-- ===== src/Calibration/Ends.antt =====
-- How a calibration ends when the target is served and the links are made: the loop within its
-- fuel, and the whole of `calibrate_case`.
use aflgo.Common.{
  ℕ, zero, suc, ◌+◌, ◌<◌, ◌≤◌, ◌≡◌, ◌⊎◌, refl, arith, ◌!=◌, ltb, true, ◌||◌, Bool-cases, inl, inr,
  Option, some, List, take, ltb→lt,
}
use aflgo.Doubles.{Doubles}
use aflgo.Fuzzer.{SysCall}
use aflgo.Session.{Machine, Globals, fault_noinst}
use aflgo.Execution.Laws.{IsServing, run_target-served, run_target-IsRun}
use aflgo.Calibration.{Calibration, Rounds, bailed, complete, cal_cycles_long, at_entry, examine}
use aflgo.Calibration.Case.{no_trace, calibrate_rounds}
use aflgo.Calibration.Steady.{Finds, run-IsSteady}
use aflgo.Calibration.Steps.{IsCalm, examine-IsCalm}

-- Each link is made.
abbrev pub IsLinking : {W : Type 0} → Machine W → Type 0
IsLinking m = (before : List SysCall) (call : SysCall) → m.link before call ≡ true

module _ {D W : Type 0} (d : Doubles D) (m : Machine W) (q n tries : ℕ) (name : List ℕ)
    (f : Finds) where
  -- Why a calibration is aborted.
  abbrev pub IsBail : ℕ → Globals D W → Type 0
  IsBail fault s = ((m.stop_soon s.world || fault != s.crash_mode) ≡ true) ⊎ (fault ≡ fault_noinst)

  -- The loop ends with all rounds done, or is aborted.
  abbrev pub IsOver : Option (Rounds D W) → Type 0
  IsOver out =
      (c : Calibration D W) × IsCalm d q n tries name f c
      × ((out ≡ some (complete c)) ⊎ ((out ≡ some (bailed c)) × IsBail c.fault c.session))

  pub calibrate_rounds-IsOver :
      (fuel use_tmout stage_cur : ℕ) (use_mem : List ℕ) (c : Calibration D W)
      → IsServing m
      → stage_cur ≤ cal_cycles_long
      → cal_cycles_long < stage_cur + fuel
      → IsCalm d q n tries name f c
      → IsOver (calibrate_rounds d m fuel use_tmout stage_cur use_mem q c)
  unfolding calibrate_rounds
  calibrate_rounds-IsOver zero use_tmout stage_cur use_mem c serving within enough h =
      absurd (omega arith)
  calibrate_rounds-IsOver (suc fuel) use_tmout stage_cur use_mem c serving within enough h =
      elim (Bool-cases (ltb stage_cur c.stage_max)) [
        | inr over ↦ rw (over, calibrate_rounds) (c, h, inl refl)
        | inl more ↦
            let ran =
              run_target-served m use_tmout (take (at_entry d q c.session).len use_mem) c.session
                serving in
            let s1 = ran.0.1 in
            let c1 = record c { session = s1; fault = ran.0.0 } in
            let steady =
              run-IsSteady d q n tries name f c.session s1
                (run_target-IsRun m use_tmout (take (at_entry d q c.session).len use_mem) c.session
                  ran.0 ran.1)
                h.steady in
            let calm : IsCalm d q n tries name f c1 = record {
              steady = steady;
              low = h.low;
              high = h.high;
              fine = ran.2;
            } in
            elim (Bool-cases (m.stop_soon s1.world || ran.0.0 != s1.crash_mode)) [
              | inl stopped ↦
                  rw (more, ran.1, stopped, calibrate_rounds) (c1, calm, inr (refl, inl stopped))
              | inr good ↦ elim (Bool-cases (no_trace d m stage_cur s1)) [
                | inl blind ↦
                    rw (more, ran.1, good, blind, calibrate_rounds)
                      (
                        record c1 { fault = fault_noinst },
                        record {
                          steady = steady;
                          low = h.low;
                          high = h.high;
                          fine = λ e. omega arith;
                        },
                        inr (refl, inr refl),
                      )
                | inr hit ↦
                    rw (more, ran.1, good, hit, calibrate_rounds)
                      (calibrate_rounds-IsOver fuel use_tmout (stage_cur + 1) use_mem
                        (examine d q c1) serving
                        (omega (arith, h.high, ltb→lt stage_cur c.stage_max more)) (omega arith)
                        (examine-IsCalm d q n tries name f c1 calm))
              ]
            ]
      ]
