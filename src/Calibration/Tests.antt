-- ===== src/Calibration/Tests.antt =====
-- Calibrations in a session with a queue of two entries.
use aflgo.Common.{ℕ, ◌≡◌, refl, arith, true, false, Option, none, some, [], ◌∷◌}
use aflgo.Queue.{
  after_slash, track_distance, seed_bounds, raise_max, lower_min, update_bitmap_score, score_loop,
  score_byte, claim_slot, release, invoke,
}
use aflgo.Queue.Tests.{naturals}
use aflgo.Novelty.{has_new_bits, read_distance}
use aflgo.Bitmap.Virgin.{has_new_bits_map, has_new_bits_loop}
use aflgo.Bitmap.Counts.{count_bytes, count_bytes_loop}
use aflgo.Bitmap.Classes.{
  classify_counts, classify_loop, init_count_class16, init_rows, init_row, count_class_lookup8,
}
use aflgo.Hash.{hash32, hash64_loop, finish64, rol}
use aflgo.Session.{Globals}
use aflgo.Execution.{report, run_target, receive}
use aflgo.Calibration.{
  Calibration, examine, measure_distance, take_distance, check_bits, compare_traces, gather_bits,
  mark_varying, keep_trace, vary,
}
use aflgo.Calibration.Case.{
  calibrate_case, recall, calibrate_rounds, settle, conclude, note_coverage, note_variable,
  note_behavior, mark_as_variable,
}
use aflgo.Calibration.Outcome.{IsCalibrated, calibrate_case-IsCalibrated}
use aflgo.Calibration.Unmeasured.{examine-new_bits}
use aflgo.Session.Tests.{hits, machine, machine-IsServing, session, session-IsFiled, input}

slash : after_slash (b'q' ∷ b'/' ∷ b'b' ∷ []) ≡ some (b'b' ∷ [])
unfolding after_slash
slash = refl

calibrate_case-IsCalibrated_example :
    IsCalibrated naturals machine 1 session (calibrate_case naturals machine 1 input 0 true session)
calibrate_case-IsCalibrated_example =
    calibrate_case-IsCalibrated naturals machine 1 input (b'b' ∷ []) 0 true session
      machine-IsServing (λ before call. refl) session-IsFiled.scored (omega arith) slash

abbrev calibration : Calibration ℕ ℕ
calibration = record {
  session = session;
  fault = 0;
  new_bits = 0;
  var_detected = false;
  stage_max = 3;
}

examine-new_bits_example : (examine naturals 1 calibration).new_bits ≡ 0
examine-new_bits_example =
    examine-new_bits naturals 1 hits 0 0 calibration
      (record {
        layout = refl;
        size = refl;
        whole = refl;
        virgin = refl;
        hit_bytes = omega arith;
        virgin_bytes = omega arith;
        total_small = omega arith;
        count_small = omega arith;
      })
      refl refl

-- A first calibration finds new bits, and still reports that there are none.
abbrev told : Option (ℕ × Globals ℕ ℕ) → ℕ
told none = 100
told (some out) = out.0

first_calibration : told (calibrate_case naturals machine 1 input 0 true session) ≡ 5
unfolding calibrate_case recall calibrate_rounds run_target receive report settle conclude
    note_coverage note_variable note_behavior mark_as_variable examine measure_distance
    take_distance check_bits compare_traces gather_bits mark_varying keep_trace vary has_new_bits
    has_new_bits_map has_new_bits_loop read_distance track_distance seed_bounds raise_max lower_min
    hash32 hash64_loop finish64 rol count_bytes count_bytes_loop update_bitmap_score score_loop
    score_byte claim_slot release classify_counts classify_loop init_count_class16 init_rows
    init_row count_class_lookup8 invoke
first_calibration = refl
