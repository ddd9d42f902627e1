-- ===== src/Fuzzing.antt =====
-- The parts of `fuzz_one` of afl-2.57b/afl-fuzz.c around its stages: the entries that it skips, the
-- calibration it tries again, the choice of the stages, what it writes on leaving; and
-- `common_fuzz_stuff`, which runs a mutated input.
pub mod Splicing
pub mod Pending
pub mod Outcome
pub mod Tests
use aflgo.Common.{
  ℕ, ◌+◌, ◌-◌, ◌%◌, ◌^◌, ◌==◌, ◌!=◌, leb, ltb, if◌then◌else◌, Bool, true, false, not, ◌&&◌, ◌||◌,
  Option, none, some, List, length, modify,
}
use aflgo.Doubles.{Doubles}
use aflgo.Fuzzer.{QueueEntry, Fuzzer, entry}
use aflgo.Session.{Machine, Globals, fault_tmout}
use aflgo.Execution.{run_target}
use aflgo.Calibration.{at_entry, update_entry}
use aflgo.Calibration.Case.{calibrate_case}
use aflgo.Saving.{save_if_interesting}
use aflgo.Trim.{fault_error}
use aflgo.Havoc.Dice.{Dice, pure, ◌>>=◌, ur}

abbrev pub tmout_limit : ℕ
tmout_limit = 250

abbrev pub skip_to_new_prob : ℕ
skip_to_new_prob = 99

abbrev pub skip_nfav_new_prob : ℕ
skip_nfav_new_prob = 75

abbrev pub skip_nfav_old_prob : ℕ
skip_nfav_old_prob = 95

abbrev pub cal_chances : ℕ
cal_chances = 3

module _ {D W : Type 0} (d : Doubles D) where
  -- The percentage of the calls that skip entry `q`, before a die is cast; `none` casts none.
  unfoldable pub skip_prob : ℕ → Globals D W → Option ℕ
  skip_prob q s =
      if s.fuzzer.pending_favored != 0
      then if (at_entry d q s).was_fuzzed != 0 || (at_entry d q s).favored == 0
        then some skip_to_new_prob
        else none
      else if s.fuzzer.dumb_mode == 0
          && (at_entry d q s).favored == 0
          && ltb 10 s.fuzzer.queued_paths
      then some (
          if ltb 1 s.queue_cycle && (at_entry d q s).was_fuzzed == 0
          then skip_nfav_new_prob
          else skip_nfav_old_prob)
      else none

  -- Whether `fuzz_one` returns at once.
  unfoldable pub skips_entry : {R : Type 0} → (R → ℕ × R) → ℕ → Globals D W → Dice R Bool
  skips_entry random q s = elim (skip_prob q s) [
    | none ↦ pure false
    | some prob ↦ ur random 100 >>= λ n. pure (ltb n prob)
  ]

  -- Whether the deterministic stages are left out; `exec_cksum % master_max` is taken only for a
  -- master.
  unfoldable pub skips_det : ℕ → Globals D W → Bool
  skips_det q s =
      s.skip_deterministic
      || (at_entry d q s).was_fuzzed != 0
      || (at_entry d q s).passed_det != 0
      || s.master_max != 0
        && (at_entry d q s).exec_cksum % s.master_max != (s.master_id + 2 ^ 32 - 1) % 2 ^ 32

  -- `subseq_tmouts = 0; cur_depth = queue_cur->depth;`
  abbrev pub enter : ℕ → Globals D W → Globals D W
  enter q s = record s {
    subseq_tmouts = 0;
    fuzzer = record s.fuzzer { cur_depth = (at_entry d q s).depth };
  }

  abbrev pub skip_path : Globals D W → Globals D W
  skip_path s = record s { cur_skipped_paths = (s.cur_skipped_paths + 1) % 2 ^ 32 }

  module _ (m : Machine W) where
    -- `calibrate_case` on an entry whose checksum is reset, while it has chances left.
    unfoldable pub retry : ℕ → List ℕ → Globals D W → Option (ℕ × Globals D W)
    retry q in_buf s =
        if ltb (at_entry d q s).cal_failed cal_chances
        then calibrate_case d m q in_buf ((s.queue_cycle + 2 ^ 64 - 1) % 2 ^ 32) false
            (update_entry q (λ e. record e { exec_cksum = 0 }) s)
        else some (fault_tmout, s)

    -- The calibration of `fuzz_one`: whether it goes on, or abandons the entry.
    unfoldable pub recalibrate : ℕ → List ℕ → Globals D W → Option (Bool × Globals D W)
    recalibrate q in_buf s =
        if (at_entry d q s).cal_failed == 0 then some (true, s) else elim (retry q in_buf s) [
          | none ↦ none
          | some (res, s1) ↦
              if res == fault_error
              then none
              else if m.stop_soon s1.world || res != s1.crash_mode
              then some (false, skip_path s1)
              else some (true, s1)
        ]

    -- The entry has been fuzzed for the first time.
    abbrev pub mark_fuzzed : ℕ → Fuzzer D → Fuzzer D
    mark_fuzzed q s = record s {
      queue = modify s.queue q (λ e. record e { was_fuzzed = 1 });
      pending_not_fuzzed = (s.pending_not_fuzzed + 2 ^ 32 - 1) % 2 ^ 32;
      pending_favored =
          (if (entry d s q).favored != 0
            then (s.pending_favored + 2 ^ 32 - 1) % 2 ^ 32
            else s.pending_favored);
    }

    -- What the label `abandon_entry` writes.
    unfoldable pub abandon_entry : ℕ → Globals D W → Globals D W
    abandon_entry q s =
        let s0 = record s { operation = record s.operation { splicing_with = none } } in
        if not (m.stop_soon s.world)
          && (at_entry d q s).cal_failed == 0
          && (at_entry d q s).was_fuzzed == 0
        then record s0 { fuzzer = mark_fuzzed q s.fuzzer }
        else s0

    -- `common_fuzz_stuff` behind the run of the target.
    unfoldable pub process_run : List ℕ → ℕ → Globals D W → Option (ℕ × Globals D W)
    process_run out_buf fault s =
        let counted = record s {
          subseq_tmouts = (if fault == fault_tmout then (s.subseq_tmouts + 1) % 2 ^ 32 else 0);
        } in
        elim (m.stop_soon s.world) as (λ _. Option (ℕ × Globals D W)) [
          | true ↦ some (1, s)
          | false ↦
              elim (fault == fault_tmout && ltb tmout_limit s.subseq_tmouts)
                as (λ _. Option (ℕ × Globals D W)) [
                  | true ↦ some (1, skip_path counted)
                  | false ↦ elim (m.skip_requested s.world) as (λ _. Option (ℕ × Globals D W)) [
                    | true ↦ some (1, skip_path (record counted { world = m.clear_skip s.world }))
                    | false ↦
                        elim (save_if_interesting d m out_buf fault counted)
                          as (λ _. Option (ℕ × Globals D W)) [
                            | none ↦ none
                            | some saved ↦ some (
                              0,
                              record saved.1 {
                                queued_discovered = (saved.1.queued_discovered + saved.0) % 2 ^ 32;
                              },
                            )
                          ]
                  ]
                ]
        ]

    unfoldable pub run_buffer : List ℕ → Globals D W → Option (ℕ × Globals D W)
    run_buffer out_buf s = elim (run_target m s.exec_tmout out_buf s) [
      | none ↦ none
      | some out ↦ process_run out_buf out.0 out.1
    ]

    -- `post_handler` is the function of the library of AFL_POST_LIBRARY, if there is one: `none` is
    -- a NULL buffer.
    unfoldable pub common_fuzz_stuff :
        Option (List ℕ → Option (List ℕ)) → List ℕ → Globals D W → Option (ℕ × Globals D W)
    common_fuzz_stuff post_handler out_buf s = elim post_handler [
      | none ↦ run_buffer out_buf s
      | some post ↦ elim (post out_buf) [
        | none ↦ some (0, s)
        | some changed ↦ if length changed == 0 then some (0, s) else run_buffer changed s
      ]
    ]
