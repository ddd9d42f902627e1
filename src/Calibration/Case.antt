-- ===== src/Calibration/Case.antt =====
-- The loop of `calibrate_case` of afl-2.57b/afl-fuzz.c, `mark_as_variable`, and the whole function.
use aflgo.Common.{
  ℕ, zero, suc, ◌+◌, ◌-◌, ◌/◌, ◌%◌, ◌^◌, ◌==◌, ◌!=◌, ltb, if◌then◌else◌, Bool, true, false, not,
  ◌&&◌, ◌||◌, Option, none, some, List, take,
}
use aflgo.Doubles.{Doubles}
use aflgo.Fuzzer.{Fuzzer, symlink_variable, create_variable}
use aflgo.Bitmap.Counts.{count_bytes}
use aflgo.Queue.{after_slash, invoke, update_bitmap_score}
use aflgo.Session.{Machine, Globals, fault_none, fault_noinst, fault_nobits}
use aflgo.Execution.{run_target}
use aflgo.Calibration.{
  cal_cycles, cal_cycles_long, cal_tmout, Calibration, Rounds, dead, bailed, complete, trace_of,
  update_entry, at_entry, gather_bits, examine,
}

module _ {D W : Type 0} (d : Doubles D) (m : Machine W) where
  -- `if (!dumb_mode && !stage_cur && !count_bytes(trace_bits))`
  abbrev pub no_trace : ℕ → Globals D W → Bool
  no_trace stage_cur s =
      s.fuzzer.dumb_mode == 0 && stage_cur == 0 && count_bytes s.fuzzer.map_size (trace_of s) == 0

  -- The loop from `stage_cur` on, with fuel: `none` is out of fuel.
  unfoldable pub calibrate_rounds : ℕ → ℕ → ℕ → List ℕ → ℕ → Calibration D W → Option (Rounds D W)
  calibrate_rounds zero use_tmout stage_cur use_mem q c = none
  calibrate_rounds (suc fuel) use_tmout stage_cur use_mem q c =
      elim (ltb stage_cur c.stage_max) as (λ _. Option (Rounds D W)) [
        | false ↦ some (complete c)
        | true ↦
            elim (run_target m use_tmout (take (at_entry d q c.session).len use_mem) c.session)
              as (λ _. Option (Rounds D W)) [
                | none ↦ some dead
                | some out ↦
                    let ran = record c { session = out.1; fault = out.0 } in
                    elim (m.stop_soon out.1.world || out.0 != out.1.crash_mode)
                      as (λ _. Option (Rounds D W)) [
                        | true ↦ some (bailed ran)
                        | false ↦ elim (no_trace stage_cur out.1) as (λ _. Option (Rounds D W)) [
                          | true ↦ some (bailed (record ran { fault = fault_noinst }))
                          | false ↦
                              calibrate_rounds fuel use_tmout (stage_cur + 1) use_mem q
                                (examine d q ran)
                        ]
                      ]
              ]
      ]

  -- `mark_as_variable`: a symbolic link, or else an empty file. With no `/` in the name the
  -- source adds 1 to NULL.
  unfoldable pub mark_as_variable : ℕ → Globals D W → Option (Globals D W)
  mark_as_variable q s = elim (after_slash (at_entry d q s).fname) [
    | none ↦ none
    | some fn ↦
        let linked = invoke d m.link (symlink_variable fn) s.fuzzer in
        let made : Option (Fuzzer D) = elim linked [
          | some f ↦ some f
          | none ↦ invoke d m.link (create_variable fn) s.fuzzer
        ] in
        elim made [
          | none ↦ none
          | some f ↦
              some (update_entry q (λ e. record e { var_behavior = 1 }) (record s { fuzzer = f }))
        ]
  ]

  -- What the end of all rounds writes; `start_us` is the time before them.
  unfoldable pub settle : ℕ → ℕ → ℕ → Bool → Calibration D W → Calibration D W
  settle q handicap start_us first_run c =
      let s = c.session in
      let clock = m.get_cur_time_us s.world in
      let spent = (clock.0 + 2 ^ 64 - start_us) % 2 ^ 64 in
      let size = count_bytes s.fuzzer.map_size (trace_of s) in
      let measured =
        update_entry q
          (λ e. record e {
            exec_us = spent / c.stage_max;
            bitmap_size = size;
            handicap = handicap;
            cal_failed = 0;
          })
          s in
      record c {
        session = record measured {
          world = clock.1;
          total_cal_us = (s.total_cal_us + spent) % 2 ^ 64;
          total_cal_cycles = (s.total_cal_cycles + c.stage_max) % 2 ^ 64;
          total_bitmap_size = (s.total_bitmap_size + size) % 2 ^ 64;
          total_bitmap_entries = (s.total_bitmap_entries + 1) % 2 ^ 64;
          fuzzer = update_bitmap_score d q measured.fuzzer;
        };
        fault =
            (if s.fuzzer.dumb_mode == 0 && first_run && c.fault == fault_none && c.new_bits == 0
              then fault_nobits
              else c.fault);
      }

  -- `if (new_bits == 2 && !q->has_new_cov)`
  unfoldable pub note_coverage : ℕ → Calibration D W → Globals D W
  note_coverage q c =
      if c.new_bits == 2 && (at_entry d q c.session).has_new_cov == 0
      then record (update_entry q (λ e. record e { has_new_cov = 1 }) c.session) {
        queued_with_cov = (c.session.queued_with_cov + 1) % 2 ^ 32;
      }
      else c.session

  -- `if (!q->var_behavior)`
  unfoldable pub note_behavior : ℕ → Globals D W → Option (Globals D W)
  note_behavior q s = elim ((at_entry d q s).var_behavior == 0) [
    | false ↦ some s
    | true ↦ elim (mark_as_variable q s) [
      | none ↦ none
      | some s' ↦ some (record s' { queued_variable = (s.queued_variable + 1) % 2 ^ 32 })
    ]
  ]

  -- `if (var_detected)`
  unfoldable pub note_variable : ℕ → Bool → Globals D W → Option (Globals D W)
  note_variable q var_detected s = elim var_detected [
    | false ↦ some s
    | true ↦
        note_behavior q (record s { var_byte_count = count_bytes s.fuzzer.map_size s.var_bytes })
  ]

  -- From `abort_calibration` on.
  unfoldable pub conclude : ℕ → Calibration D W → Option (ℕ × Globals D W)
  conclude q c = elim (note_variable q c.var_detected (note_coverage q c)) [
    | none ↦ none
    | some s ↦ some (c.fault, s)
  ]

  -- The state behind `cal_failed++`.
  abbrev pub first_locals : ℕ → Globals D W → Calibration D W
  first_locals q s = record {
    session = update_entry q (λ e. record e { cal_failed = (e.cal_failed + 1) % 2 ^ 8 }) s;
    fault = fault_none;
    new_bits = 0;
    var_detected = false;
    stage_max = (if s.fast_cal then 3 else cal_cycles);
  }

  -- `if (q->exec_cksum)`: the trace at hand is that of the entry.
  unfoldable pub recall : ℕ → Calibration D W → Calibration D W
  recall q c =
      if (at_entry d q c.session).exec_cksum != 0
      then gather_bits d (record c {
        session = record c.session {
          first_trace = take c.session.fuzzer.map_size (trace_of c.session);
        };
      })
      else c

  -- `start_us = get_cur_time_us()`
  abbrev pub start_clock : Calibration D W → ℕ × Calibration D W
  start_clock c =
      let clock = m.get_cur_time_us c.session.world in
      (clock.0, record c { session = record c.session { world = clock.1 } })

  unfoldable pub calibrate_case : ℕ → List ℕ → ℕ → Bool → Globals D W → Option (ℕ × Globals D W)
  calibrate_case q use_mem handicap from_queue s =
      let begun = start_clock (recall q (first_locals q s)) in
      let first_run = (at_entry d q s).exec_cksum == 0 in
      let use_tmout = cal_tmout (not from_queue || s.resuming_fuzz) s.exec_tmout in
      elim (calibrate_rounds (cal_cycles_long + 1) use_tmout 0 use_mem q begun.1) [
        | none ↦ none
        | some dead ↦ none
        | some (bailed c) ↦ conclude q c
        | some (complete c) ↦ conclude q (settle q handicap begun.0 first_run c)
      ]
