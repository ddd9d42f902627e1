-- ===== src/Saving.antt =====
-- `save_if_interesting` of afl-2.57b/afl-fuzz.c: what becomes of a test case that has run. The
-- README of the crash directory is left out.
pub mod Names
pub mod Filed
pub mod Switch
pub mod Whole
pub mod Outcome
pub mod Tests
use aflgo.Common.{
  ℕ, suc, ◌+◌, ◌-◌, ◌%◌, ◌^◌, ◌==◌, ◌!=◌, leb, ltb, if◌then◌else◌, Bool, true, false, not, ◌&&◌,
  ◌||◌, Option, none, some, List, length, take, drop, ◌++◌,
}
use aflgo.Doubles.{Doubles}
use aflgo.Fuzzer.{QueueEntry, Fuzzer}
use aflgo.Bitmap.Classes.{simplify_trace}
use aflgo.Novelty.{Verdict, has_new_bits}
use aflgo.Queue.{add_to_queue}
use aflgo.Session.{Machine, Globals, fault_tmout, fault_crash}
use aflgo.Execution.{run_target, with_trace}
use aflgo.Calibration.{trace_of, trace_cksum, update_entry, check_bits}
use aflgo.Calibration.Case.{calibrate_case}
use aflgo.Trim.{fault_error}
use aflgo.Saving.Names.{queue_name, hang_name, crash_name}

abbrev pub keep_unique_hang : ℕ
keep_unique_hang = 500

abbrev pub keep_unique_crash : ℕ
keep_unique_crash = 5000

-- The maps of the hangs and the crashes.
pub data FaultMap : Type 0 where
  tmout_map crash_map : FaultMap

module _ {D W : Type 0} where
  abbrev pub fault_map : FaultMap → Globals D W → List ℕ
  fault_map tmout_map s = s.virgin_tmout
  fault_map crash_map s = s.virgin_crash

  abbrev pub put_fault_map : FaultMap → List ℕ → Globals D W → Globals D W
  put_fault_map tmout_map v s = record s { virgin_tmout = v }
  put_fault_map crash_map v s = record s { virgin_crash = v }

-- What `save_if_interesting` does behind its switch: it returns `keeping`, or goes on to save the
-- test case under a name.
pub data Next (D W : Type 0) : Type 0 where
  stop : Globals D W → Next D W
  save_as : List ℕ → Globals D W → Next D W

module _ {D W : Type 0} (d : Doubles D) (m : Machine W) where
  -- `queue_top` is the last entry.
  abbrev pub queue_top : Globals D W → ℕ
  queue_top s = length s.fuzzer.queue - 1

  -- `open`, `ck_write` and `close`.
  unfoldable pub save_file : List ℕ → List ℕ → Globals D W → Option (Globals D W)
  save_file fn mem s = elim (m.create fn mem s.world) [
    | none ↦ none
    | some w ↦ some (record s { world = w })
  ]

  -- The new entry of the queue, before its calibration: its name, and the state.
  unfoldable pub enqueue : ℕ → ℕ → Globals D W → List ℕ × Globals D W
  enqueue hnb len s =
      let clock = m.get_cur_time s.world in
      let fn = queue_name hnb clock.0 s in
      let stamp = m.get_cur_time clock.1 in
      let added = record s { world = stamp.1; fuzzer = add_to_queue d fn len 0 stamp.0 s.fuzzer } in
      let q = queue_top added in
      let covered =
        if hnb == 2
        then record (update_entry q (λ e. record e { has_new_cov = 1 }) added) {
          queued_with_cov = (added.queued_with_cov + 1) % 2 ^ 32;
        }
        else added in
      let cksum = trace_cksum covered in
      (fn, update_entry q (λ e. record e { exec_cksum = cksum }) covered)

  -- An input with new bits: it is queued, calibrated and saved.
  unfoldable pub keep : List ℕ → ℕ → Globals D W → Option (Globals D W)
  keep mem hnb s =
      let queued = enqueue hnb (length mem) s in
      elim (calibrate_case d m (queue_top queued.1) mem ((s.queue_cycle + 2 ^ 64 - 1) % 2 ^ 32)
        false queued.1) [
          | none ↦ none
          | some res ↦ if res.0 == fault_error then none else save_file queued.0 mem res.1
        ]

  -- `simplify_trace`, and `has_new_bits` on the map of the hangs or the crashes.
  unfoldable pub check_fault : FaultMap → Globals D W → ℕ × Globals D W
  check_fault which s =
      let trace = simplify_trace s.fuzzer.map_size (trace_of s) in
      let v = has_new_bits d s.fuzzer.map_size 8 trace (fault_map which s) false s.bitmap_changed in
      (
        v.ret,
        put_fault_map which v.virgin_map (record (with_trace trace s) {
          fuzzer = record (with_trace trace s).fuzzer { cur_distance = v.cur_distance };
          bitmap_changed = v.bitmap_changed;
        }),
      )

  -- Whether a fault is to be saved: always in dumb mode, else with new bits.
  unfoldable pub is_unique : FaultMap → Globals D W → Bool × Globals D W
  is_unique which s =
      if s.fuzzer.dumb_mode != 0
      then (true, s)
      else let out = check_fault which s in (out.0 != 0, out.1)

  -- From the label `keep_as_crash` on.
  unfoldable pub keep_as_crash : Globals D W → Next D W
  keep_as_crash s =
      let s1 = record s { total_crashes = (s.total_crashes + 1) % 2 ^ 64 } in
      elim (leb keep_unique_crash s1.unique_crashes) as (λ _. Next D W) [
        | true ↦ stop s1
        | false ↦
            let out = is_unique crash_map s1 in
            elim out.0 as (λ _. Next D W) [
              | false ↦ stop out.1
              | true ↦
                  let clock = m.get_cur_time out.1.world in
                  let stamp = m.get_cur_time clock.1 in
                  save_as (crash_name clock.0 out.1) (record out.1 {
                    unique_crashes = (out.1.unique_crashes + 1) % 2 ^ 64;
                    world = stamp.1;
                    last_crash_time = stamp.0;
                    last_crash_execs = out.1.total_execs;
                  })
            ]
      ]

  -- The end of the case of a hang.
  unfoldable pub keep_as_hang : Globals D W → Next D W
  keep_as_hang s =
      let clock = m.get_cur_time s.world in
      let stamp = m.get_cur_time clock.1 in
      save_as (hang_name clock.0 s) (record s {
        unique_hangs = (s.unique_hangs + 1) % 2 ^ 64;
        world = stamp.1;
        last_hang_time = stamp.0;
      })

  -- The run with the generous timeout.
  unfoldable pub confirm_hang : List ℕ → Globals D W → Option (Next D W)
  confirm_hang mem s = elim (ltb s.exec_tmout s.hang_tmout) as (λ _. Option (Next D W)) [
    | false ↦ some (keep_as_hang s)
    | true ↦ elim (run_target m s.hang_tmout mem s) as (λ _. Option (Next D W)) [
      | none ↦ none
      | some out ↦ some (
          if not (m.stop_soon out.1.world) && out.0 == fault_crash
          then keep_as_crash out.1
          else if m.stop_soon out.1.world || out.0 != fault_tmout
          then stop out.1
          else keep_as_hang out.1)
    ]
  ]

  -- The case of a hang.
  unfoldable pub keep_timeout : List ℕ → Globals D W → Option (Next D W)
  keep_timeout mem s =
      let s1 = record s { total_tmouts = (s.total_tmouts + 1) % 2 ^ 64 } in
      elim (leb keep_unique_hang s1.unique_hangs) as (λ _. Option (Next D W)) [
        | true ↦ some (stop s1)
        | false ↦
            let out = is_unique tmout_map s1 in
            elim out.0 as (λ _. Option (Next D W)) [
              | false ↦ some (stop out.1)
              | true ↦
                  confirm_hang mem
                    (record out.1 { unique_tmouts = (out.1.unique_tmouts + 1) % 2 ^ 64 })
            ]
      ]

  -- The switch on the fault.
  unfoldable pub switch_fault : List ℕ → ℕ → Globals D W → Option (Next D W)
  switch_fault mem fault s =
      if fault == fault_tmout
      then keep_timeout mem s
      else if fault == fault_crash
      then some (keep_as_crash s)
      else if fault == fault_error
      then none
      else some (stop s)

  -- The switch, and the file that it asks for.
  unfoldable pub file_fault : List ℕ → ℕ → ℕ → Globals D W → Option (ℕ × Globals D W)
  file_fault mem fault keeping s =
      elim (switch_fault mem fault s) as (λ _. Option (ℕ × Globals D W)) [
        | none ↦ none
        | some (stop s1) ↦ some (keeping, s1)
        | some (save_as fn s1) ↦ elim (save_file fn mem s1) as (λ _. Option (ℕ × Globals D W)) [
          | none ↦ none
          | some s2 ↦ some (keeping, s2)
        ]
      ]

  -- `none` is the end of the process.
  unfoldable pub save_if_interesting : List ℕ → ℕ → Globals D W → Option (ℕ × Globals D W)
  save_if_interesting mem fault s =
      elim (fault == s.crash_mode) as (λ _. Option (ℕ × Globals D W)) [
        | false ↦ file_fault mem fault 0 s
        | true ↦
            let out = check_bits d s in
            elim (out.0 == 0) as (λ _. Option (ℕ × Globals D W)) [
              | true ↦ some (
                0,
                if s.crash_mode != 0
                    then record out.1 { total_crashes = (out.1.total_crashes + 1) % 2 ^ 64 }
                    else out.1,
              )
              | false ↦ elim (keep mem out.0 out.1) as (λ _. Option (ℕ × Globals D W)) [
                | none ↦ none
                | some kept ↦ file_fault mem fault 1 kept
              ]
            ]
      ]
