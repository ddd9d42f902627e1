-- ===== src/Calibration.antt =====
-- `calibrate_case` and `mark_as_variable` of afl-2.57b/afl-fuzz.c: an entry of the queue is run
-- several times, which measures it and finds the bytes of its trace that vary. The fork server is up.
-- `stage_name`, `stage_cur` and `stage_max`, which are restored at the end, are locals, and the
-- screen is left out. This file has the body of the loop; Case has the whole.
pub mod Case
pub mod Steady
pub mod Steps
pub mod Ends
pub mod Whole
pub mod Outcome
pub mod Unmeasured
pub mod Tests
use aflgo.Common.{
  ℕ, zero, suc, ◌+◌, ◌-◌, ◌*◌, ◌/◌, ◌%◌, ◌^◌, ◌==◌, ◌!=◌, leb, ltb, min, max, if◌then◌else◌, Bool,
  true, false, not, ◌&&◌, ◌||◌, Option, none, some, List, [], ◌∷◌, take, get_or, set, modify,
}
use aflgo.Doubles.{Doubles}
use aflgo.Fuzzer.{QueueEntry, Fuzzer, SysCall, symlink_variable, create_variable, entry}
use aflgo.Bitmap.Counts.{count_bytes}
use aflgo.Novelty.{Verdict, has_new_bits}
use aflgo.Queue.{after_slash, invoke, track_distance, update_bitmap_score}
use aflgo.Hash.{hash32}
use aflgo.Session.{Machine, Globals, fault_none, fault_noinst, fault_nobits}
use aflgo.Execution.{run_target}

abbrev pub hash_const : ℕ
hash_const = 0xa5b35705

abbrev pub cal_cycles : ℕ
cal_cycles = 8

abbrev pub cal_cycles_long : ℕ
cal_cycles_long = 40

-- `MAX(exec_tmout + CAL_TMOUT_ADD, exec_tmout * CAL_TMOUT_PERC / 100)` when it is to be generous.
abbrev pub cal_tmout : Bool → ℕ → ℕ
cal_tmout generous exec_tmout =
    if generous
    then max ((exec_tmout + 50) % 2 ^ 32) (exec_tmout * 125 % 2 ^ 32 / 100)
    else exec_tmout

-- The loop over the map in a round whose checksum differs, from index `i`, with `n` indices left:
-- the bytes that vary, and `stage_max`.
unfoldable pub vary : ℕ → ℕ → List ℕ → List ℕ → List ℕ × ℕ → List ℕ × ℕ
vary zero i first_trace trace v = v
vary (suc n) i first_trace trace v = vary n (i + 1) first_trace trace (
    if get_or v.0 i 0 == 0 && get_or first_trace i 0 != get_or trace i 0
    then (set v.0 i 1, cal_cycles_long)
    else v)

-- The locals.
pub record Calibration (D W : Type 0) : Type 0 where
  pub session : Globals D W
  pub fault : ℕ
  pub new_bits : ℕ
  pub var_detected : Bool
  pub stage_max : ℕ

-- The end of the loop: the process dies, the calibration is aborted, or all rounds are done.
pub data Rounds (D W : Type 0) : Type 0 where
  dead : Rounds D W
  bailed : Calibration D W → Rounds D W
  complete : Calibration D W → Rounds D W

module _ {D W : Type 0} where
  abbrev pub trace_of : Globals D W → List ℕ
  trace_of s = s.fuzzer.trace_bits

  abbrev pub trace_cksum : Globals D W → ℕ
  trace_cksum s = hash32 (take s.fuzzer.map_size (trace_of s)) s.fuzzer.map_size hash_const

  -- A write through `q`.
  abbrev pub update_entry : ℕ → (QueueEntry D → QueueEntry D) → Globals D W → Globals D W
  update_entry q f s = record s { fuzzer = record s.fuzzer { queue = modify s.fuzzer.queue q f } }

module _ {D W : Type 0} (d : Doubles D) where
  -- `has_new_bits` on the trace and the main virgin map.
  abbrev pub main_verdict : Globals D W → Verdict D
  main_verdict s =
      has_new_bits d s.fuzzer.map_size 8 (trace_of s) s.virgin_bits true s.bitmap_changed

  -- `has_new_bits(virgin_bits)`: what it returns, and what it writes.
  unfoldable pub check_bits : Globals D W → ℕ × Globals D W
  check_bits s =
      let v = main_verdict s in
      (
        v.ret,
        record s {
          fuzzer = record s.fuzzer { cur_distance = v.cur_distance };
          virgin_bits = v.virgin_map;
          bitmap_changed = v.bitmap_changed;
        },
      )

  abbrev pub at_entry : ℕ → Globals D W → QueueEntry D
  at_entry q s = entry d s.fuzzer q

  -- The distance of this run becomes that of the entry.
  unfoldable pub take_distance : ℕ → Globals D W → Globals D W
  take_distance q s =
      let s1 = (check_bits s).1 in
      let s2 = update_entry q (λ e. record e { distance = s1.fuzzer.cur_distance }) s1 in
      record s2 { fuzzer = track_distance d s2.fuzzer }

  -- `if (q->distance <= 0)`, read as no `>`.
  unfoldable pub measure_distance : ℕ → Globals D W → Globals D W
  measure_distance q s = if d.gt (at_entry q s).distance d.zero then s else take_distance q s

  -- `hnb = has_new_bits(virgin_bits); if (hnb > new_bits) new_bits = hnb;`
  unfoldable pub gather_bits : Calibration D W → Calibration D W
  gather_bits c =
      let out = check_bits c.session in
      record c { session = out.1; new_bits = max c.new_bits out.0 }

  -- The bytes of the trace that vary, for an entry with a checksum.
  unfoldable pub mark_varying : Calibration D W → Calibration D W
  mark_varying c =
      let s = c.session in
      let v = vary s.fuzzer.map_size 0 s.first_trace (trace_of s) (s.var_bytes, c.stage_max) in
      record c { session = record s { var_bytes = v.0 }; stage_max = v.1; var_detected = true }

  -- The first trace of an entry without a checksum.
  unfoldable pub keep_trace : ℕ → ℕ → Calibration D W → Calibration D W
  keep_trace q cksum c =
      let s = c.session in
      record c {
        session = record (update_entry q (λ e. record e { exec_cksum = cksum }) s) {
          first_trace = take s.fuzzer.map_size (trace_of s);
        };
      }

  -- What a round does with a checksum that is not that of the entry.
  unfoldable pub compare_traces : ℕ → ℕ → Calibration D W → Calibration D W
  compare_traces q cksum c =
      let c1 = gather_bits c in
      if (at_entry q c1.session).exec_cksum != 0 then mark_varying c1 else keep_trace q cksum c1

  -- A round behind its guards.
  unfoldable pub examine : ℕ → Calibration D W → Calibration D W
  examine q c =
      let cksum = trace_cksum c.session in
      let c1 = record c { session = measure_distance q c.session } in
      if (at_entry q c1.session).exec_cksum != cksum then compare_traces q cksum c1 else c1
