-- ===== src/Session/Tests.antt =====
-- A session with a queue of two entries, on a target that hits two bytes of its map of eight.
use aflgo.Common.{ℕ, suc, refl, arith, true, false, none, some, List, [], ◌∷◌, replicate}
use aflgo.Queue.Tests.{naturals, start, start-IsScored}
use aflgo.Novelty.Laws.{laid}
use aflgo.Session.{Machine, Globals, served}
use aflgo.Execution.Laws.{IsServing}
use aflgo.Saving.Filed.{IsFiled}

abbrev pub hits : List ℕ
hits = 1 ∷ 0 ∷ 0 ∷ 4 ∷ 0 ∷ 0 ∷ 0 ∷ 0 ∷ []

abbrev pub trace : List ℕ
trace = laid 8 hits 0 0

-- A machine on which everything succeeds; its state is a clock.
abbrev pub machine : Machine ℕ
machine = record {
  execute = λ timeout prev mem shared w. (served trace 0 false 1, w);
  stop_soon = λ w. false;
  skip_requested = λ w. false;
  clear_skip = λ w. w;
  get_cur_time = λ w. (w, suc w);
  get_cur_time_us = λ w. (w, suc w);
  create = λ fn mem w. some w;
  link = λ before call. true;
}

pub machine-IsServing : IsServing machine
machine-IsServing timeout prev_timed_out mem shared w =
    (trace, 0, false, 1, w, refl, λ e. absurd (omega arith))

abbrev pub session : Globals ℕ ℕ
session = record {
  fuzzer = record start { trace_bits = trace };
  world = 0;
  operation = record {
    syncing_party = none;
    syncing_case = 0;
    current_entry = 0;
    splicing_with = none;
    stage_short = b'h' ∷ [];
    stage_cur_byte = none;
    stage_val_type = 0;
    stage_cur_val = 4;
  };
  out_dir = b'o' ∷ [];
  start_time = 0;
  exec_tmout = 1000;
  hang_tmout = 1000;
  crash_mode = 0;
  no_forkserver = false;
  uses_asan = false;
  fast_cal = true;
  resuming_fuzz = false;
  skip_deterministic = false;
  master_id = 0;
  master_max = 0;
  virgin_bits = replicate 8 255;
  virgin_tmout = replicate 8 255;
  virgin_crash = replicate 8 255;
  bitmap_changed = 0;
  var_bytes = replicate 8 0;
  first_trace = replicate 8 0;
  prev_timed_out = 0;
  total_execs = 0;
  kill_signal = 0;
  slowest_exec_ms = 0;
  total_cal_us = 0;
  total_cal_cycles = 0;
  total_bitmap_size = 0;
  total_bitmap_entries = 0;
  queued_with_cov = 0;
  queued_variable = 0;
  var_byte_count = 0;
  total_tmouts = 0;
  unique_tmouts = 0;
  unique_hangs = 0;
  last_hang_time = 0;
  total_crashes = 0;
  unique_crashes = 0;
  last_crash_time = 0;
  last_crash_execs = 0;
  queue_cycle = 1;
  subseq_tmouts = 0;
  cur_skipped_paths = 0;
  queued_discovered = 0;
}

pub session-IsFiled : IsFiled naturals 2 session
session-IsFiled = record {
  scored = record {
    rated = start-IsScored.rated;
    width = start-IsScored.width;
    small = start-IsScored.small;
  };
  same_length = refl;
  tallied = record {
    hangs_max = omega arith;
    crashes_max = omega arith;
    hangs = omega arith;
    tmouts = omega arith;
    crashes = omega arith;
  };
}

abbrev pub input : List ℕ
input = 65 ∷ 66 ∷ []
