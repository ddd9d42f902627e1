-- ===== src/Session.antt =====
-- The state of a fuzzing session of afl-2.57b/afl-fuzz.c: the globals that the run of a test case,
-- its calibration and its saving share, beside those of the queue (Fuzzer). The words are of 64
-- bits (WORD_SIZE_64).
pub mod Tests
use aflgo.Common.{ℕ, Bool, Option, List}
use aflgo.Fuzzer.{Fuzzer, SysCall}

-- How the kernel and the fork server answer a request for a run: with what the target leaves in
-- the shared memory, its wait status, whether the timer killed it, and the milliseconds it took;
-- with a short read or write on the pipes, or a failed call; or with a bad process id.
pub data Report : Type 0 where
  served : List ℕ → ℕ → Bool → ℕ → Report
  lost : List ℕ → Report
  misbehaving : Report

-- The rest of the machine. `execute` takes the timeout, `prev_timed_out`, the test case and the
-- shared memory; `stop_soon` and `skip_requested` are set by signal handlers; `create` writes a
-- file with O_CREAT | O_EXCL, `none` when the file cannot be created or written; `link` says
-- whether a call on the state directories succeeds, given the calls before it.
pub record Machine (W : Type 0) : Type 0 where
  pub execute : ℕ → ℕ → List ℕ → List ℕ → W → Report × W
  pub stop_soon : W → Bool
  pub skip_requested : W → Bool
  pub clear_skip : W → W
  pub get_cur_time : W → ℕ × W
  pub get_cur_time_us : W → ℕ × W
  pub create : List ℕ → List ℕ → W → Option W
  pub link : List SysCall → SysCall → Bool

-- The fuzzing operation that `describe_op` names. `none` is a NULL or a negative number.
pub record Operation : Type 0 where
  pub syncing_party : Option (List ℕ)
  pub syncing_case : ℕ
  pub current_entry : ℕ
  pub splicing_with : Option ℕ
  pub stage_short : List ℕ
  pub stage_cur_byte : Option ℕ
  pub stage_val_type : ℕ
  pub stage_cur_val : ℕ

pub record Globals (D W : Type 0) : Type 0 where
  pub fuzzer : Fuzzer D
  pub world : W
  pub operation : Operation
  pub out_dir : List ℕ
  pub start_time : ℕ
  -- options
  pub exec_tmout : ℕ
  pub hang_tmout : ℕ
  pub crash_mode : ℕ
  pub no_forkserver : Bool
  pub uses_asan : Bool
  pub fast_cal : Bool
  pub resuming_fuzz : Bool
  pub skip_deterministic : Bool
  pub master_id : ℕ
  pub master_max : ℕ
  -- maps
  pub virgin_bits : List ℕ
  pub virgin_tmout : List ℕ
  pub virgin_crash : List ℕ
  pub bitmap_changed : ℕ
  pub var_bytes : List ℕ
  pub first_trace : List ℕ
  -- of the runs
  pub prev_timed_out : ℕ
  pub total_execs : ℕ
  pub kill_signal : ℕ
  pub slowest_exec_ms : ℕ
  -- of the calibrations
  pub total_cal_us : ℕ
  pub total_cal_cycles : ℕ
  pub total_bitmap_size : ℕ
  pub total_bitmap_entries : ℕ
  pub queued_with_cov : ℕ
  pub queued_variable : ℕ
  pub var_byte_count : ℕ
  -- of the finds
  pub total_tmouts : ℕ
  pub unique_tmouts : ℕ
  pub unique_hangs : ℕ
  pub last_hang_time : ℕ
  pub total_crashes : ℕ
  pub unique_crashes : ℕ
  pub last_crash_time : ℕ
  pub last_crash_execs : ℕ
  -- of the main loop
  pub queue_cycle : ℕ
  pub subseq_tmouts : ℕ
  pub cur_skipped_paths : ℕ
  pub queued_discovered : ℕ

-- Reports of `run_target` and `calibrate_case`.
abbrev pub fault_none : ℕ
fault_none = 0

abbrev pub fault_tmout : ℕ
fault_tmout = 1

abbrev pub fault_crash : ℕ
fault_crash = 2

abbrev pub fault_noinst : ℕ
fault_noinst = 4

abbrev pub fault_nobits : ℕ
fault_nobits = 5
