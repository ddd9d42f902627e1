-- ===== src/Execution.antt =====
-- `run_target` of afl-2.57b/afl-fuzz.c: one run of the target and the fault it ends with. The fork
-- and the pipes to the fork server are the parameter `execute` of the machine.
pub mod Laws
use aflgo.Common.{
  ℕ, ◌+◌, ◌-◌, ◌/◌, ◌%◌, ◌^◌, ◌==◌, ◌!=◌, leb, ltb, if◌then◌else◌, Bool, true, false, not, ◌&&◌,
  ◌||◌, Option, none, some, List, replicate, take,
}
use aflgo.Bitmap.Memory.{word}
use aflgo.Bitmap.Classes.{classify_counts}
use aflgo.Session.{
  Machine, Globals, Report, served, lost, misbehaving, fault_none, fault_tmout, fault_crash,
}
use aflgo.Trim.{fault_error}

-- `WTERMSIG`, `WIFSIGNALED` and `WEXITSTATUS`.
abbrev pub term_signal : ℕ → ℕ
term_signal status = status % 2 ^ 7

abbrev pub is_signaled : ℕ → Bool
is_signaled status = term_signal status != 0 && term_signal status != 127

abbrev pub exit_status : ℕ → ℕ
exit_status status = status / 2 ^ 8 % 2 ^ 8

abbrev pub sigkill : ℕ
sigkill = 9

abbrev pub msan_error : ℕ
msan_error = 86

abbrev pub exec_fail_sig : ℕ
exec_fail_sig = 0xfee1dead

module _ {D W : Type 0} where
  -- A target that the fuzzer forks itself.
  abbrev pub own_fork : Globals D W → Bool
  own_fork s = s.fuzzer.dumb_mode == 1 || s.no_forkserver

  abbrev pub with_trace : List ℕ → Globals D W → Globals D W
  with_trace trace s = record s { fuzzer = record s.fuzzer { trace_bits = trace } }

  -- The books behind the run, before its outcome is told.
  abbrev pub account : List ℕ → Bool → Globals D W → Globals D W
  account trace child_timed_out s = record s {
    fuzzer = record s.fuzzer { trace_bits = classify_counts s.fuzzer.map_size 8 trace };
    total_execs = (s.total_execs + 1) % 2 ^ 64;
    prev_timed_out = (if child_timed_out then 1 else 0);
  }

  -- The outcome; `tb4` is the first word of the raw trace.
  unfoldable pub report : Bool → ℕ → ℕ → ℕ → Bool → ℕ → Globals D W → ℕ × Globals D W
  report stop_soon timeout tb4 status child_timed_out exec_ms s =
      if is_signaled status && not stop_soon
      then (
        if child_timed_out && term_signal status == sigkill then fault_tmout else fault_crash,
        record s { kill_signal = term_signal status },
      )
      else if s.uses_asan && exit_status status == msan_error
      then (fault_crash, record s { kill_signal = 0 })
      else if own_fork s && tb4 == exec_fail_sig
      then (fault_error, s)
      else (
        fault_none,
        if leb timeout s.exec_tmout && ltb s.slowest_exec_ms exec_ms
            then record s { slowest_exec_ms = exec_ms }
            else s,
      )

  -- What the fuzzer makes of the answer; `none` is the end of the process.
  unfoldable pub receive : Machine W → ℕ → Report → Globals D W → Option (ℕ × Globals D W)
  receive m timeout misbehaving s = none
  receive m timeout (lost trace) s =
      if not (own_fork s) && m.stop_soon s.world
      then some (fault_none, with_trace trace s)
      else none
  receive m timeout (served trace status child_timed_out exec_ms) s = some (
      report (m.stop_soon s.world) timeout (word (take 4 trace)) status child_timed_out exec_ms
        (account trace child_timed_out s))

  -- The memory for the trace is cleared first.
  unfoldable pub run_target : Machine W → ℕ → List ℕ → Globals D W → Option (ℕ × Globals D W)
  run_target m timeout mem s =
      let out =
        m.execute timeout s.prev_timed_out mem (replicate (s.fuzzer.map_size + 16) 0) s.world in
      receive m timeout out.0 (record s { world = out.1 })
