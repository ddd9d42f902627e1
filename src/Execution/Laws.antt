-- ===== src/Execution/Laws.antt =====
-- What a run of the target leaves alone.
use aflgo.Common.{
  ℕ, ◌≡◌, refl, ◌==◌, leb, ltb, Bool, not, ◌&&◌, Bool-cases, inl, take, replicate, ◌+◌, inr, some,
  List, sym, subst, ◌≢◌, ==_iff, &&_parts, arith,
}
use aflgo.Session.{Machine, Globals, Report, served, lost, misbehaving}
use aflgo.Execution.{
  is_signaled, exit_status, msan_error, own_fork, report, run_target, receive, account, with_trace,
  exec_fail_sig,
}
use aflgo.Bitmap.Memory.{word}

module _ {D W : Type 0} where
  -- A state that differs from another only in the outcome of a run.
  abbrev pub IsRun : Globals D W → Globals D W → Type 0
  IsRun s s' = s' ≡ record s {
    fuzzer = record s.fuzzer { trace_bits = s'.fuzzer.trace_bits };
    world = s'.world;
    prev_timed_out = s'.prev_timed_out;
    total_execs = s'.total_execs;
    kill_signal = s'.kill_signal;
    slowest_exec_ms = s'.slowest_exec_ms;
  }

  -- An outcome writes the signal and the slowest time.
  abbrev IsTold : Globals D W → Globals D W → Type 0
  IsTold s s' = s' ≡ record s { kill_signal = s'.kill_signal; slowest_exec_ms = s'.slowest_exec_ms }

  report-IsTold :
      (stop_soon : Bool) (timeout tb4 status : ℕ) (timed_out : Bool) (exec_ms : ℕ) (s : Globals D W)
      → IsTold s (report stop_soon timeout tb4 status timed_out exec_ms s).1
  unfolding report
  report-IsTold stop_soon timeout tb4 status timed_out exec_ms s =
      elim (Bool-cases (is_signaled status && not stop_soon)) [
        | inl signaled ↦ rw (signaled, report) refl
        | inr exited ↦ elim (Bool-cases (s.uses_asan && exit_status status == msan_error)) [
          | inl msan ↦ rw (exited, msan, report) refl
          | inr clean ↦ elim (Bool-cases (own_fork s && tb4 == 0xfee1dead)) [
            | inl failed ↦ rw (exited, clean, failed, report) refl
            | inr ran ↦
                elim (Bool-cases (leb timeout s.exec_tmout && ltb s.slowest_exec_ms exec_ms)) [
                  | inl slow ↦ rw (exited, clean, ran, slow, report) refl
                  | inr fast ↦ rw (exited, clean, ran, fast, report) refl
                ]
          ]
        ]
      ]

  told-IsRun :
      (s t : Globals D W) (trace : List ℕ) (w : W) (timed_out : Bool) (signal slowest : ℕ)
      → t ≡ record (account trace timed_out (record s { world = w })) {
        kill_signal = signal;
        slowest_exec_ms = slowest;
      }
      → IsRun s t
  told-IsRun s t trace w timed_out signal slowest e = subst (IsRun s) (sym e) refl

  receive-IsRun :
      (m : Machine W) (timeout : ℕ) (w : W) (r : Report) (s : Globals D W) (out : ℕ × Globals D W)
      → receive m timeout r (record s { world = w }) ≡ some out
      → IsRun s out.1
  unfolding receive
  receive-IsRun m timeout w misbehaving s out e = absurd (cc)
  receive-IsRun m timeout w (lost trace) s out e =
      elim (Bool-cases (not (own_fork s) && m.stop_soon w)) [
        | inr dead ↦ let none_left = rw (dead, receive) at e in absurd cc
        | inl stopped ↦
            let returned = rw (stopped, receive) at e in
            let same : with_trace trace (record s { world = w }) ≡ out.1 = cc in
            subst (IsRun s) same refl
      ]
  receive-IsRun m timeout w (served trace status timed_out exec_ms) s out e =
      let told =
        report-IsTold (m.stop_soon w) timeout (word (take 4 trace)) status timed_out exec_ms
          (account trace timed_out (record s { world = w })) in
      let same : report (m.stop_soon w) timeout (word (take 4 trace)) status timed_out exec_ms
            (account trace timed_out (record s { world = w }))
          ≡ out =
        cc in
      subst (λ (o : ℕ × Globals D W). IsRun s o.1) same (told-IsRun s _ trace w timed_out _ _ told)

  pub run_target-IsRun :
      (m : Machine W) (timeout : ℕ) (mem : List ℕ) (s : Globals D W) (out : ℕ × Globals D W)
      → run_target m timeout mem s ≡ some out
      → IsRun s out.1
  unfolding run_target
  run_target-IsRun m timeout mem s out e =
      let answer =
        m.execute timeout s.prev_timed_out mem (replicate (s.fuzzer.map_size + 16) 0) s.world in
      receive-IsRun m timeout answer.1 answer.0 s out e

-- Each request for a run is answered, and `execv` does not fail.
abbrev pub IsServing : {W : Type 0} → Machine W → Type 0
IsServing {W} m =
    (timeout prev_timed_out : ℕ) (mem shared : List ℕ) (w : W)
    → (trace : List ℕ) × (status : ℕ) × (timed_out : Bool) × (exec_ms : ℕ) × (w' : W) × (m.execute
          timeout prev_timed_out mem shared w
        ≡ (served trace status timed_out exec_ms, w'))
      × (word (take 4 trace) ≢ exec_fail_sig)

module _ {D W : Type 0} where
  report-fine :
      (stop_soon : Bool) (timeout tb4 status : ℕ) (timed_out : Bool) (exec_ms : ℕ) (s : Globals D W)
      → tb4 ≢ exec_fail_sig
      → (report stop_soon timeout tb4 status timed_out exec_ms s).0 ≢ 3
  unfolding report
  report-fine stop_soon timeout tb4 status timed_out exec_ms s ran =
      elim (Bool-cases (is_signaled status && not stop_soon)) [
        | inl signaled ↦ rw (signaled, report) (λ e. ground arith)
        | inr exited ↦ elim (Bool-cases (s.uses_asan && exit_status status == msan_error)) [
          | inl msan ↦ rw (exited, msan, report) (λ e. omega arith)
          | inr clean ↦ elim (Bool-cases (own_fork s && tb4 == exec_fail_sig)) [
            | inl failed ↦
                absurd (ran ((==_iff tb4 exec_fail_sig).0 (&&_parts (own_fork s) _ failed).1))
            | inr fine ↦ rw (exited, clean, fine, report) (λ e. omega arith)
          ]
        ]
      ]

  -- A run that is answered returns, and the target did start.
  pub run_target-served :
      (m : Machine W) (timeout : ℕ) (mem : List ℕ) (s : Globals D W)
      → IsServing m
      → (out : ℕ × Globals D W) × (run_target m timeout mem s ≡ some out) × (out.0 ≢ 3)
  unfolding run_target receive
  run_target-served m timeout mem s serving =
      let a = serving timeout s.prev_timed_out mem (replicate (s.fuzzer.map_size + 16) 0) s.world in
      rw (a.5, run_target, receive)
        (
          report (m.stop_soon a.4) timeout (word (take 4 a.0)) a.1 a.2 a.3
              (account a.0 a.2 (record s { world = a.4 })),
          refl,
          report-fine (m.stop_soon a.4) timeout (word (take 4 a.0)) a.1 a.2 a.3
              (account a.0 a.2 (record s { world = a.4 })) a.6,
        )
