-- ===== src/Saving/Switch.antt =====
-- The switch of `save_if_interesting` keeps a state in order.
use aflgo.Common.{
  ℕ, ◌+◌, ◌%◌, ◌^◌, ◌<◌, ◌≤◌, ◌≡◌, ◌≢◌, refl, ap, arith, ◌==◌, ◌!=◌, leb, ltb, leb_off,
  if◌then◌else◌, not, ◌&&◌, ◌||◌, Bool-cases, inl, inr, some, List, ==_iff,
}
use aflgo.Doubles.{Doubles}
use aflgo.Session.{Machine, Globals, fault_tmout, fault_crash}
use aflgo.Execution.Laws.{IsServing, run_target-served, run_target-IsRun}
use aflgo.Calibration.Steady.{Finds}
use aflgo.Saving.{
  keep_unique_hang, tmout_map, Next, stop, is_unique, keep_as_crash, keep_as_hang, confirm_hang,
  keep_timeout, switch_fault,
}
use aflgo.Saving.Filed.{
  IsFiled, refile, IsNext, run-IsUntouched, untouched-IsFiled, is_unique-IsUntouched,
  keep_as_crash-IsNext,
}

module _ {D W : Type 0} (d : Doubles D) (m : Machine W) (n : ℕ) where
  keep_as_hang-IsNext :
      (s : Globals D W)
      → s.unique_hangs < keep_unique_hang
      → s.unique_hangs + 1 ≤ s.unique_tmouts
      → IsFiled d n s
      → IsNext d m n (keep_as_hang d m s)
  unfolding keep_as_hang
  keep_as_hang-IsNext s few room h =
      refile d m n s _ refl refl refl
        (record {
          hangs_max = omega (arith, few);
          crashes_max = h.tallied.crashes_max;
          hangs = omega (arith, few, room);
          tmouts = h.tallied.tmouts;
          crashes = h.tallied.crashes;
        })
        h

  -- What becomes of a hang after its second run.
  abbrev told : ℕ → Globals D W → Next D W
  told fault s =
      if not (m.stop_soon s.world) && fault == fault_crash
      then keep_as_crash d m s
      else if m.stop_soon s.world || fault != fault_tmout
      then stop s
      else keep_as_hang d m s

  told-IsNext :
      (fault : ℕ) (s : Globals D W)
      → s.total_crashes + 1 < 2 ^ 64
      → s.unique_hangs < keep_unique_hang
      → s.unique_hangs + 1 ≤ s.unique_tmouts
      → IsFiled d n s
      → IsNext d m n (told fault s)
  told-IsNext fault s room few more h =
      elim (Bool-cases (not (m.stop_soon s.world) && fault == fault_crash)) [
        | inl crash ↦ rw crash (keep_as_crash-IsNext d m n s room h)
        | inr other ↦ elim (Bool-cases (m.stop_soon s.world || fault != fault_tmout)) [
          | inl over ↦ rw (other, over) h
          | inr hang ↦ rw (other, hang) (keep_as_hang-IsNext s few more h)
        ]
      ]

  confirm_hang-IsNext :
      (mem : List ℕ) (s : Globals D W)
      → IsServing m
      → s.total_crashes + 1 < 2 ^ 64
      → s.unique_hangs < keep_unique_hang
      → s.unique_hangs + 1 ≤ s.unique_tmouts
      → IsFiled d n s
      → (next : Next D W) × (confirm_hang d m mem s ≡ some next) × IsNext d m n next
  unfolding confirm_hang
  confirm_hang-IsNext mem s serving room few more h =
      elim (Bool-cases (ltb s.exec_tmout s.hang_tmout)) [
        | inr generous ↦
            rw (generous, confirm_hang) (keep_as_hang d m s, refl, keep_as_hang-IsNext s few more h)
        | inl short ↦
            let ran = run_target-served m s.hang_tmout mem s serving in
            let s1 = ran.0.1 in
            let u = run-IsUntouched s s1 (run_target-IsRun m s.hang_tmout mem s ran.0 ran.1) in
            let hangs = ap (λ (f : Finds). f.unique_hangs) u.3 in
            let tmouts = ap (λ (f : Finds). f.unique_tmouts) u.3 in
            let crashes = ap (λ (f : Finds). f.total_crashes) u.3 in
            rw (short, ran.1, confirm_hang)
              (
                told ran.0.0 s1,
                refl,
                told-IsNext ran.0.0 s1 (omega (arith, crashes, room)) (omega (arith, hangs, few))
                    (omega (arith, hangs, tmouts, more)) (untouched-IsFiled d m n s s1 u h),
              )
      ]

  keep_timeout-IsNext :
      (mem : List ℕ) (s : Globals D W)
      → IsServing m
      → s.total_crashes + 1 < 2 ^ 64
      → s.total_tmouts + 1 < 2 ^ 64
      → IsFiled d n s
      → (next : Next D W) × (keep_timeout d m mem s ≡ some next) × IsNext d m n next
  unfolding keep_timeout
  keep_timeout-IsNext mem s serving room more h =
      let t = h.tallied in
      let s1 = record s { total_tmouts = (s.total_tmouts + 1) % 2 ^ 64 } in
      let h1 : IsFiled d n s1 =
        refile d m n s s1 refl refl refl
          (record {
            hangs_max = t.hangs_max;
            crashes_max = t.crashes_max;
            hangs = t.hangs;
            tmouts = omega (arith, t.tmouts, more);
            crashes = t.crashes;
          })
          h in
      elim (Bool-cases (leb keep_unique_hang s1.unique_hangs)) [
        | inl full ↦ rw (full, keep_timeout) (stop s1, refl, h1)
        | inr space ↦
            let s2 = (is_unique d m tmout_map s1).1 in
            let u = is_unique-IsUntouched d m n tmout_map s1 in
            let h2 = untouched-IsFiled d m n s1 s2 u h1 in
            elim (Bool-cases (is_unique d m tmout_map s1).0) [
              | inr known ↦ rw (space, known, keep_timeout) (stop s2, refl, h2)
              | inl new ↦
                  let hangs : s2.unique_hangs ≡ s.unique_hangs =
                    ap (λ (f : Finds). f.unique_hangs) u.3 in
                  let tmouts : s2.unique_tmouts ≡ s.unique_tmouts =
                    ap (λ (f : Finds). f.unique_tmouts) u.3 in
                  let total : s2.total_tmouts ≡ (s.total_tmouts + 1) % 2 ^ 64 =
                    ap (λ (f : Finds). f.total_tmouts) u.3 in
                  let crashes : s2.total_crashes ≡ s.total_crashes =
                    ap (λ (f : Finds). f.total_crashes) u.3 in
                  let few = leb_off keep_unique_hang s.unique_hangs space in
                  let s3 = record s2 { unique_tmouts = (s2.unique_tmouts + 1) % 2 ^ 64 } in
                  rw (space, new, keep_timeout)
                    (confirm_hang-IsNext mem s3 serving (omega (arith, crashes, room))
                      (omega (arith, hangs, few))
                      (omega (arith, hangs, tmouts, t.hangs, t.tmouts, more))
                      (refile d m n s2 s3 refl refl refl
                        (record {
                          hangs_max = h2.tallied.hangs_max;
                          crashes_max = h2.tallied.crashes_max;
                          hangs = omega (arith, hangs, tmouts, t.hangs, t.tmouts, more);
                          tmouts = omega (arith, tmouts, total, t.tmouts, more);
                          crashes = h2.tallied.crashes;
                        })
                        h2))
            ]
      ]

  pub switch_fault-IsNext :
      (mem : List ℕ) (fault : ℕ) (s : Globals D W)
      → IsServing m
      → fault ≢ 3
      → s.total_crashes + 1 < 2 ^ 64
      → s.total_tmouts + 1 < 2 ^ 64
      → IsFiled d n s
      → (next : Next D W) × (switch_fault d m mem fault s ≡ some next) × IsNext d m n next
  unfolding switch_fault
  switch_fault-IsNext mem fault s serving fine room more h =
      elim (Bool-cases (fault == fault_tmout)) [
        | inl hang ↦ rw (hang, switch_fault) (keep_timeout-IsNext mem s serving room more h)
        | inr other ↦ elim (Bool-cases (fault == fault_crash)) [
          | inl crash ↦
              rw (other, crash, switch_fault)
                (keep_as_crash d m s, refl, keep_as_crash-IsNext d m n s room h)
          | inr quiet ↦ elim (Bool-cases (fault == 3)) [
            | inl failed ↦ absurd (fine ((==_iff fault 3).0 failed))
            | inr ran ↦ rw (other, quiet, ran, switch_fault) (stop s, refl, h)
          ]
        ]
      ]
