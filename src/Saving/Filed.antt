-- ===== src/Saving/Filed.antt =====
-- What the switch of `save_if_interesting` keeps: the queue, and the relations between the counters
-- of the hangs and the crashes.
use aflgo.Common.{
  ℕ, ◌+◌, ◌%◌, ◌^◌, ◌<◌, ◌≤◌, ◌≡◌, refl, ap, sym, subst, arith, ◌!=◌, leb, leb_off, Bool-cases, inl,
  inr, length,
}
use aflgo.Doubles.{Doubles}
use aflgo.Queue.Refs.{IsScored}
use aflgo.Session.{Machine, Globals}
use aflgo.Execution.Laws.{IsRun}
use aflgo.Calibration.Steady.{Finds, finds}
use aflgo.Saving.{
  keep_unique_hang, keep_unique_crash, FaultMap, tmout_map, crash_map, Next, stop, save_as,
  check_fault, is_unique, keep_as_crash,
}

-- No more unique hangs and crashes than are kept, or than there were at all.
pub record IsTallied (f : Finds) : Type 0 where
  pub hangs_max : f.unique_hangs ≤ keep_unique_hang
  pub crashes_max : f.unique_crashes ≤ keep_unique_crash
  pub hangs : f.unique_hangs ≤ f.unique_tmouts
  pub tmouts : f.unique_tmouts ≤ f.total_tmouts
  pub crashes : f.unique_crashes ≤ f.total_crashes

module _ {D W : Type 0} where
  -- Writes to the maps of the hangs and the crashes, and to the state of the runs.
  abbrev pub IsUntouched : Globals D W → Globals D W → Type 0
  IsUntouched s t =
      (t.fuzzer.queue ≡ s.fuzzer.queue)
      × (t.fuzzer.top_rated ≡ s.fuzzer.top_rated)
      × (t.fuzzer.map_size ≡ s.fuzzer.map_size)
      × (finds t ≡ finds s)

  pub run-IsUntouched : (s t : Globals D W) → IsRun s t → IsUntouched s t
  run-IsUntouched s t e = subst (IsUntouched s) (sym e) (refl, refl, refl, refl)

  check_fault-IsUntouched :
      (d : Doubles D) (m : Machine W) (which : FaultMap) (s : Globals D W)
      → IsUntouched s (check_fault d m which s).1
  unfolding check_fault
  check_fault-IsUntouched d m tmout_map s = (refl, refl, refl, refl)
  check_fault-IsUntouched d m crash_map s = (refl, refl, refl, refl)

-- A queue of `n` entries with its counts right, and the counters tallied.
pub record IsFiled {D W : Type 0} (d : Doubles D) (n : ℕ) (s : Globals D W) : Type 0 where
  pub scored : IsScored d s.fuzzer
  pub same_length : length s.fuzzer.queue ≡ n
  pub tallied : IsTallied (finds s)

module _ {D W : Type 0} (d : Doubles D) (m : Machine W) (n : ℕ) where
  pub refile :
      (s t : Globals D W)
      → t.fuzzer.queue ≡ s.fuzzer.queue
      → t.fuzzer.top_rated ≡ s.fuzzer.top_rated
      → t.fuzzer.map_size ≡ s.fuzzer.map_size
      → IsTallied (finds t)
      → IsFiled d n s
      → IsFiled d n t
  refile s t queue tops size tallied h = record {
    scored = record {
      rated = rw (queue, tops) h.scored.rated;
      width = rw (tops, size) h.scored.width;
      small = rw size h.scored.small;
    };
    same_length = rw queue h.same_length;
    tallied = tallied;
  }

  pub untouched-IsFiled : (s t : Globals D W) → IsUntouched s t → IsFiled d n s → IsFiled d n t
  untouched-IsFiled s t u h = refile s t u.0 u.1 u.2 (subst IsTallied (sym u.3) h.tallied) h

  -- `total_crashes++`
  abbrev pub count_crash : Globals D W → Globals D W
  count_crash s = record s { total_crashes = (s.total_crashes + 1) % 2 ^ 64 }

  pub count_crash-IsFiled :
      (s : Globals D W) → s.total_crashes + 1 < 2 ^ 64 → IsFiled d n s → IsFiled d n (count_crash s)
  count_crash-IsFiled s room h =
      refile s (count_crash s) refl refl refl
        (record {
          hangs_max = h.tallied.hangs_max;
          crashes_max = h.tallied.crashes_max;
          hangs = h.tallied.hangs;
          tmouts = h.tallied.tmouts;
          crashes = omega (arith, h.tallied.crashes, room);
        })
        h

  pub is_unique-IsUntouched :
      (which : FaultMap) (s : Globals D W) → IsUntouched s (is_unique d m which s).1
  unfolding is_unique
  is_unique-IsUntouched which s = elim (Bool-cases (s.fuzzer.dumb_mode != 0)) [
    | inl dumb ↦ rw (dumb, is_unique) (refl, refl, refl, refl)
    | inr clever ↦ rw (clever, is_unique) (check_fault-IsUntouched d m which s)
  ]

  -- What is left to do, with the state in order.
  abbrev pub IsNext : Next D W → Type 0
  IsNext (stop s) = IsFiled d n s
  IsNext (save_as fn s) = IsFiled d n s

  pub keep_as_crash-IsNext :
      (s : Globals D W)
      → s.total_crashes + 1 < 2 ^ 64
      → IsFiled d n s
      → IsNext (keep_as_crash d m s)
  unfolding keep_as_crash
  keep_as_crash-IsNext s room h =
      let s1 = count_crash s in
      let t = h.tallied in
      let h1 = count_crash-IsFiled s room h in
      elim (Bool-cases (leb keep_unique_crash s1.unique_crashes)) [
        | inl full ↦ rw (full, keep_as_crash) h1
        | inr space ↦
            let s2 = (is_unique d m crash_map s1).1 in
            let u = is_unique-IsUntouched crash_map s1 in
            let h2 = untouched-IsFiled s1 s2 u h1 in
            let unique : s2.unique_crashes ≡ s.unique_crashes =
              ap (λ (f : Finds). f.unique_crashes) u.3 in
            let total : s2.total_crashes ≡ (s.total_crashes + 1) % 2 ^ 64 =
              ap (λ (f : Finds). f.total_crashes) u.3 in
            let few = leb_off keep_unique_crash s.unique_crashes space in
            elim (Bool-cases (is_unique d m crash_map s1).0) [
              | inr known ↦ rw (space, known, keep_as_crash) h2
              | inl new ↦
                  rw (space, new, keep_as_crash)
                    (refile s2 _ refl refl refl
                      (record {
                        hangs_max = h2.tallied.hangs_max;
                        crashes_max = omega (arith, unique, few);
                        hangs = h2.tallied.hangs;
                        tmouts = h2.tallied.tmouts;
                        crashes = omega (arith, unique, total, few, room, t.crashes);
                      })
                      h2)
            ]
      ]
