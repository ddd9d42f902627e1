-- ===== src/Saving/Outcome.antt =====
-- The whole of `save_if_interesting`.
use aflgo.Common.{
  ℕ, ◌+◌, ◌-◌, ◌%◌, ◌^◌, ◌<◌, ◌≤◌, ◌≡◌, ◌≢◌, refl, ap, sym, ◌∙◌, subst, arith, ◌==◌, ◌!=◌, ==_iff,
  false, Bool-cases, inl, inr, Option, none, some, List, length,
}
use aflgo.Doubles.{Doubles}
use aflgo.Queue.{after_slash}
use aflgo.Session.{Machine, Globals}
use aflgo.Execution.Laws.{IsServing}
use aflgo.Calibration.{check_bits, at_entry}
use aflgo.Calibration.Steady.{Finds, finds}
use aflgo.Calibration.Ends.{IsLinking}
use aflgo.Calibration.Outcome.{calibrate_case-IsCalibrated}
use aflgo.Saving.{
  Next, stop, save_as, queue_top, save_file, enqueue, keep, file_fault, save_if_interesting,
}
use aflgo.Saving.Filed.{
  IsTallied, IsFiled, untouched-IsFiled, IsNext, count_crash, count_crash-IsFiled,
}
use aflgo.Saving.Switch.{switch_fault-IsNext}
use aflgo.Saving.Whole.{IsWriting, save_file-saved, enqueue-IsQueued}

module _ {D W : Type 0} (d : Doubles D) (m : Machine W) where
  keep-IsFiled :
      (mem : List ℕ) (hnb n : ℕ) (s : Globals D W)
      → IsServing m
      → IsLinking m
      → IsWriting m
      → IsFiled d n s
      → (s' : Globals D W) × (keep d m mem hnb s ≡ some s')
        × IsFiled d (n + 1) s'
        × (finds s' ≡ finds s)
  unfolding keep
  keep-IsFiled mem hnb n s serving links writing h =
      let out = enqueue d m hnb (length mem) s in
      let k = enqueue-IsQueued d m hnb (length mem) s h.scored in
      let q = queue_top d m out.1 in
      let inside : q < length out.1.fuzzer.queue = omega (arith, k.1.0, k.1.2) in
      let named =
        ap (λ i. after_slash (at_entry d i out.1).fname) k.1.0 ∙ ap after_slash k.1.4 ∙ k.2.1 in
      let c =
        calibrate_case-IsCalibrated d m q mem k.2.0 ((s.queue_cycle + 2 ^ 64 - 1) % 2 ^ 32) false
          out.1 serving links k.1.1 inside named in
      let file = save_file-saved d m out.0 mem c.after writing in
      let found = c.same_finds ∙ k.1.3 in
      elim (Bool-cases (c.fault == 3)) [
        | inl failed ↦ absurd (c.fine ((==_iff c.fault 3).0 failed))
        | inr ran ↦
            rw (c.returns, ran, file.1, keep)
              (
                record c.after { world = file.0 },
                refl,
                record {
                  scored = record {
                    rated = c.scored.rated;
                    width = c.scored.width;
                    small = c.scored.small;
                  };
                  same_length = omega (arith, c.same_length, k.1.2, h.same_length);
                  tallied = subst IsTallied (sym found) h.tallied;
                },
                found,
              )
      ]

  -- How the call ends: what it returns, and a state in order.
  pub record IsSaved (n : ℕ) (out : Option (ℕ × Globals D W)) : Type 0 where
    pub keeping : ℕ
    pub one : keeping ≤ 1
    pub after : Globals D W
    pub returns : out ≡ some (keeping, after)
    pub filed : IsFiled d (n + keeping) after

  -- The file that the switch asks for.
  abbrev settled : List ℕ → ℕ → Next D W → Option (ℕ × Globals D W)
  settled mem keeping next = elim next as (λ _. Option (ℕ × Globals D W)) [
    | stop s1 ↦ some (keeping, s1)
    | save_as fn s1 ↦ elim (save_file d m fn mem s1) as (λ _. Option (ℕ × Globals D W)) [
      | none ↦ none
      | some s2 ↦ some (keeping, s2)
    ]
  ]

  settled-IsSaved :
      (mem : List ℕ) (keeping n k : ℕ) (next : Next D W)
      → IsWriting m
      → keeping ≤ 1
      → n + keeping ≡ k
      → IsNext d m k next
      → IsSaved n (settled mem keeping next)
  settled-IsSaved mem keeping n k (stop s) writing one e v = record {
    keeping = keeping;
    one = one;
    after = s;
    returns = refl;
    filed = rw e v;
  }
  settled-IsSaved mem keeping n k (save_as fn s) writing one e v =
      let file = save_file-saved d m fn mem s writing in
      rw (file.1, settled)
        (record {
          keeping = keeping;
          one = one;
          after = record s { world = file.0 };
          returns = refl;
          filed = rw e (untouched-IsFiled d m k s _ (refl, refl, refl, refl) v);
        })

  file_fault-IsSaved :
      (mem : List ℕ) (fault keeping n k : ℕ) (s : Globals D W)
      → IsServing m
      → IsWriting m
      → fault ≢ 3
      → s.total_crashes + 1 < 2 ^ 64
      → s.total_tmouts + 1 < 2 ^ 64
      → keeping ≤ 1
      → n + keeping ≡ k
      → IsFiled d k s
      → IsSaved n (file_fault d m mem fault keeping s)
  unfolding file_fault
  file_fault-IsSaved mem fault keeping n k s serving writing fine room more one e h =
      let next = switch_fault-IsNext d m k mem fault s serving fine room more h in
      rw (next.1, file_fault) (settled-IsSaved mem keeping n k next.0 writing one e next.2)

  -- When the target is served, no run fails to start, and links and files can be made,
  -- `save_if_interesting` on a fault other than FAULT_ERROR returns, and leaves a state in order: the
  -- queue has one entry more exactly if the call returns 1, each slot points into it, `tc_ref` of
  -- each entry is the number of slots that point to it, and its `trace_mini` is allocated exactly if
  -- that number is not 0; at most 500 unique hangs and 5000 unique crashes are kept, unique hangs
  -- are at most unique timeouts, those at most all timeouts, and unique crashes at most all
  -- crashes. This is for a state that is in order, with counts of timeouts and crashes that do not
  -- wrap around.
  pub save_if_interesting-IsSaved :
      (mem : List ℕ) (fault n : ℕ) (s : Globals D W)
      → IsServing m
      → IsLinking m
      → IsWriting m
      → fault ≢ 3
      → s.total_crashes + 1 < 2 ^ 64
      → s.total_tmouts + 1 < 2 ^ 64
      → IsFiled d n s
      → IsSaved n (save_if_interesting d m mem fault s)
  unfolding save_if_interesting check_bits
  save_if_interesting-IsSaved mem fault n s serving links writing fine room more h =
      let out = check_bits d s in
      let h1 = untouched-IsFiled d m n s out.1 (refl, refl, refl, refl) h in
      let none_more : n ≡ n + 0 = omega arith in
      elim (Bool-cases (fault == s.crash_mode)) [
        | inr other ↦
            rw (other, save_if_interesting)
              (file_fault-IsSaved mem fault 0 n n s serving writing fine room more (omega arith)
                (omega arith) h)
        | inl usual ↦ elim (Bool-cases (out.0 == 0)) [
          | inl known ↦ elim (Bool-cases (s.crash_mode != 0)) [
            | inr crash_free ↦
                rw (usual, known, crash_free, save_if_interesting)
                  (record {
                    keeping = 0;
                    one = omega arith;
                    after = out.1;
                    returns = refl;
                    filed = subst (λ k. IsFiled d k out.1) none_more h1;
                  })
            | inl exploring ↦
                rw (usual, known, exploring, save_if_interesting)
                  (record {
                    keeping = 0;
                    one = omega arith;
                    after = count_crash d m n out.1;
                    returns = refl;
                    filed =
                        subst (λ k. IsFiled d k (count_crash d m n out.1)) none_more
                          (count_crash-IsFiled d m n out.1 room h1);
                  })
          ]
          | inr new ↦
              let k = keep-IsFiled mem out.0 n out.1 serving links writing h1 in
              let crashes = ap (λ (f : Finds). f.total_crashes) k.3 in
              let tmouts = ap (λ (f : Finds). f.total_tmouts) k.3 in
              rw (usual, new, k.1, save_if_interesting)
                (file_fault-IsSaved mem fault 1 n (n + 1) k.0 serving writing fine
                  (omega (arith, crashes, room)) (omega (arith, tmouts, more)) (omega arith) refl
                  k.2)
        ]
      ]
