-- ===== src/Calibration/Whole.antt =====
-- The start and the end of a calibration keep the invariants of its rounds.
use aflgo.Common.{
  ℕ, ◌+◌, ◌%◌, ◌^◌, ◌<◌, ◌≡◌, ◌≢◌, refl, ◌∙◌, arith, ◌==◌, ◌!=◌, Bool, true, false, ◌&&◌,
  Bool-cases, inl, inr, some, List, take, ◌∷◌, ◌-◌, ◌/◌,
}
use aflgo.Doubles.{Doubles}
use aflgo.Fuzzer.{symlink_variable}
use aflgo.Bitmap.Counts.{count_bytes}
use aflgo.Queue.{after_slash, invoke}
use aflgo.Queue.Rounds.{update_bitmap_score-IsScored, update_bitmap_score-IsFrame}
use aflgo.Session.{Machine, Globals, fault_none}
use aflgo.Calibration.{Calibration, at_entry, update_entry, gather_bits, trace_of}
use aflgo.Calibration.Case.{
  mark_as_variable, settle, note_coverage, note_behavior, note_variable, conclude, recall,
}
use aflgo.Calibration.Steady.{
  Finds, IsSteady, carry-IsSteady, update_entry-IsSteady, recount-IsSteady,
}
use aflgo.Calibration.Steps.{gather_bits-IsSteady, IsCalm}
use aflgo.Calibration.Ends.{IsLinking}

module _ {D W : Type 0} (d : Doubles D) (m : Machine W) (q n tries : ℕ) (name : List ℕ)
    (f : Finds) where
  -- What the end of a calibration leaves: the invariants, and what its caller reads.
  abbrev pub IsKeeping : Globals D W → Globals D W → Type 0
  IsKeeping s s' =
      IsSteady d q n tries name f s' × (s'.world ≡ s.world) × (s'.crash_mode ≡ s.crash_mode)

  note_coverage-IsKeeping :
      (c : Calibration D W)
      → IsSteady d q n tries name f c.session
      → IsKeeping c.session (note_coverage d m q c)
  unfolding note_coverage
  note_coverage-IsKeeping c h =
      elim (Bool-cases (c.new_bits == 2 && (at_entry d q c.session).has_new_cov == 0)) [
        | inr old ↦ rw (old, note_coverage) (h, refl, refl)
        | inl new ↦
            rw (new, note_coverage)
              (
                carry-IsSteady d q n tries name f
                    (update_entry q (λ e. record e { has_new_cov = 1 }) c.session) _ refl refl refl
                    refl
                    (update_entry-IsSteady d q n tries name f q (λ e. record e { has_new_cov = 1 })
                      c.session (λ e. (refl, refl, refl, refl)) h),
                refl,
                refl,
              )
      ]

  -- With its link made, an entry is marked as variable.
  abbrev linked : List ℕ → Globals D W → Globals D W
  linked fn s =
      update_entry q (λ e. record e { var_behavior = 1 })
        (record s {
          fuzzer = record s.fuzzer { syscalls = symlink_variable fn ∷ s.fuzzer.syscalls };
        })

  mark_as_variable-linked :
      (fn : List ℕ) (s : Globals D W)
      → IsLinking m
      → after_slash name ≡ some fn
      → IsSteady d q n tries name f s
      → mark_as_variable d m q s ≡ some (linked fn s)
  unfolding mark_as_variable invoke
  mark_as_variable-linked fn s links named h =
      rw
        (
          h.same_name,
          named,
          links s.fuzzer.syscalls (symlink_variable fn),
          mark_as_variable,
          invoke,
        )
        refl

  note_behavior-IsKeeping :
      (fn : List ℕ) (s : Globals D W)
      → IsLinking m
      → after_slash name ≡ some fn
      → IsSteady d q n tries name f s
      → (s' : Globals D W) × (note_behavior d m q s ≡ some s') × IsKeeping s s'
  unfolding note_behavior
  note_behavior-IsKeeping fn s links named h =
      elim (Bool-cases ((at_entry d q s).var_behavior == 0)) [
        | inr marked ↦ rw (marked, note_behavior) (s, refl, (h, refl, refl))
        | inl steady ↦
            rw (steady, mark_as_variable-linked fn s links named h, note_behavior)
              (
                record (linked fn s) { queued_variable = (s.queued_variable + 1) % 2 ^ 32 },
                refl,
                (
                  carry-IsSteady d q n tries name f (linked fn s) _ refl refl refl refl (
                      update_entry-IsSteady d q n tries name f q
                        (λ e. record e { var_behavior = 1 })
                        (record s {
                          fuzzer = record s.fuzzer {
                            syscalls = symlink_variable fn ∷ s.fuzzer.syscalls;
                          };
                        })
                        (λ e. (refl, refl, refl, refl))
                        (carry-IsSteady d q n tries name f s _ refl refl refl refl h)),
                  refl,
                  refl,
                ),
              )
      ]

  note_variable-IsKeeping :
      (fn : List ℕ) (var_detected : Bool) (s : Globals D W)
      → IsLinking m
      → after_slash name ≡ some fn
      → IsSteady d q n tries name f s
      → (s' : Globals D W) × (note_variable d m q var_detected s ≡ some s') × IsKeeping s s'
  unfolding note_variable
  note_variable-IsKeeping fn false s links named h = (s, refl, (h, refl, refl))
  note_variable-IsKeeping fn true s links named h =
      note_behavior-IsKeeping fn
        (record s { var_byte_count = count_bytes s.fuzzer.map_size s.var_bytes }) links named
        (carry-IsSteady d q n tries name f s _ refl refl refl refl h)

  pub conclude-IsKeeping :
      (fn : List ℕ) (c : Calibration D W)
      → IsLinking m
      → after_slash name ≡ some fn
      → IsSteady d q n tries name f c.session
      → (s' : Globals D W) × (conclude d m q c ≡ some (c.fault, s')) × IsKeeping c.session s'
  unfolding conclude
  conclude-IsKeeping fn c links named h =
      let a = note_coverage-IsKeeping c h in
      let b = note_variable-IsKeeping fn c.var_detected (note_coverage d m q c) links named a.0 in
      (b.0, rw (b.1, conclude) refl, (b.2.0, b.2.1 ∙ a.1, b.2.2 ∙ a.2))

  -- All rounds done: the entry has no failed calibration any more.
  pub settle-IsSteady :
      (handicap start_us : ℕ) (first_run : Bool) (c : Calibration D W)
      → q < n
      → IsSteady d q n tries name f c.session
      → IsSteady d q n 0 name f (settle d m q handicap start_us first_run c).session
  unfolding settle
  settle-IsSteady handicap start_us first_run c there h =
      let s = c.session in
      let size = count_bytes s.fuzzer.map_size (trace_of s) in
      let spent = ((m.get_cur_time_us s.world).0 + 2 ^ 64 - start_us) % 2 ^ 64 in
      let measured =
        update_entry q
          (λ e. record e {
            exec_us = spent / c.stage_max;
            bitmap_size = size;
            handicap = handicap;
            cal_failed = 0;
          })
          s in
      let k =
        recount-IsSteady d q n tries name f 0
          (λ e. record e {
            exec_us = spent / c.stage_max;
            bitmap_size = size;
            handicap = handicap;
            cal_failed = 0;
          })
          s (λ e. (refl, refl, refl, λ e. refl)) there h in
      let frame = update_bitmap_score-IsFrame d q measured.fuzzer in
      record {
        scored =
            update_bitmap_score-IsScored d q measured.fuzzer k.scored
              (omega (arith, there, k.same_length));
        same_length = frame.same_length ∙ k.same_length;
        same_finds = k.same_finds;
        same_tries = frame.same_tries q ∙ k.same_tries;
        same_name = frame.same_name q ∙ k.same_name;
      }

  pub settle-fault :
      (handicap start_us : ℕ) (first_run : Bool) (c : Calibration D W)
      → c.fault ≢ 3
      → (settle d m q handicap start_us first_run c).fault ≢ 3
  unfolding settle
  settle-fault handicap start_us first_run c fine =
      elim (Bool-cases (
        c.session.fuzzer.dumb_mode == 0 && first_run && c.fault == fault_none && c.new_bits == 0)) [
          | inl useless ↦ rw (useless, settle) (λ e. omega arith)
          | inr useful ↦ rw (useful, settle) fine
        ]

  pub recall-IsCalm :
      (c : Calibration D W)
      → IsCalm d q n tries name f c
      → IsCalm d q n tries name f (recall d m q c)
  unfolding recall gather_bits
  recall-IsCalm c h = elim (Bool-cases ((at_entry d q c.session).exec_cksum != 0)) [
    | inr first ↦ rw (first, recall) h
    | inl known ↦
        let remembered = record c {
          session = record c.session {
            first_trace = take c.session.fuzzer.map_size (trace_of c.session);
          };
        } in
        rw (known, recall)
          (record {
            steady =
                gather_bits-IsSteady d q n tries name f remembered
                  (carry-IsSteady d q n tries name f c.session _ refl refl refl refl h.steady);
            low = h.low;
            high = h.high;
            fine = h.fine;
          })
  ]
