-- ===== src/Calibration/Steady.antt =====
-- What the steps of a calibration keep: the reference counts of the queue, its length, and the
-- counters of the finds.
use aflgo.Common.{
  ℕ, ◌<◌, ◌≡◌, refl, ap, sym, ◌∙◌, subst, Option, List, length, length-modify, get_or-modify_keep,
  get_or-modify_self, arith, modify,
}
use aflgo.Doubles.{Doubles}
use aflgo.Fuzzer.{QueueEntry, blank, entry}
use aflgo.Queue.Refs.{IsRated, IsScored}
use aflgo.Session.{Globals}
use aflgo.Execution.Laws.{IsRun}
use aflgo.Calibration.{update_entry}

-- The counters of the hangs and the crashes.
pub record Finds : Type 0 where
  pub total_tmouts : ℕ
  pub unique_tmouts : ℕ
  pub unique_hangs : ℕ
  pub total_crashes : ℕ
  pub unique_crashes : ℕ

module _ {D W : Type 0} where
  abbrev pub finds : Globals D W → Finds
  finds s = record {
    total_tmouts = s.total_tmouts;
    unique_tmouts = s.unique_tmouts;
    unique_hangs = s.unique_hangs;
    total_crashes = s.total_crashes;
    unique_crashes = s.unique_crashes;
  }

module _ {D : Type 0} (d : Doubles D) where
  modify-IsRated :
      (queue : List (QueueEntry D)) (tops : List (Option ℕ)) (q : ℕ)
      (g : QueueEntry D → QueueEntry D)
      → ((e : QueueEntry D) → (g e).tc_ref ≡ e.tc_ref)
      → ((e : QueueEntry D) → (g e).trace_mini ≡ e.trace_mini)
      → IsRated d queue tops
      → IsRated d (modify queue q g) tops
  modify-IsRated queue tops q g refs mini r = record {
    in_range = λ i t e. rw length-modify (r.in_range i t e);
    counted = λ e l.
        get_or-modify_keep (λ (x : QueueEntry D). x.tc_ref) queue q e g (blank d) refs
        ∙ r.counted e (rw length-modify at l);
    kept = λ e l.
        rw
          (
            get_or-modify_keep (λ (x : QueueEntry D). x.tc_ref) queue q e g (blank d) refs,
            get_or-modify_keep (λ (x : QueueEntry D). x.trace_mini) queue q e g (blank d) mini,
          )
          (r.kept e (rw length-modify at l));
  }

-- A write to an entry that leaves alone what the states of a calibration have in common.
abbrev pub IsQuiet : {D : Type 0} → (QueueEntry D → QueueEntry D) → Type 0
IsQuiet g =
    (e : _)
    → ((g e).tc_ref ≡ e.tc_ref)
      × ((g e).trace_mini ≡ e.trace_mini)
      × ((g e).cal_failed ≡ e.cal_failed)
      × ((g e).fname ≡ e.fname)

-- A state with `n` entries and the counters `f`, in which entry `q` has a name, and
-- `tries` calibrations of it have failed in a row.
pub record IsSteady {D W : Type 0} (d : Doubles D) (q n tries : ℕ) (name : List ℕ) (f : Finds)
    (s : Globals D W) : Type 0 where
  pub scored : IsScored d s.fuzzer
  pub same_length : length s.fuzzer.queue ≡ n
  pub same_finds : finds s ≡ f
  pub same_tries : (entry d s.fuzzer q).cal_failed ≡ tries
  pub same_name : (entry d s.fuzzer q).fname ≡ name

module _ {D W : Type 0} (d : Doubles D) (q n tries : ℕ) (name : List ℕ) (f : Finds) where
  -- Writes to other fields.
  pub carry-IsSteady :
      (s t : Globals D W)
      → t.fuzzer.queue ≡ s.fuzzer.queue
      → t.fuzzer.top_rated ≡ s.fuzzer.top_rated
      → t.fuzzer.map_size ≡ s.fuzzer.map_size
      → finds t ≡ finds s
      → IsSteady d q n tries name f s
      → IsSteady d q n tries name f t
  carry-IsSteady s t queue tops size same h = record {
    scored = record {
      rated = rw (queue, tops) h.scored.rated;
      width = rw (tops, size) h.scored.width;
      small = rw size h.scored.small;
    };
    same_length = rw queue h.same_length;
    same_finds = same ∙ h.same_finds;
    same_tries = rw queue h.same_tries;
    same_name = rw queue h.same_name;
  }

  -- A write through a pointer to an entry, to fields that do not count here.
  pub update_entry-IsSteady :
      (p : ℕ) (g : QueueEntry D → QueueEntry D) (s : Globals D W)
      → IsQuiet g
      → IsSteady d q n tries name f s
      → IsSteady d q n tries name f (update_entry p g s)
  update_entry-IsSteady p g s quiet h =
      let queue = s.fuzzer.queue in
      record {
        scored = record {
          rated =
              modify-IsRated d queue s.fuzzer.top_rated p g (λ e. (quiet e).0) (λ e. (quiet e).1)
                h.scored.rated;
          width = h.scored.width;
          small = h.scored.small;
        };
        same_length = length-modify queue p g ∙ h.same_length;
        same_finds = h.same_finds;
        same_tries =
            get_or-modify_keep (λ (x : QueueEntry D). x.cal_failed) queue p q g (blank d)
              (λ e. (quiet e).2)
            ∙ h.same_tries;
        same_name =
            get_or-modify_keep (λ (x : QueueEntry D). x.fname) queue p q g (blank d)
              (λ e. (quiet e).3)
            ∙ h.same_name;
      }

  -- A write to the number of failed calibrations.
  pub recount-IsSteady :
      (k : ℕ) (g : QueueEntry D → QueueEntry D) (s : Globals D W)
      → ((e : QueueEntry D)
          → ((g e).tc_ref ≡ e.tc_ref)
            × ((g e).trace_mini ≡ e.trace_mini)
            × ((g e).fname ≡ e.fname)
            × (e.cal_failed ≡ tries → (g e).cal_failed ≡ k))
      → q < n
      → IsSteady d q n tries name f s
      → IsSteady d q n k name f (update_entry q g s)
  recount-IsSteady k g s writes there h =
      let queue = s.fuzzer.queue in
      record {
        scored = record {
          rated =
              modify-IsRated d queue s.fuzzer.top_rated q g (λ e. (writes e).0) (λ e. (writes e).1)
                h.scored.rated;
          width = h.scored.width;
          small = h.scored.small;
        };
        same_length = length-modify queue q g ∙ h.same_length;
        same_finds = h.same_finds;
        same_tries =
            ap (λ (x : QueueEntry D). x.cal_failed)
              (get_or-modify_self queue q g (blank d) (omega (arith, there, h.same_length)))
            ∙ (writes (entry d s.fuzzer q)).3 h.same_tries;
        same_name =
            get_or-modify_keep (λ (x : QueueEntry D). x.fname) queue q q g (blank d)
              (λ e. (writes e).2)
            ∙ h.same_name;
      }

  pub run-IsSteady :
      (s t : Globals D W)
      → IsRun s t
      → IsSteady d q n tries name f s
      → IsSteady d q n tries name f t
  run-IsSteady s t e h =
      subst (IsSteady d q n tries name f) (sym e) (carry-IsSteady s _ refl refl refl refl h)
