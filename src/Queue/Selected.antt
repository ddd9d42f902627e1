-- ===== src/Queue/Selected.antt =====
-- What the choice of favorites in `cull_queue` leaves alone, and the state of its loop.
use aflgo.Common.{
  ℕ, zero, suc, ◌+◌, ◌/◌, ◌%◌, ◌<◌, ◌≡◌, refl, ap, ◌∙◌, arith, if◌then◌else◌, Option-cases, inl,
  inr, ◌==◌, none, some, List, [], ◌∷◌, length, get_or, modify, length-modify, get_or-modify_keep,
}
use aflgo.Doubles.{Doubles}
use aflgo.Bitmap.Memory.{IsBytes}
use aflgo.Bitmap.Minimize.Laws.{bit_at}
use aflgo.Fuzzer.{QueueEntry, Fuzzer, blank, entry_at, entry}
use aflgo.Queue.{strip, favor}
use aflgo.Queue.Refs.{IsRated, allocated, refs_pos}
use aflgo.Queue.Strip.{length-strip}

-- Selection changes `favored` in the queue, and no slot.
pub record IsSelected {D : Type 0} (d : Doubles D) (s s' : Fuzzer D) : Type 0 where
  pub same_length : length s'.queue ≡ length s.queue
  pub same_size : s'.map_size ≡ s.map_size
  pub same_slots : s'.top_rated ≡ s.top_rated
  pub same_refs : (t : ℕ) → (entry d s' t).tc_ref ≡ (entry d s t).tc_ref
  pub same_mini : (t : ℕ) → (entry d s' t).trace_mini ≡ (entry d s t).trace_mini
  pub same_name : (t : ℕ) → (entry d s' t).fname ≡ (entry d s t).fname
  pub same_mark : (t : ℕ) → (entry d s' t).fs_redundant ≡ (entry d s t).fs_redundant
  pub same_score : s'.score_changed ≡ s.score_changed
  pub more_favored : (t : ℕ) → (entry d s t).favored ≡ 1 → (entry d s' t).favored ≡ 1
  pub same_temp : length s'.temp_v ≡ length s.temp_v

module _ {D : Type 0} (d : Doubles D) where
  -- The bits of entry `t` have bit `j`.
  abbrev pub HasBit : Fuzzer D → ℕ → ℕ → Type 0
  HasBit s t j = (m : List ℕ) × ((entry d s t).trace_mini ≡ some m) × (bit_at m j ≡ 1)

  -- A favorite has bit `j`.
  abbrev pub IsCovered : Fuzzer D → ℕ → Type 0
  IsCovered s j = (t : ℕ) × ((entry d s t).favored ≡ 1) × HasBit s t j

  -- The memory behind `trace_mini` holds bytes.
  abbrev pub HasBytes : Fuzzer D → Type 0
  HasBytes s = (t : ℕ) (m : List ℕ) → (entry d s t).trace_mini ≡ some m → IsBytes m

  -- What the loop keeps: a bit that is gone from `temp_v` belongs to a favorite.
  pub record IsCulling (s : Fuzzer D) : Type 0 where
    pub room : length s.temp_v ≡ s.map_size / 8
    pub whole : s.map_size % 8 ≡ 0
    pub seen : (j : ℕ) → j < s.map_size → bit_at s.temp_v j ≡ 0 → IsCovered s j
    pub bytes : HasBytes s
    pub rated : IsRated d s.queue s.top_rated

  pub IsSelected-refl : (s : Fuzzer D) → IsSelected d s s
  IsSelected-refl s = record {
    same_length = refl;
    same_size = refl;
    same_slots = refl;
    same_refs = λ t. refl;
    same_mini = λ t. refl;
    same_name = λ t. refl;
    same_mark = λ t. refl;
    same_score = refl;
    more_favored = λ t h. h;
    same_temp = refl;
  }

  pub IsSelected-trans : (s t u : Fuzzer D) → IsSelected d s t → IsSelected d t u → IsSelected d s u
  IsSelected-trans s t u a b = record {
    same_length = b.same_length ∙ a.same_length;
    same_size = b.same_size ∙ a.same_size;
    same_slots = b.same_slots ∙ a.same_slots;
    same_refs = λ e. b.same_refs e ∙ a.same_refs e;
    same_mini = λ e. b.same_mini e ∙ a.same_mini e;
    same_name = λ e. b.same_name e ∙ a.same_name e;
    same_mark = λ e. b.same_mark e ∙ a.same_mark e;
    same_score = b.same_score ∙ a.same_score;
    more_favored = λ e h. b.more_favored e (a.more_favored e h);
    same_temp = b.same_temp ∙ a.same_temp;
  }

  -- Coverage survives later selections.
  pub IsCovered-IsSelected :
      (s s' : Fuzzer D) (j : ℕ) → IsSelected d s s' → IsCovered s j → IsCovered s' j
  IsCovered-IsSelected s s' j f (t, fav, (m, mini, bit)) =
      (t, f.more_favored t fav, (m, f.same_mini t ∙ mini, bit))

  favor_keeps :
      (queue : List (QueueEntry D)) (t e : ℕ)
      → (entry_at d queue e).favored ≡ 1
      → (entry_at d (modify queue t (λ x. record x { favored = 1 })) e).favored ≡ 1
  favor_keeps [] t e h = h
  favor_keeps (x ∷ queue) zero zero h = refl
  favor_keeps (x ∷ queue) zero (suc e) h = h
  favor_keeps (x ∷ queue) (suc t) zero h = h
  favor_keeps (x ∷ queue) (suc t) (suc e) h = favor_keeps queue t e h

  -- The state after entry `t` with bits `mini` became a favorite.
  abbrev pub chosen : ℕ → List ℕ → Fuzzer D → Fuzzer D
  chosen t mini s = record s {
    temp_v = strip (s.map_size / 8) mini s.temp_v;
    queue = modify s.queue t (λ e. record e { favored = 1 });
    queued_favored = (s.queued_favored + 1) % 4294967296;
    pending_favored =
        (if (entry d s t).was_fuzzed == 0
          then (s.pending_favored + 1) % 4294967296
          else s.pending_favored);
  }

  pub favor-eq :
      (t : ℕ) (mini : List ℕ) (s : Fuzzer D)
      → (entry d s t).trace_mini ≡ some mini
      → favor d t s ≡ some (chosen t mini s)
  unfolding favor
  favor-eq t mini s e = rw (e, favor) refl

  pub chosen-IsSelected : (t : ℕ) (mini : List ℕ) (s : Fuzzer D) → IsSelected d s (chosen t mini s)
  chosen-IsSelected t mini s =
      let f : QueueEntry D → QueueEntry D = λ e. record e { favored = 1 } in
      record {
        same_length = length-modify s.queue t f;
        same_size = refl;
        same_slots = refl;
        same_refs = λ e. get_or-modify_keep (λ x. x.tc_ref) s.queue t e f (blank d) (λ x. refl);
        same_mini = λ e. get_or-modify_keep (λ x. x.trace_mini) s.queue t e f (blank d) (λ x. refl);
        same_name = λ e. get_or-modify_keep (λ x. x.fname) s.queue t e f (blank d) (λ x. refl);
        same_mark =
            λ e. get_or-modify_keep (λ x. x.fs_redundant) s.queue t e f (blank d) (λ x. refl);
        same_score = refl;
        more_favored = λ e h. favor_keeps s.queue t e h;
        same_temp = length-strip (s.map_size / 8) mini s.temp_v;
      }

  -- An allocated entry behind a slot.
  pub slot_mini :
      (s : Fuzzer D) (i t : ℕ)
      → IsRated d s.queue s.top_rated
      → get_or s.top_rated i none ≡ some t
      → (m : List ℕ) × ((entry d s t).trace_mini ≡ some m)
  slot_mini s i t r held = elim (Option-cases (entry d s t).trace_mini) [
    | inr m ↦ m
    | inl z ↦
        let there = r.in_range i t held in
        absurd (
          ground (
            arith,
            ap allocated z,
            r.kept t there,
            r.counted t there,
            refs_pos s.top_rated i t held,
          ))
  ]

  -- Slots and counts do not depend on what selection changes.
  pub IsRated-IsSelected :
      (s s' : Fuzzer D)
      → IsSelected d s s'
      → IsRated d s.queue s.top_rated
      → IsRated d s'.queue s'.top_rated
  IsRated-IsSelected s s' f r = record {
    in_range = λ i t e. rw f.same_length (r.in_range i t (rw f.same_slots at e));
    counted = λ e l. rw (f.same_refs e, f.same_slots) (r.counted e (rw f.same_length at l));
    kept = λ e l. rw (f.same_refs e, f.same_mini e) (r.kept e (rw f.same_length at l));
  }
