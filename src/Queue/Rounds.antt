-- ===== src/Queue/Rounds.antt =====
-- The rounds of `update_bitmap_score`: their cases, what they leave alone, and the invariant.
use aflgo.Common.{
  ℕ, zero, suc, ◌+◌, ◌<◌, ◌≤◌, ◌≡◌, refl, ◌∙◌, arith, true, false, Bool-cases, Option-cases, inl,
  inr, none, some, length, get_or, ltb, ◌!=◌, length-modify, length-set, get_or-modify_keep,
}
use aflgo.Doubles.{Doubles}
use aflgo.Fuzzer.{QueueEntry, Fuzzer, blank, entry}
use aflgo.Queue.{
  dropped, grabbed, release, claim_slot, score_byte, score_loop, update_bitmap_score, factor,
}
use aflgo.Queue.Refs.{IsScored, claim_slot-IsScored, replace-IsScored}

module _ {D : Type 0} (d : Doubles D) (fav q i : ℕ) (s : Fuzzer D) where
  -- A round does nothing, takes a vacant slot, or takes the slot of a previous winner.
  pub score_byte_elim {κ} :
      (P : Fuzzer D → Type κ)
      → ((get_or s.trace_bits i 0 != 0) ≡ false → P s)
      → ((get_or s.trace_bits i 0 != 0) ≡ true
          → get_or s.top_rated i none ≡ none
          → P (claim_slot q i s))
      → ((t : ℕ)
          → (get_or s.trace_bits i 0 != 0) ≡ true
          → get_or s.top_rated i none ≡ some t
          → ltb (factor (entry d s t)) fav ≡ true
          → P s)
      → ((t : ℕ)
          → (get_or s.trace_bits i 0 != 0) ≡ true
          → get_or s.top_rated i none ≡ some t
          → ltb (factor (entry d s t)) fav ≡ false
          → P (claim_slot q i (release t s)))
      → P (score_byte d fav q i s)
  unfolding score_byte
  score_byte_elim P idle vacant keep win = elim (Bool-cases (get_or s.trace_bits i 0 != 0)) [
    | inr off ↦ rw (off, score_byte) (idle off)
    | inl on ↦ elim (Option-cases (get_or s.top_rated i none)) [
      | inl e ↦ rw (on, e, score_byte) (vacant on e)
      | inr o ↦ elim (Bool-cases (ltb (factor (entry d s o.0)) fav)) [
        | inl worse ↦ rw (on, o.1, worse, score_byte) (keep o.0 on o.1 worse)
        | inr better ↦ rw (on, o.1, better, score_byte) (win o.0 on o.1 better)
      ]
    ]
  ]

-- What the two writes of a round leave alone.
pub record IsFrame {D : Type 0} (d : Doubles D) (s s' : Fuzzer D) : Type 0 where
  pub same_length : length s'.queue ≡ length s.queue
  pub same_size : s'.map_size ≡ s.map_size
  pub same_trace : s'.trace_bits ≡ s.trace_bits
  pub same_slots : length s'.top_rated ≡ length s.top_rated
  pub same_factor : (t : ℕ) → factor (entry d s' t) ≡ factor (entry d s t)
  pub same_tries : (t : ℕ) → (entry d s' t).cal_failed ≡ (entry d s t).cal_failed
  pub same_name : (t : ℕ) → (entry d s' t).fname ≡ (entry d s t).fname

module _ {D : Type 0} (d : Doubles D) where
  IsFrame-refl : (s : Fuzzer D) → IsFrame d s s
  IsFrame-refl s = record {
    same_length = refl;
    same_size = refl;
    same_trace = refl;
    same_slots = refl;
    same_factor = λ t. refl;
    same_tries = λ t. refl;
    same_name = λ t. refl;
  }

  IsFrame-trans : (s t u : Fuzzer D) → IsFrame d s t → IsFrame d t u → IsFrame d s u
  IsFrame-trans s t u a b = record {
    same_length = b.same_length ∙ a.same_length;
    same_size = b.same_size ∙ a.same_size;
    same_trace = b.same_trace ∙ a.same_trace;
    same_slots = b.same_slots ∙ a.same_slots;
    same_factor = λ e. b.same_factor e ∙ a.same_factor e;
    same_tries = λ e. b.same_tries e ∙ a.same_tries e;
    same_name = λ e. b.same_name e ∙ a.same_name e;
  }

  claim_slot-IsFrame : (q i : ℕ) (s : Fuzzer D) → IsFrame d s (claim_slot q i s)
  unfolding claim_slot
  claim_slot-IsFrame q i s = record {
    same_length = length-modify s.queue q (grabbed s);
    same_size = refl;
    same_trace = refl;
    same_slots = length-set s.top_rated i (some q);
    same_factor = λ t. get_or-modify_keep factor s.queue q t (grabbed s) (blank d) (λ x. refl);
    same_tries = λ t.
        get_or-modify_keep (λ (e : QueueEntry D). e.cal_failed) s.queue q t (grabbed s) (blank d)
          (λ x. refl);
    same_name = λ t.
        get_or-modify_keep (λ (e : QueueEntry D). e.fname) s.queue q t (grabbed s) (blank d)
          (λ x. refl);
  }

  release-IsFrame : (t : ℕ) (s : Fuzzer D) → IsFrame d s (release t s)
  unfolding release
  release-IsFrame t s = record {
    same_length = length-modify s.queue t dropped;
    same_size = refl;
    same_trace = refl;
    same_slots = refl;
    same_factor = λ e. get_or-modify_keep factor s.queue t e dropped (blank d) (λ x. refl);
    same_tries = λ e.
        get_or-modify_keep (λ (x : QueueEntry D). x.cal_failed) s.queue t e dropped (blank d)
          (λ x. refl);
    same_name = λ e.
        get_or-modify_keep (λ (x : QueueEntry D). x.fname) s.queue t e dropped (blank d)
          (λ x. refl);
  }

  pub score_byte-IsFrame : (fav q i : ℕ) (s : Fuzzer D) → IsFrame d s (score_byte d fav q i s)
  score_byte-IsFrame fav q i s =
      score_byte_elim d fav q i s (IsFrame d s) (λ off. IsFrame-refl s)
        (λ on e. claim_slot-IsFrame q i s) (λ t on e w. IsFrame-refl s)
        (λ t on e w.
          IsFrame-trans s (release t s) (claim_slot q i (release t s)) (release-IsFrame t s)
            (claim_slot-IsFrame q i (release t s)))

  score_byte-IsScored :
      (fav q i : ℕ) (s : Fuzzer D)
      → IsScored d s
      → i < s.map_size
      → q < length s.queue
      → IsScored d (score_byte d fav q i s)
  score_byte-IsScored fav q i s v h there =
      score_byte_elim d fav q i s (IsScored d) (λ off. v)
        (λ on e. claim_slot-IsScored d q i s v h there e) (λ t on e w. v)
        (λ t on e w. replace-IsScored d q t i s v h there e)

  score_loop-IsScored :
      (n fav q i : ℕ) (s : Fuzzer D)
      → IsScored d s
      → i + n ≤ s.map_size
      → q < length s.queue
      → IsScored d (score_loop d n fav q i s)
  unfolding score_loop
  score_loop-IsScored zero fav q i s v h there = v
  score_loop-IsScored (suc n) fav q i s v h there =
      let f = score_byte-IsFrame fav q i s in
      score_loop-IsScored n fav q (i + 1) (score_byte d fav q i s)
        (score_byte-IsScored fav q i s v (omega arith) there) (omega (arith, f.same_size))
        (omega (arith, f.same_length))

  -- For an entry of the queue, `update_bitmap_score` keeps the invariant of the slots: each slot points into the queue,
  -- `tc_ref` of each entry is the number of slots that point to it, and its `trace_mini` is
  -- allocated exactly if that number is not 0.
  pub update_bitmap_score-IsScored :
      (q : ℕ) (s : Fuzzer D)
      → IsScored d s
      → q < length s.queue
      → IsScored d (update_bitmap_score d q s)
  unfolding update_bitmap_score
  update_bitmap_score-IsScored q s v there =
      score_loop-IsScored s.map_size (factor (entry d s q)) q 0 s v (omega arith) there

  score_loop-IsFrame : (n fav q i : ℕ) (s : Fuzzer D) → IsFrame d s (score_loop d n fav q i s)
  unfolding score_loop
  score_loop-IsFrame zero fav q i s = IsFrame-refl s
  score_loop-IsFrame (suc n) fav q i s =
      let s1 = score_byte d fav q i s in
      IsFrame-trans s s1 (score_loop d n fav q (i + 1) s1) (score_byte-IsFrame fav q i s)
        (score_loop-IsFrame n fav q (i + 1) s1)

  pub update_bitmap_score-IsFrame : (q : ℕ) (s : Fuzzer D) → IsFrame d s (update_bitmap_score d q s)
  unfolding update_bitmap_score
  update_bitmap_score-IsFrame q s = score_loop-IsFrame s.map_size (factor (entry d s q)) q 0 s
