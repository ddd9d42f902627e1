-- ===== src/Queue/Redundant.antt =====
-- `mark_as_redundant` over the queue, where every system call succeeds and every file name has a `/`.
use aflgo.Common.{
  ℕ, zero, suc, ◌+◌, ◌<◌, ◌≤◌, ◌≡◌, refl, ap, sym, ◌∙◌, arith, if◌then◌else◌, Bool, true, false,
  Bool-cases, inl, inr, ◌⊎◌, ◌!=◌, ◌==◌, ==_iff, Option, some, List, ◌∷◌, length, modify,
  length-modify, get_or-modify_self, get_or-modify_ne, get_or-modify_keep,
}
use native.Mathlib.Decide.{ℕ_discrete}
use aflgo.Doubles.{Doubles}
use aflgo.Fuzzer.{QueueEntry, Fuzzer, SysCall, create_redundant, unlink_redundant, blank, entry}
use aflgo.Queue.{after_slash, mark_as_redundant, mark_loop}

-- The state after entry `q` got the mark `state` by the call `c`.
abbrev marked : {D : Type 0} → ℕ → ℕ → SysCall → Fuzzer D → Fuzzer D
marked q state c s = record s {
  queue = modify s.queue q (λ e. record e { fs_redundant = state });
  syscalls = c ∷ s.syscalls;
}

-- The call that makes the mark.
abbrev mark_call : ℕ → List ℕ → SysCall
mark_call state fn = if state != 0 then create_redundant fn else unlink_redundant fn

-- The marks change `fs_redundant`, and the log of calls.
pub record IsMarking {D : Type 0} (d : Doubles D) (s s' : Fuzzer D) : Type 0 where
  pub same_length : length s'.queue ≡ length s.queue
  pub same_slots : s'.top_rated ≡ s.top_rated
  pub same_size : s'.map_size ≡ s.map_size
  pub same_score : s'.score_changed ≡ s.score_changed
  pub same_refs : (t : ℕ) → (entry d s' t).tc_ref ≡ (entry d s t).tc_ref
  pub same_mini : (t : ℕ) → (entry d s' t).trace_mini ≡ (entry d s t).trace_mini
  pub same_name : (t : ℕ) → (entry d s' t).fname ≡ (entry d s t).fname
  pub same_favored : (t : ℕ) → (entry d s' t).favored ≡ (entry d s t).favored

module _ {D : Type 0} (d : Doubles D) (sys : List SysCall → SysCall → Bool)
    (succeeds : (l : List SysCall) (c : SysCall) → sys l c ≡ true) where
  -- Every entry is a file in a directory.
  abbrev pub HasNames : Fuzzer D → Type 0
  HasNames s =
      (t : ℕ) → t < length s.queue → (fn : List ℕ) × (after_slash (entry d s t).fname ≡ some fn)

  IsMarking-refl : (s : Fuzzer D) → IsMarking d s s
  IsMarking-refl s = record {
    same_length = refl;
    same_slots = refl;
    same_size = refl;
    same_score = refl;
    same_refs = λ t. refl;
    same_mini = λ t. refl;
    same_name = λ t. refl;
    same_favored = λ t. refl;
  }

  IsMarking-trans : (s t u : Fuzzer D) → IsMarking d s t → IsMarking d t u → IsMarking d s u
  IsMarking-trans s t u a b = record {
    same_length = b.same_length ∙ a.same_length;
    same_slots = b.same_slots ∙ a.same_slots;
    same_size = b.same_size ∙ a.same_size;
    same_score = b.same_score ∙ a.same_score;
    same_refs = λ e. b.same_refs e ∙ a.same_refs e;
    same_mini = λ e. b.same_mini e ∙ a.same_mini e;
    same_name = λ e. b.same_name e ∙ a.same_name e;
    same_favored = λ e. b.same_favored e ∙ a.same_favored e;
  }

  -- The outcome for the entries from `q` to `r`.
  pub record IsMarked (s : Fuzzer D) (q r : ℕ) (out : Option (Fuzzer D)) : Type 0 where
    pub after : Fuzzer D
    pub returns : out ≡ some after
    pub marking : IsMarking d s after
    pub marks :
        (k : ℕ)
        → q ≤ k
        → k < r
        → (entry d after k).fs_redundant ≡ (if (entry d after k).favored == 0 then 1 else 0)
    pub others :
        (k : ℕ) → (k < q) ⊎ (r ≤ k) → (entry d after k).fs_redundant ≡ (entry d s k).fs_redundant

  mark_as_redundant-eq :
      (q state : ℕ) (s : Fuzzer D) (fn : List ℕ)
      → (state == (entry d s q).fs_redundant) ≡ false
      → after_slash (entry d s q).fname ≡ some fn
      → mark_as_redundant d sys q state s ≡ some (marked q state (mark_call state fn) s)
  unfolding mark_as_redundant
  mark_as_redundant-eq q state s fn ne e =
      rw (ne, e, mark_as_redundant) (rw (succeeds s.syscalls (mark_call state fn)) refl)

  marked-IsMarking : (q state : ℕ) (c : SysCall) (s : Fuzzer D) → IsMarking d s (marked q state c s)
  marked-IsMarking q state c s =
      let f : QueueEntry D → QueueEntry D = λ e. record e { fs_redundant = state } in
      record {
        same_length = length-modify s.queue q f;
        same_slots = refl;
        same_size = refl;
        same_score = refl;
        same_refs = λ e. get_or-modify_keep (λ x. x.tc_ref) s.queue q e f (blank d) (λ x. refl);
        same_mini = λ e. get_or-modify_keep (λ x. x.trace_mini) s.queue q e f (blank d) (λ x. refl);
        same_name = λ e. get_or-modify_keep (λ x. x.fname) s.queue q e f (blank d) (λ x. refl);
        same_favored = λ e. get_or-modify_keep (λ x. x.favored) s.queue q e f (blank d) (λ x. refl);
      }

  mark-IsMarked :
      (q state : ℕ) (s : Fuzzer D)
      → HasNames s
      → q < length s.queue
      → state ≡ (if (entry d s q).favored == 0 then 1 else 0)
      → IsMarked s q (q + 1) (mark_as_redundant d sys q state s)
  unfolding mark_as_redundant
  mark-IsMarked q state s names h e = elim (Bool-cases (state == (entry d s q).fs_redundant)) [
    | inl same ↦ record {
      after = s;
      returns = rw (same, mark_as_redundant) refl;
      marking = IsMarking-refl s;
      marks = λ k p r. let k' : k ≡ q = omega arith in rw k' (sym ((==_iff _ _).0 same) ∙ e);
      others = λ k p. refl;
    }
    | inr ne ↦
        let fn = names q h in
        let c = mark_call state fn.0 in
        let f : QueueEntry D → QueueEntry D = λ x. record x { fs_redundant = state } in
        let m = marked-IsMarking q state c s in
        record {
          after = marked q state c s;
          returns = mark_as_redundant-eq q state s fn.0 ne fn.1;
          marking = m;
          marks = λ k p r.
              let k' : k ≡ q = omega arith in
              rw k' (
                ap (λ x. x.fs_redundant) (get_or-modify_self s.queue q f (blank d) h)
                ∙ e
                ∙ ap (λ x. if x == 0 then 1 else 0) (sym (m.same_favored q)));
          others = λ k p.
              ap (λ x. x.fs_redundant)
                (get_or-modify_ne s.queue q k f (blank d) (λ z. omega arith));
        }
  ]

  names-IsMarking : (s s' : Fuzzer D) → IsMarking d s s' → HasNames s → HasNames s'
  names-IsMarking s s' m names t h = rw (m.same_name t) (names t (rw m.same_length at h))

  pub mark_loop-IsMarked :
      (n q : ℕ) (s : Fuzzer D)
      → HasNames s
      → q + n ≤ length s.queue
      → IsMarked s q (q + n) (mark_loop d sys n q s)
  unfolding mark_loop
  mark_loop-IsMarked zero q s names h = record {
    after = s;
    returns = refl;
    marking = IsMarking-refl s;
    marks = λ k p r. absurd (omega arith);
    others = λ k p. refl;
  }
  mark_loop-IsMarked (suc n) q s names h =
      let state : ℕ = if (entry d s q).favored == 0 then 1 else 0 in
      let one = mark-IsMarked q state s names (omega arith) refl in
      let rest =
        mark_loop-IsMarked n (q + 1) one.after (names-IsMarking s one.after one.marking names)
          (omega (arith, one.marking.same_length)) in
      record {
        after = rest.after;
        returns = rw (one.returns, mark_loop) rest.returns;
        marking = IsMarking-trans s one.after rest.after one.marking rest.marking;
        marks = λ k p r. elim (ℕ_discrete k q) [
          | yes same ↦
              rest.others k (omega arith)
              ∙ one.marks k (omega arith) (omega arith)
              ∙ ap (λ x. if x == 0 then 1 else 0) (sym (rest.marking.same_favored k))
          | no other ↦ rest.marks k (omega arith) (omega arith)
        ];
        others = λ k p. rest.others k (omega arith) ∙ one.others k (omega arith);
      }
