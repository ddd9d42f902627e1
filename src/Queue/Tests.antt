-- ===== src/Queue/Tests.antt =====
-- A queue of two entries over a map of eight bytes.
use aflgo.Common.{
  ℕ, zero, suc, ◌<◌, ◌≡◌, refl, ap, sym, subst, arith, Bool, true, ltb, Option, none, some, List,
  [], ◌∷◌, get_or, replicate,
}
use aflgo.Doubles.{Doubles, IsOrder}
use aflgo.Fuzzer.{QueueEntry, SysCall, Fuzzer, blank, entry}
use aflgo.Bitmap.Minimize.{minimize_bits, minimize_loop}
use aflgo.Queue.{
  add_to_queue, score_loop, score_byte, claim_slot, after_slash, update_bitmap_score, cull_queue,
  factor,
}
use aflgo.Queue.Refs.{IsKept, IsScored}
use aflgo.Queue.Distances.{IsBracketed, add_to_queue-IsBracketed}
use aflgo.Queue.Rounds.{update_bitmap_score-IsScored}
use aflgo.Queue.Winners.{contender, update_bitmap_score_slots}
use aflgo.Queue.Selected.{HasBytes}
use aflgo.Queue.Marks.{IsCulledQueue, cull_queue-IsCulledQueue}
use aflgo.Queue.Redundant.{HasNames}

-- Whole distances.
abbrev pub naturals : Doubles ℕ
naturals = record { zero = 0; minus_one = 0; ratio = λ a b. a; gt = λ a b. ltb b a }

-- Every call succeeds.
abbrev linux : List SysCall → SysCall → Bool
linux l c = true

abbrev pub first : QueueEntry ℕ
first = record (blank naturals) { fname = b'q' ∷ b'/' ∷ b'a' ∷ []; len = 4; exec_us = 10 }

abbrev second : QueueEntry ℕ
second = record (blank naturals) { fname = b'q' ∷ b'/' ∷ b'b' ∷ []; len = 2; exec_us = 10 }

abbrev pub start : Fuzzer ℕ
start = record {
  map_size = 8;
  trace_bits = 1 ∷ 0 ∷ 0 ∷ 4 ∷ 0 ∷ 0 ∷ 0 ∷ 0 ∷ [];
  queue = first ∷ second ∷ [];
  q_prev100 = some 0;
  top_rated = replicate 8 none;
  score_changed = 0;
  dumb_mode = 0;
  temp_v = [];
  queued_paths = 2;
  queued_favored = 0;
  pending_favored = 0;
  pending_not_fuzzed = 2;
  cycles_wo_finds = 0;
  cur_depth = 0;
  max_depth = 1;
  last_path_time = 0;
  cur_distance = 0;
  max_distance = 0;
  min_distance = 0;
  syscalls = [];
}

get_or-replicate-none : (n i : ℕ) → get_or (replicate {A = Option ℕ} n none) i none ≡ none
get_or-replicate-none zero i = refl
get_or-replicate-none (suc n) zero = refl
get_or-replicate-none (suc n) (suc i) = get_or-replicate-none n i

pub start-IsScored : IsScored naturals start
start-IsScored = record {
  rated = record {
    in_range = λ i t e. absurd (cc (get_or-replicate-none 8 i));
    counted = λ e l. counted e l;
    kept = λ e l. kept e l;
  };
  width = refl;
  small = omega arith;
}
  where
    counted : (e : ℕ) → e < 2 → (entry naturals start e).tc_ref ≡ 0
    counted zero l = refl
    counted (suc zero) l = refl
    counted (suc (suc e)) l = refl

    kept : (e : ℕ) → e < 2 → IsKept (entry naturals start e)
    kept zero l = refl
    kept (suc zero) l = refl
    kept (suc (suc e)) l = refl

update_bitmap_score-IsScored_example : IsScored naturals (update_bitmap_score naturals 1 start)
update_bitmap_score-IsScored_example =
    update_bitmap_score-IsScored naturals 1 start start-IsScored (omega arith)

update_bitmap_score_slots_example :
    get_or (update_bitmap_score naturals 1 start).top_rated 3 none
    ≡ contender naturals start (factor (entry naturals start 1)) 1 3
update_bitmap_score_slots_example = update_bitmap_score_slots naturals 1 3 start refl (omega arith)

-- The second entry holds the slots that the trace hits.
abbrev scored : Fuzzer ℕ
scored = update_bitmap_score naturals 1 start

abbrev outcome : Fuzzer ℕ
outcome = record start {
  queue = first ∷ record second { tc_ref = 2; trace_mini = some (9 ∷ []) } ∷ [];
  top_rated = some 1 ∷ none ∷ none ∷ some 1 ∷ replicate 4 none;
  score_changed = 1;
}

scored-eq : scored ≡ outcome
unfolding update_bitmap_score score_loop score_byte claim_slot minimize_bits minimize_loop
scored-eq = refl

outcome-HasBytes : HasBytes naturals outcome
outcome-HasBytes zero m e = absurd cc
outcome-HasBytes (suc zero) m e = rw (ap (λ o. get_or_none o) (sym e)) (omega arith, tt)
  where
    get_or_none : Option (List ℕ) → List ℕ
    get_or_none none = []
    get_or_none (some l) = l
outcome-HasBytes (suc (suc t)) m e = absurd cc

outcome-HasNames : HasNames naturals linux (λ l c. refl) outcome
unfolding after_slash
outcome-HasNames zero h = (b'a' ∷ [], refl)
outcome-HasNames (suc zero) h = (b'b' ∷ [], refl)
outcome-HasNames (suc (suc t)) h = absurd (omega arith)

outcome-IsScored : IsScored naturals outcome
outcome-IsScored =
    subst (IsScored naturals) scored-eq
      (update_bitmap_score-IsScored naturals 1 start start-IsScored (omega arith))

naturals-IsOrder : IsOrder naturals
naturals-IsOrder = record {
  irreflexive = λ a. ground arith;
  transitive = λ a b c p q. ground arith;
  total = λ a b c p. ground arith;
}

-- The next input has a distance of five.
abbrev aimed : Fuzzer ℕ
aimed = record start { cur_distance = 5 }

aimed-IsBracketed : IsBracketed naturals aimed
aimed-IsBracketed zero h above = absurd cc
aimed-IsBracketed (suc zero) h above = absurd cc
aimed-IsBracketed (suc (suc t)) h above = absurd (omega arith)

add_to_queue-IsBracketed_example :
    IsBracketed naturals (add_to_queue naturals (b'q' ∷ b'/' ∷ b'c' ∷ []) 7 0 1000 aimed)
add_to_queue-IsBracketed_example =
    add_to_queue-IsBracketed naturals naturals-IsOrder (b'q' ∷ b'/' ∷ b'c' ∷ []) 7 0 1000 aimed
      aimed-IsBracketed

cull_queue-IsCulledQueue_example :
    IsCulledQueue naturals linux (λ l c. refl) outcome (cull_queue naturals linux outcome)
cull_queue-IsCulledQueue_example =
    cull_queue-IsCulledQueue naturals linux (λ l c. refl) outcome refl (λ e. absurd (omega arith))
      refl outcome-IsScored.rated outcome-HasBytes outcome-HasNames
