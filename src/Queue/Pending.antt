-- ===== src/Queue/Pending.antt =====
-- The entries of the queue that wait to be fuzzed, and the counters that `add_to_queue` and
-- `fuzz_one` of afl-2.57b/afl-fuzz.c keep of them.
use aflgo.Common.{
  ℕ, zero, suc, ◌+◌, ◌%◌, ◌^◌, ◌<◌, ◌≤◌, ◌≡◌, refl, ap, sym, ◌∙◌, arith, ◌==◌, ◌!=◌, ltb,
  if◌then◌else◌, Bool, ◌&&◌, Bool-cases, Option-cases, inl, inr, some, List, [], ◌∷◌, ◌++◌, length,
  get_or, modify,
}
use aflgo.Doubles.{Doubles}
use aflgo.Fuzzer.{QueueEntry, Fuzzer}
use aflgo.Queue.{add_to_queue, track_distance, link_hundred, append_entry, fresh_entry}
use aflgo.Queue.Tracking.{track-IsTracking}

abbrev pub one_if : Bool → ℕ
one_if b = if b then 1 else 0

one_if-le : (b : Bool) → one_if b ≤ 1
one_if-le b = ground arith

module _ {D : Type 0} where
  -- The entries that pass a test.
  abbrev pub tally : (QueueEntry D → Bool) → List (QueueEntry D) → ℕ
  tally p [] = 0
  tally p (e ∷ queue) = one_if (p e) + tally p queue

  abbrev pub is_waiting : QueueEntry D → Bool
  is_waiting e = e.was_fuzzed == 0

  abbrev pub is_wanted : QueueEntry D → Bool
  is_wanted e = e.favored != 0 && e.was_fuzzed == 0

  pub tally-le :
      (p : QueueEntry D → Bool) (queue : List (QueueEntry D)) → tally p queue ≤ length queue
  tally-le p [] = omega arith
  tally-le p (e ∷ queue) = omega (arith, one_if-le (p e), tally-le p queue)

  pub tally-append :
      (p : QueueEntry D → Bool) (queue : List (QueueEntry D)) (e : QueueEntry D)
      → tally p (queue ++ (e ∷ [])) ≡ tally p queue + one_if (p e)
  tally-append p [] e = omega arith
  tally-append p (x ∷ queue) e = omega (arith, tally-append p queue e)

  pub tally-modify :
      (p : QueueEntry D → Bool) (queue : List (QueueEntry D)) (i : ℕ)
      (f : QueueEntry D → QueueEntry D) (default : QueueEntry D)
      → i < length queue
      → tally p (modify queue i f) + one_if (p (get_or queue i default))
        ≡ tally p queue + one_if (p (f (get_or queue i default)))
  tally-modify p [] i f default h = absurd (omega arith)
  tally-modify p (x ∷ queue) zero f default h = omega arith
  tally-modify p (x ∷ queue) (suc i) f default h =
      omega (arith, tally-modify p queue i f default (omega arith))

  tally-modify_keep :
      (p : QueueEntry D → Bool) (queue : List (QueueEntry D)) (i : ℕ)
      (f : QueueEntry D → QueueEntry D)
      → ((e : QueueEntry D) → p (f e) ≡ p e)
      → tally p (modify queue i f) ≡ tally p queue
  tally-modify_keep p [] i f h = refl
  tally-modify_keep p (x ∷ queue) zero f h = ap (λ b. one_if b + tally p queue) (h x)
  tally-modify_keep p (x ∷ queue) (suc i) f h =
      ap (λ k. one_if (p x) + k) (tally-modify_keep p queue i f h)

  -- The counters are right.
  pub record IsPending (s : Fuzzer D) : Type 0 where
    pub waiting : s.pending_not_fuzzed ≡ tally is_waiting s.queue
    pub wanted : s.pending_favored ≡ tally is_wanted s.queue

  link_hundred-IsPending : (q : ℕ) (s : Fuzzer D) → IsPending s → IsPending (link_hundred q s)
  link_hundred-IsPending q s h = elim (Bool-cases (s.queued_paths % 100 == 0)) [
    | inr no_mark ↦ rw no_mark h
    | inl full ↦ rw full (elim (Option-cases s.q_prev100) [
      | inl e ↦ rw e h
      | inr p ↦
          let write : QueueEntry D → QueueEntry D = λ e. record e { next_100 = some q } in
          rw p.1 (record {
            waiting = h.waiting ∙ sym (tally-modify_keep is_waiting s.queue p.0 write (λ e. refl));
            wanted = h.wanted ∙ sym (tally-modify_keep is_wanted s.queue p.0 write (λ e. refl));
          })
    ])
  ]

-- While the number of entries fits 32 bits, `add_to_queue` keeps `pending_not_fuzzed` the number of
-- entries that have not been fuzzed, the new one included, and `pending_favored` the number of
-- favored ones among them.
pub add_to_queue-IsPending :
    {D : Type 0} (d : Doubles D) (fname : List ℕ) (len passed_det now : ℕ) (s : Fuzzer D)
    → IsPending s
    → length s.queue + 1 < 2 ^ 32
    → IsPending (add_to_queue d fname len passed_det now s)
unfolding add_to_queue
add_to_queue-IsPending d fname len passed_det now s h small =
    let e = fresh_entry d fname len passed_det s in
    let s1 = track_distance d s in
    let s2 = record s1 {
      max_depth = (if ltb s1.max_depth e.depth then e.depth else s1.max_depth);
    } in
    let k = track-IsTracking d s in
    let waits = ap (tally is_waiting) k.same_queue in
    let wants = ap (tally is_wanted) k.same_queue in
    let l = link_hundred-IsPending (length s.queue) (append_entry e s2) (record {
      waiting = omega (
        arith,
        k.same_waiting,
        h.waiting,
        waits,
        tally-append is_waiting s1.queue e,
        tally-le is_waiting s.queue,
        small,
      );
      wanted = omega (arith, k.same_wanted, h.wanted, wants, tally-append is_wanted s1.queue e);
    }) in
    record { waiting = l.waiting; wanted = l.wanted }
