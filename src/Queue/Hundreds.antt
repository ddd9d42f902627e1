-- ===== src/Queue/Hundreds.antt =====
-- The marks that `add_to_queue` of afl-2.57b/afl-fuzz.c leaves for every hundredth entry.
use aflgo.Common.{
  ℕ, zero, suc, ◌+◌, ◌*◌, ◌/◌, ◌%◌, ◌^◌, ◌<◌, ◌≤◌, ◌≡◌, ◌≢◌, refl, ap, sym, ◌∙◌, arith, ◌==◌,
  ==_iff, ltb, if◌then◌else◌, false, Bool-cases, inl, inr, some, List, [], ◌∷◌, length,
  length-append, length-modify, get_or-modify_self, get_or-modify_ne, modify,
}
use native.Mathlib.Decide.{ℕ_discrete}
use aflgo.Doubles.{Doubles}
use aflgo.Fuzzer.{QueueEntry, Fuzzer, blank, entry, entry_at}
use aflgo.Queue.{add_to_queue, track_distance, link_hundred, append_entry, fresh_entry}
use aflgo.Queue.Arrivals.{entry_append}
use aflgo.Queue.Tracking.{track-IsTracking}

-- The entries with a mark: the first, and then the last of each hundred.
abbrev pub mark : ℕ → ℕ
mark zero = 0
mark (suc k) = 100 * k + 99

mark-lt : (j k : ℕ) → j < k → mark j < mark k
mark-lt zero zero h = absurd (omega arith)
mark-lt zero (suc k) h = omega arith
mark-lt (suc j) zero h = absurd (omega arith)
mark-lt (suc j) (suc k) h = omega arith

pub mark-le : (k n : ℕ) → k ≤ n / 100 → 0 < n → mark k < n
mark-le zero n h pos = pos
mark-le (suc k) n h pos = omega arith

nonzero : (n : ℕ) → (n == 0) ≡ false → 0 < n
nonzero n h = ground arith

unequal : (n k : ℕ) → (n == k) ≡ false → n ≢ k
unequal n k h = ground arith

module _ {D : Type 0} (d : Doubles D) where
  -- Each marked entry points to the next one, and `q_prev100` to the last.
  pub record IsChained (s : Fuzzer D) : Type 0 where
    pub counted : s.queued_paths ≡ length s.queue
    pub last : 0 < length s.queue → s.q_prev100 ≡ some (mark (length s.queue / 100))
    pub links :
        (k : ℕ) → k < length s.queue / 100 → (entry d s (mark k)).next_100 ≡ some (mark (suc k))

  -- A new entry behind the queue, before its mark.
  append-chain :
      (e : QueueEntry D) (s : Fuzzer D)
      → IsChained s
      → length s.queue + 1 < 2 ^ 32
      → let s' = append_entry e s in
        (s'.queued_paths ≡ length s.queue + 1)
        × (length s'.queue ≡ length s.queue + 1)
        × (s'.q_prev100 ≡ some (mark (length s.queue / 100)))
        × ((k : ℕ)
            → k < length s.queue / 100
            → (entry d s' (mark k)).next_100 ≡ some (mark (suc k)))
  append-chain e s h small =
      let size = length-append s.queue (e ∷ []) in
      (
        omega (arith, h.counted, small),
        omega (arith, size),
        elim (Bool-cases (length s.queue == 0)) [
          | inl empty ↦ let nil = (==_iff (length s.queue) 0).0 empty in rw (empty, nil) refl
          | inr some_entry ↦ rw some_entry (h.last (nonzero (length s.queue) some_entry))
        ],
        λ k inside.
            ap (λ (x : QueueEntry D). x.next_100)
              (entry_append d s.queue e (mark k)
                (mark-le k (length s.queue) (omega arith) (omega arith)))
            ∙ h.links k inside,
      )

  -- The mark of a full hundred.
  link-chain :
      (n : ℕ) (s : Fuzzer D)
      → s.queued_paths ≡ n + 1
      → length s.queue ≡ n + 1
      → s.q_prev100 ≡ some (mark (n / 100))
      → ((k : ℕ) → k < n / 100 → (entry d s (mark k)).next_100 ≡ some (mark (suc k)))
      → IsChained (link_hundred n s)
  link-chain n s paths size prev links = elim (Bool-cases (s.queued_paths % 100 == 0)) [
    | inr within ↦
        let odd = unequal (s.queued_paths % 100) 0 within in
        let same : (n + 1) / 100 ≡ n / 100 = omega (arith, odd, paths) in
        rw within (record {
          counted = paths ∙ sym size;
          last = λ pos. rw (size, same) prev;
          links = λ k inside. links k (omega (arith, inside, size, same));
        })
    | inl full ↦
        let round = (==_iff (s.queued_paths % 100) 0).0 full in
        let p = mark (n / 100) in
        let next : n ≡ mark (suc (n / 100)) = omega (arith, round, paths) in
        let more : (n + 1) / 100 ≡ suc (n / 100) = omega (arith, round, paths) in
        let write : QueueEntry D → QueueEntry D = λ e. record e { next_100 = some n } in
        let size' = length-modify s.queue p write ∙ size in
        rw (full, prev)
          (record {
            counted = paths ∙ sym size';
            last = λ pos. rw (size', more) (ap some next);
            links = λ k inside. elim (ℕ_discrete k (n / 100)) [
              | yes new ↦
                  ap (λ j. (entry_at d (modify s.queue p write) (mark j)).next_100) new
                  ∙ ap (λ (x : QueueEntry D). x.next_100)
                      (get_or-modify_self s.queue p write (blank d) (
                        omega (arith, size, mark-le (n / 100) (n + 1) (omega arith) (omega arith))))
                  ∙ ap some (next ∙ ap (λ j. mark (suc j)) (sym new))
              | no old ↦
                  let before : k < n / 100 = omega (arith, inside, size', more, old) in
                  ap (λ (x : QueueEntry D). x.next_100)
                    (get_or-modify_ne s.queue p (mark k) write (blank d)
                      (λ e. absurd (omega (arith, e, mark-lt k (n / 100) before))))
                  ∙ links k before
            ];
          })
  ]

  carry-IsChained :
      (s t : Fuzzer D)
      → t.queue ≡ s.queue
      → t.queued_paths ≡ s.queued_paths
      → t.q_prev100 ≡ s.q_prev100
      → IsChained s
      → IsChained t
  carry-IsChained s t queue paths prev h = record {
    counted = rw (queue, paths) h.counted;
    last = rw (queue, prev) h.last;
    links = rw queue h.links;
  }

  -- On a queue in which each marked entry points to the next one and `q_prev100` to the last,
  -- `add_to_queue` keeps it so. The marks are the first entry, and then the last of each hundred.
  -- This is while the number of entries fits 32 bits.
  pub add_to_queue-IsChained :
      (fname : List ℕ) (len passed_det now : ℕ) (s : Fuzzer D)
      → IsChained s
      → length s.queue + 1 < 2 ^ 32
      → IsChained (add_to_queue d fname len passed_det now s)
  unfolding add_to_queue
  add_to_queue-IsChained fname len passed_det now s h small =
      let e = fresh_entry d fname len passed_det s in
      let s1 = track_distance d s in
      let s2 = record s1 {
        max_depth = (if ltb s1.max_depth e.depth then e.depth else s1.max_depth);
      } in
      let k = track-IsTracking d s in
      let n = length s.queue in
      let size = ap length k.same_queue in
      let h2 = carry-IsChained s s2 k.same_queue k.same_paths k.same_prev h in
      let a = append-chain e s2 h2 (omega (arith, size, small)) in
      let c =
        link-chain n (append_entry e s2) (omega (arith, a.0, size)) (omega (arith, a.1, size))
          (a.2 ∙ ap (λ i. some (mark (i / 100))) size)
          (λ j inside. a.3 j (omega (arith, inside, size))) in
      carry-IsChained (link_hundred n (append_entry e s2)) _ refl refl refl c
