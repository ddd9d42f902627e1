-- ===== src/Fuzzing/Pending.antt =====
-- What leaving an entry does to the counters of the entries that wait.
use aflgo.Common.{
  ℕ, ◌^◌, ◌<◌, ◌≡◌, arith, ◌==◌, ◌!=◌, true, not, ◌&&◌, &&_parts, Bool-cases, inl, inr, length,
}
use aflgo.Doubles.{Doubles}
use aflgo.Fuzzer.{QueueEntry, Fuzzer, blank, entry}
use aflgo.Queue.Pending.{is_waiting, is_wanted, tally-modify, tally-le, IsPending}
use aflgo.Session.{Machine, Globals}
use aflgo.Calibration.{at_entry}
use aflgo.Fuzzing.{mark_fuzzed, abandon_entry}

module _ {D W : Type 0} (d : Doubles D) (m : Machine W) where
  mark_fuzzed-IsPending :
      (q : ℕ) (s : Fuzzer D)
      → IsPending s
      → length s.queue < 2 ^ 32
      → q < length s.queue
      → ((entry d s q).was_fuzzed == 0) ≡ true
      → IsPending (mark_fuzzed d m q s)
  mark_fuzzed-IsPending q s h small inside fresh =
      let write : QueueEntry D → QueueEntry D = λ e. record e { was_fuzzed = 1 } in
      let a = tally-modify is_waiting s.queue q write (blank d) inside in
      let b = tally-modify is_wanted s.queue q write (blank d) inside in
      let most = tally-le is_waiting s.queue in
      let all = tally-le is_wanted s.queue in
      record {
        waiting = omega (arith, h.waiting, rw fresh at a, small, most);
        wanted = elim (Bool-cases ((entry d s q).favored != 0)) [
          | inl favored ↦ rw favored (omega (arith, h.wanted, rw (favored, fresh) at b, small, all))
          | inr plain ↦ rw plain (omega (arith, h.wanted, rw plain at b))
        ];
      }

  -- Leaving an entry of the queue, fuzzed or abandoned, keeps the counters right:
  -- `pending_not_fuzzed` is the number of entries that have not been fuzzed, and `pending_favored`
  -- the number of favored ones among them. This is while the number of entries fits 32 bits.
  pub abandon_entry-IsPending :
      (q : ℕ) (s : Globals D W)
      → IsPending s.fuzzer
      → length s.fuzzer.queue < 2 ^ 32
      → q < length s.fuzzer.queue
      → IsPending (abandon_entry d m q s).fuzzer
  unfolding abandon_entry
  abandon_entry-IsPending q s h small inside =
      elim (Bool-cases (
        not (m.stop_soon s.world)
        && (at_entry d q s).cal_failed == 0
        && (at_entry d q s).was_fuzzed == 0)) [
          | inr stays ↦ rw (stays, abandon_entry) h
          | inl fuzzed ↦
              let parts = &&_parts _ ((at_entry d q s).was_fuzzed == 0) fuzzed in
              rw (fuzzed, abandon_entry) (mark_fuzzed-IsPending q s.fuzzer h small inside parts.1)
        ]
