-- ===== src/Fuzzing/Tests.antt =====
-- A mutated input, and entries left and sought, in small sessions.
use aflgo.Common.{ℕ, zero, suc, ◌<◌, ◌≡◌, refl, arith, Option, none, some, ◌∷◌, replicate}
use aflgo.Fuzzer.{Fuzzer, blank, entry}
use aflgo.Queue.Hundreds.{mark, IsChained, add_to_queue-IsChained}
use aflgo.Queue.{add_to_queue}
use aflgo.Queue.Pending.{IsPending}
use aflgo.Queue.Tests.{naturals, start}
use aflgo.Fuzzing.{abandon_entry, common_fuzz_stuff}
use aflgo.Fuzzing.Pending.{abandon_entry-IsPending}
use aflgo.Fuzzing.Outcome.{IsProcessed, common_fuzz_stuff-IsProcessed}
use aflgo.Fuzzing.Splicing.{seek}
use aflgo.Fuzzing.Splicing.Laws.{seek_lem}
use aflgo.Session.Tests.{machine, machine-IsServing, session, session-IsFiled, input}

common_fuzz_stuff-IsProcessed_example :
    IsProcessed naturals machine 2 (common_fuzz_stuff naturals machine none input session)
common_fuzz_stuff-IsProcessed_example =
    common_fuzz_stuff-IsProcessed naturals machine none input 2 session machine-IsServing
      (λ before call. refl) (λ fn mem w. (w, refl)) (omega arith) (omega arith) session-IsFiled

abandon_entry-IsPending_example : IsPending (abandon_entry naturals machine 1 session).fuzzer
abandon_entry-IsPending_example =
    abandon_entry-IsPending naturals machine 1 session (record { waiting = refl; wanted = refl })
      (omega arith) (omega arith)

-- A queue of `suc n` entries whose first one points to the hundredth.
abbrev long : ℕ → Option ℕ → ℕ → Fuzzer ℕ
long n next prev = record start {
  queue = record (blank naturals) { next_100 = next } ∷ replicate n (blank naturals);
  queued_paths = suc n;
  q_prev100 = some prev;
}

long-IsChained : IsChained naturals (long 119 (some 99) 99)
long-IsChained = record { counted = refl; last = λ pos. refl; links = links }
  where
    links :
        (k : ℕ)
        → k < 1
        → (entry naturals (long 119 (some 99) 99) (mark k)).next_100 ≡ some (mark (suc k))
    links zero inside = refl
    links (suc k) inside = absurd (omega arith)

seek_lem_example : seek naturals 105 (long 119 (some 99) 99) ≡ some (some 104)
seek_lem_example = seek_lem naturals 105 (long 119 (some 99) 99) long-IsChained (omega arith)

short-IsChained : IsChained naturals (long 98 none 0)
short-IsChained = record {
  counted = refl;
  last = λ pos. refl;
  links = λ k inside. absurd (omega arith);
}

add_to_queue-IsChained_example :
    IsChained naturals (add_to_queue naturals input 2 0 7 (long 98 none 0))
add_to_queue-IsChained_example =
    add_to_queue-IsChained naturals input 2 0 7 (long 98 none 0) short-IsChained (omega arith)
