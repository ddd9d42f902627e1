-- ===== src/Saving/Tests.antt =====
-- A kept input in a session with a queue of two entries.
use aflgo.Common.{refl, arith}
use aflgo.Queue.Tests.{naturals}
use aflgo.Saving.{save_if_interesting}
use aflgo.Saving.Outcome.{IsSaved, save_if_interesting-IsSaved}
use aflgo.Session.Tests.{machine, machine-IsServing, session, session-IsFiled, input}

save_if_interesting-IsSaved_example :
    IsSaved naturals machine 2 (save_if_interesting naturals machine input 0 session)
save_if_interesting-IsSaved_example =
    save_if_interesting-IsSaved naturals machine input 0 2 session machine-IsServing
      (λ before call. refl) (λ fn mem w. (w, refl)) (λ e. omega arith) (omega arith) (omega arith)
      session-IsFiled
