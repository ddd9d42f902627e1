-- ===== src/Stages/Tests.antt =====
-- Runs of the deterministic stages with a small target, and the witnesses.
use aflgo.Common.{ℕ, ◌≡◌, refl, arith, true, false, List, [], ◌∷◌, ◌++◌, sum, replicate}
use aflgo.Stages.Flow.{goes, run_all, gather, Visits}
use aflgo.Stages.Flow.Keeps.{EndsOn}
use aflgo.Stages.Flips.{Fuzzing, Session, exec, flip8}
use aflgo.Stages.Flips.Effects.{IsEffective, flip8-IsEffective}
use aflgo.Stages.Words.Sums.{meant_byte, meant_word}
use aflgo.Stages.Words.{arith8, arith16, arith32}
use aflgo.Stages.Words.Laws.{arith_items, arith-Visits}
use aflgo.Stages.Interest.{interest, could_be_interest}
use aflgo.Stages.Interest.Laws.{interest8_items, interest-Visits}
use aflgo.Stages.Extras.{extras_insert}
use aflgo.Stages.Extras.Insert.{insertions, extras_insert-Visits}
use aflgo.Stages.Deterministic.{Options, deterministic, deterministic-Keeps}

-- The state is the list of the inputs so far; the checksum is the sum of the last one.
abbrev last_sum : List (List ℕ) → ℕ
last_sum [] = 0
last_sum (v ∷ vs) = sum v

abbrev target : Fuzzing (List (List ℕ))
target = record {
  common_fuzz_stuff = λ v w. (false, v ∷ w);
  trace_cksum = last_sum;
  maybe_add_auto = λ tok w. w;
  dumb_mode = false;
  exec_cksum = 7;
}

abbrev start : Session (List (List ℕ))
start = record {
  world = [];
  prev_cksum = 0;
  a_collect = [];
  a_len = 0;
  eff_map = 1 ∷ [];
  eff_cnt = 1;
}

abbrev options : Options (List (List ℕ))
options = record {
  no_arith = true;
  ur = λ n w. (0, w);
  extras = (5 ∷ []) ∷ [];
  a_extras = λ w. [];
  behind = 0;
}

insert_run :
    extras_insert target 9 ((5 ∷ []) ∷ []) (1 ∷ 2 ∷ []) start
    ≡ goes
        (1 ∷ 2 ∷ [])
        (record start { world = (1 ∷ 2 ∷ 5 ∷ []) ∷ (1 ∷ 5 ∷ 2 ∷ []) ∷ (5 ∷ 1 ∷ 2 ∷ []) ∷ [] })
unfolding extras_insert
insert_run = refl

could_be_interest_run : could_be_interest 0x1234 0x1280 2 false ≡ true
unfolding could_be_interest
could_be_interest_run = refl

could_be_interest_word : could_be_interest 0x1234 0x0010 2 false ≡ false
unfolding could_be_interest
could_be_interest_word = refl

-- Long enough for the checksums to be taken.
abbrev long_file : List ℕ
long_file = replicate 130 0

flip8-IsEffective_example : IsEffective target long_file [] (flip8 target 130 long_file start)
flip8-IsEffective_example =
    flip8-IsEffective target long_file [] start refl (omega arith) (λ n h. refl)

arith-Visits_example :
    Visits
      (exec target)
      (arith8 target (1 ∷ []) 2)
      (65 ∷ 66 ∷ [])
      (arith_items 1 (1 ∷ []) 2 (65 ∷ 66 ∷ []) meant_byte)
      (65 ∷ 66 ∷ [])
    × Visits
        (exec target)
        (arith16 target (1 ∷ []) 2)
        (65 ∷ 66 ∷ [])
        (arith_items 2 (1 ∷ []) 1 (65 ∷ 66 ∷ []) (meant_word 2))
        (65 ∷ 66 ∷ [])
    × Visits
        (exec target)
        (arith32 target (1 ∷ []) 2)
        (65 ∷ 66 ∷ [])
        (arith_items 4 (1 ∷ []) 0 (65 ∷ 66 ∷ []) (meant_word 4))
        (65 ∷ 66 ∷ [])
arith-Visits_example = arith-Visits target (1 ∷ []) (65 ∷ 66 ∷ []) (omega arith)

interest-Visits_example :
    interest target true (1 ∷ []) 2 (65 ∷ 66 ∷ []) start
    ≡ run_all (exec target) (interest8_items (1 ∷ []) (65 ∷ 66 ∷ []) ++ []) (65 ∷ 66 ∷ []) start
interest-Visits_example = interest-Visits target true (1 ∷ []) (65 ∷ 66 ∷ []) (omega arith) start

extras_insert-Visits_example :
    extras_insert target 9 ((5 ∷ []) ∷ []) (1 ∷ 2 ∷ []) start
    ≡ run_all
        (exec target)
        (gather 3 0 (λ i. insertions (1 ∷ 2 ∷ []) i ((5 ∷ []) ∷ [])))
        (1 ∷ 2 ∷ [])
        start
extras_insert-Visits_example =
    extras_insert-Visits target 9 ((5 ∷ []) ∷ []) (1 ∷ 2 ∷ []) (omega arith, tt) start

deterministic-Keeps_example :
    EndsOn (65 ∷ 66 ∷ []) (deterministic target options (65 ∷ 66 ∷ []) (65 ∷ 66 ∷ []) start)
deterministic-Keeps_example =
    deterministic-Keeps target options (65 ∷ 66 ∷ []) (omega arith) (omega arith, tt)
      (omega arith, tt) (λ w. tt) start
