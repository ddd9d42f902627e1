-- ===== src/Havoc/Tests.antt =====
-- A run of the havoc tweaks and the witnesses.
use aflgo.Common.{ℕ, ◌+◌, ◌*◌, ◌≡◌, refl, arith, true, false, [], ◌∷◌, some}
use aflgo.Havoc.Dice.{ur, alter}
use aflgo.Havoc.Rules.{Safe, IsFile}
use aflgo.Havoc.Tweaks.{Setup, tweak, tweak_case, stacked}
use aflgo.Havoc.Stack.{stacked-Safe}
use aflgo.Mutations.{locate_diffs, diffs_loop}
use aflgo.Havoc.Splice.{splice, IsSpliced, splice-IsSpliced}
use aflgo.Havoc.Loop.{Runner, havoc_rounds, havoc_stage}
use aflgo.Havoc.Loop.Termination.{Ends, havoc_stage-Ends}

-- The state of the generator is the number that it returns next.
abbrev dice : ℕ → ℕ × ℕ
dice r = (r, r + 1)

abbrev setup : Setup
setup = record { queue_cycle = 1; run_over10m = false; extras = (7 ∷ 8 ∷ []) ∷ []; a_extras = [] }

-- Case 0 with bit 2.
tweak_bit : tweak dice setup (65 ∷ []) 17 ≡ some (97 ∷ [], 19)
unfolding tweak ur tweak_case alter
tweak_bit = refl

stacked-Safe_example : Safe IsFile (stacked dice setup (65 ∷ 66 ∷ []))
stacked-Safe_example =
    stacked-Safe dice setup (omega arith) (omega arith, tt) tt (65 ∷ 66 ∷ [])
      (record { proper = omega arith; some_byte = omega arith; small = omega arith })

-- A target that finds a path with each run.
abbrev runner : Runner ℕ
runner = record { common_fuzz_stuff = λ v w. (false, w + 1); queued_paths = λ w. w; random = dice }

havoc_stage-Ends_example : Ends (
    havoc_stage runner setup
      (65 ∷ 66 ∷ [])
      (havoc_rounds true false 100 1 * 3200 + 1)
      true
      false
      100
      1
      5)
havoc_stage-Ends_example =
    havoc_stage-Ends runner setup (omega arith) (omega arith, tt) tt (65 ∷ 66 ∷ [])
      (record { proper = omega arith; some_byte = omega arith; small = omega arith }) true false 100
      1 5 (omega arith) (omega arith)

splice_run : splice (1 ∷ 2 ∷ 3 ∷ 4 ∷ []) (1 ∷ 5 ∷ 3 ∷ 6 ∷ 7 ∷ []) 1 ≡ some (1 ∷ 2 ∷ 3 ∷ 6 ∷ 7 ∷ [])
unfolding splice locate_diffs diffs_loop
splice_run = refl

splice-IsSpliced_example :
    IsSpliced (1 ∷ 2 ∷ 3 ∷ 4 ∷ []) (1 ∷ 5 ∷ 3 ∷ 6 ∷ 7 ∷ []) (1 ∷ 2 ∷ 3 ∷ 6 ∷ 7 ∷ [])
splice-IsSpliced_example =
    splice-IsSpliced (1 ∷ 2 ∷ 3 ∷ 4 ∷ []) (1 ∷ 5 ∷ 3 ∷ 6 ∷ 7 ∷ []) 1 (1 ∷ 2 ∷ 3 ∷ 6 ∷ 7 ∷ [])
      splice_run
