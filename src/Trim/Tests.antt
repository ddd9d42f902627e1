-- ===== src/Trim/Tests.antt =====
-- A run of `trim_case` and the witness.
use aflgo.Common.{ℕ, ◌≡◌, refl, arith, true, false, some, List, [], ◌∷◌, get_or}
use aflgo.Trim.{Target, done, trim_case, trim_lengths, trim_positions}
use aflgo.Mutations.{next_p2, double_loop}
use aflgo.Trim.Laws.{IsTrimmed, trim_case-IsTrimmed}

-- The state is the checksum of the last run: the first byte of its input.
abbrev first_byte : List ℕ → ℕ
first_byte v = get_or v 0 0

abbrev target : Target ℕ
target = record {
  run_target = λ v w. (0, first_byte v);
  stop_soon = λ w. false;
  trace_cksum = λ w. w;
  trace_bits = λ w. [];
  set_trace = λ t w. w;
  update_bitmap_score = λ w. w;
  exec_cksum = 65;
}

abbrev sample : List ℕ
sample = 65 ∷ 2 ∷ 3 ∷ 4 ∷ 5 ∷ 6 ∷ []

-- Everything behind the first block goes.
trim_run :
    trim_case target sample sample 65
    ≡ some (
        done (record {
          world = 65;
          in_buf = 65 ∷ 2 ∷ 3 ∷ 4 ∷ [];
          len_p2 = 4;
          needs_write = true;
          clean_trace = [];
          fault = 0;
          file = 65 ∷ 2 ∷ 3 ∷ 4 ∷ [];
        }))
unfolding trim_case trim_lengths trim_positions next_p2 double_loop
trim_run = refl

trim_case-IsTrimmed_example :
    IsTrimmed target first_byte (λ v w. refl) sample (trim_case target sample sample 65)
trim_case-IsTrimmed_example =
    trim_case-IsTrimmed target first_byte (λ v w. refl) sample 65 (omega arith) refl
