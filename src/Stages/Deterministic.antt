-- ===== src/Stages/Deterministic.antt =====
-- The deterministic stages of `fuzz_one` in a row, from the first bit flip to the automatic extras.
use aflgo.Common.{
  ℕ, ◌+◌, ◌-◌, ◌*◌, ◌≤◌, ◌!=◌, if◌then◌else◌, Bool, not, List, [], ◌++◌, length, take, All,
}
use aflgo.Bitmap.Memory.{IsBytes}
use aflgo.Stages.Flow.{Stage, ◌>>◌, when, gather}
use aflgo.Stages.Flow.Keeps.{Keeps, seq-Keeps, when-Keeps, Visits→Keeps}
use aflgo.Stages.Flips.{Fuzzing, Session, exec, flip1, flip2, flip4, flip8, flip16, flip32}
use aflgo.Stages.Flips.Laws.{
  flip_items, flip_word_items, flip1_items, flip8_items, flip1-Visits, flip2-flip4-Visits,
  flip8-Visits, flip16-flip32-Visits,
}
use aflgo.Stages.Words.Sums.{meant_byte, meant_word}
use aflgo.Stages.Words.{arith8, arith16, arith32}
use aflgo.Stages.Words.Laws.{arith_items, arith-Visits}
use aflgo.Stages.Interest.{interest}
use aflgo.Stages.Interest.Laws.{interest8_items, word_items, interest-Visits}
use aflgo.Stages.Extras.{
  max_dict_file, use_auto_extras, extras_over, extras_insert, auto_extras_over,
}
use aflgo.Stages.Extras.Over.{IsSorted, overwrite-Keeps}
use aflgo.Stages.Extras.Insert.{insertions, extras_insert-Visits}

-- The switches and dictionaries that the stages read: `a_extras` belongs to the fuzzer's state.
pub record Options (W : Type 0) : Type 0 where
  pub no_arith : Bool
  pub ur : ℕ → W → ℕ × W
  pub extras : List (List ℕ)
  pub a_extras : W → List (List ℕ)
  pub behind : ℕ

module _ {W : Type 0} (env : Fuzzing W) (opts : Options W) where
  abbrev sums : List ℕ → ℕ → Stage (Session W)
  sums eff len =
      when (not opts.no_arith) (arith8 env eff len >> arith16 env eff len >> arith32 env eff len)

  abbrev user_extras : List ℕ → List ℕ → Stage (Session W)
  user_extras eff in_buf = when (length opts.extras != 0) (
      extras_over env opts.ur opts.extras eff in_buf (length in_buf)
      >> extras_insert env opts.behind opts.extras)

  abbrev auto_extras : List (List ℕ) → List ℕ → List ℕ → Stage (Session W)
  auto_extras a_extras eff in_buf =
      when (length a_extras != 0) (auto_extras_over env a_extras eff in_buf (length in_buf))

  -- The stages behind the effector map.
  abbrev with_map : List (List ℕ) → List ℕ → List ℕ → Stage (Session W)
  with_map a_extras eff in_buf =
      flip16 env eff (length in_buf)
      >> flip32 env eff (length in_buf)
      >> sums eff (length in_buf)
      >> interest env opts.no_arith eff (length in_buf)
      >> user_extras eff in_buf
      >> auto_extras a_extras eff in_buf

  unfoldable pub deterministic : List ℕ → Stage (Session W)
  deterministic in_buf =
      flip1 env (length in_buf)
      >> flip2 env (length in_buf)
      >> flip4 env (length in_buf)
      >> flip8 env (length in_buf)
      >> (λ buf t. with_map (opts.a_extras t.world) t.eff_map in_buf buf t)

  user_extras-Keeps :
      (eff buf : List ℕ)
      → IsSorted 0 opts.extras
      → All (λ tok. length tok ≤ max_dict_file) opts.extras
      → Keeps (user_extras eff buf) buf
  unfolding extras_over
  user_extras-Keeps eff buf sorted short =
      when-Keeps (length opts.extras != 0)
        (extras_over env opts.ur opts.extras eff buf (length buf)
          >> extras_insert env opts.behind opts.extras)
        buf
        (seq-Keeps (extras_over env opts.ur opts.extras eff buf (length buf))
          (extras_insert env opts.behind opts.extras) buf
          (overwrite-Keeps env _ eff buf opts.extras sorted)
          (Visits→Keeps (exec env) (extras_insert env opts.behind opts.extras) buf
            (gather (length buf + 1) 0 (λ i. insertions buf i opts.extras))
            (extras_insert-Visits env opts.behind opts.extras buf short)))

  auto_extras-Keeps :
      (a_extras : List (List ℕ)) (eff buf : List ℕ)
      → IsSorted 0 (take use_auto_extras a_extras)
      → Keeps (auto_extras a_extras eff buf) buf
  unfolding auto_extras_over
  auto_extras-Keeps a_extras eff buf sorted =
      when-Keeps (length a_extras != 0) (auto_extras_over env a_extras eff buf (length buf)) buf
        (overwrite-Keeps env _ eff buf (take use_auto_extras a_extras) sorted)

  flips-Keeps :
      (buf : List ℕ)
      → Keeps
          (flip1 env (length buf)
            >> flip2 env (length buf)
            >> flip4 env (length buf)
            >> flip8 env (length buf))
          buf
  flips-Keeps buf =
      let len = length buf in
      seq-Keeps (flip1 env len >> flip2 env len >> flip4 env len) (flip8 env len) buf
        (seq-Keeps (flip1 env len >> flip2 env len) (flip4 env len) buf
          (seq-Keeps (flip1 env len) (flip2 env len) buf
            (Visits→Keeps (exec env) (flip1 env len) buf (flip1_items env len buf)
              (flip1-Visits env len buf))
            (Visits→Keeps (exec env) (flip2 env len) buf (flip_items 2 (len * 8 - 1) buf)
              (flip2-flip4-Visits env len buf).0))
          (Visits→Keeps (exec env) (flip4 env len) buf (flip_items 4 (len * 8 - 3) buf)
            (flip2-flip4-Visits env len buf).1))
        (Visits→Keeps (exec env) (flip8 env len) buf (flip8_items env len buf)
          (flip8-Visits env len buf))

  sums-Keeps : (eff buf : List ℕ) → IsBytes buf → Keeps (sums eff (length buf)) buf
  sums-Keeps eff buf proper =
      let len = length buf in
      let parts = arith-Visits env eff buf proper in
      when-Keeps (not opts.no_arith)
        (arith8 env eff len >> arith16 env eff len >> arith32 env eff len) buf
        (seq-Keeps (arith8 env eff len >> arith16 env eff len) (arith32 env eff len) buf
          (seq-Keeps (arith8 env eff len) (arith16 env eff len) buf
            (Visits→Keeps (exec env) (arith8 env eff len) buf (arith_items 1 eff len buf meant_byte)
              parts.0)
            (Visits→Keeps (exec env) (arith16 env eff len) buf
              (arith_items 2 eff (len - 1) buf (meant_word 2)) parts.1))
          (Visits→Keeps (exec env) (arith32 env eff len) buf
            (arith_items 4 eff (len - 3) buf (meant_word 4)) parts.2))

  values-Keeps :
      (eff buf : List ℕ)
      → IsBytes buf
      → Keeps
          (flip16 env eff (length buf)
            >> flip32 env eff (length buf)
            >> sums eff (length buf)
            >> interest env opts.no_arith eff (length buf))
          buf
  values-Keeps eff buf proper =
      let len = length buf in
      let flips = flip16-flip32-Visits env eff buf proper in
      seq-Keeps (flip16 env eff len >> flip32 env eff len >> sums eff len)
        (interest env opts.no_arith eff len) buf
        (seq-Keeps (flip16 env eff len >> flip32 env eff len) (sums eff len) buf
          (seq-Keeps (flip16 env eff len) (flip32 env eff len) buf
            (Visits→Keeps (exec env) (flip16 env eff len) buf (flip_word_items 2 eff (len - 1) buf)
              flips.0)
            (Visits→Keeps (exec env) (flip32 env eff len) buf (flip_word_items 4 eff (len - 3) buf)
              flips.1))
          (sums-Keeps eff buf proper))
        (Visits→Keeps (exec env) (interest env opts.no_arith eff len) buf
          (interest8_items eff buf ++ (if opts.no_arith then [] else word_items eff buf))
          (interest-Visits env opts.no_arith eff buf proper))

  -- From a file of bytes on, with user extras that are sorted by size and at most 128 bytes long, and automatic extras whose first
  -- fifty are sorted by size in each state, the deterministic stages either abandon the entry or go on to
  -- the havoc stage with `out_buf` the same as the file.
  pub deterministic-Keeps :
      (buf : List ℕ)
      → IsBytes buf
      → IsSorted 0 opts.extras
      → All (λ tok. length tok ≤ max_dict_file) opts.extras
      → ((w : W) → IsSorted 0 (take use_auto_extras (opts.a_extras w)))
      → Keeps (deterministic buf) buf
  unfolding deterministic
  deterministic-Keeps buf proper sorted short auto =
      let len = length buf in
      seq-Keeps (flip1 env len >> flip2 env len >> flip4 env len >> flip8 env len)
        (λ b t. with_map (opts.a_extras t.world) t.eff_map buf b t) buf (flips-Keeps buf)
        (λ t.
          seq-Keeps
            (flip16 env t.eff_map len
              >> flip32 env t.eff_map len
              >> sums t.eff_map len
              >> interest env opts.no_arith t.eff_map len
              >> user_extras t.eff_map buf)
            (auto_extras (opts.a_extras t.world) t.eff_map buf) buf
            (seq-Keeps
              (flip16 env t.eff_map len
                >> flip32 env t.eff_map len
                >> sums t.eff_map len
                >> interest env opts.no_arith t.eff_map len)
              (user_extras t.eff_map buf) buf (values-Keeps t.eff_map buf proper)
              (user_extras-Keeps t.eff_map buf sorted short))
            (auto_extras-Keeps (opts.a_extras t.world) t.eff_map buf (auto t.world)) t)
