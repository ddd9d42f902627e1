-- ===== src/Stages/Extras.antt =====
-- The dictionary stages of `fuzz_one`: tokens written over the file and inserted into it. A token is
-- the list of its bytes.
pub mod Insert
pub mod Over
use aflgo.Common.{
  ℕ, zero, suc, ◌+◌, ◌-◌, ◌*◌, ◌==◌, ltb, leb, if◌then◌else◌, Bool, true, false, not, ◌&&◌, ◌||◌,
  List, [], ◌∷◌, length, take, drop, get_or, set, replicate,
}
use aflgo.Stages.Flow.{Stage, Outcome, goes, abandons, ◌>>◌, pass, change, when, for, fuzz}
use aflgo.Stages.Buffer.{write}
use aflgo.Stages.Flips.{Fuzzing, Session, exec, eff_apos, eff_span_alen}
use aflgo.Stages.Interest.{any_from}

abbrev pub max_file : ℕ
max_file = 1024 * 1024

abbrev pub max_dict_file : ℕ
max_dict_file = 128

abbrev max_det_extras : ℕ
max_det_extras = 200

abbrev pub use_auto_extras : ℕ
use_auto_extras = 50

-- `!memcmp(data, buf, len)`
abbrev pub memcmp_equal : List ℕ → List ℕ → Bool
memcmp_equal [] [] = true
memcmp_equal [] (y ∷ ys) = false
memcmp_equal (x ∷ xs) [] = false
memcmp_equal (x ∷ xs) (y ∷ ys) = x == y && memcmp_equal xs ys

-- `memchr(eff_map + EFF_APOS(i), 1, EFF_SPAN_ALEN(i, len))`
abbrev pub spans_effect : List ℕ → ℕ → ℕ → Bool
spans_effect eff i len = any_from (eff_span_alen i len) (eff_apos i) (λ p. get_or eff p 0 == 1)

-- There is no room for the token, it stands there already, or it has no effect.
abbrev pub token_skipped : List ℕ → ℕ → List ℕ → List ℕ → Bool
token_skipped eff i tok buf =
    ltb (length buf - i) (length tok)
    || memcmp_equal tok (take (length tok) (drop i buf))
    || not (spans_effect eff i (length tok))

module _ {W : Type 0} (ur : ℕ → W → ℕ × W) where
  -- `extras_cnt > MAX_DET_EXTRAS && UR(extras_cnt) >= MAX_DET_EXTRAS`
  abbrev pub draw_skip : ℕ → Session W → Bool × Session W
  draw_skip extras_cnt t =
      let drawn = ur extras_cnt t.world in
      if ltb max_det_extras extras_cnt
      then (leb max_det_extras drawn.0, record t { world = drawn.1 })
      else (false, t)

module _ {W : Type 0} (env : Fuzzing W) where
  -- The loop on `j` at one place, and the restoration of the bytes of the last token behind it.
  -- `sample` tells whether a token is left out by chance.
  unfoldable pub over_tokens :
      (Session W → Bool × Session W) → List ℕ → List ℕ → ℕ → ℕ → List (List ℕ) → Stage (Session W)
  over_tokens sample eff in_buf i last_len [] buf t =
      goes (write buf i (take last_len (drop i in_buf))) t
  over_tokens sample eff in_buf i last_len (tok ∷ toks) buf t =
      elim ((sample t).0 || token_skipped eff i tok buf) [
        | true ↦ over_tokens sample eff in_buf i last_len toks buf (sample t).1
        | false ↦
            (change (λ b. write b i tok)
                >> fuzz (exec env)
                >> over_tokens sample eff in_buf i (length tok) toks)
              buf (sample t).1
      ]

  abbrev pub overwrite :
      (Session W → Bool × Session W) → List ℕ → List ℕ → ℕ → List (List ℕ) → Stage (Session W)
  overwrite sample eff in_buf len toks = for len 0 (λ i. over_tokens sample eff in_buf i 0 toks)

  unfoldable pub extras_over :
      (ℕ → W → ℕ × W) → List (List ℕ) → List ℕ → List ℕ → ℕ → Stage (Session W)
  extras_over ur extras eff in_buf len =
      overwrite (draw_skip ur (length extras)) eff in_buf len extras

  unfoldable pub auto_extras_over : List (List ℕ) → List ℕ → List ℕ → ℕ → Stage (Session W)
  auto_extras_over a_extras eff in_buf len =
      overwrite (λ t. (false, t)) eff in_buf len (take use_auto_extras a_extras)

  -- `common_fuzz_stuff(argv, ex_tmp, len)`
  abbrev pub fuzz_prefix : ℕ → Stage (Session W)
  fuzz_prefix len ex_tmp t =
      let out = exec env (take len ex_tmp) t in if out.0 then abandons out.1 else goes ex_tmp out.1

  -- The token at `i` and the rest of the file behind it, if the file stays small enough.
  abbrev pub insert_token : List ℕ → ℕ → List ℕ → Stage (Session W)
  insert_token out_buf i tok = when (leb (length out_buf + length tok) max_file) (
      change (λ ex_tmp. write (write ex_tmp i tok) (i + length tok) (drop i out_buf))
      >> fuzz_prefix (length out_buf + length tok))

  -- The loop on `j` with the buffer `ex_tmp`.
  abbrev pub insert_tokens : List ℕ → ℕ → List (List ℕ) → Stage (Session W)
  insert_tokens out_buf i [] = pass
  insert_tokens out_buf i (tok ∷ toks) = insert_token out_buf i tok >> insert_tokens out_buf i toks

  -- A round of the loop on `i`. `behind` is the byte behind the buffer, which the last round reads.
  abbrev pub insert_place : ℕ → List (List ℕ) → List ℕ → ℕ → Stage (Session W)
  insert_place behind extras out_buf i =
      insert_tokens out_buf i extras >> change (λ ex_tmp. set ex_tmp i (get_or out_buf i behind))

  unfoldable pub extras_insert : ℕ → List (List ℕ) → Stage (Session W)
  extras_insert behind extras out_buf t =
      elim (for (length out_buf + 1) 0 (insert_place behind extras out_buf)
        (replicate (length out_buf + max_dict_file) 0) t) [
          | goes ex_tmp t' ↦ goes out_buf t'
          | abandons t' ↦ abandons t'
        ]
