-- ===== src/Stages/Extras/Over.antt =====
-- Tokens written over the file: the bytes are restored since the tokens are sorted by size.
use aflgo.Common.{
  ℕ, ◌+◌, ◌-◌, ◌<◌, ◌≤◌, ◌≡◌, refl, ap, ◌∙◌, arith, ltb, ltb_off, Bool, false, not, Bool-cases, ◌⊎◌,
  inl, inr, ||_off, ◌||◌, List, [], ◌∷◌, length, take, drop, length-take, length-drop,
}
use aflgo.Stages.Flow.{goes, abandons, ◌>>◌}
use aflgo.Stages.Buffer.{write}
use aflgo.Stages.Buffer.Laws.{write_again, write_self, length-write}
use aflgo.Stages.Flips.{Fuzzing, Session, exec}
use aflgo.Stages.Extras.{memcmp_equal, spans_effect, token_skipped, over_tokens, overwrite}
use aflgo.Stages.Flow.Keeps.{Keeps, for-Keeps}

-- Sizes that do not fall, none below `bound`.
abbrev pub IsSorted : ℕ → List (List ℕ) → Type 0
IsSorted bound [] = Unit
IsSorted bound (tok ∷ toks) = (bound ≤ length tok) × IsSorted (length tok) toks

-- The buffers that are `orig` again when at least `last_len` bytes at `i` are written back.
IsMendable : List ℕ → ℕ → ℕ → List ℕ → Type 0
IsMendable orig i last_len b =
    (length b ≡ length orig) × ((n : ℕ) → last_len ≤ n → write b i (take n (drop i orig)) ≡ orig)

mendable : (orig : List ℕ) (i : ℕ) → IsMendable orig i 0 orig
unfolding IsMendable
mendable orig i = (refl, λ n h. write_self orig i n)

write-IsMendable :
    (orig : List ℕ) (i last_len : ℕ) (tok b : List ℕ)
    → last_len ≤ length tok
    → i + length tok ≤ length orig
    → IsMendable orig i last_len b
    → IsMendable orig i (length tok) (write b i tok)
unfolding IsMendable
write-IsMendable orig i last_len tok b longer inside (same, mend) = (
  length-write b i tok ∙ same,
  λ n h.
      write_again b i tok (take n (drop i orig))
        (omega (arith, length-take n (drop i orig), length-drop i orig))
      ∙ mend n (omega arith),
)

IsSorted-tail :
    (bound : ℕ) (tok : List ℕ) (toks : List (List ℕ))
    → IsSorted bound (tok ∷ toks)
    → IsSorted bound toks
IsSorted-tail bound tok [] h = tt
IsSorted-tail bound tok (next ∷ toks) h = (omega (arith, h.0, h.1.0), h.1.1)

-- A token that is tried ends in the file.
fits :
    (eff : List ℕ) (i : ℕ) (tok b orig : List ℕ)
    → length b ≡ length orig
    → i < length orig
    → token_skipped eff i tok b ≡ false
    → i + length tok ≤ length orig
fits eff i tok b orig same inside tried =
    let room = ltb (length b - i) (length tok) in
    let same_bytes = memcmp_equal tok (take (length tok) (drop i b)) in
    omega (
      arith,
      ltb_off (length b - i) (length tok)
          (||_off room same_bytes
            (||_off (room || same_bytes) (not (spans_effect eff i (length tok))) tried).0).0,
    )

module _ {W : Type 0} (env : Fuzzing W) where
  over_tokens-Keeps :
      (sample : Session W → Bool × Session W) (eff orig : List ℕ) (i last_len : ℕ)
      (toks : List (List ℕ)) (b : List ℕ)
      → i < length orig
      → IsSorted last_len toks
      → IsMendable orig i last_len b
      → (t : Session W)
      → ((t' : Session W) × (over_tokens env sample eff orig i last_len toks b t ≡ goes orig t'))
        ⊎ ((t' : Session W) × (over_tokens env sample eff orig i last_len toks b t ≡ abandons t'))
  unfolding over_tokens IsMendable
  over_tokens-Keeps sample eff orig i last_len [] b inside sorted fine t =
      inl (t, ap (λ c. goes c t) (fine.1 last_len (omega arith)))
  over_tokens-Keeps sample eff orig i last_len (tok ∷ toks) b inside sorted fine t =
      elim (Bool-cases ((sample t).0 || token_skipped eff i tok b)) [
        | inl skip ↦
            rw (skip, over_tokens)
              (over_tokens-Keeps sample eff orig i last_len toks b inside
                (IsSorted-tail last_len tok toks sorted) fine (sample t).1)
        | inr tried ↦
            rw (tried, over_tokens)
              (elim (Bool-cases (exec env (write b i tok) (sample t).1).0) [
                | inl bail ↦ rw (bail, ◌>>◌) (inr ((exec env (write b i tok) (sample t).1).1, refl))
                | inr on ↦
                    rw (on, ◌>>◌)
                      (over_tokens-Keeps sample eff orig i (length tok) toks (write b i tok) inside
                        sorted.1
                        (write-IsMendable orig i last_len tok b sorted.0
                          (fits eff i tok b orig fine.0 inside
                            (||_off (sample t).0 (token_skipped eff i tok b) tried).1)
                          fine)
                        (exec env (write b i tok) (sample t).1).1)
              ])
      ]

  -- Tokens that are sorted by size are written over the file at every place, those that are left out by
  -- chance or by a test apart, and the bytes of the last one only are restored; yet the buffer is the
  -- file again after each place.
  pub overwrite-Keeps :
      (sample : Session W → Bool × Session W) (eff buf : List ℕ) (toks : List (List ℕ))
      → IsSorted 0 toks
      → Keeps (overwrite env sample eff buf (length buf) toks) buf
  overwrite-Keeps sample eff buf toks sorted =
      for-Keeps (length buf) 0 (λ i. over_tokens env sample eff buf i 0 toks) buf
        (λ i inside.
          over_tokens-Keeps sample eff buf i 0 toks buf (omega arith) sorted (mendable buf i))
