-- ===== src/Stages/Words/Laws.antt =====
-- What the arithmetic stages run, against the values of Sums. Several values are tried at a place before it is restored, so
-- the buffer in between is known up to the word at that place.
use aflgo.Common.{
  ℕ, zero, suc, ◌+◌, ◌-◌, ◌^◌, ◌<◌, ◌≤◌, ◌≡◌, refl, ap, ◌∙◌, subst, arith, ltb, ltb→lt, ltb_off,
  if◌then◌else◌, true, false, List, [], ◌∷◌, ◌++◌, length,
}
use mathlib.Core.List.{append-nil}
use aflgo.Bitmap.Memory.{IsBytes}
use aflgo.Mutations.Arith.{arith_max}
use aflgo.Stages.Flow.{
  Stage, goes, Item, input, ◌>>◌, change, when, for, reading, gather, fuzz, Visits,
}
use aflgo.Stages.Flow.Rules.{seq-Visits, when-Visits, for-Visits, for_guarded}
use aflgo.Stages.Buffer.{peek, poke}
use aflgo.Stages.Buffer.Laws.{poke-poke, poke-peek, peek-lt}
use aflgo.Stages.Flips.{Fuzzing, Session, exec, touched}
use aflgo.Stages.Words.Sums.{meant_byte, meant_word, sums8-meant, sums16-meant, sums32-meant}
use aflgo.Stages.Words.{
  Candidates, sums8, sums16, sums32, try_values, at_words, arith_body, arith8, arith16, arith32,
}

module _ {S : Type 0} where
  -- The inputs that the candidates for a word stand for: the values whose guard holds, each written
  -- into the buffer as it was.
  abbrev pub chosen : ℕ → ℕ → List ℕ → Candidates → List (Item S)
  chosen k i buf [] = []
  chosen k i buf ((guard, v) ∷ cs) =
      (if guard then input (poke k i v buf) ∷ [] else []) ++ chosen k i buf cs

  -- The inputs for the words that have an effect, with values for the word and for each of 1 to 35.
  abbrev pub arith_items : ℕ → List ℕ → ℕ → List ℕ → (ℕ → ℕ → Candidates) → List (Item S)
  arith_items k eff n buf sums = gather n 0 (λ i.
      if touched eff k i
      then gather arith_max 1 (λ j. chosen k i buf (sums (peek k i buf) j))
      else [])

-- The buffers that differ from `buf` in the word at `i` at most.
abbrev pub IsSpoilt : ℕ → ℕ → List ℕ → List ℕ → Type 0
IsSpoilt k i buf b = (v : ℕ) → poke k i v b ≡ poke k i v buf

module _ {W : Type 0} (env : Fuzzing W) where
  -- On a buffer whose word at `i` is spoilt, a stage does what the items say and leaves such a buffer.
  abbrev pub Spoils : ℕ → ℕ → List ℕ → Stage (Session W) → List (Item (Session W)) → Type 0
  Spoils k i buf m items =
      (b : List ℕ)
      → IsSpoilt k i buf b
      → (c : List ℕ) × IsSpoilt k i buf c × Visits (exec env) m b items c

  pub seq-Spoils :
      (k i : ℕ) (buf : List ℕ) (m n : Stage (Session W)) (vs ws : List (Item (Session W)))
      → Spoils k i buf m vs
      → Spoils k i buf n ws
      → Spoils k i buf (m >> n) (vs ++ ws)
  seq-Spoils k i buf m n vs ws h g b spoilt =
      let first = h b spoilt in
      let second = g first.0 first.1 in
      (second.0, second.1, seq-Visits (exec env) m n b first.0 second.0 vs ws first.2 second.2)

  pub for-Spoils :
      (k i : ℕ) (buf : List ℕ) (n lo : ℕ) (body : ℕ → Stage (Session W))
      (items : ℕ → List (Item (Session W)))
      → ((j : ℕ) → Spoils k i buf (body j) (items j))
      → Spoils k i buf (for n lo body) (gather n lo items)
  for-Spoils k i buf zero lo body items h b spoilt = (b, spoilt, λ s. refl)
  for-Spoils k i buf (suc n) lo body items h b spoilt =
      seq-Spoils k i buf (body lo) (for n (lo + 1) body) (items lo) (gather n (lo + 1) items) (h lo)
        (for-Spoils k i buf n (lo + 1) body items h) b spoilt

  pub try_values-Spoils :
      (k i : ℕ) (buf : List ℕ) (cs : Candidates)
      → Spoils k i buf (try_values env k i cs) (chosen k i buf cs)
  try_values-Spoils k i buf [] b spoilt = (b, spoilt, λ s. refl)
  try_values-Spoils k i buf ((true, v) ∷ cs) b spoilt =
      seq-Spoils k i buf (change (poke k i v) >> fuzz (exec env)) (try_values env k i cs)
        (input (poke k i v buf) ∷ []) (chosen k i buf cs)
        (λ d dirty. (poke k i v buf, (λ w. poke-poke k i v w buf), λ s. rw (dirty v) refl))
        (try_values-Spoils k i buf cs) b spoilt
  try_values-Spoils k i buf ((false, v) ∷ cs) b spoilt =
      let rest = try_values-Spoils k i buf cs b spoilt in (rest.0, rest.1, rest.2)

  -- Writing the word back after the tries.
  pub restored-Visits :
      (k i : ℕ) (buf : List ℕ) (m : Stage (Session W)) (items : List (Item (Session W)))
      → IsBytes buf
      → i + k ≤ length buf
      → Spoils k i buf m items
      → Visits (exec env) (m >> change (poke k i (peek k i buf))) buf items buf
  restored-Visits k i buf m items proper inside h =
      let out = h buf (λ v. refl) in
      subst (λ l. Visits (exec env) (m >> change (poke k i (peek k i buf))) buf l buf)
        (append-nil items)
        (seq-Visits (exec env) m (change (poke k i (peek k i buf))) buf out.0 buf items [] out.2
          (λ s. ap (λ b. goes b s) (out.1 (peek k i buf) ∙ poke-peek k i buf proper inside)))

  pub at_words-Visits :
      (k : ℕ) (eff : List ℕ) (n : ℕ) (buf : List ℕ) (body : ℕ → ℕ → Stage (Session W))
      (items : ℕ → List (Item (Session W)))
      → ((i : ℕ) → i < n → Visits (exec env) (body i (peek k i buf)) buf (items i) buf)
      → Visits
          (exec env)
          (at_words env k eff n body)
          buf
          (gather n 0 (λ i. if touched eff k i then items i else []))
          buf
  at_words-Visits k eff n buf body items h =
      for-Visits (exec env) n 0 (λ i. when (touched eff k i) (reading (λ b. body i (peek k i b))))
        buf (λ i. if touched eff k i then items i else [])
        (λ i lo hi.
          when-Visits (exec env) (touched eff k i) (reading (λ b. body i (peek k i b))) buf
            (items i) (h i (omega arith)))

  arith_words-Visits :
      (k : ℕ) (eff : List ℕ) (n : ℕ) (buf : List ℕ) (sums meant : ℕ → ℕ → Candidates)
      → ((orig j : ℕ) → orig < 256 ^ k → 1 ≤ j → j ≤ arith_max → sums orig j ≡ meant orig j)
      → IsBytes buf
      → n + k ≤ length buf + 1
      → Visits
          (exec env)
          (at_words env k eff n (arith_body env k sums))
          buf
          (arith_items k eff n buf meant)
          buf
  arith_words-Visits k eff n buf sums meant agree proper inside =
      at_words-Visits k eff n buf (arith_body env k sums)
        (λ i. gather arith_max 1 (λ j. chosen k i buf (meant (peek k i buf) j)))
        (λ i below.
          for-Visits (exec env) arith_max 1
            (λ j. try_values env k i (sums (peek k i buf) j) >> change (poke k i (peek k i buf)))
            buf (λ j. chosen k i buf (meant (peek k i buf) j))
            (λ j lo hi.
              subst
                (λ cs.
                  Visits (exec env)
                    (try_values env k i (sums (peek k i buf) j) >> change (poke k i (peek k i buf)))
                    buf (chosen k i buf cs) buf)
                (agree (peek k i buf) j (peek-lt k i buf proper (omega arith)) lo (omega arith))
                (restored-Visits k i buf (try_values env k i (sums (peek k i buf) j))
                  (chosen k i buf (sums (peek k i buf) j)) proper (omega arith)
                  (try_values-Spoils k i buf (sums (peek k i buf) j)))))

  -- On a buffer of bytes, the arithmetic stages (bytes, words of two and of four bytes) run the target for every place
  -- whose word has a byte with an effect, and for j from 1 to 35, on the buffer as it was with the word there changed:
  -- its number is raised by j, then lowered by j, with wrap-around. A byte has one number; a longer word has that of its bytes with the
  -- lowest first and then that with the highest first, and only a change that spills out of the lower half of the number is run.
  -- A change that `could_be_bitflip` says yes to is not run. Files that are too short for a word are left alone.
  -- The buffer is left as it was; the first run that asks to bail out abandons the entry.
  pub arith-Visits :
      (eff buf : List ℕ)
      → IsBytes buf
      → Visits
          (exec env)
          (arith8 env eff (length buf))
          buf
          (arith_items 1 eff (length buf) buf meant_byte)
          buf
        × Visits
            (exec env)
            (arith16 env eff (length buf))
            buf
            (arith_items 2 eff (length buf - 1) buf (meant_word 2))
            buf
        × Visits
            (exec env)
            (arith32 env eff (length buf))
            buf
            (arith_items 4 eff (length buf - 3) buf (meant_word 4))
            buf
  unfolding arith8 arith16 arith32
  arith-Visits eff buf proper = (
    arith_words-Visits 1 eff (length buf) buf sums8 meant_byte sums8-meant proper (omega arith),
    for_guarded (exec env) (ltb (length buf) 2) _ (length buf - 1) buf _
        (λ short. omega (arith, ltb→lt (length buf) 2 short))
        (λ long.
          arith_words-Visits 2 eff (length buf - 1) buf sums16 (meant_word 2) sums16-meant proper
            (omega (arith, ltb_off (length buf) 2 long))),
    for_guarded (exec env) (ltb (length buf) 4) _ (length buf - 3) buf _
        (λ short. omega (arith, ltb→lt (length buf) 4 short))
        (λ long.
          arith_words-Visits 4 eff (length buf - 3) buf sums32 (meant_word 4) sums32-meant proper
            (omega (arith, ltb_off (length buf) 4 long))),
  )
