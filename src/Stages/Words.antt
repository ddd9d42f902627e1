-- ===== src/Stages/Words.antt =====
-- The arithmetic stages of `fuzz_one`: small numbers added to the bytes and words of the file.
pub mod Sums
pub mod Laws
use aflgo.Common.{
  ℕ, zero, suc, ◌+◌, ◌-◌, ◌*◌, ◌/◌, ◌%◌, ◌^◌, ltb, if◌then◌else◌, bit_xor, Bool, true, false, not,
  ◌&&◌, List, [], ◌∷◌, length,
}
use aflgo.Mutations.{could_be_bitflip}
use aflgo.Mutations.Arith.{arith_max, swap16, swap32}
use aflgo.Stages.Flow.{Stage, Outcome, ◌>>◌, pass, change, when, for, reading, fuzz}
use aflgo.Stages.Buffer.{peek, poke}
use aflgo.Stages.Flips.{Fuzzing, Session, exec, touched}

-- Values for a word, each with the guard of its `if`.
abbrev pub Candidates : Type 0
Candidates = List (Bool × ℕ)

-- `orig + j` and `orig - j`, cut to `k` bytes.
abbrev pub plus : ℕ → ℕ → ℕ → ℕ
plus k orig j = (orig + j) % 256 ^ k

abbrev pub minus : ℕ → ℕ → ℕ → ℕ
minus k orig j = (orig + 256 ^ k - j) % 256 ^ k

-- Not a product of the bit flipping stages: the tests on `r`, `r1` … `r4`.
abbrev pub no_flip : ℕ → ℕ → Bool
no_flip orig v = not (could_be_bitflip (bit_xor orig v))

unfoldable pub sums8 : ℕ → ℕ → Candidates
sums8 orig j =
    (no_flip orig (plus 1 orig j), plus 1 orig j)
    ∷ (no_flip orig (minus 1 orig j), minus 1 orig j)
    ∷ []

unfoldable pub sums16 : ℕ → ℕ → Candidates
sums16 orig j =
    let r1 = plus 2 orig j in
    let r2 = minus 2 orig j in
    let r3 = swap16 (plus 2 (swap16 orig) j) in
    let r4 = swap16 (minus 2 (swap16 orig) j) in
    (ltb 0xff (orig % 256 + j) && no_flip orig r1, r1)
    ∷ (ltb (orig % 256) j && no_flip orig r2, r2)
    ∷ (ltb 0xff (orig / 256 + j) && no_flip orig r3, r3)
    ∷ (ltb (orig / 256) j && no_flip orig r4, r4)
    ∷ []

unfoldable pub sums32 : ℕ → ℕ → Candidates
sums32 orig j =
    let r1 = plus 4 orig j in
    let r2 = minus 4 orig j in
    let r3 = swap32 (plus 4 (swap32 orig) j) in
    let r4 = swap32 (minus 4 (swap32 orig) j) in
    (ltb 0xffff (orig % 65536 + j) && no_flip orig r1, r1)
    ∷ (ltb (orig % 65536) j && no_flip orig r2, r2)
    ∷ (ltb 0xffff (swap32 orig % 65536 + j) && no_flip orig r3, r3)
    ∷ (ltb (swap32 orig % 65536) j && no_flip orig r4, r4)
    ∷ []

module _ {W : Type 0} (env : Fuzzing W) where
  -- Each value whose guard holds is written and tried, with nothing restored in between.
  abbrev pub try_values : ℕ → ℕ → Candidates → Stage (Session W)
  try_values k i [] = pass
  try_values k i ((guard, v) ∷ cs) =
      when guard (change (poke k i v) >> fuzz (exec env)) >> try_values k i cs

  -- The rounds of the loop on `i` at the words that have an effect, `body` taking the word `orig`.
  abbrev pub at_words : ℕ → List ℕ → ℕ → (ℕ → ℕ → Stage (Session W)) → Stage (Session W)
  at_words k eff n body =
      for n 0 (λ i. when (touched eff k i) (reading (λ buf. body i (peek k i buf))))

  -- The loop on `j`, which restores the word in each round.
  abbrev pub arith_body : ℕ → (ℕ → ℕ → Candidates) → ℕ → ℕ → Stage (Session W)
  arith_body k sums i orig =
      for arith_max 1 (λ j. try_values k i (sums orig j) >> change (poke k i orig))

  unfoldable pub arith8 : List ℕ → ℕ → Stage (Session W)
  arith8 eff len = at_words 1 eff len (arith_body 1 sums8)

  unfoldable pub arith16 : List ℕ → ℕ → Stage (Session W)
  arith16 eff len = if ltb len 2 then pass else at_words 2 eff (len - 1) (arith_body 2 sums16)

  unfoldable pub arith32 : List ℕ → ℕ → Stage (Session W)
  arith32 eff len = if ltb len 4 then pass else at_words 4 eff (len - 3) (arith_body 4 sums32)
