-- ===== src/Stages/Interest.antt =====
-- `could_be_interest` and the stages of `fuzz_one` that write interesting values. The tables of
-- afl-2.57b/config.h are unsigned here, cut to the width of their elements.
pub mod Insertions
pub mod Repeats
pub mod Values
pub mod Laws
use aflgo.Common.{
  ℕ, zero, suc, ◌+◌, ◌-◌, ◌*◌, ◌/◌, ◌%◌, ◌^◌, ◌==◌, ◌!=◌, ltb, if◌then◌else◌, bit_and, bit_or,
  bit_xor, Bool, true, false, not, ◌&&◌, ◌||◌, List, [], ◌∷◌, ◌++◌, length, map,
}
use aflgo.Mutations.{could_be_bitflip}
use aflgo.Mutations.Arith.{swap16, swap32, could_be_arith}
use aflgo.Stages.Flow.{Stage, Outcome, ◌>>◌, pass, change, when, fuzz}
use aflgo.Stages.Buffer.{peek, poke}
use aflgo.Stages.Flips.{Fuzzing, Session, exec}
use aflgo.Stages.Words.{Candidates, no_flip, try_values, at_words}

-- `- n` in `w` bits.
abbrev negative : ℕ → ℕ → ℕ
negative w n = 2 ^ w - n

-- INTERESTING_8, INTERESTING_16 and INTERESTING_32.
abbrev table8 : ℕ → List ℕ
table8 w = negative w 128 ∷ negative w 1 ∷ 0 ∷ 1 ∷ 16 ∷ 32 ∷ 64 ∷ 100 ∷ 127 ∷ []

abbrev table16 : ℕ → List ℕ
table16 w =
    negative w 32768 ∷ negative w 129 ∷ 128 ∷ 255 ∷ 256 ∷ 512 ∷ 1000 ∷ 1024 ∷ 4096 ∷ 32767 ∷ []

abbrev table32 : ℕ → List ℕ
table32 w =
    negative w 2147483648
    ∷ negative w 100663046
    ∷ negative w 32769
    ∷ 32768
    ∷ 65535
    ∷ 65536
    ∷ 100663045
    ∷ 2147483647
    ∷ []

abbrev pub interesting_8 : List ℕ
interesting_8 = table8 8

abbrev pub interesting_16 : List ℕ
interesting_16 = table8 16 ++ table16 16

abbrev pub interesting_32 : List ℕ
interesting_32 = table8 32 ++ table16 32 ++ table32 32

abbrev pub any : (ℕ → Bool) → List ℕ → Bool
any p [] = false
any p (x ∷ xs) = p x || any p xs

-- One of the numbers from `i` on, `n` of them.
abbrev pub any_from : ℕ → ℕ → (ℕ → Bool) → Bool
any_from zero i p = false
any_from (suc n) i p = p i || any_from n (i + 1) p

-- `(old_val & ~(mask << (i * 8))) | (v << (i * 8))`
abbrev pub tval : ℕ → ℕ → ℕ → ℕ → ℕ
tval mask old_val i v = bit_or (bit_and old_val (2 ^ 32 - 1 - mask * 2 ^ (i * 8))) (v * 2 ^ (i * 8))

abbrev pub byte_insertion : ℕ → ℕ → ℕ → Bool
byte_insertion old_val new_val blen =
    any_from blen 0 (λ i. any (λ v. new_val == tval 0xff old_val i v) interesting_8)

abbrev pub word_insertion : ℕ → ℕ → ℕ → Bool
word_insertion old_val new_val blen = any_from (blen - 1) 0 (λ i.
    any
      (λ v.
        new_val == tval 0xffff old_val i v
        || (ltb 2 blen && new_val == tval 0xffff old_val i (swap16 v)))
      interesting_16)

unfoldable pub could_be_interest : ℕ → ℕ → ℕ → Bool → Bool
could_be_interest old_val new_val blen check_le =
    if old_val == new_val
    then true
    else if byte_insertion old_val new_val blen
    then true
    else if blen == 2 && not check_le
    then false
    else if word_insertion old_val new_val blen
    then true
    else blen == 4 && check_le && any (λ v. new_val == v) interesting_32

unfoldable pub interest8_guard : ℕ → ℕ → Bool
interest8_guard orig v = not (could_be_bitflip (bit_xor orig v) || could_be_arith orig v 1)

-- No product of the stages before, nor of the values already tried.
abbrev pub fresh_value : ℕ → ℕ → ℕ → Bool → Bool
fresh_value k orig v check_le =
    no_flip orig v && not (could_be_arith orig v k) && not (could_be_interest orig v k check_le)

-- A value in both byte orders.
unfoldable pub interests : ℕ → (ℕ → ℕ) → ℕ → ℕ → Candidates
interests k swap orig v =
    (fresh_value k orig v false, v) ∷ (v != swap v && fresh_value k orig (swap v) true, swap v) ∷ []

module _ {W : Type 0} (env : Fuzzing W) where
  -- The loop on `j` over a table.
  abbrev pub each : List ℕ → (ℕ → Stage (Session W)) → Stage (Session W)
  each [] body = pass
  each (v ∷ table) body = body v >> each table body

  abbrev pub interest8_try : ℕ → ℕ → ℕ → Stage (Session W)
  interest8_try i orig v =
      when (interest8_guard orig v)
        (change (poke 1 i v) >> fuzz (exec env) >> change (poke 1 i orig))

  unfoldable pub interest8 : List ℕ → ℕ → Stage (Session W)
  interest8 eff len = at_words env 1 eff len (λ i orig. each interesting_8 (interest8_try i orig))

  -- The word is restored after the loop on `j`.
  abbrev pub interest_body : ℕ → (ℕ → ℕ) → List ℕ → ℕ → ℕ → Stage (Session W)
  interest_body k swap table i orig =
      each table (λ v. try_values env k i (interests k swap orig v)) >> change (poke k i orig)

  unfoldable pub interest16 : List ℕ → ℕ → Stage (Session W)
  interest16 eff len = at_words env 2 eff (len - 1) (interest_body 2 swap16 interesting_16)

  unfoldable pub interest32 : List ℕ → ℕ → Stage (Session W)
  interest32 eff len = at_words env 4 eff (len - 3) (interest_body 4 swap32 interesting_32)

  abbrev pub interest_words : List ℕ → ℕ → Stage (Session W)
  interest_words eff len = interest16 eff len >> (if ltb len 4 then pass else interest32 eff len)

  -- The three stages; `no_arith` skips the words, and a short file ends them early.
  unfoldable pub interest : Bool → List ℕ → ℕ → Stage (Session W)
  interest no_arith eff len =
      interest8 eff len >> (if no_arith || ltb len 2 then pass else interest_words eff len)
