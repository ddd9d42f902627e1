-- ===== src/Stages/Interest/Values.antt =====
-- The values that the stages with interesting values are meant to try at a word, less the changes
-- that are left out.
use aflgo.Common.{ℕ, ◌≡◌, refl, arith, ◌!=◌, bit_xor, Bool, true, false, not, ◌&&◌, ◌||◌, [], ◌∷◌}
use aflgo.Mutations.{could_be_bitflip}
use aflgo.Mutations.Arith.{could_be_arith}
use aflgo.Stages.Words.{Candidates}
use aflgo.Stages.Words.Sums.{turned}
use aflgo.Stages.Interest.Repeats.{repeats}
use aflgo.Stages.Interest.{could_be_interest, interest8_guard, interests}

-- A product of the bit flipping or of the arithmetic stages.
abbrev pub is_earlier : ℕ → ℕ → ℕ → Bool
is_earlier k orig new = could_be_bitflip (bit_xor orig new) || could_be_arith orig new k

abbrev pub keeps_byte : ℕ → ℕ → Bool
keeps_byte orig v = not (is_earlier 1 orig v)

-- Nor one of the stages with interesting values so far.
abbrev pub is_repeated : ℕ → ℕ → ℕ → Bool → Bool
is_repeated k orig new turned_too = is_earlier k orig new || repeats k orig new turned_too

-- The value with its lowest byte first, then, where that is another word, with its highest first.
abbrev pub meant_values : ℕ → ℕ → ℕ → Candidates
meant_values k orig v =
    (not (is_repeated k orig v false), v)
    ∷ (turned k v != v && not (is_repeated k orig (turned k v) true), turned k v)
    ∷ []

pub interest8_guard-keeps_byte : (orig v : ℕ) → interest8_guard orig v ≡ keeps_byte orig v
unfolding interest8_guard
interest8_guard-keeps_byte orig v = refl

not_either : (a b c : Bool) → (not a && not b && not c) ≡ not ((a || b) || c)
not_either a b c = ground arith

differ_sym : (a b : ℕ) → (a != b) ≡ (b != a)
differ_sym a b = ground arith

pub interests-meant :
    (k : ℕ) (swap : ℕ → ℕ) (orig v : ℕ)
    → swap v ≡ turned k v
    → ((new : ℕ) (b : Bool) → could_be_interest orig new k b ≡ repeats k orig new b)
    → interests k swap orig v ≡ meant_values k orig v
unfolding interests
interests-meant k swap orig v e agree =
    let t = turned k v in
    let flip = λ (x : ℕ). could_be_bitflip (bit_xor orig x) in
    rw
      (
        interests,
        e,
        differ_sym v t,
        agree v false,
        agree t true,
        not_either (flip v) (could_be_arith orig v k) (repeats k orig v false),
        not_either (flip t) (could_be_arith orig t k) (repeats k orig t true),
      )
      refl
