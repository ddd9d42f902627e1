-- ===== src/Mutations/ByteFlips.antt =====
-- `could_be_bitflip` against the stages of `fuzz_one` that flip bits, on files of one byte.
use aflgo.Common.{
  ℕ, zero, suc, ◌+◌, ◌<◌, ◌≡◌, refl, arith, ◌==◌, Bool, true, false, ◌||◌, List, [], ◌∷◌, get_or,
  all_below, all_below_sound,
}
use aflgo.Mutations.{shift_loop, could_be_bitflip}
use aflgo.Stages.Buffer.{flip_bits}
use aflgo.Stages.Flips.{flip_byte}

-- The byte of a file that holds one.
abbrev only_byte : List ℕ → ℕ
only_byte buf = get_or buf 0 0

-- Flipping `width` bits of a zero byte gives `x`, at bit `cur` or at one of the `n` - 1 after it.
abbrev flips_to : ℕ → ℕ → ℕ → ℕ → Bool
flips_to zero cur width x = false
flips_to (suc n) cur width x =
    (only_byte (flip_bits width cur (0 ∷ [])) == x) || flips_to n (cur + 1) width x

-- A round of `flip1`, `flip2`, `flip4` or `flip8` turns a zero byte into `x`.
abbrev pub is_product : ℕ → Bool
is_product x =
    flips_to 8 0 1 x
    || (flips_to 7 0 2 x || (flips_to 5 0 4 x || only_byte (flip_byte 0 (0 ∷ [])) == x))

same : Bool → Bool → Bool
same true b = b
same false true = false
same false false = true

same_sound : (a b : Bool) → same a b ≡ true → a ≡ b
unfolding same
same_sound true true h = refl
same_sound true false h = ground arith
same_sound false true h = ground arith
same_sound false false h = refl

agrees : ℕ → Bool
agrees x = same (could_be_bitflip x) ((x == 0) || is_product x)

all_agree : all_below 256 agrees ≡ true
unfolding all_below agrees same could_be_bitflip shift_loop
all_agree = refl

-- For the change of one byte, `could_be_bitflip` says yes exactly if nothing changes, or if flipping one, two
-- or four bits in a row, as `FLIP_BIT` counts them, or the whole byte makes that change to a byte.
pub could_be_bitflip-products :
    (xor_val : ℕ)
    → xor_val < 256
    → could_be_bitflip xor_val ≡ ((xor_val == 0) || is_product xor_val)
unfolding agrees
could_be_bitflip-products x small = same_sound _ _ (all_below_sound 256 agrees x all_agree small)
