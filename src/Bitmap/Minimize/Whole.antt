-- ===== src/Bitmap/Minimize/Whole.antt =====
-- `minimize_bits` on a whole trace, into a fresh bitmap.
use aflgo.Common.{
  ℕ, zero, suc, ◌/◌, ◌%◌, ◌!=◌, ◌&&◌, if◌then◌else◌, List, replicate, get_or, take, ◌≡◌, refl, ap,
  ◌∙◌, arith, length-replicate, ltb, [], ◌∷◌, length-take,
}
use aflgo.Bits.Test.{test, test-zero}
use aflgo.Bitmap.Minimize.{minimize_bits}
use aflgo.Bitmap.Minimize.Laws.{bit_at, minimize_loop_lem}

get_or-replicate_zero : (n b : ℕ) → get_or (replicate {A = ℕ} n 0) b 0 ≡ 0
get_or-replicate_zero zero b = refl
get_or-replicate_zero (suc n) zero = refl
get_or-replicate_zero (suc n) (suc b) = get_or-replicate_zero n b

pub get_or-take :
    (n j : ℕ) (xs : List ℕ) → get_or (take n xs) j 0 ≡ (if ltb j n then get_or xs j 0 else 0)
get_or-take zero j xs = ground arith
get_or-take (suc n) j [] = ground arith
get_or-take (suc n) zero (x ∷ xs) = ground arith
get_or-take (suc n) (suc j) (x ∷ xs) = get_or-take n j xs ∙ ground arith

-- For a map of whole bytes' worth of bits and a zeroed destination, bit `j` of what `minimize_bits`
-- writes is set exactly if `j` is in the map and byte `j` of the trace is not 0.
pub minimize_bits_lem :
    (map_size j : ℕ) (trace : List ℕ)
    → map_size % 8 ≡ 0
    → bit_at (minimize_bits map_size (replicate (map_size / 8) 0) trace) j
      ≡ (if ltb j map_size && get_or trace j 0 != 0 then 1 else 0)
unfolding minimize_bits
minimize_bits_lem map_size j trace whole =
    let dst : List ℕ = replicate (map_size / 8) 0 in
    let clear : bit_at dst j ≡ 0 =
      ap (test (j % 8)) (get_or-replicate_zero (map_size / 8) (j / 8)) ∙ test-zero (j % 8) in
    minimize_loop_lem 0 (take map_size trace) dst j
      (omega (arith, length-replicate {A = ℕ} (map_size / 8) 0, length-take map_size trace))
    ∙ ground (arith, clear, get_or-take map_size j trace)
