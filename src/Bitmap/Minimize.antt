-- ===== src/Bitmap/Minimize.antt =====
-- `minimize_bits` of afl-2.57b/afl-fuzz.c: one bit for each byte of a trace.
pub mod Laws
pub mod Whole
use aflgo.Common.{
  ℕ, ◌+◌, ◌/◌, ◌%◌, ◌^◌, ◌!=◌, if◌then◌else◌, bit_or, List, [], ◌∷◌, get_or, set, take,
}

-- `dst[i >> 3] |= 1 << (i & 7)`
abbrev pub set_bit : List ℕ → ℕ → List ℕ
set_bit dst i = set dst (i / 8) (bit_or (get_or dst (i / 8) 0) (2 ^ (i % 8)) % 2 ^ 8)

-- The loop from index `i` on, over what is left of the source.
unfoldable pub minimize_loop : ℕ → List ℕ → List ℕ → List ℕ
minimize_loop i [] dst = dst
minimize_loop i (s ∷ src) dst = minimize_loop (i + 1) src (if s != 0 then set_bit dst i else dst)

unfoldable pub minimize_bits : ℕ → List ℕ → List ℕ → List ℕ
minimize_bits map_size dst src = minimize_loop 0 (take map_size src) dst
