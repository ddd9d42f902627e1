-- ===== src/Hash/Laws.antt =====
-- What the checksum reads.
use aflgo.Common.{ℕ, ◌^◌, ◌<◌, arith, List}
use aflgo.Hash.{hash32, finish64}

-- A checksum is a 32-bit word.
pub hash32-lt : (key : List ℕ) (len seed : ℕ) → hash32 key len seed < 2 ^ 32
unfolding hash32 finish64
hash32-lt key len seed = omega arith
