-- ===== src/Hash.antt =====
-- `hash32` of afl-2.57b/hash.h in both flavours: the checksum of a trace.
pub mod Laws
use aflgo.Common.{ℕ, zero, suc, ◌+◌, ◌-◌, ◌*◌, ◌/◌, ◌%◌, ◌^◌, bit_or, bit_xor, List, take, drop}
use aflgo.Bitmap.Memory.{word}

-- `ROL64` and `ROL32`, for words of `bits` bits.
unfoldable pub rol : ℕ → ℕ → ℕ → ℕ
rol bits x r = bit_or (x * 2 ^ r % 2 ^ bits) (x / 2 ^ (bits - r))

-- `h1 ^= h1 >> r`
abbrev pub fold_down : ℕ → ℕ → ℕ
fold_down r h1 = bit_xor h1 (h1 / 2 ^ r)

-- The body of the loop of the 64-bit flavour.
abbrev pub mix64 : ℕ → ℕ → ℕ
mix64 block h1 =
    let k1 = block * 0x87c37b91114253d5 % 2 ^ 64 in
    let k2 = rol 64 k1 31 * 0x4cf5ad432745937f % 2 ^ 64 in
    let h2 = rol 64 (bit_xor h1 k2) 27 in (h2 * 5 + 0x52dce729) % 2 ^ 64

-- The `while (len--)` loop.
unfoldable pub hash64_loop : ℕ → List ℕ → ℕ → ℕ
hash64_loop zero key h1 = h1
hash64_loop (suc len) key h1 = hash64_loop len (drop 8 key) (mix64 (word (take 8 key)) h1)

unfoldable pub finish64 : ℕ → ℕ
finish64 h1 =
    let h2 = fold_down 33 h1 * 0xff51afd7ed558ccd % 2 ^ 64 in
    let h3 = fold_down 33 h2 * 0xc4ceb9fe1a85ec53 % 2 ^ 64 in fold_down 33 h3 % 2 ^ 32

-- On x86-64.
unfoldable pub hash32 : List ℕ → ℕ → ℕ → ℕ
hash32 key len seed = finish64 (hash64_loop (len / 8) key (bit_xor seed len))

-- The body of the loop of the 32-bit flavour.
abbrev pub mix32 : ℕ → ℕ → ℕ
mix32 block h1 =
    let k1 = block * 0xcc9e2d51 % 2 ^ 32 in
    let k2 = rol 32 k1 15 * 0x1b873593 % 2 ^ 32 in
    let h2 = rol 32 (bit_xor h1 k2) 13 in (h2 * 5 + 0xe6546b64) % 2 ^ 32

unfoldable pub hash32_loop : ℕ → List ℕ → ℕ → ℕ
hash32_loop zero key h1 = h1
hash32_loop (suc len) key h1 = hash32_loop len (drop 4 key) (mix32 (word (take 4 key)) h1)

unfoldable pub finish32 : ℕ → ℕ
finish32 h1 =
    let h2 = fold_down 16 h1 * 0x85ebca6b % 2 ^ 32 in
    let h3 = fold_down 13 h2 * 0xc2b2ae35 % 2 ^ 32 in fold_down 16 h3

-- Elsewhere.
unfoldable pub hash32_small : List ℕ → ℕ → ℕ → ℕ
hash32_small key len seed = finish32 (hash32_loop (len / 4) key (bit_xor seed len))
