-- ===== src/Bitmap/Counts.antt =====
-- count_bits, count_bytes and count_non_255_bytes of afl-2.57b/afl-fuzz.c: loops over 32-bit words.
pub mod Swar
pub mod Laws
pub mod Whole
use aflgo.Common.{
  ℕ, zero, suc, ◌+◌, ◌-◌, ◌*◌, ◌/◌, ◌%◌, ◌^◌, ◌!=◌, ◌==◌, if◌then◌else◌, bit_and, List, take, drop,
}
use aflgo.Bitmap.Memory.{word}

-- The bits set in a word, counted in parallel; each line is one statement of the source.
unfoldable pub swar : ℕ → ℕ
swar v =
    let v1 = (v + 2 ^ 32 - bit_and (v / 2) 0x55555555) % 2 ^ 32 in
    let v2 = (bit_and v1 0x33333333 + bit_and (v1 / 4) 0x33333333) % 2 ^ 32 in
    bit_and ((v2 + v2 / 16) % 2 ^ 32) 0x0f0f0f0f * 0x01010101 % 2 ^ 32 / 2 ^ 24

unfoldable pub count_bits_loop : ℕ → List ℕ → ℕ → ℕ
count_bits_loop zero mem ret = ret
count_bits_loop (suc i) mem ret =
    let v = word (take 4 mem) in
    count_bits_loop i (drop 4 mem) ((ret + (if v == 0xffffffff then 32 else swar v)) % 2 ^ 32)

unfoldable pub count_bits : ℕ → List ℕ → ℕ
count_bits map_size mem = count_bits_loop (map_size / 4) mem 0

-- The macro `FF`, as the `u32` that it is converted to.
abbrev pub ff : ℕ → ℕ
ff b = 0xff * 2 ^ (b * 8)

-- `if (v & FF(b)) ret++;`
abbrev pub bump_set : ℕ → ℕ → ℕ → ℕ
bump_set v b ret = if bit_and v (ff b) != 0 then (ret + 1) % 2 ^ 32 else ret

unfoldable pub count_bytes_loop : ℕ → List ℕ → ℕ → ℕ
count_bytes_loop zero mem ret = ret
count_bytes_loop (suc i) mem ret =
    let v = word (take 4 mem) in
    count_bytes_loop i (drop 4 mem)
      (if v == 0 then ret else bump_set v 3 (bump_set v 2 (bump_set v 1 (bump_set v 0 ret))))

unfoldable pub count_bytes : ℕ → List ℕ → ℕ
count_bytes map_size mem = count_bytes_loop (map_size / 4) mem 0

-- `if ((v & FF(b)) != FF(b)) ret++;`
abbrev pub bump_partial : ℕ → ℕ → ℕ → ℕ
bump_partial v b ret = if bit_and v (ff b) != ff b then (ret + 1) % 2 ^ 32 else ret

unfoldable pub count_non_255_loop : ℕ → List ℕ → ℕ → ℕ
count_non_255_loop zero mem ret = ret
count_non_255_loop (suc i) mem ret =
    let v = word (take 4 mem) in
    count_non_255_loop i (drop 4 mem) (
      if v == 0xffffffff
      then ret
      else bump_partial v 3 (bump_partial v 2 (bump_partial v 1 (bump_partial v 0 ret))))

unfoldable pub count_non_255_bytes : ℕ → List ℕ → ℕ
count_non_255_bytes map_size mem = count_non_255_loop (map_size / 4) mem 0
