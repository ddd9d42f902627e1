-- ===== src/Bitmap/Counts/Whole.antt =====
-- count_bits, count_bytes and count_non_255_bytes on a whole map.
use aflgo.Common.{
  ℕ, ◌+◌, ◌*◌, ◌/◌, ◌%◌, ◌^◌, ◌<◌, ◌!=◌, List, map, sum, length, take, ◌≡◌, ap, ◌∙◌, arith,
  take_whole,
}
use aflgo.Bitmap.Memory.{IsBytes}
use aflgo.Bitmap.Counts.{count_bits, count_bytes, count_non_255_bytes}
use aflgo.Bitmap.Counts.Swar.{popcount}
use aflgo.Bitmap.Counts.Laws.{
  count, count_bits_loop_lem, count_bytes_loop_lem, count_non_255_loop_lem,
}

zero_add : (n : ℕ) → 0 + n ≡ n
zero_add n = omega arith

-- The loops walk the whole map.
walked :
    (map_size : ℕ) (mem : List ℕ)
    → map_size % 4 ≡ 0
    → length mem ≡ map_size
    → take (map_size / 4 * 4) mem ≡ mem
walked map_size mem whole size = take_whole (map_size / 4 * 4) mem (omega arith)

-- On a map of whole words with fewer than 2 ^ 27 bytes, `count_bits` returns the number of bits
-- that are set in its bytes.
pub count_bits_lem :
    (map_size : ℕ) (mem : List ℕ)
    → map_size % 4 ≡ 0
    → map_size < 2 ^ 27
    → length mem ≡ map_size
    → IsBytes mem
    → count_bits map_size mem ≡ sum (map popcount mem)
unfolding count_bits
count_bits_lem map_size mem whole small size h =
    count_bits_loop_lem (map_size / 4) mem 0 h (omega arith) (omega arith)
    ∙ zero_add _
    ∙ ap (λ l. sum (map popcount l)) (walked map_size mem whole size)

-- On a map of whole words with fewer than 2 ^ 32 bytes, `count_bytes` returns the number of bytes
-- that are not 0.
pub count_bytes_lem :
    (map_size : ℕ) (mem : List ℕ)
    → map_size % 4 ≡ 0
    → map_size < 2 ^ 32
    → length mem ≡ map_size
    → IsBytes mem
    → count_bytes map_size mem ≡ count (λ x. x != 0) mem
unfolding count_bytes
count_bytes_lem map_size mem whole small size h =
    count_bytes_loop_lem (map_size / 4) mem 0 h (omega arith) (omega arith)
    ∙ zero_add _
    ∙ ap (count (λ x. x != 0)) (walked map_size mem whole size)

-- On a map of whole words with fewer than 2 ^ 32 bytes, `count_non_255_bytes` returns the number of
-- bytes that are not 255.
pub count_non_255_bytes_lem :
    (map_size : ℕ) (mem : List ℕ)
    → map_size % 4 ≡ 0
    → map_size < 2 ^ 32
    → length mem ≡ map_size
    → IsBytes mem
    → count_non_255_bytes map_size mem ≡ count (λ x. x != 255) mem
unfolding count_non_255_bytes
count_non_255_bytes_lem map_size mem whole small size h =
    count_non_255_loop_lem (map_size / 4) mem 0 h (omega arith) (omega arith)
    ∙ zero_add _
    ∙ ap (count (λ x. x != 255)) (walked map_size mem whole size)
