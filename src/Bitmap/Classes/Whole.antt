-- ===== src/Bitmap/Classes/Whole.antt =====
-- classify_counts and both flavours of simplify_trace on a whole map.
use aflgo.Common.{
  ℕ, ◌*◌, ◌/◌, ◌%◌, ◌<◌, List, map, length, ◌≡◌, refl, ap, ◌∙◌, arith, map_prefix_all, map_prefix,
}
use aflgo.Bitmap.Memory.{IsBytes}
use aflgo.Bitmap.Classes.{
  simplify_lookup, count_class_lookup8, classify_counts, simplify_trace, simplify_trace32,
}
use aflgo.Bitmap.Classes.Laws.{classify_loop_lem, simplify_loop_lem}

whole_halves : (n h : ℕ) → 0 < h → n % (2 * h) ≡ 0 → (n / (2 * h) * (2 * h) ≡ n) × (2 * h / 2 ≡ h)
whole_halves n h p e = (grind arith, omega arith)

-- With words of `2 * halves` bytes, on a map of whole words, `classify_counts` replaces each byte
-- by its class in `count_class_lookup8`.
pub classify_counts_lem :
    (map_size halves : ℕ) (mem : List ℕ)
    → 0 < halves
    → map_size % (2 * halves) ≡ 0
    → length mem ≡ map_size
    → IsBytes mem
    → classify_counts map_size (2 * halves) mem ≡ map count_class_lookup8 mem
unfolding classify_counts
classify_counts_lem map_size halves mem p whole size h =
    let k = whole_halves map_size halves p whole in
    rw k.1 (
      classify_loop_lem halves (map_size / (2 * halves)) mem h (omega (arith, k.0))
      ∙ ap (λ n. map_prefix count_class_lookup8 n mem) k.0
      ∙ map_prefix_all count_class_lookup8 map_size mem size)

-- On a map of whole 64-bit words, `simplify_trace` in its 64-bit and its 32-bit flavour writes 1
-- for each byte that is 0 and 128 for every other.
pub simplify_trace_lem :
    (map_size : ℕ) (mem : List ℕ)
    → map_size % 8 ≡ 0
    → length mem ≡ map_size
    → (simplify_trace map_size mem ≡ map simplify_lookup mem)
      × (simplify_trace32 map_size mem ≡ map simplify_lookup mem)
unfolding simplify_trace simplify_trace32
simplify_trace_lem map_size mem whole size = (
  simplify_loop_lem 8 0x0101010101010101 (map_size / 8) mem refl (omega arith)
      ∙ ap (λ n. map_prefix simplify_lookup n mem) (eight map_size whole)
      ∙ map_prefix_all simplify_lookup map_size mem size,
  simplify_loop_lem 4 0x01010101 (map_size / 4) mem refl (omega arith)
      ∙ ap (λ n. map_prefix simplify_lookup n mem) (four map_size whole)
      ∙ map_prefix_all simplify_lookup map_size mem size,
)
  where
    eight : (n : ℕ) → n % 8 ≡ 0 → n / 8 * 8 ≡ n
    eight n e = omega arith

    four : (n : ℕ) → n % 8 ≡ 0 → n / 4 * 4 ≡ n
    four n e = omega arith
