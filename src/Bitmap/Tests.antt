-- ===== src/Bitmap/Tests.antt =====
-- The coverage maps on small concrete maps.
use aflgo.Common.{
  ℕ, ◌*◌, ◌/◌, ◌!=◌, ltb, ◌&&◌, if◌then◌else◌, map, sum, get_or, replicate, List, [], ◌∷◌, ◌≡◌,
  refl, arith,
}
use aflgo.Bitmap.Memory.{IsBytes}
use aflgo.Bitmap.Virgin.{has_new_bits_map}
use aflgo.Bitmap.Virgin.Reference.{novelty, wiped}
use aflgo.Bitmap.Virgin.Whole.{has_new_bits_map_lem, has_new_bits_map-again}
use aflgo.Bitmap.Classes.{
  simplify_lookup, count_class_lookup8, classify_counts, simplify_trace, simplify_trace32,
}
use aflgo.Bitmap.Classes.Whole.{classify_counts_lem, simplify_trace_lem}
use aflgo.Bitmap.Counts.{count_bits}
use aflgo.Bitmap.Counts.Swar.{popcount}
use aflgo.Bitmap.Counts.Whole.{count_bits_lem}
use aflgo.Bitmap.Minimize.{minimize_bits}
use aflgo.Bitmap.Minimize.Laws.{bit_at}
use aflgo.Bitmap.Minimize.Whole.{minimize_bits_lem}

-- One word of 64 bits.
abbrev hits : List ℕ
hits = 0 ∷ 1 ∷ 0 ∷ 5 ∷ 0 ∷ 0 ∷ 200 ∷ 0 ∷ []

abbrev untouched : List ℕ
untouched = 255 ∷ 254 ∷ 255 ∷ 251 ∷ 255 ∷ 255 ∷ 255 ∷ 255 ∷ []

hits-IsBytes : IsBytes hits
hits-IsBytes = (
  omega arith,
  (
    omega arith,
    (omega arith, (omega arith, (omega arith, (omega arith, (omega arith, (omega arith, tt)))))),
  ),
)

untouched-IsBytes : IsBytes untouched
untouched-IsBytes = (
  omega arith,
  (
    omega arith,
    (omega arith, (omega arith, (omega arith, (omega arith, (omega arith, (omega arith, tt)))))),
  ),
)

has_new_bits_map_example :
    has_new_bits_map 8 8 hits untouched ≡ (novelty hits untouched, wiped hits untouched)
has_new_bits_map_example =
    has_new_bits_map_lem 8 8 hits untouched (omega arith) refl refl (omega arith) hits-IsBytes
      untouched-IsBytes

new_tuple : novelty hits untouched ≡ 2
new_tuple = refl

has_new_bits_map-again_example :
    has_new_bits_map 8 4 hits (has_new_bits_map 8 4 hits untouched).1
    ≡ (0, (has_new_bits_map 8 4 hits untouched).1)
has_new_bits_map-again_example =
    has_new_bits_map-again 8 4 hits untouched (omega arith) refl refl refl hits-IsBytes
      untouched-IsBytes

count_bits_example : count_bits 8 hits ≡ sum (map popcount hits)
count_bits_example = count_bits_lem 8 hits refl (omega arith) refl hits-IsBytes

classify_counts_example : classify_counts 8 (2 * 4) hits ≡ map count_class_lookup8 hits
classify_counts_example = classify_counts_lem 8 4 hits (omega arith) refl refl hits-IsBytes

simplify_trace_example :
    (simplify_trace 8 hits ≡ map simplify_lookup hits)
    × (simplify_trace32 8 hits ≡ map simplify_lookup hits)
simplify_trace_example = simplify_trace_lem 8 hits refl refl

minimize_bits_example :
    bit_at (minimize_bits 8 (replicate (8 / 8) 0) hits) 3
    ≡ (if ltb 3 8 && get_or hits 3 0 != 0 then 1 else 0)
minimize_bits_example = minimize_bits_lem 8 3 hits refl
