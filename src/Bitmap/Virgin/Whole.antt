-- ===== src/Bitmap/Virgin/Whole.antt =====
-- `has_new_bits` on a whole map, and on the same trace a second time.
use aflgo.Common.{
  ℕ, ◌-◌, ◌*◌, ◌/◌, ◌%◌, ◌<◌, ◌≤◌, bit_and, List, [], ◌∷◌, length, ◌≡◌, refl, sym, ap₂, ◌∙◌, arith,
  length-zip_with,
}
use native.Mathlib.Decide.{dec_lt}
use aflgo.Bits.Test.{
  test_ext, test-bit_and, test-complement, test_beyond, test-zero, test-le-one, bit_and-le,
}
use aflgo.Bitmap.Memory.{IsBytes}
use aflgo.Bitmap.Virgin.{has_new_bits_map}
use aflgo.Bitmap.Virgin.Reference.{byte_novelty, novelty, wipe, wiped}
use aflgo.Bitmap.Virgin.Chunk.{wiped-IsBytes, wipe-IsByte, wipe_disjoint}
use aflgo.Bitmap.Virgin.Loop.{has_new_bits_loop_lem}

whole_words : (w n : ℕ) → 0 < w → n % w ≡ 0 → n / w * w ≡ n
whole_words w n p e = grind arith

-- On a map of whole words, `has_new_bits` computes what the byte-wise reference says: it returns
-- the highest novelty of a byte, and takes the bits of the trace out of the virgin map.
pub has_new_bits_map_lem :
    (map_size w : ℕ) (trace virgin : List ℕ)
    → 0 < w
    → map_size % w ≡ 0
    → length virgin ≡ map_size
    → map_size ≤ length trace
    → IsBytes trace
    → IsBytes virgin
    → has_new_bits_map map_size w trace virgin ≡ (novelty trace virgin, wiped trace virgin)
unfolding has_new_bits_map
has_new_bits_map_lem map_size w trace virgin p whole size fits ht hv =
    has_new_bits_loop_lem w (map_size / w) trace virgin 0 ht hv
      (size ∙ sym (whole_words w map_size p whole)) (omega arith) (omega arith)
    ∙ ap₂ (λ a b. (a, b)) (omega arith) refl

-- A bit of the trace is gone.
wipe_apart : (c v : ℕ) → c < 256 → v < 256 → bit_and c (wipe c v) ≡ 0
wipe_apart c v hc hv = test_ext (bit_and c (wipe c v)) 0 (λ k. elim (dec_lt k 8) [
  | yes p ↦ omega (
    arith,
    test-bit_and k c (wipe c v),
    test-bit_and k v (255 - c),
    test-complement 8 k c p hc,
    test-zero k,
    test-le-one k c,
  )
  | no p ↦
      omega (arith, test-bit_and k c (wipe c v), test_beyond 8 k c hc (omega arith), test-zero k)
])

byte_seen : (c v : ℕ) → c < 256 → v < 256 → byte_novelty c (wipe c v) ≡ 0
byte_seen c v hc hv = ground (arith, wipe_apart c v hc hv, bit_and-le v (255 - c))

pub novelty-wiped : (cur vir : List ℕ) → IsBytes cur → IsBytes vir → novelty cur (wiped cur vir) ≡ 0
novelty-wiped [] vir hc hv = refl
novelty-wiped (c ∷ cur) [] hc hv = refl
novelty-wiped (c ∷ cur) (v ∷ vir) hc hv =
    omega (arith, byte_seen c v hc.0 hv.0, novelty-wiped cur vir hc.1 hv.1)

wipe_twice :
    (cur vir : List ℕ) → IsBytes cur → IsBytes vir → wiped cur (wiped cur vir) ≡ wiped cur vir
wipe_twice [] vir hc hv = refl
wipe_twice (c ∷ cur) [] hc hv = refl
wipe_twice (c ∷ cur) (v ∷ vir) hc hv =
    ap₂ ◌∷◌ (wipe_disjoint c (wipe c v) hc.0 (wipe-IsByte c v) (wipe_apart c v hc.0 hv.0))
      (wipe_twice cur vir hc.1 hv.1)

-- On a map of whole words, the same trace is new at most once: with the virgin map that the first
-- call leaves, a second call returns 0 and changes nothing.
pub has_new_bits_map-again :
    (map_size w : ℕ) (trace virgin : List ℕ)
    → 0 < w
    → map_size % w ≡ 0
    → length virgin ≡ map_size
    → length trace ≡ map_size
    → IsBytes trace
    → IsBytes virgin
    → let left = (has_new_bits_map map_size w trace virgin).1 in
      has_new_bits_map map_size w trace left ≡ (0, left)
has_new_bits_map-again map_size w trace virgin p whole size fits ht hv =
    let first = has_new_bits_map_lem map_size w trace virgin p whole size (omega arith) ht hv in
    rw first (
      has_new_bits_map_lem map_size w trace (wiped trace virgin) p whole
        (omega (arith, length-zip_with wipe trace virgin)) (omega arith) ht
        (wiped-IsBytes trace virgin)
      ∙ ap₂ (λ a b. (a, b)) (novelty-wiped trace virgin ht hv) (wipe_twice trace virgin ht hv))
