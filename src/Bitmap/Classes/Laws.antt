-- ===== src/Bitmap/Classes/Laws.antt =====
-- The word loops of `Bitmap.Classes` act on each byte of the map.
use aflgo.Common.{
  ℕ, zero, suc, ◌+◌, ◌*◌, ◌%◌, ◌^◌, ◌<◌, ◌≤◌, ◌==◌, if◌then◌else◌, bit_or, ◌&&◌, ltb, leb,
  replicate, List, [], ◌∷◌, ◌++◌, map, take, drop, length, ◌≡◌, refl, sym, ap, ap₂, ◌∙◌, arith,
  Bool-cases, inl, inr, length-take, length-drop, take-All, drop-All, map_prefix, map_prefix-word,
  ◌!=◌,
}
use aflgo.Bits.Fields.{bit_or_fields}
use aflgo.Bits.Test.{bit_or-zero, zero-bit_or}
use aflgo.Bitmap.Memory.{word, bytes, IsByte, IsBytes}
use aflgo.Bitmap.Classes.{
  simplify_lookup, count_class_lookup8, store, init_row, init_rows, init_count_class16,
  lookup_halves, classify_loop, simplify_loop,
}

pub count_class_lookup8-lt : (c : ℕ) → count_class_lookup8 c < 256
unfolding count_class_lookup8
count_class_lookup8-lt c = ground arith

-- The value that belongs at index `b1 * 256 + b2`.
abbrev pub pair_class : ℕ → ℕ → ℕ
pair_class b1 b2 = count_class_lookup8 b1 * 256 + count_class_lookup8 b2

packed :
    (b1 b2 : ℕ)
    → bit_or (count_class_lookup8 b1 * 2 ^ 8) (count_class_lookup8 b2) % 2 ^ 16 ≡ pair_class b1 b2
packed b1 b2 =
    sum_of (count_class_lookup8 b1) (count_class_lookup8 b2) (count_class_lookup8-lt b1)
      (count_class_lookup8-lt b2)
  where
    sum_of : (x y : ℕ) → x < 256 → y < 256 → bit_or (x * 2 ^ 8) y % 2 ^ 16 ≡ x * 256 + y
    sum_of x y p q =
        ground (arith, bit_or_fields 8 0 x y 0 (omega arith) q, bit_or-zero x, zero-bit_or y)

-- The table after one round of the inner loop.
abbrev stored : ℕ → ℕ → (ℕ → ℕ) → ℕ → ℕ
stored b1 b2 table =
    store table (b1 * 2 ^ 8 + b2) (bit_or (count_class_lookup8 b1 * 2 ^ 8) (count_class_lookup8 b2))

init_row_lem :
    (n b1 b2 : ℕ) (table : ℕ → ℕ) (c1 c2 : ℕ)
    → b2 + n ≤ 256
    → c2 < 256
    → init_row n b1 b2 table (c1 * 256 + c2) ≡ (
        if c1 == b1 && leb b2 c2 && ltb c2 (b2 + n)
        then pair_class c1 c2
        else table (c1 * 256 + c2))
unfolding init_row
init_row_lem zero b1 b2 table c1 c2 h k = ground arith
init_row_lem (suc n) b1 b2 table c1 c2 h k =
    ground (arith, init_row_lem n b1 (b2 + 1) (stored b1 b2 table) c1 c2, packed b1 b2)

init_rows_lem :
    (n b1 : ℕ) (table : ℕ → ℕ) (c1 c2 : ℕ)
    → c2 < 256
    → init_rows n b1 table (c1 * 256 + c2)
      ≡ (if leb b1 c1 && ltb c1 (b1 + n) then pair_class c1 c2 else table (c1 * 256 + c2))
unfolding init_rows
init_rows_lem zero b1 table c1 c2 k = ground arith
init_rows_lem (suc n) b1 table c1 c2 k = ground (
  arith,
  init_rows_lem n (b1 + 1) (init_row 256 b1 0 table) c1 c2,
  init_row_lem 256 b1 0 table c1 c2 (omega arith),
)

-- Every entry of the 16-bit table, at an index of two bytes, classifies both bytes of its index.
pub init_count_class16_lem :
    (c1 c2 : ℕ) → c1 < 256 → c2 < 256 → init_count_class16 (c1 * 256 + c2) ≡ pair_class c1 c2
unfolding init_count_class16
init_count_class16_lem c1 c2 p q = ground (arith, init_rows_lem 256 0 (λ i. 0) c1 c2)

-- One half of a word.
half_lem :
    (x y : ℕ)
    → IsByte x
    → IsByte y
    → bytes 2 (init_count_class16 (word (x ∷ y ∷ [])))
      ≡ count_class_lookup8 x ∷ count_class_lookup8 y ∷ []
half_lem x y p q =
    rw (index x y, init_count_class16_lem y x q p)
      (ap₂ (λ a b. a ∷ b ∷ []) (omega (arith, count_class_lookup8-lt x))
        (omega (arith, count_class_lookup8-lt x, count_class_lookup8-lt y)))
  where
    index : (x y : ℕ) → x + 256 * (y + 256 * 0) ≡ y * 256 + x
    index x y = omega arith

lookup_halves_lem :
    (n : ℕ) (mem : List ℕ)
    → IsBytes mem
    → length mem ≡ 2 * n
    → lookup_halves init_count_class16 n mem ≡ map count_class_lookup8 mem
lookup_halves_lem zero [] h e = refl
lookup_halves_lem zero (x ∷ mem) h e = absurd (omega arith)
lookup_halves_lem (suc n) [] h e = absurd (omega arith)
lookup_halves_lem (suc n) (x ∷ []) h e = absurd (omega arith)
lookup_halves_lem (suc n) (x ∷ y ∷ mem) h e =
    ap₂ ◌++◌ (half_lem x y h.0 h.1.0) (lookup_halves_lem n mem h.1.1 (omega arith))

-- A word of zeros, which the loops skip or fill.
zeros_of_word : (mem : List ℕ) → word mem ≡ 0 → mem ≡ replicate (length mem) 0
zeros_of_word [] e = refl
zeros_of_word (x ∷ mem) e = ap₂ ◌∷◌ (omega arith) (zeros_of_word mem (omega arith))

map-zeros : (f : ℕ → ℕ) (n : ℕ) → map f (replicate n 0) ≡ replicate n (f 0)
map-zeros f zero = refl
map-zeros f (suc n) = ap (λ l. f 0 ∷ l) (map-zeros f n)

map-zero_word : (f : ℕ → ℕ) (mem : List ℕ) → word mem ≡ 0 → map f mem ≡ replicate (length mem) (f 0)
map-zero_word f mem e = ap (map f) (zeros_of_word mem e) ∙ map-zeros f (length mem)

-- `classify_counts` with the table that `init_count_class16` fills classifies each byte of the
-- words that it walks, and leaves the bytes behind them alone.
pub classify_loop_lem :
    (halves i : ℕ) (mem : List ℕ)
    → IsBytes mem
    → i * (2 * halves) ≤ length mem
    → classify_loop init_count_class16 halves i mem
      ≡ map_prefix count_class_lookup8 (i * (2 * halves)) mem
unfolding classify_loop count_class_lookup8
classify_loop_lem halves zero mem h e = rw (zero_mul (2 * halves))
  where
    zero_mul : (n : ℕ) → 0 * n ≡ 0
    zero_mul n = omega arith
classify_loop_lem halves (suc i) mem h e =
    let w : ℕ = 2 * halves in
    let full : length (take w mem) ≡ w = omega (arith, length-take w mem) in
    let rest : i * w ≤ length (drop w mem) = omega (arith, length-drop w mem) in
    rw (classify_loop_lem halves i (drop w mem) (drop-All IsByte w mem h) rest) (
      ap (λ l. l ++ map_prefix count_class_lookup8 (i * w) (drop w mem))
        (chunk (take w mem) (take-All IsByte w mem h) full)
      ∙ map_prefix-word count_class_lookup8 w i mem)
  where
    chunk :
        (m : List ℕ)
        → IsBytes m
        → length m ≡ 2 * halves
        → (if word m != 0 then lookup_halves init_count_class16 halves m else m)
          ≡ map count_class_lookup8 m
    chunk m k full = elim (Bool-cases (word m != 0)) [
      | inl hit ↦ rw hit (lookup_halves_lem halves m k full)
      | inr miss ↦ rw miss (
          zeros_of_word m (ground arith) ∙ sym (map-zero_word count_class_lookup8 m (ground arith)))
    ]

-- Both flavours of `simplify_trace`.
pub simplify_loop_lem :
    (w ones i : ℕ) (mem : List ℕ)
    → bytes w ones ≡ replicate w 1
    → i * w ≤ length mem
    → simplify_loop w ones i mem ≡ map_prefix simplify_lookup (i * w) mem
unfolding simplify_loop
simplify_loop_lem w ones zero mem o e = rw (zero_mul w)
  where
    zero_mul : (n : ℕ) → 0 * n ≡ 0
    zero_mul n = omega arith
simplify_loop_lem w ones (suc i) mem o e =
    let full : length (take w mem) ≡ w = omega (arith, length-take w mem) in
    let rest : i * w ≤ length (drop w mem) = omega (arith, length-drop w mem) in
    rw (simplify_loop_lem w ones i (drop w mem) o rest) (
      ap (λ l. l ++ map_prefix simplify_lookup (i * w) (drop w mem)) (chunk (take w mem) full)
      ∙ map_prefix-word simplify_lookup w i mem)
  where
    chunk :
        (m : List ℕ)
        → length m ≡ w
        → (if word m != 0 then map simplify_lookup m else bytes w ones) ≡ map simplify_lookup m
    chunk m full = elim (Bool-cases (word m != 0)) [
      | inl hit ↦ rw hit
      | inr miss ↦ rw miss (
          o
          ∙ ap (λ n. replicate n 1) (sym full)
          ∙ sym (map-zero_word simplify_lookup m (ground arith)))
    ]
