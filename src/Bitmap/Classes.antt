-- ===== src/Bitmap/Classes.antt =====
-- Hit counts of afl-2.57b/afl-fuzz.c: count_class_lookup8, init_count_class16, classify_counts,
-- simplify_lookup and simplify_trace. `w` is the bytes of a word, as in `Bitmap.Virgin`.
pub mod Laws
pub mod Whole
use aflgo.Common.{
  ℕ, zero, suc, ◌+◌, ◌*◌, ◌/◌, ◌%◌, ◌^◌, ◌!=◌, ◌==◌, leb, if◌then◌else◌, bit_or, List, [], ◌∷◌,
  ◌++◌, map, take, drop,
}
use aflgo.Bitmap.Memory.{word, bytes}

-- The table `simplify_lookup`.
abbrev pub simplify_lookup : ℕ → ℕ
simplify_lookup c = if c == 0 then 1 else 128

-- The table `count_class_lookup8`.
unfoldable pub count_class_lookup8 : ℕ → ℕ
count_class_lookup8 c =
    if leb c 2
    then c
    else if leb c 3
    then 4
    else if leb c 7
    then 8
    else if leb c 15
    then 16
    else if leb c 31
    then 32
    else if leb c 127
    then 64
    else 128

-- A write to a `u16` table.
abbrev pub store : (ℕ → ℕ) → ℕ → ℕ → ℕ → ℕ
store table i v j = if i == j then v % 2 ^ 16 else table j

-- The inner loop of `init_count_class16`, with `n` rounds left.
unfoldable pub init_row : ℕ → ℕ → ℕ → (ℕ → ℕ) → ℕ → ℕ
init_row zero b1 b2 table = table
init_row (suc n) b1 b2 table = init_row n b1 (b2 + 1) (
    store table (b1 * 2 ^ 8 + b2)
      (bit_or (count_class_lookup8 b1 * 2 ^ 8) (count_class_lookup8 b2)))

-- The outer loop, with `n` rounds left.
unfoldable pub init_rows : ℕ → ℕ → (ℕ → ℕ) → ℕ → ℕ
init_rows zero b1 table = table
init_rows (suc n) b1 table = init_rows n (b1 + 1) (init_row 256 b1 0 table)

-- `count_class_lookup16` after `init_count_class16`; it starts as zeros.
unfoldable pub init_count_class16 : ℕ → ℕ
init_count_class16 = init_rows 256 0 (λ i. 0)

-- `mem16[k] = count_class_lookup16[mem16[k]]` for the `n` halves of a word.
abbrev pub lookup_halves : (ℕ → ℕ) → ℕ → List ℕ → List ℕ
lookup_halves table zero mem = mem
lookup_halves table (suc n) mem =
    bytes 2 (table (word (take 2 mem))) ++ lookup_halves table n (drop 2 mem)

-- The `while (i--)` loop of `classify_counts`, for words of `2 * halves` bytes.
unfoldable pub classify_loop : (ℕ → ℕ) → ℕ → ℕ → List ℕ → List ℕ
classify_loop table halves zero mem = mem
classify_loop table halves (suc i) mem =
    let w = 2 * halves in
    let m = take w mem in
    (if word m != 0 then lookup_halves table halves m else m)
    ++ classify_loop table halves i (drop w mem)

unfoldable pub classify_counts : ℕ → ℕ → List ℕ → List ℕ
classify_counts map_size w mem = classify_loop init_count_class16 (w / 2) (map_size / w) mem

-- The `while (i--)` loop of `simplify_trace`; `ones` is the word 0x0101….
unfoldable pub simplify_loop : ℕ → ℕ → ℕ → List ℕ → List ℕ
simplify_loop w ones zero mem = mem
simplify_loop w ones (suc i) mem =
    let m = take w mem in
    (if word m != 0 then map simplify_lookup m else bytes w ones)
    ++ simplify_loop w ones i (drop w mem)

-- The 64-bit flavour.
unfoldable pub simplify_trace : ℕ → List ℕ → List ℕ
simplify_trace map_size mem = simplify_loop 8 0x0101010101010101 (map_size / 8) mem

-- The 32-bit flavour.
unfoldable pub simplify_trace32 : ℕ → List ℕ → List ℕ
simplify_trace32 map_size mem = simplify_loop 4 0x01010101 (map_size / 4) mem
