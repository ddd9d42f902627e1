-- ===== src/Bitmap/Virgin.antt =====
-- `has_new_bits` of afl-2.57b/afl-fuzz.c: the word loop over trace_bits and a virgin map. `w` is
-- the bytes of a word, 8 under WORD_SIZE_64 and 4 otherwise, and the loop runs map_size / w rounds.
pub mod Chunk
pub mod Loop
pub mod Whole
pub mod Reference
use aflgo.Common.{
  ℕ, zero, suc, ◌/◌, ◌!=◌, ◌==◌, ltb, if◌then◌else◌, bit_and, Bool, true, false, ◌&&◌, ◌||◌, List,
  [], ◌∷◌, ◌++◌, take, drop,
}
use aflgo.Bitmap.Memory.{word, bytes, complement}

-- `(cur[0] && vir[0] == 0xff) || ...`
abbrev pub any_pristine : List ℕ → List ℕ → Bool
any_pristine [] vir = false
any_pristine (c ∷ cur) [] = false
any_pristine (c ∷ cur) (v ∷ vir) = c != 0 && v == 255 || any_pristine cur vir

-- `*current && (*current & *virgin)`
abbrev pub overlaps : List ℕ → List ℕ → Bool
overlaps cur vir = word cur != 0 && bit_and (word cur) (word vir) != 0

-- `ret` after a word that overlaps.
abbrev pub raise : List ℕ → List ℕ → ℕ → ℕ
raise cur vir ret = if ltb ret 2 then (if any_pristine cur vir then 2 else 1) else ret

-- `*virgin &= ~*current`
abbrev pub clear_word : ℕ → List ℕ → List ℕ → List ℕ
clear_word w cur vir = bytes w (bit_and (word vir) (complement w (word cur)))

-- The `while (i--)` loop: the final `ret`, and the virgin map.
unfoldable pub has_new_bits_loop : ℕ → ℕ → List ℕ → List ℕ → ℕ → ℕ × List ℕ
has_new_bits_loop w zero cur vir ret = (ret, vir)
has_new_bits_loop w (suc i) cur vir ret =
    let c = take w cur in
    let v = take w vir in
    let hit = overlaps c v in
    let rest =
      has_new_bits_loop w i (drop w cur) (drop w vir) (if hit then raise c v ret else ret) in
    (rest.0, (if hit then clear_word w c v else v) ++ rest.1)

-- The map part of `has_new_bits`: what it returns, and the virgin map that it leaves.
unfoldable pub has_new_bits_map : ℕ → ℕ → List ℕ → List ℕ → ℕ × List ℕ
has_new_bits_map map_size w trace virgin = has_new_bits_loop w (map_size / w) trace virgin 0
