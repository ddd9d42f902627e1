-- ===== src/Novelty/Laws.antt =====
-- `has_new_bits` on a trace laid out as the target leaves it.
use aflgo.Common.{
  ℕ, zero, suc, ◌+◌, ◌%◌, ◌^◌, ◌<◌, ◌≡◌, refl, ap, sym, ◌∙◌, arith, ◌!=◌, ◌&&◌, if◌then◌else◌, Bool,
  max, List, [], ◌∷◌, ◌++◌, length, length-append, take, drop, append-All, drop-add, take_whole,
}
use aflgo.Doubles.{Doubles}
use aflgo.Bitmap.Memory.{IsByte, IsBytes, bytes, word-bytes, length-bytes, bytes-IsBytes}
use aflgo.Bitmap.Virgin.Reference.{byte_novelty, novelty, wipe, wiped}
use aflgo.Bitmap.Virgin.Loop.{novelty-nil}
use aflgo.Bitmap.Virgin.Whole.{has_new_bits_map_lem}
use aflgo.Novelty.{read_distance, has_new_bits}

drop-append : (n : ℕ) (xs ys : List ℕ) → length xs ≡ n → drop n (xs ++ ys) ≡ ys
drop-append zero [] ys e = refl
drop-append zero (x ∷ xs) ys e = absurd (omega arith)
drop-append (suc n) [] ys e = absurd (omega arith)
drop-append (suc n) (x ∷ xs) ys e = drop-append n xs ys (omega arith)

take-append : (n : ℕ) (xs ys : List ℕ) → length xs ≡ n → take n (xs ++ ys) ≡ xs
take-append zero [] ys e = refl
take-append zero (x ∷ xs) ys e = absurd (omega arith)
take-append (suc n) [] ys e = absurd (omega arith)
take-append (suc n) (x ∷ xs) ys e = ap (λ l. x ∷ l) (take-append n xs ys (omega arith))

-- Bytes behind the map do not count.
novelty-append :
    (cur vir rest : List ℕ) → length cur ≡ length vir → novelty (cur ++ rest) vir ≡ novelty cur vir
novelty-append [] [] rest e = novelty-nil rest
novelty-append [] (v ∷ vir) rest e = absurd (omega arith)
novelty-append (c ∷ cur) [] rest e = absurd (omega arith)
novelty-append (c ∷ cur) (v ∷ vir) rest e =
    ap (max (byte_novelty c v)) (novelty-append cur vir rest (omega arith))

wiped-append :
    (cur vir rest : List ℕ) → length cur ≡ length vir → wiped (cur ++ rest) vir ≡ wiped cur vir
wiped-append [] [] [] e = refl
wiped-append [] [] (x ∷ rest) e = refl
wiped-append [] (v ∷ vir) rest e = absurd (omega arith)
wiped-append (c ∷ cur) [] rest e = absurd (omega arith)
wiped-append (c ∷ cur) (v ∷ vir) rest e =
    ap (λ l. wipe c v ∷ l) (wiped-append cur vir rest (omega arith))

-- The trace: the hit counts, and two words.
abbrev pub laid : ℕ → List ℕ → ℕ → ℕ → List ℕ
laid w hits total count = hits ++ (bytes w total ++ bytes w count)

module _ {D : Type 0} (d : Doubles D) where
  read_distance_lem :
      (w : ℕ) (hits : List ℕ) (total count : ℕ)
      → total < 256 ^ w
      → count < 256 ^ w
      → read_distance d (length hits) w (laid w hits total count)
        ≡ (if count != 0 then d.ratio total count else d.minus_one)
  unfolding read_distance
  read_distance_lem w hits total count p q =
      let first : take w (drop (length hits) (laid w hits total count)) ≡ bytes w total =
        ap (take w) (drop-append (length hits) hits (bytes w total ++ bytes w count) refl)
        ∙ take-append w (bytes w total) (bytes w count) (length-bytes w total) in
      let second : take w (drop (length hits + w) (laid w hits total count)) ≡ bytes w count =
        ap (take w) (
          drop-add (length hits) w (laid w hits total count)
          ∙ ap (drop w) (drop-append (length hits) hits (bytes w total ++ bytes w count) refl)
          ∙ drop-append w (bytes w total) (bytes w count) (length-bytes w total))
        ∙ take_whole w (bytes w count) (omega (arith, length-bytes w count)) in
      rw (first, second, word-bytes w total p, word-bytes w count q, read_distance) refl

  -- On a map of whole words with the total and the count of the distances behind it,
  -- `has_new_bits` returns the highest novelty of a byte of the map, takes the bits of the map out
  -- of the virgin map, sets the distance to total / count, or to -1 for a count of 0, and raises
  -- `bitmap_changed` exactly if the result is not 0 and the virgin map is the main one.
  pub has_new_bits_lem :
      (w : ℕ) (hits virgin : List ℕ) (total count : ℕ) (main_map : Bool) (bitmap_changed : ℕ)
      → 0 < w
      → length hits % w ≡ 0
      → length virgin ≡ length hits
      → IsBytes hits
      → IsBytes virgin
      → total < 256 ^ w
      → count < 256 ^ w
      → has_new_bits d (length hits) w (laid w hits total count) virgin main_map bitmap_changed
        ≡ record {
          ret = novelty hits virgin;
          virgin_map = wiped hits virgin;
          cur_distance = (if count != 0 then d.ratio total count else d.minus_one);
          bitmap_changed = (if novelty hits virgin != 0 && main_map then 1 else bitmap_changed);
        }
  unfolding has_new_bits
  has_new_bits_lem w hits virgin total count main_map bitmap_changed p whole size hh hv ht hc =
      let rest = bytes w total ++ bytes w count in
      let all : IsBytes (laid w hits total count) = append-All IsByte hits rest hh (
        append-All IsByte (bytes w total) (bytes w count) (bytes-IsBytes w total)
          (bytes-IsBytes w count)) in
      rw
        (
          has_new_bits_map_lem (length hits) w (laid w hits total count) virgin p whole size
              (omega (arith, length-append hits rest)) all hv,
          read_distance_lem w hits total count ht hc,
          novelty-append hits virgin rest (sym size),
          wiped-append hits virgin rest (sym size),
        )
        refl
