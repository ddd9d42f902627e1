-- ===== src/Novelty/Tests.antt =====
-- `has_new_bits` on a map of one word, with a distance behind it.
use aflgo.Common.{ℕ, ◌!=◌, ◌&&◌, if◌then◌else◌, true, List, [], ◌∷◌, ◌≡◌, refl, arith}
use aflgo.Doubles.{Doubles}
use aflgo.Bitmap.Memory.{IsBytes}
use aflgo.Bitmap.Virgin.Reference.{novelty, wiped}
use aflgo.Novelty.{has_new_bits}
use aflgo.Novelty.Laws.{laid, has_new_bits_lem}

-- A distance as the pair that it is the ratio of.
abbrev ratios : Doubles (ℕ × ℕ)
ratios = record { zero = (0, 1); minus_one = (0, 0); ratio = λ a b. (a, b); gt = λ a b. true }

abbrev seen : List ℕ
seen = 1 ∷ 0 ∷ 0 ∷ 4 ∷ 0 ∷ 0 ∷ 0 ∷ 0 ∷ []

abbrev fresh : List ℕ
fresh = 255 ∷ 255 ∷ 255 ∷ 251 ∷ 255 ∷ 255 ∷ 255 ∷ 255 ∷ []

seen-IsBytes : IsBytes seen
seen-IsBytes = omega arith

fresh-IsBytes : IsBytes fresh
fresh-IsBytes = omega arith

has_new_bits_example : has_new_bits ratios 8 8 (laid 8 seen 700 20) fresh true 0 ≡ record {
  ret = novelty seen fresh;
  virgin_map = wiped seen fresh;
  cur_distance = (700, 20);
  bitmap_changed = (if novelty seen fresh != 0 && true then 1 else 0);
}
has_new_bits_example =
    has_new_bits_lem ratios 8 seen fresh 700 20 true 0 (omega arith) refl refl seen-IsBytes
      fresh-IsBytes (omega arith) (omega arith)
