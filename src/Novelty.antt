-- ===== src/Novelty.antt =====
-- The whole of `has_new_bits` of afl-2.57b/afl-fuzz.c: the distance behind the map, the loop over
-- the map, and the flag `bitmap_changed`. `w` is the bytes of a word, as in `Bitmap.Virgin`.
pub mod Laws
pub mod Tests
use aflgo.Common.{ℕ, ◌+◌, ◌!=◌, ◌&&◌, if◌then◌else◌, Bool, List, take, drop}
use aflgo.Doubles.{Doubles}
use aflgo.Bitmap.Memory.{word}
use aflgo.Bitmap.Virgin.{has_new_bits_map}

-- What the call returns, and what it leaves in the virgin map, cur_distance and bitmap_changed.
pub record Verdict (D : Type 0) : Type 0 where
  pub ret : ℕ
  pub virgin_map : List ℕ
  pub cur_distance : D
  pub bitmap_changed : ℕ

module _ {D : Type 0} (d : Doubles D) where
  -- `total_distance` and `total_count` stand behind the map.
  unfoldable pub read_distance : ℕ → ℕ → List ℕ → D
  read_distance map_size w trace =
      let total_distance = word (take w (drop map_size trace)) in
      let total_count = word (take w (drop (map_size + w) trace)) in
      if total_count != 0 then d.ratio total_distance total_count else d.minus_one

  -- `main_map` is `virgin_map == virgin_bits`.
  unfoldable pub has_new_bits : ℕ → ℕ → List ℕ → List ℕ → Bool → ℕ → Verdict D
  has_new_bits map_size w trace virgin main_map bitmap_changed =
      let out = has_new_bits_map map_size w trace virgin in
      record {
        ret = out.0;
        virgin_map = out.1;
        cur_distance = read_distance map_size w trace;
        bitmap_changed = (if out.0 != 0 && main_map then 1 else bitmap_changed);
      }
