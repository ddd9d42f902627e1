-- ===== src/Dictionary/Auto.antt =====
-- `maybe_add_auto` of afl-2.57b/afl-fuzz.c: the dictionary that the bit flipping stage collects.
-- qsort is a parameter, and so is the number that UR returns for an eviction.
pub mod Entries
pub mod Laws
pub mod Tests
use aflgo.Common.{
  ℕ, zero, suc, ◌+◌, ◌==◌, ltb, leb, min, if◌then◌else◌, Bool, true, false, ◌&&◌, ◌||◌, Option,
  none, some, List, [], ◌∷◌, ◌++◌, length, set, take, drop,
}
use aflgo.Bitmap.Memory.{word}
use aflgo.Mutations.Arith.{swap16, swap32}
use aflgo.Stages.Interest.{any, interesting_16, interesting_32}
use aflgo.Stages.Extras.{use_auto_extras}
use aflgo.Dictionary.{between}

-- struct extra_data; its length is that of `bytes`.
pub record ExtraData : Type 0 where
  pub bytes : List ℕ
  pub hit_cnt : ℕ

pub record Autos : Type 0 where
  pub a_extras : List ExtraData
  pub auto_changed : Bool

abbrev pub max_auto_extras : ℕ
max_auto_extras = 500

abbrev pub tolower : ℕ → ℕ
tolower c = if between 65 90 c then c + 32 else c

-- `!memcmp_nocase(m1, m2, len)`, where `len` is the length of the first.
abbrev pub same_nocase : List ℕ → List ℕ → Bool
same_nocase [] m2 = true
same_nocase (x ∷ m1) [] = false
same_nocase (x ∷ m1) (y ∷ m2) = tolower x == tolower y && same_nocase m1 m2

abbrev pub is_run : ℕ → List ℕ → Bool
is_run x [] = true
is_run x (y ∷ mem) = x == y && is_run x mem

-- Runs of identical bytes.
abbrev pub identical_bytes : List ℕ → Bool
identical_bytes [] = false
identical_bytes (x ∷ mem) = is_run x mem

-- A u16 is compared with the signed table as an int, a u32 with the table cast to u32.
abbrev pub builtin_value : List ℕ → Bool
builtin_value mem =
    if length mem == 2
    then any (λ v. (ltb v 32768 && word mem == v) || word mem == swap16 v) interesting_16
    else if length mem == 4
    then any (λ v. word mem == v || word mem == swap32 v) interesting_32
    else false

-- The extras of the same size, in a list that is sorted by size.
abbrev pub among_equal : List (List ℕ) → List ℕ → Bool
among_equal [] mem = false
among_equal (e ∷ extras) mem =
    (length e == length mem) && (same_nocase e mem || among_equal extras mem)

abbrev pub among_extras : List (List ℕ) → List ℕ → Bool
among_extras [] mem = false
among_extras (e ∷ extras) mem = elim (leb (length mem) (length e)) [
  | true ↦ among_equal (e ∷ extras) mem
  | false ↦ among_extras extras mem
]

abbrev pub matches : List ℕ → ExtraData → Bool
matches mem e = length e.bytes == length mem && same_nocase e.bytes mem

-- `hit_cnt++` on the first entry that matches, if there is one.
abbrev pub count_hit : List ℕ → List ExtraData → Option (List ExtraData)
count_hit mem [] = none
count_hit mem (e ∷ es) = elim (matches mem e) [
  | true ↦ some (record e { hit_cnt = e.hit_cnt + 1 } ∷ es)
  | false ↦ elim (count_hit mem es) [ none ↦ none | some es' ↦ some (e ∷ es') ]
]

-- A new entry: behind the others, or in place of one in the lower half.
abbrev pub new_entry : List ℕ → ExtraData
new_entry mem = record { bytes = mem; hit_cnt = 0 }

abbrev pub add_entry : ℕ → List ℕ → List ExtraData → List ExtraData
add_entry evicted mem es =
    if ltb (length es) max_auto_extras
    then es ++ (new_entry mem ∷ [])
    else set es (250 + evicted) (new_entry mem)

module _ (by_use by_len : List ExtraData → List ExtraData) where
  -- All by use count, then the top entries by size.
  abbrev pub sort_a_extras : List ExtraData → List ExtraData
  sort_a_extras es =
      let sorted = by_use es in
      let top = min use_auto_extras (length sorted) in by_len (take top sorted) ++ drop top sorted

  unfoldable pub maybe_add_auto : List (List ℕ) → ℕ → List ℕ → Autos → Autos
  maybe_add_auto extras evicted mem s =
      if identical_bytes mem || builtin_value mem || among_extras extras mem then s else record {
        auto_changed = true;
        a_extras = sort_a_extras (elim (count_hit mem s.a_extras) [
          | none ↦ add_entry evicted mem s.a_extras
          | some es ↦ es
        ]);
      }
