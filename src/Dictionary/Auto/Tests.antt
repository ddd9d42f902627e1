-- ===== src/Dictionary/Auto/Tests.antt =====
-- A run of `maybe_add_auto` with insertion sort for qsort, and the witness.
use aflgo.Common.{
  ℕ, ◌+◌, ◌≤◌, ◌≡◌, refl, arith, leb, leb→le, leb_off, if◌then◌else◌, Bool, true, false, Bool-cases,
  inl, inr, List, [], ◌∷◌, length,
}
use aflgo.Stages.Extras.Over.{IsSorted}
use aflgo.Dictionary.Auto.{ExtraData, Autos, new_entry, maybe_add_auto}
use aflgo.Dictionary.Auto.Laws.{maybe_add_auto-IsAuto}
use aflgo.Dictionary.Auto.Entries.{count, contents, IsSorter, IsAuto}

abbrev insert : ExtraData → List ExtraData → List ExtraData
insert e [] = e ∷ []
insert e (x ∷ xs) = elim (leb (length e.bytes) (length x.bytes)) [
  | true ↦ e ∷ x ∷ xs
  | false ↦ x ∷ insert e xs
]

abbrev sort : List ExtraData → List ExtraData
sort [] = []
sort (e ∷ es) = insert e (sort es)

abbrev leave : List ExtraData → List ExtraData
leave es = es

count-insert :
    (p : ExtraData → Bool) (e : ExtraData) (es : List ExtraData)
    → count p (insert e es) ≡ (if p e then 1 else 0) + count p es
count-insert p e [] = refl
count-insert p e (x ∷ xs) = elim (Bool-cases (leb (length e.bytes) (length x.bytes))) [
  | inl here ↦ rw (here, insert) refl
  | inr later ↦ rw (later, insert) (omega (arith, count-insert p e xs))
]

count-sort : (p : ExtraData → Bool) (es : List ExtraData) → count p (sort es) ≡ count p es
count-sort p [] = refl
count-sort p (e ∷ es) = omega (arith, count-insert p e (sort es), count-sort p es)

insert-IsSorted :
    (bound : ℕ) (e : ExtraData) (es : List ExtraData)
    → bound ≤ length e.bytes
    → IsSorted bound (contents es)
    → IsSorted bound (contents (insert e es))
insert-IsSorted bound e [] h g = (h, tt)
insert-IsSorted bound e (x ∷ xs) h g = elim (Bool-cases (leb (length e.bytes) (length x.bytes))) [
  | inl here ↦ rw (here, insert) (h, (leb→le (length e.bytes) (length x.bytes) here, g.1))
  | inr later ↦
      rw (later, insert)
        (
          g.0,
          insert-IsSorted (length x.bytes) e xs
              (omega (arith, leb_off (length e.bytes) (length x.bytes) later)) g.1,
        )
]

sort-IsSorted : (es : List ExtraData) → IsSorted 0 (contents (sort es))
sort-IsSorted [] = tt
sort-IsSorted (e ∷ es) = insert-IsSorted 0 e (sort es) (omega arith) (sort-IsSorted es)

sorter : IsSorter leave sort
sorter = record { use_count = λ p es. refl; len_count = count-sort; len_sorted = sort-IsSorted }

abbrev empty : Autos
empty = record { a_extras = []; auto_changed = false }

-- A short token goes before a longer one, and `IHDR` and `ihdr` are the same.
add_run :
    (maybe_add_auto leave sort [] 0 (b'I' ∷ b'H' ∷ b'D' ∷ b'R' ∷ []) (record {
      a_extras = new_entry (b'i' ∷ b'h' ∷ b'd' ∷ b'r' ∷ []) ∷ [];
      auto_changed = false;
    })).a_extras
    ≡ record { bytes = b'i' ∷ b'h' ∷ b'd' ∷ b'r' ∷ []; hit_cnt = 1 } ∷ []
unfolding maybe_add_auto
add_run = refl

empty-IsAuto : IsAuto []
empty-IsAuto = record { small = omega arith; single = λ mem. omega arith; top_sorted = tt }

maybe_add_auto-IsAuto_example :
    IsAuto
      (maybe_add_auto leave sort ((1 ∷ 2 ∷ 3 ∷ []) ∷ []) 0 (b'I' ∷ b'H' ∷ b'D' ∷ []) empty).a_extras
maybe_add_auto-IsAuto_example =
    maybe_add_auto-IsAuto leave sort sorter ((1 ∷ 2 ∷ 3 ∷ []) ∷ []) 0 (b'I' ∷ b'H' ∷ b'D' ∷ [])
      empty empty-IsAuto
