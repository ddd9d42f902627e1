-- ===== src/Dictionary/Auto/Laws.antt =====
-- The automatic dictionary stays small, free of duplicates and sorted at its top.
use aflgo.Common.{
  ℕ, ◌≡◌, sym, ◌∙◌, subst, arith, min, Bool, true, Bool-cases, inl, inr, ◌||◌, List, length, take,
  drop, length-take, length-drop,
}
use aflgo.Stages.Extras.{use_auto_extras}
use aflgo.Stages.Extras.Over.{IsSorted}
use aflgo.Dictionary.Auto.{
  ExtraData, Autos, identical_bytes, builtin_value, among_extras, matches, add_entry, sort_a_extras,
  maybe_add_auto,
}
use aflgo.Dictionary.Auto.Entries.{
  count, IsSorter, IsAuto, count-append, count-take-drop, count_all, count_hit_cases, IsUnsorted,
  hit-IsUnsorted, add_entry-IsUnsorted, take_front,
}

module _ (by_use by_len : List ExtraData → List ExtraData) (sorter : IsSorter by_use by_len) where
  sort_count :
      (p : ExtraData → Bool) (es : List ExtraData)
      → count p (sort_a_extras by_use by_len es) ≡ count p es
  sort_count p es =
      let sorted = by_use es in
      let top = min use_auto_extras (length sorted) in
      count-append p (by_len (take top sorted)) (drop top sorted)
      ∙ omega (
        arith,
        sorter.len_count p (take top sorted),
        count-take-drop p top sorted,
        sorter.use_count p es,
      )

  length-sort : (es : List ExtraData) → length (sort_a_extras by_use by_len es) ≡ length es
  length-sort es =
      sym (count_all (sort_a_extras by_use by_len es)) ∙ sort_count (λ e. true) es ∙ count_all es

  sort-IsAuto : (es : List ExtraData) → IsUnsorted es → IsAuto (sort_a_extras by_use by_len es)
  sort-IsAuto es h = record {
    small = omega (arith, length-sort es, h.small);
    single = λ m. omega (arith, sort_count (matches m) es, h.single m);
    top_sorted =
        let sorted = by_use es in
        let top = min use_auto_extras (length sorted) in
        let front = by_len (take top sorted) in
        let size : length front ≡ top =
          sym (count_all front)
          ∙ sorter.len_count (λ e. true) (take top sorted)
          ∙ count_all (take top sorted)
          ∙ omega (arith, length-take top sorted) in
        subst (IsSorted 0)
          (sym (
            take_front use_auto_extras front (drop top sorted) (omega (arith, size))
              (omega (arith, size, length-drop top sorted))))
          (sorter.len_sorted (take top sorted));
  }

  -- If qsort reorders the entries, by size where it is asked to, then `maybe_add_auto` keeps an automatic dictionary of at
  -- most 500 tokens, no two of which are the same up to case, with the first fifty sorted by size.
  pub maybe_add_auto-IsAuto :
      (extras : List (List ℕ)) (evicted : ℕ) (mem : List ℕ) (s : Autos)
      → IsAuto s.a_extras
      → IsAuto (maybe_add_auto by_use by_len extras evicted mem s).a_extras
  unfolding maybe_add_auto
  maybe_add_auto-IsAuto extras evicted mem s h =
      elim (Bool-cases (identical_bytes mem || builtin_value mem || among_extras extras mem)) [
        | inl rejected ↦ rw (rejected, maybe_add_auto) h
        | inr wanted ↦
            rw (wanted, maybe_add_auto)
              (elim (count_hit_cases mem s.a_extras) [
                | inl (absent, zeros) ↦ rw absent (
                    sort-IsAuto (add_entry evicted mem s.a_extras)
                      (add_entry-IsUnsorted evicted mem s.a_extras zeros h))
                | inr (out, found, kept) ↦
                    rw found (sort-IsAuto out (hit-IsUnsorted s.a_extras out kept h))
              ])
      ]
