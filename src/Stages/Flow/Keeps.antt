-- ===== src/Stages/Flow/Keeps.antt =====
-- Stages that leave the buffer as it was whenever they do not abandon the entry.
use aflgo.Common.{
  ℕ, zero, suc, ◌+◌, ◌<◌, ◌≡◌, refl, sym, subst, arith, Bool, true, false, Bool-cases, ◌⊎◌, inl,
  inr, List, [], ◌∷◌,
}
use aflgo.Stages.Flow.{
  Outcome, goes, abandons, Stage, Item, input, note, ◌>>◌, when, for, run_all, Visits,
}

module _ {S : Type 0} where
  -- The outcome goes on with the buffer, or it abandons the entry.
  abbrev pub EndsOn : List ℕ → Outcome S → Type 0
  EndsOn buf o = ((s : S) × (o ≡ goes buf s)) ⊎ ((s : S) × (o ≡ abandons s))

  abbrev pub Keeps : Stage S → List ℕ → Type 0
  Keeps m buf = (s : S) → EndsOn buf (m buf s)

  go_on : Stage S → Outcome S → Outcome S
  go_on k (goes b s) = k b s
  go_on k (abandons s) = abandons s

  pub seq-Keeps : (m k : Stage S) (buf : List ℕ) → Keeps m buf → Keeps k buf → Keeps (m >> k) buf
  unfolding go_on
  seq-Keeps m k buf h g s = elim (h s) [
    | inl (s', on) ↦ subst (λ o. EndsOn buf (go_on k o)) (sym on) (g s')
    | inr (s', off) ↦ subst (λ o. EndsOn buf (go_on k o)) (sym off) (inr (s', refl))
  ]

  pub when-Keeps : (b : Bool) (m : Stage S) (buf : List ℕ) → Keeps m buf → Keeps (when b m) buf
  when-Keeps true m buf h s = h s
  when-Keeps false m buf h s = inl (s, refl)

  pub for-Keeps :
      (n lo : ℕ) (body : ℕ → Stage S) (buf : List ℕ)
      → ((i : ℕ) → i < lo + n → Keeps (body i) buf)
      → Keeps (for n lo body) buf
  for-Keeps zero lo body buf h s = inl (s, refl)
  for-Keeps (suc n) lo body buf h s =
      seq-Keeps (body lo) (for n (lo + 1) body) buf (h lo (omega arith))
        (for-Keeps n (lo + 1) body buf (λ i p. h i (omega arith))) s

  module _ (exec : List ℕ → S → Bool × S) where
    run_all-EndsOn :
        (items : List (Item S)) (buf : List ℕ) (s : S) → EndsOn buf (run_all exec items buf s)
    run_all-EndsOn [] buf s = inl (s, refl)
    run_all-EndsOn (note f ∷ items) buf s = run_all-EndsOn items buf (f s)
    run_all-EndsOn (input v ∷ items) buf s = elim (Bool-cases (exec v s).0) [
      | inl bail ↦ rw bail (inr ((exec v s).1, refl))
      | inr on ↦ rw on (run_all-EndsOn items buf (exec v s).1)
    ]

    pub Visits→Keeps :
        (m : Stage S) (buf : List ℕ) (items : List (Item S))
        → Visits exec m buf items buf
        → Keeps m buf
    Visits→Keeps m buf items h s = rw (h s) (run_all-EndsOn items buf s)
