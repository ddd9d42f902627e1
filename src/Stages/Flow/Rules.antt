-- ===== src/Stages/Flow/Rules.antt =====
-- Rules for what a stage visits, one for each way to build a stage.
use aflgo.Common.{
  ℕ, zero, suc, ◌+◌, ◌<◌, ◌≤◌, ◌≡◌, refl, ap, ◌∙◌, arith, Bool, true, false, Bool-cases, inl, inr,
  if◌then◌else◌, List, [], ◌∷◌, ◌++◌,
}
use aflgo.Stages.Flow.{
  Outcome, goes, abandons, Stage, Item, input, note, ◌>>◌, pass, when, for, gather, fuzz, run_all,
  Visits,
}

module _ {S : Type 0} where
  pub gather_none : (n : ℕ) (items : ℕ → List (Item S)) → n ≡ 0 → gather n 0 items ≡ []
  gather_none n items h = rw h refl

module _ {S : Type 0} (exec : List ℕ → S → Bool × S) where
  pub run_all-append :
      (vs ws : List (Item S)) (b c : List ℕ) (k : Stage S)
      → Visits exec k b ws c
      → (s : S)
      → elim (run_all exec vs b s) as (λ _. Outcome S) [
        | goes b' s' ↦ k b' s'
        | abandons s' ↦ abandons s'
      ]
        ≡ run_all exec (vs ++ ws) c s
  run_all-append [] ws b c k h s = h s
  run_all-append (note f ∷ vs) ws b c k h s = run_all-append vs ws b c k h (f s)
  run_all-append (input v ∷ vs) ws b c k h s = elim (Bool-cases (exec v s).0) [
    | inl bail ↦ rw bail refl
    | inr on ↦ rw on (run_all-append vs ws b c k h (exec v s).1)
  ]

  pub seq-Visits :
      (m k : Stage S) (a b c : List ℕ) (vs ws : List (Item S))
      → Visits exec m a vs b
      → Visits exec k b ws c
      → Visits exec (m >> k) a (vs ++ ws) c
  seq-Visits m k a b c vs ws h g s =
      ap
        (λ (o : Outcome S). elim o as (λ _. Outcome S) [
          | goes b' s' ↦ k b' s'
          | abandons s' ↦ abandons s'
        ])
        (h s)
      ∙ run_all-append vs ws b c k g s

  pub fuzz-Visits : (buf : List ℕ) → Visits exec (fuzz exec) buf (input buf ∷ []) buf
  fuzz-Visits buf s = refl

  pub when-Visits :
      (b : Bool) (m : Stage S) (buf : List ℕ) (vs : List (Item S))
      → Visits exec m buf vs buf
      → Visits exec (when b m) buf (if b then vs else []) buf
  when-Visits true m buf vs h s = h s
  when-Visits false m buf vs h s = refl

  -- A loop whose rounds leave the buffer as it was.
  pub for-Visits :
      (n lo : ℕ) (body : ℕ → Stage S) (buf : List ℕ) (items : ℕ → List (Item S))
      → ((i : ℕ) → lo ≤ i → i < lo + n → Visits exec (body i) buf (items i) buf)
      → Visits exec (for n lo body) buf (gather n lo items) buf
  for-Visits zero lo body buf items h s = refl
  for-Visits (suc n) lo body buf items h s =
      seq-Visits (body lo) (for n (lo + 1) body) buf buf buf (items lo) (gather n (lo + 1) items)
        (h lo (omega arith) (omega arith))
        (for-Visits n (lo + 1) body buf items (λ i p q. h i (omega arith) (omega arith))) s

  -- A loop whose rounds change the buffer, with an invariant.
  pub for_carry :
      (P : ℕ → List ℕ → Type 0) (n lo : ℕ) (body : ℕ → Stage S) (items : ℕ → List (Item S))
      → ((i : ℕ)
          → i < lo + n
          → (b : List ℕ) → P i b
          → (c : List ℕ) × P (i + 1) c × Visits exec (body i) b (items i) c)
      → (b : List ℕ) → P lo b
      → (c : List ℕ) × Visits exec (for n lo body) b (gather n lo items) c
  for_carry P zero lo body items h b here = (b, λ s. refl)
  for_carry P (suc n) lo body items h b here =
      let first = h lo (omega arith) b here in
      let rest = for_carry P n (lo + 1) body items (λ i p. h i (omega arith)) first.0 first.1 in
      (
        rest.0,
        seq-Visits (body lo) (for n (lo + 1) body) b first.0 rest.0 (items lo)
            (gather n (lo + 1) items) first.2 rest.1,
      )

  -- A stage behind a guard that skips it when it would run nothing.
  pub guarded-Visits :
      (skip : Bool) (m : Stage S) (buf : List ℕ) (items : List (Item S))
      → (skip ≡ true → items ≡ [])
      → (skip ≡ false → Visits exec m buf items buf)
      → Visits exec (if skip then pass else m) buf items buf
  guarded-Visits true m buf items h g s = rw (h refl) refl
  guarded-Visits false m buf items h g s = g refl s

  pub for_guarded :
      (skip : Bool) (m : Stage S) (n : ℕ) (buf : List ℕ) (items : ℕ → List (Item S))
      → (skip ≡ true → n ≡ 0)
      → (skip ≡ false → Visits exec m buf (gather n 0 items) buf)
      → Visits exec (if skip then pass else m) buf (gather n 0 items) buf
  for_guarded skip m n buf items h g =
      guarded-Visits skip m buf (gather n 0 items) (λ on. gather_none n items (h on)) g
