-- ===== src/Stages/Flow.antt =====
-- Stages as steps on `out_buf` and a state: what a `goto abandon_entry` skips, and the loops.
pub mod Rules
pub mod Keeps
use aflgo.Common.{ℕ, zero, suc, ◌+◌, ◌≡◌, Bool, true, false, if◌then◌else◌, List, [], ◌∷◌, ◌++◌}

-- The stage goes on with a buffer, or the entry is abandoned.
pub data Outcome (S : Type 0) : Type 0 where
  goes : List ℕ → S → Outcome S
  abandons : S → Outcome S

abbrev pub Stage : Type 0 → Type 0
Stage S = List ℕ → S → Outcome S

-- What a stage does to the outside: it runs the target on an input, or it updates the state.
pub data Item (S : Type 0) : Type 0 where
  input : List ℕ → Item S
  note : (S → S) → Item S

module _ {S : Type 0} where
  infixl 5 ◌>>◌
  abbrev pub ◌>>◌ : Stage S → Stage S → Stage S
  ◌>>◌ m k buf s = elim (m buf s) [ goes b s' ↦ k b s' | abandons s' ↦ abandons s' ]

  abbrev pub pass : Stage S
  pass buf s = goes buf s

  -- A change of the buffer.
  abbrev pub change : (List ℕ → List ℕ) → Stage S
  change f buf s = goes (f buf) s

  -- A change of the state, given the buffer.
  abbrev pub update : (List ℕ → S → S) → Stage S
  update f buf s = goes buf (f buf s)

  abbrev pub when : Bool → Stage S → Stage S
  when b m buf s = if b then m buf s else goes buf s

  -- `n` rounds of a loop from index `i` on.
  abbrev pub for : ℕ → ℕ → (ℕ → Stage S) → Stage S
  for zero i body = pass
  for (suc n) i body = body i >> for n (i + 1) body

  -- A stage that reads the buffer first.
  abbrev pub reading : (List ℕ → Stage S) → Stage S
  reading m buf s = m buf buf s

  -- The items of the rounds in order.
  abbrev pub gather : ℕ → ℕ → (ℕ → List (Item S)) → List (Item S)
  gather zero i items = []
  gather (suc n) i items = items i ++ gather n (i + 1) items

  module _ (exec : List ℕ → S → Bool × S) where
    -- `if (common_fuzz_stuff(argv, out_buf, len)) goto abandon_entry;`
    abbrev pub fuzz : Stage S
    fuzz buf s = if (exec buf s).0 then abandons (exec buf s).1 else goes buf (exec buf s).1

    -- The reference: the items in their order, and the buffer that is left at the end.
    abbrev pub run_all : List (Item S) → List ℕ → S → Outcome S
    run_all [] after s = goes after s
    run_all (input v ∷ items) after s =
        if (exec v s).0 then abandons (exec v s).1 else run_all items after (exec v s).1
    run_all (note f ∷ items) after s = run_all items after (f s)

    -- On a buffer, a stage does what the items say, and leaves a buffer.
    abbrev pub Visits : Stage S → List ℕ → List (Item S) → List ℕ → Type 0
    Visits m buf items after = (s : S) → m buf s ≡ run_all items after s
