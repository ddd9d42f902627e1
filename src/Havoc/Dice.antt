-- ===== src/Havoc/Dice.antt =====
-- Random draws, and accesses to `out_buf` that fault outside of it. `random`, with the reseeding of
-- `UR`, is a parameter: a number and the state of the generator behind the call.
use aflgo.Common.{
  ℕ, ◌+◌, ◌%◌, leb, ltb, ◌==◌, min, if◌then◌else◌, Bool, Option, none, some, List, ◌++◌, length,
  get_elem?, take, drop,
}
use aflgo.Mutations.{choose_block_len}
use aflgo.Stages.Buffer.{write, peek, poke}

-- A computation with dice: `none` is a fault (a division by zero, an access out of bounds).
abbrev pub Dice : Type 0 → Type 0 → Type 0
Dice R A = R → Option (A × R)

-- `rlim` of `choose_block_len`.
abbrev pub rlim : ℕ → Bool → ℕ
rlim queue_cycle run_over10m = if run_over10m then min queue_cycle 3 else 1

module _ {R : Type 0} where
  abbrev pub pure : {A : Type 0} → A → Dice R A
  pure a r = some (a, r)

  abbrev pub fault : {A : Type 0} → Dice R A
  fault r = none

  infixl 5 ◌>>=◌
  abbrev pub ◌>>=◌ : {A B : Type 0} → Dice R A → (A → Dice R B) → Dice R B
  ◌>>=◌ m f r = elim (m r) [ none ↦ none | some (a, r') ↦ f a r' ]

  -- The `k` bytes at `i` changed in place.
  unfoldable pub alter : ℕ → ℕ → (ℕ → ℕ) → List ℕ → Dice R (List ℕ)
  alter k i f buf =
      if leb (i + k) (length buf) then pure (poke k i (f (peek k i buf)) buf) else fault

  -- `memcpy` and `memset` into the buffer.
  unfoldable pub copy_in : ℕ → List ℕ → List ℕ → Dice R (List ℕ)
  copy_in i bs buf = if leb (i + length bs) (length buf) then pure (write buf i bs) else fault

  -- The `n` bytes at `i`, for `memcpy` and `memmove` from the buffer.
  unfoldable pub slice : ℕ → ℕ → List ℕ → Dice R (List ℕ)
  slice i n buf = if leb (i + n) (length buf) then pure (take n (drop i buf)) else fault

  -- A new buffer with bytes inserted, and the buffer without `n` bytes.
  unfoldable pub splice_in : ℕ → List ℕ → List ℕ → Dice R (List ℕ)
  splice_in i bs buf = if leb i (length buf) then pure (take i buf ++ (bs ++ drop i buf)) else fault

  unfoldable pub cut_out : ℕ → ℕ → List ℕ → Dice R (List ℕ)
  cut_out i n buf =
      if leb (i + n) (length buf) then pure (take i buf ++ drop (i + n) buf) else fault

  module _ (random : R → ℕ × R) where
    unfoldable pub ur : ℕ → Dice R ℕ
    ur limit r = if limit == 0 then none else some ((random r).0 % limit, (random r).1)

    unfoldable pub pick : {A : Type 0} → List A → Dice R A
    pick table =
        ur (length table) >>= λ j. elim (get_elem? table j) [ none ↦ fault | some a ↦ pure a ]

    abbrev pub draw : Dice R ℕ
    draw r = some (random r)

    -- `choose_block_len` with its draws: the second is made in the default case only.
    unfoldable pub block_len : ℕ → Bool → ℕ → Dice R ℕ
    block_len queue_cycle run_over10m limit = do
      r1 ← draw
      r2 ← (if ltb (r1 % rlim queue_cycle run_over10m) 2 then pure 0 else draw)
      r3 ← draw
      pure (choose_block_len queue_cycle run_over10m r1 r2 r3 limit)
