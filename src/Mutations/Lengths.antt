-- ===== src/Mutations/Lengths.antt =====
-- The lengths that `next_p2` and `choose_block_len` return.
use aflgo.Common.{
  ℕ, zero, suc, ◌+◌, ◌*◌, ◌%◌, ◌^◌, ◌<◌, ◌≤◌, ◌≡◌, refl, ap, arith, ltb, Bool, Bool-cases, ltb→lt,
  inl, inr, Option, some,
}
use native.Mathlib.Nat.{pow-suc}
use aflgo.Bits.Powers.{pow_pos, pow_gap}
use aflgo.Mutations.{double_loop, next_p2, choose_block_len}

-- The least power of two that is not below `val`.
pub record IsCeiling (val : ℕ) (out : Option ℕ) : Type 0 where
  pub exponent : ℕ
  pub returns : out ≡ some (2 ^ exponent)
  pub enough : val ≤ 2 ^ exponent
  pub least : (e : ℕ) → val ≤ 2 ^ e → 2 ^ exponent ≤ 2 ^ e

-- The loop at the power `k`.
double_loop-IsCeiling :
    (fuel k val : ℕ)
    → val ≤ 2 ^ 31
    → k + fuel ≡ 32
    → 0 < fuel
    → ((e : ℕ) → val ≤ 2 ^ e → 2 ^ k ≤ 2 ^ e)
    → IsCeiling val (double_loop fuel val (2 ^ k))
unfolding double_loop
double_loop-IsCeiling zero k val small span p low = absurd (omega arith)
double_loop-IsCeiling (suc fuel) k val small span p low = elim (Bool-cases (ltb (2 ^ k) val)) [
  | inl more ↦
      let below : 2 ^ k < val = ltb→lt _ _ more in
      let next : 2 ^ k * 2 % 2 ^ 32 ≡ 2 ^ suc k = omega (arith, pow-suc 2 k) in
      rw (more, next)
        (double_loop-IsCeiling fuel (suc k) val small (omega arith) (last fuel k span (omega arith))
          (λ e h. pow_gap k e (omega arith)))
  | inr done ↦ rw done (record { exponent = k; returns = refl; enough = ground arith; least = low })
]
  where
    last : (fuel k : ℕ) → k + suc fuel ≡ 32 → 2 ^ k < 2 ^ 31 → 0 < fuel
    last zero k span h =
        let top : k ≡ 31 = omega arith in absurd (omega (arith, ap (λ t. 2 ^ t) top))
    last (suc fuel) k span h = omega arith

-- For values up to 2 ^ 31, the loop of `next_p2` ends, with the least power of two that is not
-- below the value.
pub next_p2-IsCeiling : (val : ℕ) → val ≤ 2 ^ 31 → IsCeiling val (next_p2 val)
unfolding next_p2
next_p2-IsCeiling val small =
    double_loop-IsCeiling 32 0 val small refl (omega arith) (λ e h. omega (arith, pow_pos e))

-- In the first queue cycle or later and for a limit above 0, `choose_block_len` returns a length
-- from 1 to the limit, and at most 32768.
pub choose_block_len-le :
    (queue_cycle : ℕ) (run_over10m : Bool) (r1 r2 r3 limit : ℕ)
    → 0 < queue_cycle
    → 0 < limit
    → let len = choose_block_len queue_cycle run_over10m r1 r2 r3 limit in
      (1 ≤ len) × (len ≤ limit) × (len ≤ 32768)
unfolding choose_block_len
choose_block_len-le queue_cycle run_over10m r1 r2 r3 limit cycle p = ground arith
