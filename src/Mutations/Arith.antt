-- ===== src/Mutations/Arith.antt =====
-- `could_be_arith` of afl-2.57b/afl-fuzz.c: the changes that the arithmetic stages make.
pub mod Steps
use aflgo.Common.{
  ℕ, zero, suc, ◌+◌, ◌-◌, ◌*◌, ◌/◌, ◌%◌, ◌^◌, ◌==◌, leb, if◌then◌else◌, Bool, true, false, ◌&&◌,
  ◌||◌,
}

abbrev pub arith_max : ℕ
arith_max = 35

-- `diffs`, `ov` and `nv`.
pub record Diffs : Type 0 where
  pub diffs : ℕ
  pub ov : ℕ
  pub nv : ℕ

-- Piece `i` of `width` bits.
abbrev pub piece : ℕ → ℕ → ℕ → ℕ
piece width v i = v / 2 ^ (width * i) % 2 ^ width

-- The loop over the pieces from `i` on, with `n` rounds left.
unfoldable pub diffs_of : ℕ → ℕ → ℕ → ℕ → ℕ → Diffs → Diffs
diffs_of width zero i old_val new_val t = t
diffs_of width (suc n) i old_val new_val t =
    let a = piece width old_val i in
    let b = piece width new_val i in
    diffs_of width n (i + 1) old_val new_val
      (if a == b then t else record { diffs = t.diffs + 1; ov = a; nv = b })

-- The difference of two `u32`, cut to `width` bits, is in range, in one direction or the other.
abbrev pub in_reach : ℕ → ℕ → ℕ → Bool
in_reach width ov nv =
    leb ((ov + 2 ^ 32 - nv) % 2 ^ width) arith_max || leb ((nv + 2 ^ 32 - ov) % 2 ^ width) arith_max

abbrev pub swap16 : ℕ → ℕ
swap16 x = x % 256 * 256 + x / 256 % 256

abbrev pub swap32 : ℕ → ℕ
swap32 x = x % 256 * 2 ^ 24 + x / 2 ^ 24 % 256 + x / 2 ^ 8 % 256 * 2 ^ 16 + x / 2 ^ 16 % 256 * 2 ^ 8

-- The steps on one byte and on one word, for the result of their loop.
abbrev pub byte_step : Diffs → Bool
byte_step t = t.diffs == 1 && in_reach 8 t.ov t.nv

abbrev pub word_step : Diffs → Bool
word_step t = t.diffs == 1 && (in_reach 16 t.ov t.nv || in_reach 16 (swap16 t.ov) (swap16 t.nv))

abbrev pub dword_step : ℕ → ℕ → Bool
dword_step old_val new_val =
    in_reach 32 old_val new_val || in_reach 32 (swap32 old_val) (swap32 new_val)

unfoldable pub could_be_arith : ℕ → ℕ → ℕ → Bool
could_be_arith old_val new_val blen =
    let bytes = diffs_of 8 blen 0 old_val new_val (record { diffs = 0; ov = 0; nv = 0 }) in
    let words =
      diffs_of 16 (blen / 2) 0 old_val new_val
        (record { diffs = 0; ov = bytes.ov; nv = bytes.nv }) in
    if old_val == new_val
    then true
    else if byte_step bytes
    then true
    else if blen == 1
    then false
    else if word_step words
    then true
    else blen == 4 && dword_step old_val new_val
