-- ===== src/Mutations.antt =====
-- Helpers of the mutation stages of afl-2.57b/afl-fuzz.c: could_be_bitflip, next_p2,
-- choose_block_len and locate_diffs.
pub mod Flips
pub mod ByteFlips
pub mod Lengths
pub mod Diffs
pub mod Arith
pub mod Tests
use aflgo.Common.{
  ℕ, zero, suc, ◌+◌, ◌-◌, ◌*◌, ◌/◌, ◌%◌, ◌^◌, ◌==◌, ◌!=◌, ltb, leb, min, if◌then◌else◌, Bool, true,
  false, ◌||◌, Option, none, some, List, get_or,
}

-- `while (!(xor_val & 1)) { sh++; xor_val >>= 1; }`, with fuel: `sh` and `xor_val` at the end.
unfoldable pub shift_loop : ℕ → ℕ → ℕ → ℕ × ℕ
shift_loop zero sh xor_val = (sh, xor_val)
shift_loop (suc fuel) sh xor_val =
    let rest = shift_loop fuel (sh + 1) (xor_val / 2) in
    if xor_val % 2 == 0 then rest else (sh, xor_val)

-- The tests behind the loop.
abbrev pub is_pattern : ℕ → ℕ → Bool
is_pattern sh xor_val =
    if xor_val == 1 || xor_val == 3 || xor_val == 15
    then true
    else if sh % 8 != 0
    then false
    else xor_val == 0xff || xor_val == 0xffff || xor_val == 0xffffffff

unfoldable pub could_be_bitflip : ℕ → Bool
could_be_bitflip xor_val =
    let end = shift_loop 32 0 xor_val in if xor_val == 0 then true else is_pattern end.0 end.1

-- `while (val > ret) ret <<= 1;`, with fuel.
unfoldable pub double_loop : ℕ → ℕ → ℕ → Option ℕ
double_loop zero val ret = none
double_loop (suc fuel) val ret =
    let rest = double_loop fuel val (ret * 2 % 2 ^ 32) in if ltb ret val then rest else some ret

unfoldable pub next_p2 : ℕ → Option ℕ
next_p2 val = double_loop 32 val 1

-- The bounds that the switch picks, given two numbers from `random`.
abbrev pub block_bounds : ℕ → ℕ → ℕ → ℕ × ℕ
block_bounds rlim r1 r2 =
    if r1 % rlim == 0
    then (1, 32)
    else if r1 % rlim == 1
    then (32, 128)
    else if r2 % 10 != 0
    then (128, 1500)
    else (1500, 32768)

-- `r1`, `r2` and `r3` are what `random` returns for the calls of `UR`.
unfoldable pub choose_block_len : ℕ → Bool → ℕ → ℕ → ℕ → ℕ → ℕ
choose_block_len queue_cycle run_over10m r1 r2 r3 limit =
    let rlim = if run_over10m then min queue_cycle 3 else 1 in
    let bounds = block_bounds rlim r1 r2 in
    let min_value = if leb limit bounds.0 then 1 else bounds.0 in
    min_value + r3 % (min bounds.1 limit - min_value + 1)

-- The loop of `locate_diffs` from `pos`, with `n` rounds left; `none` is -1.
unfoldable pub diffs_loop : ℕ → ℕ → List ℕ → List ℕ → Option ℕ → Option ℕ → Option ℕ × Option ℕ
diffs_loop zero pos ptr1 ptr2 f_loc l_loc = (f_loc, l_loc)
diffs_loop (suc n) pos ptr1 ptr2 f_loc l_loc =
    if get_or ptr1 pos 0 != get_or ptr2 pos 0
    then diffs_loop n (pos + 1) ptr1 ptr2 (elim f_loc [ none ↦ some pos | some f ↦ some f ])
        (some pos)
    else diffs_loop n (pos + 1) ptr1 ptr2 f_loc l_loc

unfoldable pub locate_diffs : List ℕ → List ℕ → ℕ → Option ℕ × Option ℕ
locate_diffs ptr1 ptr2 len = diffs_loop len 0 ptr1 ptr2 none none
