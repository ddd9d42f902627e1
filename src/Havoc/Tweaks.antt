-- ===== src/Havoc/Tweaks.antt =====
-- The cases of the switch in the havoc stage. `temp_len` is the length of the buffer. Where the
-- order of evaluation is open in C, the place is drawn first.
use aflgo.Common.{
  ℕ, zero, suc, ◌+◌, ◌-◌, ◌*◌, ◌/◌, ◌%◌, ◌^◌, ◌==◌, ◌!=◌, leb, ltb, if◌then◌else◌, bit_xor, Bool,
  List, length, replicate,
}
use aflgo.Mutations.Arith.{arith_max, swap16, swap32}
use aflgo.Stages.Words.{plus, minus}
use aflgo.Stages.Interest.{interesting_8, interesting_16, interesting_32}
use aflgo.Stages.Extras.{max_file}
use aflgo.Havoc.Dice.{
  Dice, pure, ◌>>=◌, alter, copy_in, slice, splice_in, cut_out, ur, pick, block_len,
}

-- What the tweaks read of the fuzzer.
pub record Setup : Type 0 where
  pub queue_cycle : ℕ
  pub run_over10m : Bool
  pub extras : List (List ℕ)
  pub a_extras : List (List ℕ)

abbrev pub havoc_blk_xl : ℕ
havoc_blk_xl = 32768

module _ {R : Type 0} (random : R → ℕ × R) where
  abbrev pub flip_random_bit : List ℕ → Dice R (List ℕ)
  flip_random_bit buf = do
    b ← ur random (length buf * 8)
    alter 1 (b / 8) (λ x. bit_xor x (128 / 2 ^ (b % 8))) buf

  abbrev pub set_byte : List ℕ → Dice R (List ℕ)
  set_byte buf = do
    i ← ur random (length buf)
    v ← pick random interesting_8
    alter 1 i (λ x. v) buf

  -- Cases 2 and 3, for words of `k` bytes.
  abbrev pub set_word : ℕ → (ℕ → ℕ) → List ℕ → List ℕ → Dice R (List ℕ)
  set_word k swap table buf = if ltb (length buf) k then pure buf else do
    le ← ur random 2
    i ← ur random (length buf - (k - 1))
    v ← pick random table
    alter k i (λ x. if le != 0 then v else swap v) buf

  -- Cases 4 and 5.
  abbrev pub shift_byte : (ℕ → ℕ → ℕ → ℕ) → List ℕ → Dice R (List ℕ)
  shift_byte op buf = do
    i ← ur random (length buf)
    n ← ur random arith_max
    alter 1 i (λ x. op 1 x (1 + n)) buf

  -- Cases 6 to 9, for words of `k` bytes.
  abbrev pub shift_word : ℕ → (ℕ → ℕ) → (ℕ → ℕ → ℕ → ℕ) → List ℕ → Dice R (List ℕ)
  shift_word k swap op buf = if ltb (length buf) k then pure buf else do
    le ← ur random 2
    pos ← ur random (length buf - (k - 1))
    n ← ur random arith_max
    alter k pos (λ x. if le != 0 then op k x (1 + n) else swap (op k (swap x) (1 + n))) buf

  abbrev pub xor_byte : List ℕ → Dice R (List ℕ)
  xor_byte buf = do
    i ← ur random (length buf)
    x ← ur random 255
    alter 1 i (λ b. bit_xor b (1 + x)) buf

  -- `UR(2) ? UR(256) : out_buf[UR(temp_len)]`
  abbrev pub filler : List ℕ → Dice R ℕ
  filler buf = do c ← ur random 2; if c != 0 then ur random 256 else pick random buf

  -- One of the tokens of the two dictionaries.
  abbrev pub pick_extra : Setup → Dice R (List ℕ)
  pick_extra setup =
      if length setup.extras == 0
      then pick random setup.a_extras
      else if length setup.a_extras == 0
      then pick random setup.extras
      else do
        c ← ur random 2
        if c != 0 then pick random setup.a_extras else pick random setup.extras

  module _ (setup : Setup) where
    abbrev pub len_of_block : ℕ → Dice R ℕ
    len_of_block limit = block_len random setup.queue_cycle setup.run_over10m limit

    abbrev pub delete_bytes : List ℕ → Dice R (List ℕ)
    delete_bytes buf = if ltb (length buf) 2 then pure buf else do
      del_len ← len_of_block (length buf - 1)
      del_from ← ur random (length buf - del_len + 1)
      cut_out del_from del_len buf

    -- A chunk of the file, or a block of one byte, goes in at `clone_to`.
    abbrev pub clone_chunk : List ℕ → Dice R (List ℕ)
    clone_chunk buf = do
      clone_len ← len_of_block (length buf)
      clone_from ← ur random (length buf - clone_len + 1)
      clone_to ← ur random (length buf)
      part ← slice clone_from clone_len buf
      splice_in clone_to part buf

    abbrev pub insert_block : List ℕ → Dice R (List ℕ)
    insert_block buf = do
      clone_len ← len_of_block havoc_blk_xl
      clone_to ← ur random (length buf)
      fill ← filler buf
      splice_in clone_to (replicate clone_len fill) buf

    abbrev pub clone_bytes : List ℕ → Dice R (List ℕ)
    clone_bytes buf = if leb max_file (length buf + havoc_blk_xl) then pure buf else do
      actually_clone ← ur random 4
      if actually_clone != 0 then clone_chunk buf else insert_block buf

    abbrev pub move_chunk : ℕ → ℕ → ℕ → List ℕ → Dice R (List ℕ)
    move_chunk copy_from copy_to copy_len buf =
        if copy_from == copy_to
        then pure buf
        else do part ← slice copy_from copy_len buf; copy_in copy_to part buf

    abbrev pub fill_chunk : ℕ → ℕ → List ℕ → Dice R (List ℕ)
    fill_chunk copy_to copy_len buf = do
      fill ← filler buf
      copy_in copy_to (replicate copy_len fill) buf

    abbrev pub overwrite_bytes : List ℕ → Dice R (List ℕ)
    overwrite_bytes buf = if ltb (length buf) 2 then pure buf else do
      copy_len ← len_of_block (length buf - 1)
      copy_from ← ur random (length buf - copy_len + 1)
      copy_to ← ur random (length buf - copy_len + 1)
      moved ← ur random 4
      if moved != 0
          then move_chunk copy_from copy_to copy_len buf
          else fill_chunk copy_to copy_len buf

    abbrev pub overwrite_extra : List ℕ → Dice R (List ℕ)
    overwrite_extra buf = do
      tok ← pick_extra setup
      if ltb (length buf) (length tok)
          then pure buf
          else (ur random (length buf - length tok + 1) >>= λ insert_at. copy_in insert_at tok buf)

    abbrev pub insert_extra : List ℕ → Dice R (List ℕ)
    insert_extra buf = do
      insert_at ← ur random (length buf + 1)
      tok ← pick_extra setup
      if leb max_file (length buf + length tok) then pure buf else splice_in insert_at tok buf

    -- The switch.
    unfoldable pub tweak_case : ℕ → List ℕ → Dice R (List ℕ)
    tweak_case n buf =
        if n == 0
        then flip_random_bit buf
        else if n == 1
        then set_byte buf
        else if n == 2
        then set_word 2 swap16 interesting_16 buf
        else if n == 3
        then set_word 4 swap32 interesting_32 buf
        else if n == 4
        then shift_byte minus buf
        else if n == 5
        then shift_byte plus buf
        else if n == 6
        then shift_word 2 swap16 minus buf
        else if n == 7
        then shift_word 2 swap16 plus buf
        else if n == 8
        then shift_word 4 swap32 minus buf
        else if n == 9
        then shift_word 4 swap32 plus buf
        else if n == 10
        then xor_byte buf
        else if leb n 12
        then delete_bytes buf
        else if n == 13
        then clone_bytes buf
        else if n == 14
        then overwrite_bytes buf
        else if n == 15
        then overwrite_extra buf
        else insert_extra buf

    unfoldable pub tweak : List ℕ → Dice R (List ℕ)
    tweak buf = do
      n ← ur random (15 + (if length setup.extras + length setup.a_extras != 0 then 2 else 0))
      tweak_case n buf

    -- The loop on `i`, with `use_stacking` rounds.
    abbrev pub tweaks : ℕ → List ℕ → Dice R (List ℕ)
    tweaks zero buf = pure buf
    tweaks (suc n) buf = do out ← tweak buf; tweaks n out

    unfoldable pub stacked : List ℕ → Dice R (List ℕ)
    stacked buf = do pow ← ur random 7; tweaks (2 ^ (1 + pow)) buf
