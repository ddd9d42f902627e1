-- ===== src/Mutations/Tests.antt =====
-- The helpers of the mutation stages on concrete values.
use aflgo.Common.{ℕ, ◌≡◌, ◌↔◌, ◌⊎◌, ◌≤◌, refl, arith, true, false, List, [], ◌∷◌, some, ◌==◌, ◌||◌}
use aflgo.Mutations.{
  could_be_bitflip, shift_loop, next_p2, choose_block_len, locate_diffs, diffs_loop,
}
use aflgo.Mutations.Arith.{could_be_arith}
use aflgo.Mutations.Arith.Steps.{IsNear, could_be_arith-byte_iff}
use aflgo.Mutations.Flips.{IsBitRun, could_be_bitflip_iff}
use aflgo.Mutations.ByteFlips.{is_product, could_be_bitflip-products}
use aflgo.Stages.Buffer.{flip_bits, peek}
use aflgo.Mutations.Lengths.{IsCeiling, next_p2-IsCeiling, choose_block_len-le}
use aflgo.Mutations.Diffs.{IsFirst, IsLast, locate_diffs_lem}

-- A whole byte flipped.
abbrev byte_flip : ℕ
byte_flip = 0xff00

could_be_bitflip_example :
    (could_be_bitflip byte_flip ≡ true) ↔ ((byte_flip ≡ 0) ⊎ IsBitRun byte_flip)
could_be_bitflip_example = could_be_bitflip_iff byte_flip (omega arith)

could_be_bitflip-products_example : could_be_bitflip 0x18 ≡ ((0x18 == 0) || is_product 0x18)
could_be_bitflip-products_example = could_be_bitflip-products 0x18 (omega arith)

-- Two bits across two bytes are not recognised, and what is recognised there no flip makes.
across_bytes :
    (peek 2 0 (flip_bits 2 7 (0 ∷ 0 ∷ [])) ≡ 0x8001)
    × (could_be_bitflip 0x8001 ≡ false)
    × (could_be_bitflip 0x0180 ≡ true)
unfolding could_be_bitflip shift_loop
across_bytes = (refl, refl, refl)

-- Eight bits off a byte boundary.
flips :
    (could_be_bitflip 0xff00 ≡ true)
    × (could_be_bitflip 0xff0 ≡ false)
    × (could_be_bitflip 0xf0 ≡ true)
unfolding could_be_bitflip shift_loop
flips = (refl, refl, refl)

next_p2-IsCeiling_example : IsCeiling 100 (next_p2 100)
next_p2-IsCeiling_example = next_p2-IsCeiling 100 (omega arith)

choose_block_len_example :
    let len = choose_block_len 5 true 7 10 999 200 in (1 ≤ len) × (len ≤ 200) × (len ≤ 32768)
choose_block_len_example = choose_block_len-le 5 true 7 10 999 200 (omega arith) (omega arith)

abbrev one_buffer : List ℕ
one_buffer = 1 ∷ 2 ∷ 3 ∷ 4 ∷ []

abbrev other_buffer : List ℕ
other_buffer = 1 ∷ 9 ∷ 8 ∷ 4 ∷ []

locate_diffs_example :
    IsFirst one_buffer other_buffer 4 (locate_diffs one_buffer other_buffer 4).0
    × IsLast one_buffer other_buffer 4 (locate_diffs one_buffer other_buffer 4).1
locate_diffs_example = locate_diffs_lem one_buffer other_buffer 4

differing : locate_diffs one_buffer other_buffer 4 ≡ (some 1, some 2)
unfolding locate_diffs diffs_loop
differing = refl

-- Four steps down, over zero.
abbrev old_byte : ℕ
old_byte = 2

abbrev new_byte : ℕ
new_byte = 254

could_be_arith-byte_example :
    (could_be_arith old_byte new_byte 1 ≡ true) ↔ IsNear 8 old_byte new_byte
could_be_arith-byte_example = could_be_arith-byte_iff old_byte new_byte (omega arith) (omega arith)
