-- ===== src/Stages/Buffer.antt =====
-- Reads and writes of `out_buf`: single bits, `memcpy` into the buffer, and the casts to `u16*` and
-- `u32*`. What the C code would write behind the end is dropped.
pub mod Laws
use aflgo.Common.{ℕ, zero, suc, ◌+◌, ◌/◌, ◌%◌, ◌^◌, ◌*◌, bit_xor, List, [], ◌∷◌, take, drop, modify}
use aflgo.Bitmap.Memory.{word, bytes}

-- The macro `FLIP_BIT`.
abbrev pub flip_bit : List ℕ → ℕ → List ℕ
flip_bit buf b = modify buf (b / 8) (λ x. bit_xor x (128 / 2 ^ (b % 8)))

-- `FLIP_BIT` on `width` bits in a row.
abbrev pub flip_bits : ℕ → ℕ → List ℕ → List ℕ
flip_bits zero b buf = buf
flip_bits (suc width) b buf = flip_bits width (b + 1) (flip_bit buf b)

-- `memcpy(buf, bs, …)`
abbrev pub over : List ℕ → List ℕ → List ℕ
over buf [] = buf
over [] (b ∷ bs) = []
over (x ∷ buf) (b ∷ bs) = b ∷ over buf bs

-- `memcpy(buf + i, bs, …)`
abbrev pub write : List ℕ → ℕ → List ℕ → List ℕ
write buf zero bs = over buf bs
write [] (suc i) bs = []
write (x ∷ buf) (suc i) bs = x ∷ write buf i bs

-- The `k` bytes at `i` as a word.
abbrev pub peek : ℕ → ℕ → List ℕ → ℕ
peek k i buf = word (take k (drop i buf))

abbrev pub poke : ℕ → ℕ → ℕ → List ℕ → List ℕ
poke k i v buf = write buf i (bytes k v)
