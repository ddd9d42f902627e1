-- ===== src/Bitmap/Virgin/Reference.antt =====
-- What `has_new_bits` is to compute, byte by byte and with no words.
use aflgo.Common.{
  ℕ, ◌-◌, ◌≤◌, ◌!=◌, ◌==◌, if◌then◌else◌, max, bit_and, ◌&&◌, List, [], ◌∷◌, zip_with, arith,
}

-- How new one byte of a trace is: 2 for a tuple never seen, 1 for a new hit count.
abbrev pub byte_novelty : ℕ → ℕ → ℕ
byte_novelty c v = if c != 0 && v == 255 then 2 else if bit_and c v != 0 then 1 else 0

-- The highest novelty of the bytes.
abbrev pub novelty : List ℕ → List ℕ → ℕ
novelty [] vir = 0
novelty (c ∷ cur) [] = 0
novelty (c ∷ cur) (v ∷ vir) = max (byte_novelty c v) (novelty cur vir)

abbrev pub wipe : ℕ → ℕ → ℕ
wipe c v = bit_and v (255 - c)

-- The virgin map with the bits of the trace taken out.
abbrev pub wiped : List ℕ → List ℕ → List ℕ
wiped cur vir = zip_with wipe cur vir

pub byte_novelty-le-two : (c v : ℕ) → byte_novelty c v ≤ 2
byte_novelty-le-two c v = ground arith

pub novelty-le-two : (cur vir : List ℕ) → novelty cur vir ≤ 2
novelty-le-two [] vir = omega arith
novelty-le-two (c ∷ cur) [] = omega arith
novelty-le-two (c ∷ cur) (v ∷ vir) = omega (arith, byte_novelty-le-two c v, novelty-le-two cur vir)
