-- ===== src/Bitmap/Memory.antt =====
-- Byte arrays read and written as little-endian words, as the `u16*`, `u32*` and `u64*` casts do.
use native.Mathlib.Nat.{pow-suc}
use aflgo.Common.{
  ℕ, zero, suc, ◌+◌, ◌-◌, ◌*◌, ◌/◌, ◌%◌, ◌^◌, ◌<◌, bit_and, ◌≡◌, refl, ap, ap₂, ◌∙◌, arith, List,
  [], ◌∷◌, map, length, zip_with, All,
}
use aflgo.Bits.Fields.{bit_and_fields}

abbrev pub IsByte : ℕ → Type 0
IsByte b = b < 256

abbrev pub IsBytes : List ℕ → Type 0
IsBytes mem = All IsByte mem

-- The word at the start of an array of its size.
abbrev pub word : List ℕ → ℕ
word [] = 0
word (b ∷ bs) = b + 256 * word bs

-- The `n` bytes of a word.
abbrev pub bytes : ℕ → ℕ → List ℕ
bytes zero v = []
bytes (suc n) v = (v % 256) ∷ bytes n (v / 256)

-- `~` of an `n`-byte word.
abbrev pub complement : ℕ → ℕ → ℕ
complement n v = 256 ^ n - 1 - v

pub length-bytes : (n v : ℕ) → length (bytes n v) ≡ n
length-bytes zero v = refl
length-bytes (suc n) v = ap suc (length-bytes n (v / 256))

pub bytes-IsBytes : (n v : ℕ) → IsBytes (bytes n v)
bytes-IsBytes zero v = tt
bytes-IsBytes (suc n) v = (omega arith, bytes-IsBytes n (v / 256))

pub word-lt : (bs : List ℕ) → IsBytes bs → word bs < 256 ^ length bs
word-lt [] h = omega arith
word-lt (b ∷ bs) h = omega (arith, h.0, word-lt bs h.1, pow-suc 256 (length bs))

-- Writing back what was read changes nothing.
pub bytes-word : (bs : List ℕ) → IsBytes bs → bytes (length bs) (word bs) ≡ bs
bytes-word [] h = refl
bytes-word (b ∷ bs) h =
    ap₂ ◌∷◌ (omega (arith, h.0)) (ap (bytes (length bs)) (omega (arith, h.0)) ∙ bytes-word bs h.1)

pub word-bytes : (n v : ℕ) → v < 256 ^ n → word (bytes n v) ≡ v
word-bytes zero v h = omega arith
word-bytes (suc n) v h =
    omega (arith, word-bytes n (v / 256) (omega (arith, pow-suc 256 n)), pow-suc 256 n)

-- `&` of words is `&` of their bytes.
pub bit_and-word :
    (xs ys : List ℕ)
    → IsBytes xs
    → IsBytes ys
    → length xs ≡ length ys
    → bit_and (word xs) (word ys) ≡ word (zip_with bit_and xs ys)
bit_and-word [] [] h k e = refl
bit_and-word [] (y ∷ ys) h k e = absurd (omega arith)
bit_and-word (x ∷ xs) [] h k e = absurd (omega arith)
bit_and-word (x ∷ xs) (y ∷ ys) h k e = omega (
  arith,
  bit_and_fields 8 x (word xs) y (word ys) h.0 k.0,
  bit_and-word xs ys h.1 k.1 (omega arith),
)

pub complement-word :
    (xs : List ℕ) → IsBytes xs → complement (length xs) (word xs) ≡ word (map (λ b. 255 - b) xs)
complement-word [] h = refl
complement-word (x ∷ xs) h =
    omega (arith, h.0, complement-word xs h.1, word-lt xs h.1, pow-suc 256 (length xs))
