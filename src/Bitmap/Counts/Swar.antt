-- ===== src/Bitmap/Counts/Swar.antt =====
-- The parallel bit count of `count_bits` is the sum of the bit counts of the four bytes.
use aflgo.Common.{
  ℕ, zero, suc, ◌+◌, ◌-◌, ◌*◌, ◌/◌, ◌%◌, ◌^◌, ◌<◌, ◌≤◌, ◌==◌, ==_iff, leb, leb→le, ◌&&◌, true, Bool,
  &&_parts, bit_and, List, [], ◌∷◌, map, length, replicate, ◌≡◌, refl, ap, ◌∙◌, arith, all_below,
  all_below_sound, All,
}
use aflgo.Bits.Fields.{bit_and_fields}
use aflgo.Bits.Test.{bit_and-zero, bit_and-le_left}
use aflgo.Bitmap.Memory.{word, IsBytes, word-lt}
use aflgo.Bitmap.Counts.{swar}

-- The bits set among the lowest `n`.
abbrev pub bits_set : ℕ → ℕ → ℕ
bits_set zero b = 0
bits_set (suc n) b = b % 2 + bits_set n (b / 2)

unfoldable pub popcount : ℕ → ℕ
popcount b = bits_set 8 b

-- What each statement of `swar` does to a byte.
abbrev pairs : ℕ → ℕ
pairs b = b - bit_and (b / 2) 0x55

abbrev nibbles : ℕ → ℕ
nibbles b = bit_and b 0x33 + bit_and (b / 4) 0x33

abbrev total : ℕ → ℕ
total b = b % 16 + b / 16

-- A byte both halves of which count at most four.
abbrev IsNibbles : ℕ → Type 0
IsNibbles d = (d / 16 ≤ 4) × (d % 16 ≤ 4)

abbrev total_test : ℕ → Bool
total_test b = total (nibbles (pairs b)) == popcount b

abbrev small_test : ℕ → Bool
small_test b = leb (nibbles (pairs b) / 16) 4 && leb (nibbles (pairs b) % 16) 4

total_table : all_below 256 (λ b. total_test b && small_test b) ≡ true
unfolding all_below popcount
total_table = refl

byte_total :
    (b : ℕ) → b < 256 → (total (nibbles (pairs b)) ≡ popcount b) × IsNibbles (nibbles (pairs b))
byte_total b h =
    let t = &&_parts (total_test b) (small_test b) (all_below_sound 256 _ b total_table h) in
    let s = &&_parts _ _ t.1 in ((==_iff _ _).0 t.0, (leb→le _ 4 s.0, leb→le _ 4 s.1))

-- A mask after a shift, byte by byte: the bits that come down from the next byte are masked out.
mask_shift_one :
    (bs : List ℕ)
    → IsBytes bs
    → bit_and (word bs / 2) (word (replicate (length bs) 0x55))
      ≡ word (map (λ b. bit_and (b / 2) 0x55) bs)
mask_shift_one [] h = refl
mask_shift_one (b ∷ bs) h = omega (
  arith,
  ap (λ (t : ℕ). bit_and t (0x55 + 256 * word (replicate (length bs) 0x55))) (shifted b (word bs)),
  bit_and_fields 8 (b / 2 + 128 * (word bs % 2)) (word bs / 2) 0x55
      (word (replicate (length bs) 0x55)) (omega (arith, h.0)) (omega arith),
  bit_and_fields 7 (b / 2) (word bs % 2) 0x55 0 (omega (arith, h.0)) (omega arith),
  bit_and-zero (word bs % 2),
  mask_shift_one bs h.1,
)
  where
    shifted : (b r : ℕ) → (b + 256 * r) / 2 ≡ b / 2 + 128 * (r % 2) + 256 * (r / 2)
    shifted b r = omega arith

mask_shift_two :
    (bs : List ℕ)
    → IsBytes bs
    → bit_and (word bs / 4) (word (replicate (length bs) 0x33))
      ≡ word (map (λ b. bit_and (b / 4) 0x33) bs)
mask_shift_two [] h = refl
mask_shift_two (b ∷ bs) h = omega (
  arith,
  ap (λ (t : ℕ). bit_and t (0x33 + 256 * word (replicate (length bs) 0x33))) (shifted b (word bs)),
  bit_and_fields 8 (b / 4 + 64 * (word bs % 4)) (word bs / 4) 0x33
      (word (replicate (length bs) 0x33)) (omega (arith, h.0)) (omega arith),
  bit_and_fields 6 (b / 4) (word bs % 4) 0x33 0 (omega (arith, h.0)) (omega arith),
  bit_and-zero (word bs % 4),
  mask_shift_two bs h.1,
)
  where
    shifted : (b r : ℕ) → (b + 256 * r) / 4 ≡ b / 4 + 64 * (r % 4) + 256 * (r / 4)
    shifted b r = omega arith

mask_word :
    (m : ℕ) (bs : List ℕ)
    → m < 256
    → IsBytes bs
    → bit_and (word bs) (word (replicate (length bs) m)) ≡ word (map (λ b. bit_and b m) bs)
mask_word m [] p h = refl
mask_word m (b ∷ bs) p h = omega (
  arith,
  bit_and_fields 8 b (word bs) m (word (replicate (length bs) m)) h.0 p,
  mask_word m bs p h.1,
)

low_half : (x : ℕ) → x < 256 → bit_and x 0x0f ≡ x % 16
unfolding all_below
low_half x h = omega (
  arith,
  ap (λ (t : ℕ). bit_and t 0x0f) (split x),
  bit_and_fields 4 (x % 16) (x / 16) 0x0f 0 (omega arith) (omega arith),
  bit_and-zero (x / 16),
  ones (x % 16) (omega arith),
)
  where
    split : (x : ℕ) → x ≡ x % 16 + 16 * (x / 16)
    split x = omega arith

    ones_table : all_below 16 (λ y. bit_and y 0x0f == y) ≡ true
    ones_table = refl

    ones : (y : ℕ) → y < 16 → bit_and y 0x0f ≡ y
    ones y h = (==_iff _ _).0 (all_below_sound 16 (λ y. bit_and y 0x0f == y) y ones_table h)

-- The last statement: the halves of each byte are added, and what the next byte brings is masked.
next_low : (ds : List ℕ) → All IsNibbles ds → word ds % 16 ≤ 4
next_low [] h = omega arith
next_low (d ∷ ds) h = omega (arith, h.0.1)

mask_total :
    (ds : List ℕ)
    → All IsNibbles ds
    → bit_and (word ds + word ds / 16) (word (replicate (length ds) 0x0f)) ≡ word (map total ds)
mask_total [] h = refl
mask_total (d ∷ ds) h = omega (
  arith,
  ap (λ (t : ℕ). bit_and t (0x0f + 256 * word (replicate (length ds) 0x0f)))
      (shifted d (word ds) h.0),
  bit_and_fields 8 (d + d / 16 + 16 * (word ds % 16)) (word ds + word ds / 16) 0x0f
      (word (replicate (length ds) 0x0f)) (omega (arith, h.0.0, h.0.1, next_low ds h.1))
      (omega arith),
  low_half (d + d / 16 + 16 * (word ds % 16)) (omega (arith, h.0.0, h.0.1, next_low ds h.1)),
  h.0.0,
  h.0.1,
  mask_total ds h.1,
)
  where
    shifted :
        (d r : ℕ)
        → IsNibbles d
        → d + 256 * r + (d + 256 * r) / 16 ≡ d + d / 16 + 16 * (r % 16) + 256 * (r + r / 16)
    shifted d r s = omega (arith, s.0, s.1)

-- The differences and sums of words whose bytes do not borrow.
word-sub :
    (f : ℕ → ℕ) (bs : List ℕ)
    → ((b : ℕ) → f b ≤ b)
    → (word bs - word (map f bs) ≡ word (map (λ b. b - f b) bs)) × (word (map f bs) ≤ word bs)
word-sub f [] h = omega arith
word-sub f (b ∷ bs) h =
    let r = word-sub f bs h in (omega (arith, h b, r.0, r.1), omega (arith, h b, r.1))

word-add :
    (f g : ℕ → ℕ) (bs : List ℕ) → word (map f bs) + word (map g bs) ≡ word (map (λ b. f b + g b) bs)
word-add f g [] = omega arith
word-add f g (b ∷ bs) = omega (arith, word-add f g bs)

module _ (a b c d : ℕ) where
  abbrev pub four : List ℕ
  four = a ∷ b ∷ c ∷ d ∷ []

  stage_one :
      IsBytes four
      → (word four + 2 ^ 32 - bit_and (word four / 2) 0x55555555) % 2 ^ 32 ≡ word (map pairs four)
  stage_one h =
      let less = word-sub (λ x. bit_and (x / 2) 0x55) four (λ x. halved x) in
      omega (arith, mask_shift_one four h, less.0, less.1, word-lt four h)
    where
      halved : (x : ℕ) → bit_and (x / 2) 0x55 ≤ x
      halved x = omega (arith, bit_and-le_left (x / 2) 0x55)

  stage_two :
      IsBytes four
      → (bit_and (word four) 0x33333333 + bit_and (word four / 4) 0x33333333)
        ≡ word (map nibbles four)
  stage_two h = omega (
    arith,
    mask_word 0x33 four (omega arith) h,
    mask_shift_two four h,
    word-add (λ x. bit_and x 0x33) (λ x. bit_and (x / 4) 0x33) four,
  )

  stage_three :
      All IsNibbles four
      → bit_and (word four + word four / 16) 0x0f0f0f0f * 0x01010101 % 2 ^ 32 / 2 ^ 24
        ≡ total a + total b + total c + total d
  stage_three h = omega (arith, mask_total four h, h)

-- The second and the last statement of `swar`.
abbrev second : ℕ → ℕ
second v1 = (bit_and v1 0x33333333 + bit_and (v1 / 4) 0x33333333) % 2 ^ 32

abbrev last : ℕ → ℕ
last v2 = bit_and ((v2 + v2 / 16) % 2 ^ 32) 0x0f0f0f0f * 0x01010101 % 2 ^ 32 / 2 ^ 24

second_lem :
    (a b c d : ℕ)
    → IsBytes (four a b c d)
    → All IsNibbles (map nibbles (four a b c d))
    → second (word (four a b c d)) ≡ word (map nibbles (four a b c d))
second_lem a b c d h n = omega (arith, stage_two a b c d h, n)

last_lem :
    (a b c d : ℕ)
    → All IsNibbles (four a b c d)
    → last (word (four a b c d)) ≡ total a + total b + total c + total d
last_lem a b c d n =
    ap (λ t. bit_and t 0x0f0f0f0f * 0x01010101 % 2 ^ 32 / 2 ^ 24) (no_wrap a b c d n)
    ∙ stage_three a b c d n
  where
    no_wrap :
        (a b c d : ℕ)
        → All IsNibbles (four a b c d)
        → (word (four a b c d) + word (four a b c d) / 16) % 2 ^ 32
          ≡ word (four a b c d) + word (four a b c d) / 16
    no_wrap a b c d n = omega (arith, n)

pub swar_lem :
    (a b c d : ℕ)
    → IsBytes (four a b c d)
    → swar (word (four a b c d)) ≡ popcount a + popcount b + popcount c + popcount d
unfolding swar
swar_lem a b c d h =
    let ta = byte_total a h.0 in
    let tb = byte_total b h.1.0 in
    let tc = byte_total c h.1.1.0 in
    let td = byte_total d h.1.1.1.0 in
    let small : All IsNibbles (map nibbles (map pairs (four a b c d))) =
      (ta.1, (tb.1, (tc.1, (td.1, tt)))) in
    ap (λ v1. last (second v1)) (stage_one a b c d h)
    ∙ ap last (second_lem (pairs a) (pairs b) (pairs c) (pairs d) (omega (arith, h)) small)
    ∙ last_lem (nibbles (pairs a)) (nibbles (pairs b)) (nibbles (pairs c)) (nibbles (pairs d)) small
    ∙ omega (arith, ta.0, tb.0, tc.0, td.0)
