-- ===== src/Bitmap/Counts/Laws.antt =====
-- The counting loops count bits, non-zero bytes and bytes other than 255. The result is a `u32`,
-- which does not wrap on a map of fewer than 2 ^ 27 bytes.
use aflgo.Common.{
  ℕ, zero, suc, ◌+◌, ◌*◌, ◌/◌, ◌%◌, ◌^◌, ◌<◌, ◌≤◌, ◌==◌, ==_iff, ◌!=◌, Bool, if◌then◌else◌, bit_and,
  List, [], ◌∷◌, map, sum, length, take, ◌≡◌, refl, ap, ◌∙◌, arith, Bool-cases, inl, inr,
}
use aflgo.Bits.Test.{bit_and-zero}
use aflgo.Bitmap.Memory.{word, IsBytes, bit_and-word}
use aflgo.Bitmap.Virgin.Chunk.{bit_and-full}
use aflgo.Bitmap.Counts.{
  swar, count_bits_loop, ff, bump_set, count_bytes_loop, bump_partial, count_non_255_loop,
}
use aflgo.Bitmap.Counts.Swar.{bits_set, popcount, four, swar_lem}

-- The bytes with a property.
abbrev pub count : (ℕ → Bool) → List ℕ → ℕ
count p [] = 0
count p (x ∷ xs) = (if p x then 1 else 0) + count p xs

pub count-le : (p : ℕ → Bool) (xs : List ℕ) → count p xs ≤ length xs
count-le p [] = omega arith
count-le p (x ∷ xs) = ground (arith, count-le p xs)

ones_popcount : popcount 255 ≡ 8
unfolding popcount
ones_popcount = refl

all_ones :
    (a b c d : ℕ)
    → IsBytes (four a b c d)
    → word (four a b c d) ≡ 0xffffffff
    → (a ≡ 255) × (b ≡ 255) × (c ≡ 255) × (d ≡ 255)
all_ones a b c d h e = omega (arith, h)

-- One round of `count_bits`.
word_bits :
    (a b c d : ℕ)
    → IsBytes (four a b c d)
    → (if word (four a b c d) == 0xffffffff then 32 else swar (word (four a b c d)))
      ≡ popcount a + popcount b + popcount c + popcount d
word_bits a b c d h = elim (Bool-cases (word (four a b c d) == 0xffffffff)) [
  | inl e ↦ rw e (ones a b c d (all_ones a b c d h ((==_iff _ _).0 e)))
  | inr e ↦ rw e (swar_lem a b c d h)
]
  where
    ones :
        (a b c d : ℕ)
        → (a ≡ 255) × (b ≡ 255) × (c ≡ 255) × (d ≡ 255)
        → 32 ≡ popcount a + popcount b + popcount c + popcount d
    ones a b c d e = rw (e.0, e.1, e.2, e.3, ones_popcount)

bits_set-le : (n b : ℕ) → bits_set n b ≤ n
bits_set-le zero b = omega arith
bits_set-le (suc n) b = omega (arith, bits_set-le n (b / 2))

popcount-le : (b : ℕ) → popcount b ≤ 8
unfolding popcount
popcount-le b = bits_set-le 8 b

-- Four bytes more of the prefix.
take-four :
    (i a b c d : ℕ) (mem : List ℕ)
    → take (suc i * 4) (a ∷ b ∷ c ∷ d ∷ mem) ≡ a ∷ b ∷ c ∷ d ∷ take (i * 4) mem
take-four i a b c d mem = ap (λ n. take n (a ∷ b ∷ c ∷ d ∷ mem)) (four_more i)
  where
    four_more : (i : ℕ) → suc i * 4 ≡ suc (suc (suc (suc (i * 4))))
    four_more i = omega arith

pub count_bits_loop_lem :
    (i : ℕ) (mem : List ℕ) (ret : ℕ)
    → IsBytes mem
    → i * 4 ≤ length mem
    → ret + i * 32 < 2 ^ 32
    → count_bits_loop i mem ret ≡ ret + sum (map popcount (take (i * 4) mem))
unfolding count_bits_loop
count_bits_loop_lem zero mem ret h e fits = omega arith
count_bits_loop_lem (suc i) (a ∷ b ∷ c ∷ d ∷ mem) ret h e fits =
    rw (take-four i a b c d mem, word_bits a b c d (h.0, (h.1.0, (h.1.1.0, (h.1.1.1.0, tt)))))
      (count_bits_loop_lem i mem
          ((ret + (popcount a + popcount b + popcount c + popcount d)) % 2 ^ 32) h.1.1.1.1
          (omega arith) (omega (arith, popcount-le a, popcount-le b, popcount-le c, popcount-le d))
        ∙ omega (arith, popcount-le a, popcount-le b, popcount-le c, popcount-le d))
count_bits_loop_lem (suc i) [] ret h e fits = absurd (omega arith)
count_bits_loop_lem (suc i) (_ ∷ []) ret h e fits = absurd (omega arith)
count_bits_loop_lem (suc i) (_ ∷ _ ∷ []) ret h e fits = absurd (omega arith)
count_bits_loop_lem (suc i) (_ ∷ _ ∷ _ ∷ []) ret h e fits = absurd (omega arith)

-- The bytes of a word behind the masks.
ff_bytes :
    (a b c d : ℕ)
    → IsBytes (four a b c d)
    → (bit_and (word (four a b c d)) (ff 0) ≡ a)
      × (bit_and (word (four a b c d)) (ff 1) ≡ b * 2 ^ 8)
      × (bit_and (word (four a b c d)) (ff 2) ≡ c * 2 ^ 16)
      × (bit_and (word (four a b c d)) (ff 3) ≡ d * 2 ^ 24)
ff_bytes a b c d h = (
  omega (arith, masked 0xff 0 0 0 (omega arith), full, zeros),
  omega (arith, masked 0 0xff 0 0 (omega arith), full, zeros),
  omega (arith, masked 0 0 0xff 0 (omega arith), full, zeros),
  omega (arith, masked 0 0 0 0xff (omega arith), full, zeros),
)
  where
    full : (bit_and a 255 ≡ a) × (bit_and b 255 ≡ b) × (bit_and c 255 ≡ c) × (bit_and d 255 ≡ d)
    full =
        (bit_and-full a h.0, bit_and-full b h.1.0, bit_and-full c h.1.1.0, bit_and-full d h.1.1.1.0)

    zeros : (bit_and a 0 ≡ 0) × (bit_and b 0 ≡ 0) × (bit_and c 0 ≡ 0) × (bit_and d 0 ≡ 0)
    zeros = (bit_and-zero a, bit_and-zero b, bit_and-zero c, bit_and-zero d)

    masked :
        (m n o p : ℕ)
        → IsBytes (four m n o p)
        → bit_and (word (four a b c d)) (word (four m n o p))
          ≡ word (four (bit_and a m) (bit_and b n) (bit_and c o) (bit_and d p))
    masked m n o p k = bit_and-word (four a b c d) (four m n o p) h k refl

-- 1 for a byte that is set.
abbrev set_one : ℕ → ℕ
set_one x = if x != 0 then 1 else 0

bump_set_all :
    (a b c d ret : ℕ)
    → IsBytes (four a b c d)
    → ret + 4 < 2 ^ 32
    → let v = word (four a b c d) in
      bump_set v 3 (bump_set v 2 (bump_set v 1 (bump_set v 0 ret)))
      ≡ ret + set_one a + set_one b + set_one c + set_one d
bump_set_all a b c d ret h fits =
    let m = ff_bytes a b c d h in
    rw
      (
        bump 0 a ret (ground (arith, m.0)) (omega arith),
        bump 1 b (ret + set_one a) (ground (arith, m.1)) (ground arith),
        bump 2 c (ret + set_one a + set_one b) (ground (arith, m.2)) (ground arith),
        bump 3 d (ret + set_one a + set_one b + set_one c) (ground (arith, m.3)) (ground arith),
      )
      refl
  where
    bump :
        (k x r : ℕ)
        → (bit_and (word (four a b c d)) (ff k) != 0) ≡ (x != 0)
        → r + 1 < 2 ^ 32
        → bump_set (word (four a b c d)) k r ≡ r + set_one x
    bump k x r e fits = rw e (ground arith)

word_zero :
    (a b c d : ℕ) → word (four a b c d) ≡ 0 → set_one a + set_one b + set_one c + set_one d ≡ 0
word_zero a b c d e = ground arith

-- One round of `count_bytes`.
word_set :
    (a b c d ret : ℕ)
    → IsBytes (four a b c d)
    → ret + 4 < 2 ^ 32
    → let v = word (four a b c d) in
      (if v == 0 then ret else bump_set v 3 (bump_set v 2 (bump_set v 1 (bump_set v 0 ret))))
      ≡ ret + count (λ x. x != 0) (four a b c d)
word_set a b c d ret h fits = elim (Bool-cases (word (four a b c d) == 0)) [
  | inl z ↦ rw z (omega (arith, word_zero a b c d ((==_iff _ _).0 z)))
  | inr z ↦ rw z (omega (arith, bump_set_all a b c d ret h fits))
]

pub count_bytes_loop_lem :
    (i : ℕ) (mem : List ℕ) (ret : ℕ)
    → IsBytes mem
    → i * 4 ≤ length mem
    → ret + i * 4 < 2 ^ 32
    → count_bytes_loop i mem ret ≡ ret + count (λ x. x != 0) (take (i * 4) mem)
unfolding count_bytes_loop
count_bytes_loop_lem zero mem ret h e fits = omega arith
count_bytes_loop_lem (suc i) (a ∷ b ∷ c ∷ d ∷ mem) ret h e fits =
    rw
      (
        take-four i a b c d mem,
        word_set a b c d ret (h.0, (h.1.0, (h.1.1.0, (h.1.1.1.0, tt)))) (omega arith),
      )
      (count_bytes_loop_lem i mem (ret + count (λ x. x != 0) (four a b c d)) h.1.1.1.1 (omega arith)
          (omega (arith, count-le (λ x. x != 0) (four a b c d)))
        ∙ omega arith)
count_bytes_loop_lem (suc i) [] ret h e fits = absurd (omega arith)
count_bytes_loop_lem (suc i) (_ ∷ []) ret h e fits = absurd (omega arith)
count_bytes_loop_lem (suc i) (_ ∷ _ ∷ []) ret h e fits = absurd (omega arith)
count_bytes_loop_lem (suc i) (_ ∷ _ ∷ _ ∷ []) ret h e fits = absurd (omega arith)

-- One round of `count_non_255_bytes`.
word_partial :
    (a b c d ret : ℕ)
    → IsBytes (four a b c d)
    → ret + 4 < 2 ^ 32
    → let v = word (four a b c d) in
      (if v == 0xffffffff
        then ret
        else bump_partial v 3 (bump_partial v 2 (bump_partial v 1 (bump_partial v 0 ret))))
      ≡ ret + count (λ x. x != 255) (four a b c d)
word_partial a b c d ret h fits = ground (arith, ff_bytes a b c d h, h)

pub count_non_255_loop_lem :
    (i : ℕ) (mem : List ℕ) (ret : ℕ)
    → IsBytes mem
    → i * 4 ≤ length mem
    → ret + i * 4 < 2 ^ 32
    → count_non_255_loop i mem ret ≡ ret + count (λ x. x != 255) (take (i * 4) mem)
unfolding count_non_255_loop
count_non_255_loop_lem zero mem ret h e fits = omega arith
count_non_255_loop_lem (suc i) (a ∷ b ∷ c ∷ d ∷ mem) ret h e fits =
    rw
      (
        take-four i a b c d mem,
        word_partial a b c d ret (h.0, (h.1.0, (h.1.1.0, (h.1.1.1.0, tt)))) (omega arith),
      )
      (count_non_255_loop_lem i mem (ret + count (λ x. x != 255) (four a b c d)) h.1.1.1.1
          (omega arith) (omega (arith, count-le (λ x. x != 255) (four a b c d)))
        ∙ omega arith)
count_non_255_loop_lem (suc i) [] ret h e fits = absurd (omega arith)
count_non_255_loop_lem (suc i) (_ ∷ []) ret h e fits = absurd (omega arith)
count_non_255_loop_lem (suc i) (_ ∷ _ ∷ []) ret h e fits = absurd (omega arith)
count_non_255_loop_lem (suc i) (_ ∷ _ ∷ _ ∷ []) ret h e fits = absurd (omega arith)
