-- ===== src/Bitmap/Virgin/Chunk.antt =====
-- One word of the loop of `has_new_bits`, against the reference on its bytes.
use aflgo.Common.{
  ℕ, ◌-◌, ◌<◌, ◌≤◌, ◌!=◌, ◌==◌, ==_iff, if◌then◌else◌, max, bit_and, true, inl, inr, ◌≢◌, List, [],
  ◌∷◌, map, length, zip_with, ◌≡◌, refl, sym, ap, ap₂, ◌∙◌, arith, all_below, all_below_sound,
  Bool-cases, length-map, length-zip_with,
}
use native.Mathlib.Decide.{dec_lt}
use aflgo.Bits.Test.{
  test, test-zero, test_ext, test-bit_and, test-complement, test_beyond, test-le-one, bit_and-le,
  bit_and-le_left,
}
use aflgo.Bitmap.Memory.{
  word, bytes, complement, IsByte, IsBytes, bit_and-word, complement-word, bytes-word,
}
use aflgo.Bitmap.Virgin.{any_pristine, overlaps, raise, clear_word}
use aflgo.Bitmap.Virgin.Reference.{novelty, wipe, wiped}

full_table : all_below 256 (λ x. bit_and x 255 == x) ≡ true
unfolding all_below
full_table = refl

pub bit_and-full : (x : ℕ) → x < 256 → bit_and x 255 ≡ x
bit_and-full x h = (==_iff _ x).0 (all_below_sound 256 (λ x. bit_and x 255 == x) x full_table h)

-- A trace byte with no bit in the virgin byte leaves it alone.
pub wipe_disjoint : (c v : ℕ) → c < 256 → v < 256 → bit_and c v ≡ 0 → wipe c v ≡ v
wipe_disjoint c v hc hv e = test_ext (wipe c v) v (λ k. elim (dec_lt k 8) [
  | yes p ↦ omega (
    arith,
    test-bit_and k v (255 - c),
    test-complement 8 k c p hc,
    test-bit_and k c v,
    ap (test k) e,
    test-zero k,
    test-le-one k v,
    test-le-one k c,
  )
  | no p ↦ omega (arith, test-bit_and k v (255 - c), test_beyond 8 k v hv (omega arith))
])

pub wipe-IsByte : (c v : ℕ) → IsByte (wipe c v)
wipe-IsByte c v = omega (arith, bit_and-le v (255 - c))

pub wiped-IsBytes : (cur vir : List ℕ) → IsBytes (wiped cur vir)
wiped-IsBytes [] vir = tt
wiped-IsBytes (c ∷ cur) [] = tt
wiped-IsBytes (c ∷ cur) (v ∷ vir) = (wipe-IsByte c v, wiped-IsBytes cur vir)

-- The novelty of a word, by its value and the pristine test.
pub novelty-word :
    (cur vir : List ℕ)
    → IsBytes cur
    → IsBytes vir
    → novelty cur vir
      ≡ (if any_pristine cur vir then 2 else if word (zip_with bit_and cur vir) != 0 then 1 else 0)
novelty-word [] vir h k = refl
novelty-word (c ∷ cur) [] h k = refl
novelty-word (c ∷ cur) (v ∷ vir) h k =
    ground (arith, novelty-word cur vir h.1 k.1, bit_and-full c h.0)

-- A pristine byte that the trace hits makes the word overlap.
any_pristine-word :
    (cur vir : List ℕ)
    → IsBytes cur
    → any_pristine cur vir ≡ true
    → word (zip_with bit_and cur vir) ≢ 0
any_pristine-word [] vir h e = cc
any_pristine-word (c ∷ cur) [] h e = cc
any_pristine-word (c ∷ cur) (v ∷ vir) h e =
    ground (arith, bit_and-full c h.0, any_pristine-word cur vir h.1)

wiped_disjoint :
    (cur vir : List ℕ)
    → IsBytes cur
    → IsBytes vir
    → length cur ≡ length vir
    → word (zip_with bit_and cur vir) ≡ 0
    → wiped cur vir ≡ vir
wiped_disjoint [] [] h k e z = refl
wiped_disjoint [] (v ∷ vir) h k e z = absurd (omega arith)
wiped_disjoint (c ∷ cur) [] h k e z = refl
wiped_disjoint (c ∷ cur) (v ∷ vir) h k e z =
    ap₂ ◌∷◌ (wipe_disjoint c v h.0 k.0 (omega arith))
      (wiped_disjoint cur vir h.1 k.1 (omega arith) (omega arith))

complement-IsBytes : (bs : List ℕ) → IsBytes (map (λ b. 255 - b) bs)
complement-IsBytes [] = tt
complement-IsBytes (b ∷ bs) = (omega arith, complement-IsBytes bs)

zip-complement :
    (cur vir : List ℕ)
    → length cur ≡ length vir
    → zip_with bit_and vir (map (λ b. 255 - b) cur) ≡ wiped cur vir
zip-complement [] [] e = refl
zip-complement [] (v ∷ vir) e = absurd (omega arith)
zip-complement (c ∷ cur) [] e = absurd (omega arith)
zip-complement (c ∷ cur) (v ∷ vir) e = ap (λ l. wipe c v ∷ l) (zip-complement cur vir (omega arith))

module _ (cur vir : List ℕ) (hc : IsBytes cur) (hv : IsBytes vir) (w : ℕ) (cw : length cur ≡ w)
    (vw : length vir ≡ w) where
  same : length cur ≡ length vir
  same = omega arith

  -- The word operation clears the bits byte by byte.
  clear_word_lem : clear_word w cur vir ≡ wiped cur vir
  clear_word_lem =
      ap (λ t. bytes w (bit_and (word vir) t))
        (ap (λ n. complement n (word cur)) (sym cw) ∙ complement-word cur hc)
      ∙ ap (bytes w) (
          bit_and-word vir (map (λ b. 255 - b) cur) hv (complement-IsBytes cur)
            (omega (arith, length-map {0, 0} (λ (b : ℕ). 255 - b) cur))
          ∙ ap word (zip-complement cur vir same))
      ∙ ap (λ n. bytes n (word (wiped cur vir)))
          (omega (arith, same, length-zip_with {0, 0, 0} wipe cur vir))
      ∙ bytes-word (wiped cur vir) (wiped-IsBytes cur vir)

  overlaps_lem : overlaps cur vir ≡ (word (zip_with bit_and cur vir) != 0)
  overlaps_lem =
      ground (arith, bit_and-word cur vir hc hv same, bit_and-le_left (word cur) (word vir))

  -- One round of the loop does to its word what the reference does to the bytes.
  pub chunk_ret :
      (ret : ℕ)
      → ret ≤ 2
      → (if overlaps cur vir then raise cur vir ret else ret) ≡ max ret (novelty cur vir)
  chunk_ret ret r =
      rw overlaps_lem (ground (arith, novelty-word cur vir hc hv, any_pristine-word cur vir hc))

  pub chunk_virgin : (if overlaps cur vir then clear_word w cur vir else vir) ≡ wiped cur vir
  chunk_virgin = elim (Bool-cases (overlaps cur vir)) [
    | inl hit ↦ rw hit clear_word_lem
    | inr miss ↦ rw miss (sym (wiped_disjoint cur vir hc hv same (ground (arith, overlaps_lem))))
  ]
