-- ===== src/Stages/Buffer/Laws.antt =====
-- Changes of the buffer that undo or replace one another.
use aflgo.Common.{
  ℕ, zero, suc, ◌+◌, ◌/◌, ◌%◌, ◌^◌, ◌<◌, ◌≤◌, bit_xor, List, [], ◌∷◌, length, take, drop, modify,
  ◌≡◌, refl, ap, sym, ◌∙◌, subst, arith, length-take, length-drop, take-All, drop-All,
}
use aflgo.Bits.Test.{test_ext, test-bit_xor, bit_xor_twice}
use aflgo.Bitmap.Memory.{
  IsByte, IsBytes, word, bytes, word-lt, length-bytes, bytes-word, word-bytes,
}
use aflgo.Stages.Buffer.{flip_bit, flip_bits, over, write, peek, poke}

-- Two writes through pointers that commute, and one that undoes itself.
module _ {ℓ} {A : Type ℓ} where
  modify_comm :
      (xs : List A) (i j : ℕ) (f g : A → A)
      → ((x : A) → g (f x) ≡ f (g x))
      → modify (modify xs i f) j g ≡ modify (modify xs j g) i f
  modify_comm [] i j f g h = refl
  modify_comm (x ∷ xs) zero zero f g h = ap (λ y. y ∷ xs) (h x)
  modify_comm (x ∷ xs) zero (suc j) f g h = refl
  modify_comm (x ∷ xs) (suc i) zero f g h = refl
  modify_comm (x ∷ xs) (suc i) (suc j) f g h = ap (λ l. x ∷ l) (modify_comm xs i j f g h)

  pub modify_undo :
      (xs : List A) (i : ℕ) (f : A → A) → ((x : A) → f (f x) ≡ x) → modify (modify xs i f) i f ≡ xs
  modify_undo [] i f h = refl
  modify_undo (x ∷ xs) zero f h = ap (λ y. y ∷ xs) (h x)
  modify_undo (x ∷ xs) (suc i) f h = ap (λ l. x ∷ l) (modify_undo xs i f h)

bit_xor_swap : (x m n : ℕ) → bit_xor (bit_xor x m) n ≡ bit_xor (bit_xor x n) m
bit_xor_swap x m n = test_ext _ _ (λ k. omega (
  arith,
  test-bit_xor k (bit_xor x m) n,
  test-bit_xor k x m,
  test-bit_xor k (bit_xor x n) m,
  test-bit_xor k x n,
))

flip_comm : (buf : List ℕ) (a b : ℕ) → flip_bit (flip_bit buf a) b ≡ flip_bit (flip_bit buf b) a
flip_comm buf a b =
    modify_comm buf (a / 8) (b / 8) _ _
      (λ x. bit_xor_swap x (128 / 2 ^ (a % 8)) (128 / 2 ^ (b % 8)))

pub flip_undo : (buf : List ℕ) (b : ℕ) → flip_bit (flip_bit buf b) b ≡ buf
flip_undo buf b = modify_undo buf (b / 8) _ (λ x. bit_xor_twice x (128 / 2 ^ (b % 8)))

flip_bits_comm :
    (width a b : ℕ) (buf : List ℕ)
    → flip_bits width a (flip_bit buf b) ≡ flip_bit (flip_bits width a buf) b
flip_bits_comm zero a b buf = refl
flip_bits_comm (suc width) a b buf =
    ap (flip_bits width (a + 1)) (flip_comm buf b a)
    ∙ flip_bits_comm width (a + 1) b (flip_bit buf a)

-- Flipping a run of bits twice.
pub flip_bits_undo : (width b : ℕ) (buf : List ℕ) → flip_bits width b (flip_bits width b buf) ≡ buf
flip_bits_undo zero b buf = refl
flip_bits_undo (suc width) b buf =
    flip_bits_comm width (b + 1) b (flip_bits width (b + 1) (flip_bit buf b))
    ∙ ap (λ l. flip_bit l b) (flip_bits_undo width (b + 1) (flip_bit buf b))
    ∙ flip_undo buf b

pub length-over : (buf bs : List ℕ) → length (over buf bs) ≡ length buf
length-over buf [] = refl
length-over [] (b ∷ bs) = refl
length-over (x ∷ buf) (b ∷ bs) = ap suc (length-over buf bs)

pub length-write : (buf : List ℕ) (i : ℕ) (bs : List ℕ) → length (write buf i bs) ≡ length buf
length-write buf zero bs = length-over buf bs
length-write [] (suc i) bs = refl
length-write (x ∷ buf) (suc i) bs = ap suc (length-write buf i bs)

over_again : (buf cs bs : List ℕ) → length cs ≤ length bs → over (over buf cs) bs ≡ over buf bs
over_again buf [] bs h = refl
over_again [] (a ∷ cs) bs h = refl
over_again (x ∷ buf) (a ∷ cs) [] h = absurd (omega arith)
over_again (x ∷ buf) (a ∷ cs) (b ∷ bs) h = ap (λ l. b ∷ l) (over_again buf cs bs (omega arith))

-- A write that is at least cs long hides the one before.
pub write_again :
    (buf : List ℕ) (i : ℕ) (cs bs : List ℕ)
    → length cs ≤ length bs
    → write (write buf i cs) i bs ≡ write buf i bs
write_again buf zero cs bs h = over_again buf cs bs h
write_again [] (suc i) cs bs h = refl
write_again (x ∷ buf) (suc i) cs bs h = ap (λ l. x ∷ l) (write_again buf i cs bs h)

over_undo : (buf cs : List ℕ) → over (over buf cs) (take (length cs) buf) ≡ buf
over_undo buf [] = refl
over_undo [] (a ∷ cs) = refl
over_undo (x ∷ buf) (a ∷ cs) = ap (λ l. x ∷ l) (over_undo buf cs)

-- Writing back what a write has covered.
pub write_undo :
    (buf : List ℕ) (i : ℕ) (cs : List ℕ)
    → write (write buf i cs) i (take (length cs) (drop i buf)) ≡ buf
write_undo buf zero cs = over_undo buf cs
write_undo [] (suc i) cs = refl
write_undo (x ∷ buf) (suc i) cs = ap (λ l. x ∷ l) (write_undo buf i cs)

over_self : (buf : List ℕ) (n : ℕ) → over buf (take n buf) ≡ buf
over_self buf zero = refl
over_self [] (suc n) = refl
over_self (x ∷ buf) (suc n) = ap (λ l. x ∷ l) (over_self buf n)

pub write_self : (buf : List ℕ) (i n : ℕ) → write buf i (take n (drop i buf)) ≡ buf
write_self buf zero n = over_self buf n
write_self [] (suc i) n = refl
write_self (x ∷ buf) (suc i) n = ap (λ l. x ∷ l) (write_self buf i n)

pub take-over : (buf bs : List ℕ) → length bs ≤ length buf → take (length bs) (over buf bs) ≡ bs
take-over buf [] h = refl
take-over [] (b ∷ bs) h = absurd (omega arith)
take-over (x ∷ buf) (b ∷ bs) h = ap (λ l. b ∷ l) (take-over buf bs (omega arith))

take-write :
    (buf : List ℕ) (i : ℕ) (bs : List ℕ)
    → i + length bs ≤ length buf
    → take (length bs) (drop i (write buf i bs)) ≡ bs
take-write buf zero bs h = take-over buf bs (omega arith)
take-write [] (suc i) [] h = refl
take-write [] (suc i) (b ∷ bs) h = absurd (omega arith)
take-write (x ∷ buf) (suc i) bs h = take-write buf i bs (omega arith)

pub poke-poke : (k i v w : ℕ) (buf : List ℕ) → poke k i w (poke k i v buf) ≡ poke k i w buf
poke-poke k i v w buf =
    write_again buf i (bytes k v) (bytes k w) (omega (arith, length-bytes k v, length-bytes k w))

pub poke-peek :
    (k i : ℕ) (buf : List ℕ) → IsBytes buf → i + k ≤ length buf → poke k i (peek k i buf) buf ≡ buf
poke-peek k i buf h inside =
    let full : length (take k (drop i buf)) ≡ k =
      omega (arith, length-take k (drop i buf), length-drop i buf) in
    ap (λ n. write buf i (bytes n (word (take k (drop i buf))))) (sym full)
    ∙ ap (write buf i) (
        bytes-word (take k (drop i buf)) (take-All IsByte k (drop i buf) (drop-All IsByte i buf h)))
    ∙ write_self buf i k

pub peek-poke :
    (k i v : ℕ) (buf : List ℕ) → v < 256 ^ k → i + k ≤ length buf → peek k i (poke k i v buf) ≡ v
peek-poke k i v buf small inside =
    ap (λ n. word (take n (drop i (poke k i v buf)))) (sym (length-bytes k v))
    ∙ ap word (take-write buf i (bytes k v) (omega (arith, length-bytes k v)))
    ∙ word-bytes k v small

pub peek-lt : (k i : ℕ) (buf : List ℕ) → IsBytes buf → i + k ≤ length buf → peek k i buf < 256 ^ k
peek-lt k i buf h inside =
    let full : length (take k (drop i buf)) ≡ k =
      omega (arith, length-take k (drop i buf), length-drop i buf) in
    subst (λ n. peek k i buf < 256 ^ n) full
      (word-lt (take k (drop i buf)) (take-All IsByte k (drop i buf) (drop-All IsByte i buf h)))
