-- ===== src/Havoc/Rules.antt =====
-- Draws and accesses that do not fault, with what they return.
use aflgo.Common.{
  ℕ, zero, suc, ◌+◌, ◌-◌, ◌%◌, ◌<◌, ◌≤◌, ◌≡◌, refl, arith, ltb, ◌==◌, le→leb, if◌then◌else◌, Bool,
  true, false, none, some, List, [], ◌∷◌, ◌++◌, length, get_elem?, take, drop, length-append,
  length-take, length-drop, All, append-All, take-All, drop-All, replicate,
}
use aflgo.Bitmap.Memory.{IsByte, IsBytes, bytes, bytes-IsBytes}
use aflgo.Mutations.{choose_block_len}
use aflgo.Mutations.Lengths.{choose_block_len-le}
use aflgo.Stages.Buffer.{over, write, peek, poke}
use aflgo.Stages.Buffer.Laws.{length-write}
use aflgo.Stages.Extras.{max_file}
use aflgo.Havoc.Dice.{
  Dice, pure, ◌>>=◌, alter, copy_in, slice, splice_in, cut_out, ur, pick, draw, rlim, block_len,
  fault,
}

-- Whatever the dice, the computation returns a result, one with a property.
pub record Safe {R A : Type 0} (P : A → Type 0) (m : Dice R A) : Type 0 where
  pub run : (r : R) → (out : A × R) × (m r ≡ some out) × P out.0

-- A buffer of bytes that is neither empty nor larger than the largest file.
pub record IsFile (buf : List ℕ) : Type 0 where
  pub proper : IsBytes buf
  pub some_byte : 1 ≤ length buf
  pub small : length buf ≤ max_file

over-IsBytes : (buf bs : List ℕ) → IsBytes buf → IsBytes bs → IsBytes (over buf bs)
over-IsBytes buf [] h g = h
over-IsBytes [] (b ∷ bs) h g = tt
over-IsBytes (x ∷ buf) (b ∷ bs) h g = (g.0, over-IsBytes buf bs h.1 g.1)

write-IsBytes :
    (buf : List ℕ) (i : ℕ) (bs : List ℕ) → IsBytes buf → IsBytes bs → IsBytes (write buf i bs)
write-IsBytes buf zero bs h g = over-IsBytes buf bs h g
write-IsBytes [] (suc i) bs h g = tt
write-IsBytes (x ∷ buf) (suc i) bs h g = (h.0, write-IsBytes buf i bs h.1 g)

pub replicate-IsBytes : (n b : ℕ) → IsByte b → IsBytes (replicate n b)
replicate-IsBytes zero b h = tt
replicate-IsBytes (suc n) b h = (h, replicate-IsBytes n b h)

write-IsFile :
    (buf : List ℕ) (i : ℕ) (bs : List ℕ) → IsFile buf → IsBytes bs → IsFile (write buf i bs)
write-IsFile buf i bs h g = record {
  proper = write-IsBytes buf i bs h.proper g;
  some_byte = omega (arith, length-write buf i bs, h.some_byte);
  small = omega (arith, length-write buf i bs, h.small);
}

not_zero : (n : ℕ) → 0 < n → (n == 0) ≡ false
not_zero n h = ground arith

module _ {R : Type 0} where
  pub pure-Safe : {A : Type 0} {P : A → Type 0} (a : A) → P a → Safe {R = R} P (pure a)
  pure-Safe a p = record { run = λ r. ((a, r), refl, p) }

  pub bind-Safe :
      {A B : Type 0} {Q : A → Type 0} {P : B → Type 0} {m : Dice R A} {f : A → Dice R B}
      → Safe Q m
      → ((a : A) → Q a → Safe P (f a))
      → Safe P (m >>= f)
  bind-Safe h g = record {
    run = λ r.
        let first = h.run r in
        let rest = (g first.0.0 first.2).run first.0.1 in
        (rest.0, rw (first.1, ◌>>=◌) rest.1, rest.2);
  }

  -- Either branch of a test.
  pub if-Safe :
      {A : Type 0} {P : A → Type 0} (b : Bool) {m k : Dice R A}
      → (b ≡ true → Safe P m)
      → (b ≡ false → Safe P k)
      → Safe P (if b then m else k)
  if-Safe true h g = h refl
  if-Safe false h g = g refl

  pub alter-Safe :
      (k i : ℕ) (f : ℕ → ℕ) (buf : List ℕ)
      → IsFile buf
      → i + k ≤ length buf
      → Safe {R = R} IsFile (alter k i f buf)
  unfolding alter
  alter-Safe k i f buf h inside = rw (le→leb (i + k) (length buf) inside) (
      pure-Safe (poke k i (f (peek k i buf)) buf)
        (write-IsFile buf i (bytes k (f (peek k i buf))) h (bytes-IsBytes k (f (peek k i buf)))))

  pub copy_in-Safe :
      (i : ℕ) (bs buf : List ℕ)
      → IsFile buf
      → IsBytes bs
      → i + length bs ≤ length buf
      → Safe {R = R} IsFile (copy_in i bs buf)
  unfolding copy_in
  copy_in-Safe i bs buf h g inside =
      rw (le→leb (i + length bs) (length buf) inside)
        (pure-Safe (write buf i bs) (write-IsFile buf i bs h g))

  pub slice-Safe :
      (i n : ℕ) (buf : List ℕ)
      → IsFile buf
      → i + n ≤ length buf
      → Safe {R = R} (λ bs. IsBytes bs × (length bs ≡ n)) (slice i n buf)
  unfolding slice
  slice-Safe i n buf h inside = rw (le→leb (i + n) (length buf) inside) (
      pure-Safe (take n (drop i buf)) (
        take-All IsByte n (drop i buf) (drop-All IsByte i buf h.proper),
        omega (arith, length-take n (drop i buf), length-drop i buf),
      ))

  pub splice_in-Safe :
      (i : ℕ) (bs buf : List ℕ)
      → IsFile buf
      → IsBytes bs
      → i ≤ length buf
      → length buf + length bs ≤ max_file
      → Safe {R = R} IsFile (splice_in i bs buf)
  unfolding splice_in
  splice_in-Safe i bs buf h g inside fit =
      let len : length (take i buf ++ (bs ++ drop i buf)) ≡ length buf + length bs = omega (
        arith,
        length-append (take i buf) (bs ++ drop i buf),
        length-append bs (drop i buf),
        length-take i buf,
        length-drop i buf,
      ) in
      rw (le→leb i (length buf) inside) (
        pure-Safe (take i buf ++ (bs ++ drop i buf)) (record {
          proper =
              append-All IsByte (take i buf) (bs ++ drop i buf) (take-All IsByte i buf h.proper)
                (append-All IsByte bs (drop i buf) g (drop-All IsByte i buf h.proper));
          some_byte = omega (arith, h.some_byte, len);
          small = omega (arith, len, fit);
        }))

  pub cut_out-Safe :
      (i n : ℕ) (buf : List ℕ)
      → IsFile buf
      → i + n ≤ length buf
      → n < length buf
      → Safe {R = R} IsFile (cut_out i n buf)
  unfolding cut_out
  cut_out-Safe i n buf h inside less =
      let len : length (take i buf ++ drop (i + n) buf) ≡ length buf - n = omega (
        arith,
        length-append (take i buf) (drop (i + n) buf),
        length-take i buf,
        length-drop (i + n) buf,
      ) in
      rw (le→leb (i + n) (length buf) inside) (
        pure-Safe (take i buf ++ drop (i + n) buf) (record {
          proper =
              append-All IsByte (take i buf) (drop (i + n) buf) (take-All IsByte i buf h.proper)
                (drop-All IsByte (i + n) buf h.proper);
          some_byte = omega (arith, len);
          small = omega (arith, h.small, len);
        }))

  module _ (random : R → ℕ × R) where
    pub ur-Safe : (limit : ℕ) → 0 < limit → Safe (λ x. x < limit) (ur random limit)
    unfolding ur
    ur-Safe limit h = record {
      run = λ r. (((random r).0 % limit, (random r).1), rw (not_zero limit h) refl, omega arith);
    }

    pick_from :
        {A : Type 0} {P : A → Type 0} (xs : List A) (j : ℕ)
        → All P xs
        → j < length xs
        → Safe {R = R} P (elim (get_elem? xs j) [ none ↦ fault | some a ↦ pure a ])
    pick_from [] j h inside = absurd (omega arith)
    pick_from (x ∷ xs) zero h inside = pure-Safe x h.0
    pick_from (x ∷ xs) (suc j) h inside = pick_from xs j h.1 (omega arith)

    pub pick-Safe :
        {A : Type 0} {P : A → Type 0} (xs : List A)
        → All P xs
        → 0 < length xs
        → Safe P (pick random xs)
    unfolding pick
    pick-Safe xs h some_one =
        bind-Safe (ur-Safe (length xs) some_one) (λ j inside. pick_from xs j h inside)

    draw-Safe : Safe {R = R} (λ (x : ℕ). Unit {0}) (draw random)
    draw-Safe = record { run = λ r. (random r, refl, tt) }

    second_draw :
        (b : Bool) → Safe {R = R} (λ (x : ℕ). Unit {0}) (if b then pure 0 else draw random)
    second_draw true = pure-Safe 0 tt
    second_draw false = draw-Safe

    pub block_len-Safe :
        (queue_cycle : ℕ) (run_over10m : Bool) (limit : ℕ)
        → 0 < queue_cycle
        → 0 < limit
        → Safe
            (λ n. (1 ≤ n) × (n ≤ limit) × (n ≤ 32768))
            (block_len random queue_cycle run_over10m limit)
    unfolding block_len
    block_len-Safe queue_cycle run_over10m limit cycle h = bind-Safe draw-Safe (λ r1 _.
        bind-Safe (second_draw (ltb (r1 % rlim queue_cycle run_over10m) 2)) (λ r2 _.
          bind-Safe draw-Safe (λ r3 _.
            pure-Safe (choose_block_len queue_cycle run_over10m r1 r2 r3 limit)
              (choose_block_len-le queue_cycle run_over10m r1 r2 r3 limit cycle h))))
