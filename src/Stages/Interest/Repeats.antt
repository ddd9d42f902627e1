-- ===== src/Stages/Interest/Repeats.antt =====
-- `could_be_interest` told by the numbers that the values of interest make of a word.
use aflgo.Common.{
  ℕ, ◌*◌, ◌^◌, ◌<◌, ◌≡◌, refl, ap, ap₂, sym, ◌∙◌, arith, ◌==◌, ltb, if◌then◌else◌, Bool, true,
  false, &&_parts, not, ◌&&◌, ◌||◌, List, [], ◌∷◌, ◌++◌, map, ltb→lt,
}
use aflgo.Mutations.Arith.{swap16}
use aflgo.Stages.Words.Sums.{turned, swap16-turned}
use aflgo.Stages.Interest.{
  any, tval, byte_insertion, word_insertion, could_be_interest, interesting_8, interesting_16,
  interesting_32,
}
use aflgo.Stages.Interest.Insertions.{inserted, byte_lem, word_lem}

-- The values of one byte, of two bytes and of four bytes in hexadecimal, the negative ones in two's
-- complement. The wider ones begin with the narrower ones, which keep their signs.
abbrev pub bytes_of_interest : List ℕ
bytes_of_interest = 0x80 ∷ 0xff ∷ 0x00 ∷ 0x01 ∷ 0x10 ∷ 0x20 ∷ 0x40 ∷ 0x64 ∷ 0x7f ∷ []

abbrev pub pairs_of_interest : List ℕ
pairs_of_interest =
    (0xff80 ∷ 0xffff ∷ 0x0000 ∷ 0x0001 ∷ 0x0010 ∷ 0x0020 ∷ 0x0040 ∷ 0x0064 ∷ 0x007f ∷ [])
    ++ (0x8000 ∷ 0xff7f ∷ 0x0080 ∷ 0x00ff ∷ 0x0100 ∷ 0x0200 ∷ 0x03e8 ∷ 0x0400 ∷ 0x1000 ∷ 0x7fff
        ∷ [])

abbrev pub quads_of_interest : List ℕ
quads_of_interest =
    (0xffffff80 ∷ 0xffffffff ∷ 0x00000000 ∷ 0x00000001 ∷ 0x00000010 ∷ 0x00000020 ∷ 0x00000040
      ∷ 0x00000064 ∷ 0x0000007f ∷ [])
    ++ (0xffff8000 ∷ 0xffffff7f ∷ 0x00000080 ∷ 0x000000ff ∷ 0x00000100 ∷ 0x00000200 ∷ 0x000003e8
        ∷ 0x00000400 ∷ 0x00001000 ∷ 0x00007fff ∷ [])
    ++ (0x80000000 ∷ 0xfa0000fa ∷ 0xffff7fff ∷ 0x00008000 ∷ 0x0000ffff ∷ 0x00010000 ∷ 0x05ffff05
        ∷ 0x7fffffff ∷ [])

abbrev pub among : ℕ → List ℕ → Bool
among x [] = false
among x (y ∷ ys) = (x == y) || among x ys

-- What the values of a table make of `old` at bit places.
abbrev pub made : ℕ → List ℕ → List ℕ → ℕ → List ℕ
made w [] table old = []
made w (s ∷ places) table old = map (inserted w s old) table ++ made w places table old

abbrev pub both_orders : List ℕ → List ℕ
both_orders [] = []
both_orders (v ∷ vs) = v ∷ turned 2 v ∷ both_orders vs

-- In a word of two bytes: nothing changes, or a byte of interest is put in a place, or, for a value with its highest byte
-- first, the whole is a pair of interest.
abbrev pub repeats_pair : ℕ → ℕ → Bool → Bool
repeats_pair old new turned_too =
    (old == new)
    || (among new (made 8 (0 ∷ 8 ∷ []) bytes_of_interest old)
        || (turned_too && among new (made 16 (0 ∷ []) pairs_of_interest old)))

-- In a word of four bytes: nothing changes, or a byte of interest is put in a place, or a pair in either order, or, for
-- a value with its highest byte first, the whole is a value of interest.
abbrev pub repeats_quad : ℕ → ℕ → Bool → Bool
repeats_quad old new turned_too =
    (old == new)
    || (among new (made 8 (0 ∷ 8 ∷ 16 ∷ 24 ∷ []) bytes_of_interest old)
        || (among new (made 16 (0 ∷ 8 ∷ 16 ∷ []) (both_orders pairs_of_interest) old)
            || (turned_too && among new quads_of_interest)))

abbrev pub repeats : ℕ → ℕ → ℕ → Bool → Bool
repeats k old new turned_too =
    if k == 2 then repeats_pair old new turned_too else repeats_quad old new turned_too

among-append : (x : ℕ) (xs ys : List ℕ) → among x (xs ++ ys) ≡ (among x xs || among x ys)
among-append x [] ys = refl
among-append x (y ∷ xs) ys = rw (among-append x xs ys) (ground arith)

small : ℕ → List ℕ → Bool
small m [] = true
small m (v ∷ vs) = ltb v m && small m vs

any-among :
    (m : ℕ) (table : List ℕ) (p : ℕ → Bool) (f : ℕ → ℕ) (new : ℕ)
    → small m table ≡ true
    → ((v : ℕ) → v < m → p v ≡ (new == f v))
    → any p table ≡ among new (map f table)
unfolding small
any-among m [] p f new h same = refl
any-among m (v ∷ vs) p f new h same =
    let parts = &&_parts (ltb v m) (small m vs) h in
    ap₂ (λ a b. a || b) (same v (ltb→lt v m parts.0)) (any-among m vs p f new parts.1 same)

any-both :
    (m : ℕ) (table : List ℕ) (p : ℕ → Bool) (f : ℕ → ℕ) (new : ℕ)
    → small m table ≡ true
    → ((v : ℕ) → v < m → p v ≡ ((new == f v) || (new == f (turned 2 v))))
    → any p table ≡ among new (map f (both_orders table))
unfolding small
any-both m [] p f new h same = refl
any-both m (v ∷ vs) p f new h same =
    let parts = &&_parts (ltb v m) (small m vs) h in
    rw (same v (ltb→lt v m parts.0), any-both m vs p f new parts.1 same) (ground arith)

any-quads : (table : List ℕ) (new : ℕ) → any (λ v. new == v) table ≡ among new table
any-quads [] new = refl
any-quads (v ∷ vs) new = ap (λ b. (new == v) || b) (any-quads vs new)

byte_place :
    (i old new : ℕ)
    → i < 4
    → old < 2 ^ 32
    → any (λ v. new == tval 0xff old i v) interesting_8
      ≡ among new (map (inserted 8 (i * 8) old) bytes_of_interest)
unfolding small
byte_place i old new inside p =
    any-among 256 interesting_8 (λ v. new == tval 0xff old i v) (inserted 8 (i * 8) old) new refl
      (λ v h. ap (λ x. new == x) (byte_lem i old v inside p h))

pair_place :
    (i old new : ℕ)
    → i < 3
    → old < 2 ^ 32
    → any
        (λ v. (new == tval 0xffff old i v) || (ltb 2 2 && new == tval 0xffff old i (swap16 v)))
        interesting_16
      ≡ among new (map (inserted 16 (i * 8) old) pairs_of_interest)
unfolding small
pair_place i old new inside p =
    any-among 65536 interesting_16
      (λ v. (new == tval 0xffff old i v) || (ltb 2 2 && new == tval 0xffff old i (swap16 v)))
      (inserted 16 (i * 8) old) new refl
      (λ v h. ap (λ x. (new == x) || false) (word_lem i old v inside p h) ∙ ground arith)

pair_place_both :
    (i old new : ℕ)
    → i < 3
    → old < 2 ^ 32
    → any
        (λ v. (new == tval 0xffff old i v) || (ltb 2 4 && new == tval 0xffff old i (swap16 v)))
        interesting_16
      ≡ among new (map (inserted 16 (i * 8) old) (both_orders pairs_of_interest))
unfolding small
pair_place_both i old new inside p =
    any-both 65536 interesting_16 _ (inserted 16 (i * 8) old) new refl (λ v h.
      ap₂ (λ x y. (new == x) || (new == y)) (word_lem i old v inside p h)
        (word_lem i old (swap16 v) inside p (omega arith)
          ∙ ap (inserted 16 (i * 8) old) (swap16-turned v)))

-- The first place, and the others.
place :
    (w : ℕ) (table : List ℕ) (old new s : ℕ) (places : List ℕ) {a b : Bool}
    → a ≡ among new (map (inserted w s old) table)
    → b ≡ among new (made w places table old)
    → (a || b) ≡ among new (made w (s ∷ places) table old)
place w table old new s places e f =
    ap₂ (λ c d. c || d) e f
    ∙ sym (among-append new (map (inserted w s old) table) (made w places table old))

pub could_be_interest-pair :
    (old new : ℕ) (turned_too : Bool)
    → old < 2 ^ 16
    → could_be_interest old new 2 turned_too ≡ repeats_pair old new turned_too
unfolding could_be_interest
could_be_interest-pair old new turned_too p =
    let bytes : byte_insertion old new 2 ≡ among new (made 8 (0 ∷ 8 ∷ []) bytes_of_interest old) =
      place 8 bytes_of_interest old new 0 (8 ∷ [])
        (byte_place 0 old new (omega arith) (omega arith))
        (place 8 bytes_of_interest old new 8 ([]) (byte_place 1 old new (omega arith) (omega arith))
          refl) in
    let pairs : word_insertion old new 2 ≡ among new (made 16 (0 ∷ []) pairs_of_interest old) =
      place 16 pairs_of_interest old new 0 ([]) (pair_place 0 old new (omega arith) (omega arith))
        refl in
    rw (could_be_interest, bytes, pairs)
      (choice (old == new) (among new (made 8 (0 ∷ 8 ∷ []) bytes_of_interest old)) turned_too
        (among new (made 16 (0 ∷ []) pairs_of_interest old)))
  where
    choice :
        (e b t w : Bool)
        → (if e
            then true
            else if b
            then true
            else if not t
            then false
            else if w
            then true
            else false)
          ≡ (e || (b || (t && w)))
    choice e b t w = ground arith

pub could_be_interest-quad :
    (old new : ℕ) (turned_too : Bool)
    → old < 2 ^ 32
    → could_be_interest old new 4 turned_too ≡ repeats_quad old new turned_too
unfolding could_be_interest
could_be_interest-quad old new turned_too p =
    let bytes : byte_insertion old new 4
        ≡ among new (made 8 (0 ∷ 8 ∷ 16 ∷ 24 ∷ []) bytes_of_interest old) =
      place 8 bytes_of_interest old new 0 (8 ∷ 16 ∷ 24 ∷ []) (byte_place 0 old new (omega arith) p)
        (place 8 bytes_of_interest old new 8 (16 ∷ 24 ∷ []) (byte_place 1 old new (omega arith) p) (
          place 8 bytes_of_interest old new 16 (24 ∷ []) (byte_place 2 old new (omega arith) p) (
            place 8 bytes_of_interest old new 24 ([]) (byte_place 3 old new (omega arith) p)
              refl))) in
    let pairs : word_insertion old new 4
        ≡ among new (made 16 (0 ∷ 8 ∷ 16 ∷ []) (both_orders pairs_of_interest) old) =
      place 16 (both_orders pairs_of_interest) old new 0 (8 ∷ 16 ∷ [])
        (pair_place_both 0 old new (omega arith) p)
        (place 16 (both_orders pairs_of_interest) old new 8 (16 ∷ [])
          (pair_place_both 1 old new (omega arith) p)
          (place 16 (both_orders pairs_of_interest) old new 16 ([])
            (pair_place_both 2 old new (omega arith) p) refl)) in
    rw (could_be_interest, bytes, pairs, any-quads interesting_32 new)
      (choice (old == new) (among new (made 8 (0 ∷ 8 ∷ 16 ∷ 24 ∷ []) bytes_of_interest old))
        (among new (made 16 (0 ∷ 8 ∷ 16 ∷ []) (both_orders pairs_of_interest) old)) turned_too
        (among new quads_of_interest))
  where
    choice :
        (e b w t q : Bool)
        → (if e then true else if b then true else if w then true else t && q)
          ≡ (e || (b || (w || (t && q))))
    choice e b w t q = ground arith
