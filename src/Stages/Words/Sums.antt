-- ===== src/Stages/Words/Sums.antt =====
-- The values that the arithmetic stages are meant to try at a word, told by the number that the bytes
-- of the word stand for in one byte order or the other, and by the change that is made to it.
use mathlib.Core.List.{reverse}
use aflgo.Common.{
  ℕ, ◌+◌, ◌-◌, ◌/◌, ◌%◌, ◌^◌, ◌<◌, ◌≤◌, ◌≡◌, refl, ap, ◌∙◌, arith, ◌!=◌, ltb, if◌then◌else◌,
  bit_xor, Bool, not, ◌&&◌, [], ◌∷◌,
}
use aflgo.Bitmap.Memory.{word, bytes}
use aflgo.Mutations.{could_be_bitflip}
use aflgo.Mutations.Arith.{swap16, swap32}
use aflgo.Stages.Words.{Candidates, plus, minus, no_flip, sums8, sums16, sums32}

-- The word whose bytes stand the other way round.
abbrev pub turned : ℕ → ℕ → ℕ
turned k v = word (reverse (bytes k v))

-- More than the lower half of a number of `k` bytes changes.
abbrev pub spills : ℕ → ℕ → ℕ → Bool
spills k old new = old / 256 ^ (k / 2) != new / 256 ^ (k / 2)

-- The number below `256 ^ k` that `v` plus `j` is, and the one that plus `j` is `v`.
abbrev pub raised : ℕ → ℕ → ℕ → ℕ
raised k v j = if ltb (v + j) (256 ^ k) then v + j else v + j - 256 ^ k

abbrev pub lowered : ℕ → ℕ → ℕ → ℕ
lowered k v j = if ltb v j then v + 256 ^ k - j else v - j

-- The word `new` is tried in place of `orig` when the stages before it could not have made it.
abbrev pub unless_flip : ℕ → ℕ → Bool
unless_flip orig new = not (could_be_bitflip (bit_xor orig new))

abbrev pub meant_byte : ℕ → ℕ → Candidates
meant_byte orig j =
    (unless_flip orig (raised 1 orig j), raised 1 orig j)
    ∷ (unless_flip orig (lowered 1 orig j), lowered 1 orig j)
    ∷ []

-- The number `old` of the word `orig` becomes `new`, which the word `as_word new` stands for.
abbrev pub renumber : ℕ → (ℕ → ℕ) → ℕ → ℕ → ℕ → Bool × ℕ
renumber k as_word orig old new = (spills k old new && unless_flip orig (as_word new), as_word new)

-- Up and down, with the lowest byte first and then with the highest byte first.
abbrev pub meant_word : ℕ → ℕ → ℕ → Candidates
meant_word k orig j =
    renumber k (λ v. v) orig orig (raised k orig j)
    ∷ renumber k (λ v. v) orig orig (lowered k orig j)
    ∷ renumber k (turned k) orig (turned k orig) (raised k (turned k orig) j)
    ∷ renumber k (turned k) orig (turned k orig) (lowered k (turned k orig) j)
    ∷ []

pub swap16-turned : (v : ℕ) → swap16 v ≡ turned 2 v
swap16-turned v = omega arith

pub swap32-turned : (v : ℕ) → swap32 v ≡ turned 4 v
swap32-turned v = omega arith

plus-raised1 : (v j : ℕ) → v < 256 ^ 1 → j ≤ 35 → plus 1 v j ≡ raised 1 v j
plus-raised1 v j p q = ground arith

minus-lowered1 : (v j : ℕ) → v < 256 ^ 1 → j ≤ 35 → minus 1 v j ≡ lowered 1 v j
minus-lowered1 v j p q = ground arith

plus-raised2 : (v j : ℕ) → v < 256 ^ 2 → j ≤ 35 → plus 2 v j ≡ raised 2 v j
plus-raised2 v j p q = ground arith

minus-lowered2 : (v j : ℕ) → v < 256 ^ 2 → j ≤ 35 → minus 2 v j ≡ lowered 2 v j
minus-lowered2 v j p q = ground arith

plus-raised4 : (v j : ℕ) → v < 256 ^ 4 → j ≤ 35 → plus 4 v j ≡ raised 4 v j
plus-raised4 v j p q = ground arith

minus-lowered4 : (v j : ℕ) → v < 256 ^ 4 → j ≤ 35 → minus 4 v j ≡ lowered 4 v j
minus-lowered4 v j p q = ground arith

up16 : (v j : ℕ) → v < 256 ^ 2 → 1 ≤ j → j ≤ 35 → ltb 0xff (v % 256 + j) ≡ spills 2 v (raised 2 v j)
up16 v j p q r = ground arith

down16 : (v j : ℕ) → v < 256 ^ 2 → 1 ≤ j → j ≤ 35 → ltb (v % 256) j ≡ spills 2 v (lowered 2 v j)
down16 v j p q r = ground arith

up32 :
    (v j : ℕ)
    → v < 256 ^ 4
    → 1 ≤ j
    → j ≤ 35
    → ltb 0xffff (v % 65536 + j) ≡ spills 4 v (raised 4 v j)
up32 v j p q r = ground arith

down32 : (v j : ℕ) → v < 256 ^ 4 → 1 ≤ j → j ≤ 35 → ltb (v % 65536) j ≡ spills 4 v (lowered 4 v j)
down32 v j p q r = ground arith

pub sums8-meant : (orig j : ℕ) → orig < 256 ^ 1 → 1 ≤ j → j ≤ 35 → sums8 orig j ≡ meant_byte orig j
unfolding sums8
sums8-meant orig j p q r = rw (sums8, plus-raised1 orig j p r, minus-lowered1 orig j p r) refl

list_of_four :
    {a b c d a' b' c' d' : Bool × ℕ}
    → a ≡ a'
    → b ≡ b'
    → c ≡ c'
    → d ≡ d'
    → (a ∷ b ∷ c ∷ d ∷ []) ≡ (a' ∷ b' ∷ c' ∷ d' ∷ [])
list_of_four e f g h = rw (e, f, g, h) refl

entry :
    (orig : ℕ) (a b : Bool) (v w : ℕ)
    → a ≡ b
    → v ≡ w
    → ◌≡◌ {A = Bool × ℕ} (a && no_flip orig v, v) (b && unless_flip orig w, w)
entry orig a b v w e f = rw (e, f) refl

pub sums16-meant :
    (orig j : ℕ) → orig < 256 ^ 2 → 1 ≤ j → j ≤ 35 → sums16 orig j ≡ meant_word 2 orig j
unfolding sums16
sums16-meant orig j p q r =
    let t = turned 2 orig in
    let same : swap16 orig ≡ t = swap16-turned orig in
    let small : t < 256 ^ 2 = omega arith in
    let low : orig / 256 ≡ t % 256 = omega (arith, same) in
    let up : plus 2 (swap16 orig) j ≡ raised 2 t j =
      ap (λ x. plus 2 x j) same ∙ plus-raised2 t j small r in
    let down : minus 2 (swap16 orig) j ≡ lowered 2 t j =
      ap (λ x. minus 2 x j) same ∙ minus-lowered2 t j small r in
    list_of_four (entry orig _ _ _ _ (up16 orig j p q r) (plus-raised2 orig j p r))
      (entry orig _ _ _ _ (down16 orig j p q r) (minus-lowered2 orig j p r))
      (entry orig _ _ _ _ (ap (λ x. ltb 0xff (x + j)) low ∙ up16 t j small q r)
        (ap swap16 up ∙ swap16-turned (raised 2 t j)))
      (entry orig _ _ _ _ (ap (λ x. ltb x j) low ∙ down16 t j small q r)
        (ap swap16 down ∙ swap16-turned (lowered 2 t j)))

pub sums32-meant :
    (orig j : ℕ) → orig < 256 ^ 4 → 1 ≤ j → j ≤ 35 → sums32 orig j ≡ meant_word 4 orig j
unfolding sums32
sums32-meant orig j p q r =
    let t = turned 4 orig in
    let same : swap32 orig ≡ t = swap32-turned orig in
    let small : t < 256 ^ 4 = omega arith in
    let low : swap32 orig % 65536 ≡ t % 65536 = omega (arith, same) in
    let up : plus 4 (swap32 orig) j ≡ raised 4 t j =
      ap (λ x. plus 4 x j) same ∙ plus-raised4 t j small r in
    let down : minus 4 (swap32 orig) j ≡ lowered 4 t j =
      ap (λ x. minus 4 x j) same ∙ minus-lowered4 t j small r in
    list_of_four (entry orig _ _ _ _ (up32 orig j p q r) (plus-raised4 orig j p r))
      (entry orig _ _ _ _ (down32 orig j p q r) (minus-lowered4 orig j p r))
      (entry orig _ _ _ _ (ap (λ x. ltb 0xffff (x + j)) low ∙ up32 t j small q r)
        (ap swap32 up ∙ swap32-turned (raised 4 t j)))
      (entry orig _ _ _ _ (ap (λ x. ltb x j) low ∙ down32 t j small q r)
        (ap swap32 down ∙ swap32-turned (lowered 4 t j)))
