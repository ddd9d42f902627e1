-- ===== src/Havoc/Splice.antt =====
-- The splicing of two files, behind the choice of the second.
use native.Mathlib.Nat.{mod-lt}
use aflgo.Common.{
  ℕ, zero, suc, ◌+◌, ◌-◌, ◌%◌, ◌<◌, ◌≤◌, ◌≡◌, ◌≢◌, refl, sym, ◌∙◌, subst, arith, ltb, ltb→lt,
  ltb_off, ◌==◌, min, if◌then◌else◌, false, Bool-cases, inl, inr, ◌||◌, ||_off, Option, none, some,
  List, [], ◌∷◌, length, get_or, take, length-take,
}
use aflgo.Mutations.{locate_diffs}
use aflgo.Mutations.Diffs.{IsFirst, IsLast, locate_diffs_lem}
use aflgo.Stages.Buffer.{over, write}
use aflgo.Stages.Buffer.Laws.{length-over}

-- The splice at an offset between the differences; `draw` is what random returns for UR.
abbrev pub splice_at : List ℕ → List ℕ → ℕ → ℕ → ℕ → Option (List ℕ)
splice_at in_buf target draw f_diff l_diff =
    if ltb l_diff 2 || f_diff == l_diff
    then none
    else some (write target 0 (take (f_diff + draw % (l_diff - f_diff)) in_buf))

-- The new input, or `none` for another try.
unfoldable pub splice : List ℕ → List ℕ → ℕ → Option (List ℕ)
splice in_buf target draw =
    let diffs = locate_diffs in_buf target (min (length in_buf) (length target)) in
    elim diffs.0 as (λ _. Option (List ℕ)) [
      | none ↦ none
      | some f_diff ↦ elim diffs.1 as (λ _. Option (List ℕ)) [
        | none ↦ none
        | some l_diff ↦ splice_at in_buf target draw f_diff l_diff
      ]
    ]

get_or-over_front :
    (j : ℕ) (xs ys : List ℕ)
    → j < length ys
    → length ys ≤ length xs
    → get_or (over xs ys) j 0 ≡ get_or ys j 0
get_or-over_front j xs [] h g = absurd (omega arith)
get_or-over_front j [] (y ∷ ys) h g = absurd (omega arith)
get_or-over_front zero (x ∷ xs) (y ∷ ys) h g = refl
get_or-over_front (suc j) (x ∷ xs) (y ∷ ys) h g =
    get_or-over_front j xs ys (omega arith) (omega arith)

get_or-over_back :
    (j : ℕ) (xs ys : List ℕ) → length ys ≤ j → get_or (over xs ys) j 0 ≡ get_or xs j 0
get_or-over_back j xs [] h = refl
get_or-over_back j [] (y ∷ ys) h = refl
get_or-over_back zero (x ∷ xs) (y ∷ ys) h = absurd (omega arith)
get_or-over_back (suc j) (x ∷ xs) (y ∷ ys) h = get_or-over_back j xs ys (omega arith)

get_or-take : (j n : ℕ) (xs : List ℕ) → j < n → get_or (take n xs) j 0 ≡ get_or xs j 0
get_or-take j zero xs h = absurd (omega arith)
get_or-take j (suc n) [] h = refl
get_or-take zero (suc n) (x ∷ xs) h = refl
get_or-take (suc j) (suc n) (x ∷ xs) h = get_or-take j n xs (omega arith)

-- The head of one file and the tail of the other, not the first one's own tail.
pub record IsSpliced (in_buf target out : List ℕ) : Type 0 where
  pub split_at : ℕ
  pub size : length out ≡ length target
  pub head : (j : ℕ) → j < split_at → get_or out j 0 ≡ get_or in_buf j 0
  pub tail : (j : ℕ) → split_at ≤ j → get_or out j 0 ≡ get_or target j 0
  pub place : ℕ
  pub new : get_or out place 0 ≢ get_or in_buf place 0

-- The last difference is not before the first.
ordered :
    (in_buf target : List ℕ) (n f l : ℕ)
    → IsFirst in_buf target n (some f)
    → IsLast in_buf target n (some l)
    → f ≤ l
ordered in_buf target n f l first last = elim (Bool-cases (ltb l f)) [
  | inl before ↦ absurd (last.1 (first.2 l (ltb→lt l f before)))
  | inr after ↦ ltb_off l f after
]

write-IsSpliced :
    (in_buf target : List ℕ) (split l : ℕ)
    → split ≤ l
    → IsLast in_buf target (min (length in_buf) (length target)) (some l)
    → IsSpliced in_buf target (write target 0 (take split in_buf))
write-IsSpliced in_buf target split l before last =
    let size : length (take split in_buf) ≡ split =
      omega (arith, length-take split in_buf, last.0) in
    let back : (j : ℕ)
        → split ≤ j
        → get_or (over target (take split in_buf)) j 0 ≡ get_or target j 0 =
      λ j p. get_or-over_back j target (take split in_buf) (omega (arith, size)) in
    record {
      split_at = split;
      size = length-over target (take split in_buf);
      head = λ j p.
          get_or-over_front j target (take split in_buf) (omega (arith, size))
            (omega (arith, size, last.0))
          ∙ get_or-take j split in_buf p;
      tail = back;
      place = l;
      new = λ e. last.1 (sym e ∙ back l before);
    }

positive : (f l : ℕ) → f ≤ l → (f == l) ≡ false → 0 < l - f
positive f l h apart = ground arith

splice_at-IsSpliced :
    (in_buf target : List ℕ) (draw f l : ℕ) (out : List ℕ)
    → IsFirst in_buf target (min (length in_buf) (length target)) (some f)
    → IsLast in_buf target (min (length in_buf) (length target)) (some l)
    → splice_at in_buf target draw f l ≡ some out
    → IsSpliced in_buf target out
splice_at-IsSpliced in_buf target draw f l out first last h =
    elim (Bool-cases (ltb l 2 || f == l)) [
      | inl again ↦ absurd (cc (rw (again, splice_at) at h))
      | inr good ↦
          let got : write target 0 (take (f + draw % (l - f)) in_buf) ≡ out =
            cc (rw (good, splice_at) at h) in
          let apart = (||_off (ltb l 2) (f == l) good).1 in
          let order = ordered in_buf target (min (length in_buf) (length target)) f l first last in
          subst (IsSpliced in_buf target) got (
            write-IsSpliced in_buf target (f + draw % (l - f)) l
              (omega (arith, order, mod-lt draw (positive f l order apart))) last)
    ]

by_diffs :
    (in_buf target : List ℕ) (draw : ℕ) (out : List ℕ) (f l : Option ℕ)
    → IsFirst in_buf target (min (length in_buf) (length target)) f
    → IsLast in_buf target (min (length in_buf) (length target)) l
    → elim f as (λ _. Option (List ℕ)) [
      | none ↦ none
      | some f_diff ↦ elim l as (λ _. Option (List ℕ)) [
        | none ↦ none
        | some l_diff ↦ splice_at in_buf target draw f_diff l_diff
      ]
    ]
      ≡ some out
    → IsSpliced in_buf target out
by_diffs in_buf target draw out none l first last h = absurd (cc h)
by_diffs in_buf target draw out (some f) none first last h = absurd (cc h)
by_diffs in_buf target draw out (some f) (some l) first last h =
    splice_at-IsSpliced in_buf target draw f l out first last h

-- Whatever is drawn, a new input that splicing makes is as long as the second file, has the head of the first file before
-- the place of the split and the tail of the second from there on, and differs from the first file in a byte.
pub splice-IsSpliced :
    (in_buf target : List ℕ) (draw : ℕ) (out : List ℕ)
    → splice in_buf target draw ≡ some out
    → IsSpliced in_buf target out
unfolding splice
splice-IsSpliced in_buf target draw out h =
    let n = min (length in_buf) (length target) in
    let found = locate_diffs_lem in_buf target n in
    by_diffs in_buf target draw out (locate_diffs in_buf target n).0
      (locate_diffs in_buf target n).1 found.0 found.1 h
