-- ===== src/Dictionary/Auto/Entries.antt =====
-- The entries of the automatic dictionary: their contents, their counts and their order.
use aflgo.Common.{
  ℕ, zero, suc, ◌+◌, ◌-◌, ◌≤◌, ◌≡◌, refl, ap, ap₂, sym, ◌∙◌, arith, ◌==◌, ==_iff, ltb, ltb→lt, min,
  if◌then◌else◌, Bool, true, false, Bool-cases, inl, inr, ◌⊎◌, ◌&&◌, &&_parts, none, some, List, [],
  ◌∷◌, ◌++◌, map, length, length-map, length-set, set, take, drop, length-append,
}
use aflgo.Stages.Extras.{use_auto_extras}
use aflgo.Stages.Extras.Over.{IsSorted}
use aflgo.Dictionary.Auto.{
  ExtraData, max_auto_extras, tolower, same_nocase, matches, count_hit, new_entry, add_entry,
}

-- How many entries pass a test.
abbrev pub count : (ExtraData → Bool) → List ExtraData → ℕ
count p [] = 0
count p (e ∷ es) = (if p e then 1 else 0) + count p es

abbrev pub contents : List ExtraData → List (List ℕ)
contents es = map (λ e. e.bytes) es

-- What qsort does: it reorders the entries, by size for `by_len`.
pub record IsSorter (by_use by_len : List ExtraData → List ExtraData) : Type 0 where
  pub use_count : (p : ExtraData → Bool) (es : List ExtraData) → count p (by_use es) ≡ count p es
  pub len_count : (p : ExtraData → Bool) (es : List ExtraData) → count p (by_len es) ≡ count p es
  pub len_sorted : (es : List ExtraData) → IsSorted 0 (contents (by_len es))

-- At most 500 entries, no two that differ in case alone, the first fifty sorted by size.
pub record IsAuto (es : List ExtraData) : Type 0 where
  pub small : length es ≤ max_auto_extras
  pub single : (mem : List ℕ) → count (matches mem) es ≤ 1
  pub top_sorted : IsSorted 0 (take use_auto_extras (contents es))

pub count-append :
    (p : ExtraData → Bool) (xs ys : List ExtraData) → count p (xs ++ ys) ≡ count p xs + count p ys
count-append p [] ys = omega arith
count-append p (x ∷ xs) ys = omega (arith, count-append p xs ys)

pub count-take-drop :
    (p : ExtraData → Bool) (n : ℕ) (es : List ExtraData)
    → count p (take n es) + count p (drop n es) ≡ count p es
count-take-drop p zero es = omega arith
count-take-drop p (suc n) [] = refl
count-take-drop p (suc n) (e ∷ es) = omega (arith, count-take-drop p n es)

pub count_all : (es : List ExtraData) → count (λ e. true) es ≡ length es
count_all [] = refl
count_all (e ∷ es) = omega (arith, count_all es)

count-set :
    (p : ExtraData → Bool) (es : List ExtraData) (i : ℕ) (e : ExtraData)
    → count p (set es i e) ≤ count p es + (if p e then 1 else 0)
count-set p [] i e = omega arith
count-set p (x ∷ es) zero e = omega arith
count-set p (x ∷ es) (suc i) e = omega (arith, count-set p es i e)

count_ext :
    (p q : ExtraData → Bool) (es : List ExtraData)
    → ((e : ExtraData) → p e ≡ q e)
    → count p es ≡ count q es
count_ext p q [] h = refl
count_ext p q (e ∷ es) h = rw (h e) (ap (λ n. (if q e then 1 else 0) + n) (count_ext p q es h))

-- Two tokens match exactly when they are the same in lower case.
both : (a b : Bool) → a ≡ true → b ≡ true → (a && b) ≡ true
both a b h g = rw (h, g) refl

bool_ext : (a b : Bool) → (a ≡ true → b ≡ true) → (b ≡ true → a ≡ true) → a ≡ b
bool_ext true b h g = sym (h refl)
bool_ext false true h g = g refl
bool_ext false false h g = refl

nocase_lower :
    (a b : List ℕ) → length a ≡ length b → same_nocase a b ≡ true → map tolower a ≡ map tolower b
nocase_lower [] [] e h = refl
nocase_lower [] (y ∷ b) e h = absurd (omega arith)
nocase_lower (x ∷ a) [] e h = absurd (omega arith)
nocase_lower (x ∷ a) (y ∷ b) e h =
    let parts = &&_parts (tolower x == tolower y) (same_nocase a b) h in
    ap₂ (λ c l. c ∷ l) ((==_iff (tolower x) (tolower y)).0 parts.0)
      (nocase_lower a b (omega arith) parts.1)

lower_nocase : (a b : List ℕ) → map tolower a ≡ map tolower b → same_nocase a b ≡ true
lower_nocase [] b h = refl
lower_nocase (x ∷ a) [] h = absurd (cc h)
lower_nocase (x ∷ a) (y ∷ b) h =
    let head : tolower x ≡ tolower y = cc h in
    let tail : map tolower a ≡ map tolower b = cc h in
    both (tolower x == tolower y) (same_nocase a b) ((==_iff (tolower x) (tolower y)).1 head)
      (lower_nocase a b tail)

match_lower :
    (m : List ℕ) (e : ExtraData) → matches m e ≡ true → map tolower e.bytes ≡ map tolower m
match_lower m e h =
    let parts = &&_parts (length e.bytes == length m) (same_nocase e.bytes m) h in
    nocase_lower e.bytes m ((==_iff (length e.bytes) (length m)).0 parts.0) parts.1

lower_match :
    (m : List ℕ) (e : ExtraData) → map tolower e.bytes ≡ map tolower m → matches m e ≡ true
lower_match m e h =
    let sizes : length e.bytes ≡ length m =
      sym (length-map tolower e.bytes) ∙ ap length h ∙ length-map tolower m in
    both (length e.bytes == length m) (same_nocase e.bytes m)
      ((==_iff (length e.bytes) (length m)).1 sizes) (lower_nocase e.bytes m h)

-- The entries that match one of two tokens that match each other.
matches_ext :
    (m n : List ℕ) → matches m (new_entry n) ≡ true → (e : ExtraData) → matches m e ≡ matches n e
matches_ext m n h e =
    let alike = match_lower m (new_entry n) h in
    bool_ext (matches m e) (matches n e) (λ g. lower_match n e (match_lower m e g ∙ sym alike))
      (λ g. lower_match m e (match_lower n e g ∙ alike))

-- A hit changes no token; without one, no entry matches.
pub count_hit_cases :
    (mem : List ℕ) (es : List ExtraData)
    → ((count_hit mem es ≡ none) × (count (matches mem) es ≡ 0))
      ⊎ ((out : List ExtraData) × (count_hit mem es ≡ some out) × (contents out ≡ contents es))
count_hit_cases mem [] = inl (refl, refl)
count_hit_cases mem (e ∷ es) = elim (Bool-cases (matches mem e)) [
  | inl hit ↦ inr (record e { hit_cnt = e.hit_cnt + 1 } ∷ es, rw (hit, count_hit) refl, refl)
  | inr miss ↦ elim (count_hit_cases mem es) [
    | inl (absent, zeros) ↦
        inl (rw (miss, absent, count_hit) refl, rw (miss, count) (omega (arith, zeros)))
    | inr (out, found, kept) ↦
        inr (e ∷ out, rw (miss, found, count_hit) refl, ap (λ l. e.bytes ∷ l) kept)
  ]
]

-- The matches depend on the contents alone.
count-contents :
    (m : List ℕ) (xs ys : List ExtraData)
    → contents xs ≡ contents ys
    → count (matches m) xs ≡ count (matches m) ys
count-contents m [] [] h = refl
count-contents m [] (y ∷ ys) h = absurd (cc h)
count-contents m (x ∷ xs) [] h = absurd (cc h)
count-contents m (x ∷ xs) (y ∷ ys) h =
    let head : x.bytes ≡ y.bytes = cc h in
    let tail : contents xs ≡ contents ys = cc h in
    ap₂ (λ b n. (if length b == length m && same_nocase b m then 1 else 0) + n) head
      (count-contents m xs ys tail)

-- What holds of the entries before they are sorted: no order yet.
pub record IsUnsorted (es : List ExtraData) : Type 0 where
  pub small : length es ≤ max_auto_extras
  pub single : (mem : List ℕ) → count (matches mem) es ≤ 1

pub hit-IsUnsorted :
    (es out : List ExtraData) → contents out ≡ contents es → IsAuto es → IsUnsorted out
hit-IsUnsorted es out same h = record {
  small =
      omega (
        arith,
        h.small,
        length-map (λ e. e.bytes) es,
        length-map (λ e. e.bytes) out,
        ap length same,
      );
  single = λ m. omega (arith, h.single m, count-contents m out es same);
}

-- A token that matches no entry keeps the entries different.
added_once :
    (m mem : List ℕ) (es : List ExtraData)
    → count (matches mem) es ≡ 0
    → count (matches m) es ≤ 1
    → count (matches m) es + (if matches m (new_entry mem) then 1 else 0) ≤ 1
added_once m mem es absent single = elim (Bool-cases (matches m (new_entry mem))) [
  | inl alike ↦
      rw alike
        (omega (arith, absent, count_ext (matches m) (matches mem) es (matches_ext m mem alike)))
  | inr other ↦ rw other (omega (arith, single))
]

pub add_entry-IsUnsorted :
    (evicted : ℕ) (mem : List ℕ) (es : List ExtraData)
    → count (matches mem) es ≡ 0
    → IsAuto es
    → IsUnsorted (add_entry evicted mem es)
add_entry-IsUnsorted evicted mem es absent h = elim (Bool-cases (ltb (length es) max_auto_extras)) [
  | inl room ↦
      rw (room, add_entry)
        (record {
          small = omega (
            arith,
            length-append es (new_entry mem ∷ []),
            ltb→lt (length es) max_auto_extras room,
          );
          single = λ m. omega (
            arith,
            count-append (matches m) es (new_entry mem ∷ []),
            added_once m mem es absent (h.single m),
          );
        })
  | inr full ↦
      rw (full, add_entry)
        (record {
          small = omega (arith, length-set es (250 + evicted) (new_entry mem), h.small);
          single = λ m. omega (
            arith,
            count-set (matches m) es (250 + evicted) (new_entry mem),
            added_once m mem es absent (h.single m),
          );
        })
]

-- The top of the list is all of its first part.
pub take_front :
    (n : ℕ) (front back : List ExtraData)
    → length front ≤ n
    → min (n - length front) (length back) ≡ 0
    → take n (contents (front ++ back)) ≡ contents front
take_front zero [] back h g = refl
take_front zero (e ∷ front) back h g = absurd (omega arith)
take_front (suc n) [] [] h g = refl
take_front (suc n) [] (e ∷ back) h g = absurd (omega arith)
take_front (suc n) (e ∷ front) back h g =
    ap (λ l. e.bytes ∷ l) (take_front n front back (omega arith) (omega arith))
