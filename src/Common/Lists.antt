-- ===== src/Common/Lists.antt =====
-- C arrays as lists, measured and indexed by native numbers.
use Prim.Native.Nat.{ℕ, zero, suc, ◌+◌, ◌-◌, ◌*◌, ◌<◌, ◌≤◌, min}
use mathlib.Core.Path.{◌≡◌, refl, sym, ◌∙◌, ap, ap₂}
use mathlib.Core.Logic.{◌≢◌}
use mathlib.Core.List.{List, [], ◌∷◌, ◌++◌, map, map-append, append_assoc}
use mathlib.Core.Option.{Option, none, some}
use native.Mathlib.Nat.{zero-add, suc-add}
use native.Mathlib.Omega.{arith}

module _ {ℓ} {A : Type ℓ} where
  abbrev pub length : List A → ℕ
  length [] = 0
  length (x ∷ xs) = suc (length xs)

  abbrev pub get_elem? : List A → ℕ → Option A
  get_elem? [] i = none
  get_elem? (x ∷ xs) zero = some x
  get_elem? (x ∷ xs) (suc i) = get_elem? xs i

  -- A write out of bounds changes nothing.
  abbrev pub set : List A → ℕ → A → List A
  set [] i v = []
  set (x ∷ xs) zero v = v ∷ xs
  set (x ∷ xs) (suc i) v = x ∷ set xs i v

  abbrev pub get_or : List A → ℕ → A → A
  get_or [] i d = d
  get_or (x ∷ xs) zero d = x
  get_or (x ∷ xs) (suc i) d = get_or xs i d

  abbrev pub take : ℕ → List A → List A
  take zero xs = []
  take (suc n) [] = []
  take (suc n) (x ∷ xs) = x ∷ take n xs

  abbrev pub drop : ℕ → List A → List A
  drop zero xs = xs
  drop (suc n) [] = []
  drop (suc n) (x ∷ xs) = drop n xs

  abbrev pub replicate : ℕ → A → List A
  replicate zero a = []
  replicate (suc n) a = a ∷ replicate n a

module _ {ℓ} {A : Type ℓ} where
  pub length-append : (xs ys : List A) → length (xs ++ ys) ≡ length xs + length ys
  length-append [] ys = omega arith
  length-append (x ∷ xs) ys = omega (arith, length-append xs ys)

  pub length-set : (xs : List A) (i : ℕ) (v : A) → length (set xs i v) ≡ length xs
  length-set [] i v = refl
  length-set (x ∷ xs) zero v = refl
  length-set (x ∷ xs) (suc i) v = ap suc (length-set xs i v)

  pub get_or-set_self :
      (xs : List A) (i : ℕ) (v d : A) → i < length xs → get_or (set xs i v) i d ≡ v
  get_or-set_self [] i v d h = absurd (omega arith)
  get_or-set_self (x ∷ xs) zero v d h = refl
  get_or-set_self (x ∷ xs) (suc i) v d h = get_or-set_self xs i v d (omega arith)

  pub get_or-set_ne :
      (xs : List A) (i j : ℕ) (v d : A) → i ≢ j → get_or (set xs i v) j d ≡ get_or xs j d
  get_or-set_ne [] i j v d h = refl
  get_or-set_ne (x ∷ xs) zero zero v d h = absurd (h refl)
  get_or-set_ne (x ∷ xs) zero (suc j) v d h = refl
  get_or-set_ne (x ∷ xs) (suc i) zero v d h = refl
  get_or-set_ne (x ∷ xs) (suc i) (suc j) v d h = get_or-set_ne xs i j v d (λ e. h (ap suc e))

  pub get_or_beyond : (xs : List A) (i : ℕ) (d : A) → length xs ≤ i → get_or xs i d ≡ d
  get_or_beyond [] i d h = refl
  get_or_beyond (x ∷ xs) zero d h = absurd (omega arith)
  get_or_beyond (x ∷ xs) (suc i) d h = get_or_beyond xs i d (omega arith)

  pub get_or-cons_zero : (x d : A) (xs : List A) (n : ℕ) → n ≡ 0 → get_or (x ∷ xs) n d ≡ x
  get_or-cons_zero x d xs zero h = refl
  get_or-cons_zero x d xs (suc n) h = absurd (omega arith)

  pub get_or-cons_suc :
      (x d : A) (xs : List A) (n m : ℕ) → n ≡ suc m → get_or (x ∷ xs) n d ≡ get_or xs m d
  get_or-cons_suc x d xs zero m h = absurd (omega arith)
  get_or-cons_suc x d xs (suc n) m h = ap (λ k. get_or xs k d) (omega arith)

  pub length-take : (n : ℕ) (xs : List A) → length (take n xs) ≡ min n (length xs)
  length-take zero xs = omega arith
  length-take (suc n) [] = omega arith
  length-take (suc n) (x ∷ xs) = omega (arith, length-take n xs)

  pub length-drop : (n : ℕ) (xs : List A) → length (drop n xs) ≡ length xs - n
  length-drop zero xs = omega arith
  length-drop (suc n) [] = omega arith
  length-drop (suc n) (x ∷ xs) = omega (arith, length-drop n xs)

  pub length-replicate : (n : ℕ) (a : A) → length (replicate n a) ≡ n
  length-replicate zero a = refl
  length-replicate (suc n) a = ap suc (length-replicate n a)

  pub length-map {κ} : {B : Type κ} (f : A → B) (xs : List A) → length (map f xs) ≡ length xs
  length-map f [] = refl
  length-map f (x ∷ xs) = ap suc (length-map f xs)

  -- Arrays of one length that agree at every index are one array.
  pub get_or_ext :
      (d : A) (xs ys : List A)
      → length xs ≡ length ys
      → ((i : ℕ) → i < length xs → get_or xs i d ≡ get_or ys i d)
      → xs ≡ ys
  get_or_ext d [] [] e h = refl
  get_or_ext d [] (y ∷ ys) e h = absurd (omega arith)
  get_or_ext d (x ∷ xs) [] e h = absurd (omega arith)
  get_or_ext d (x ∷ xs) (y ∷ ys) e h =
      ap₂ ◌∷◌ (h 0 (omega arith))
        (get_or_ext d xs ys (omega arith) (λ i p. h (suc i) (omega arith)))

-- Every element has the property.
abbrev pub All {ℓ κ} : {A : Type ℓ} → (A → Type κ) → List A → Type κ
All P [] = Unit
All P (x ∷ xs) = P x × All P xs

abbrev pub sum : List ℕ → ℕ
sum [] = 0
sum (x ∷ xs) = x + sum xs

module _ {ℓ κ μ} {A : Type ℓ} {B : Type κ} {C : Type μ} where
  abbrev pub zip_with : (A → B → C) → List A → List B → List C
  zip_with f [] ys = []
  zip_with f (x ∷ xs) [] = []
  zip_with f (x ∷ xs) (y ∷ ys) = f x y ∷ zip_with f xs ys

  pub length-zip_with :
      (f : A → B → C) (xs : List A) (ys : List B)
      → length (zip_with f xs ys) ≡ min (length xs) (length ys)
  length-zip_with f [] ys = omega arith
  length-zip_with f (x ∷ xs) [] = omega arith
  length-zip_with f (x ∷ xs) (y ∷ ys) = omega (arith, length-zip_with f xs ys)

  pub zip_with-nil : (f : A → B → C) (xs : List A) → zip_with f xs [] ≡ []
  zip_with-nil f [] = refl
  zip_with-nil f (x ∷ xs) = refl

  -- Arrays are combined piece by piece.
  pub zip_with-take-drop :
      (f : A → B → C) (w : ℕ) (xs : List A) (ys : List B)
      → zip_with f (take w xs) (take w ys) ++ zip_with f (drop w xs) (drop w ys) ≡ zip_with f xs ys
  zip_with-take-drop f zero xs ys = refl
  zip_with-take-drop f (suc w) [] ys = refl
  zip_with-take-drop f (suc w) (x ∷ xs) [] = zip_with-nil f (drop w xs)
  zip_with-take-drop f (suc w) (x ∷ xs) (y ∷ ys) =
      ap (λ l. f x y ∷ l) (zip_with-take-drop f w xs ys)

module _ {ℓ κ} {A : Type ℓ} (P : A → Type κ) where
  pub take-All : (n : ℕ) (xs : List A) → All P xs → All P (take n xs)
  take-All zero xs h = tt
  take-All (suc n) [] h = tt
  take-All (suc n) (x ∷ xs) h = (h.0, take-All n xs h.1)

  pub drop-All : (n : ℕ) (xs : List A) → All P xs → All P (drop n xs)
  drop-All zero xs h = h
  drop-All (suc n) [] h = tt
  drop-All (suc n) (x ∷ xs) h = drop-All n xs h.1

  pub append-All : (xs ys : List A) → All P xs → All P ys → All P (xs ++ ys)
  append-All [] ys h k = k
  append-All (x ∷ xs) ys h k = (h.0, append-All xs ys h.1 k)

  pub get_or-All : (xs : List A) (i : ℕ) (d : A) → All P xs → P d → P (get_or xs i d)
  get_or-All [] i d h k = k
  get_or-All (x ∷ xs) zero d h k = h.0
  get_or-All (x ∷ xs) (suc i) d h k = get_or-All xs i d h.1 k

module _ {ℓ} {A : Type ℓ} where
  pub take-nil : (n : ℕ) → take {A = A} n [] ≡ []
  take-nil zero = refl
  take-nil (suc n) = refl

  pub drop-nil : (n : ℕ) → drop {A = A} n [] ≡ []
  drop-nil zero = refl
  drop-nil (suc n) = refl

  pub take-add : (m n : ℕ) (xs : List A) → take (m + n) xs ≡ take m xs ++ take n (drop m xs)
  take-add zero n xs = rw zero-add
  take-add (suc m) n [] = take-nil (suc m + n) ∙ sym (take-nil n)
  take-add (suc m) n (x ∷ xs) = rw suc-add (ap (λ l. x ∷ l) (take-add m n xs))

  pub drop-add : (m n : ℕ) (xs : List A) → drop (m + n) xs ≡ drop n (drop m xs)
  drop-add zero n xs = rw zero-add
  drop-add (suc m) n [] = drop-nil (suc m + n) ∙ sym (drop-nil n)
  drop-add (suc m) n (x ∷ xs) = rw suc-add (drop-add m n xs)

-- A loop over words that maps each word leaves the part of the array behind them alone.
module _ (f : ℕ → ℕ) where
  abbrev pub map_prefix : ℕ → List ℕ → List ℕ
  map_prefix n mem = map f (take n mem) ++ drop n mem

  pub map_prefix-word :
      (w i : ℕ) (mem : List ℕ)
      → map f (take w mem) ++ map_prefix (i * w) (drop w mem) ≡ map_prefix (suc i * w) mem
  map_prefix-word w i mem =
      rw (count w i, take-add w (i * w) mem, drop-add w (i * w) mem, map-append, append_assoc)
    where
      count : (w i : ℕ) → suc i * w ≡ w + i * w
      count w i = omega arith

  pub map_prefix_all : (n : ℕ) (mem : List ℕ) → length mem ≡ n → map_prefix n mem ≡ map f mem
  map_prefix_all zero [] e = refl
  map_prefix_all zero (x ∷ mem) e = absurd (omega arith)
  map_prefix_all (suc n) [] e = absurd (omega arith)
  map_prefix_all (suc n) (x ∷ mem) e = ap (λ l. f x ∷ l) (map_prefix_all n mem (omega arith))

module _ {ℓ} {A : Type ℓ} where
  pub take_whole : (n : ℕ) (xs : List A) → length xs ≤ n → take n xs ≡ xs
  take_whole zero [] h = refl
  take_whole zero (x ∷ xs) h = absurd (omega arith)
  take_whole (suc n) [] h = refl
  take_whole (suc n) (x ∷ xs) h = ap (λ l. x ∷ l) (take_whole n xs (omega arith))
