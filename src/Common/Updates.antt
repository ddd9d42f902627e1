-- ===== src/Common/Updates.antt =====
-- Writes to an element of a list.
use Prim.Native.Nat.{ℕ, zero, suc, ◌<◌}
use mathlib.Core.Path.{◌≡◌, refl, ap}
use mathlib.Core.Logic.{◌≢◌}
use mathlib.Core.List.{List, [], ◌∷◌}
use native.Mathlib.Omega.{arith}
use aflgo.Common.Lists.{length, get_or, set}

-- A write through a pointer to an element.
module _ {ℓ} {A : Type ℓ} where
  abbrev pub modify : List A → ℕ → (A → A) → List A
  modify [] i f = []
  modify (x ∷ xs) zero f = f x ∷ xs
  modify (x ∷ xs) (suc i) f = x ∷ modify xs i f

  pub length-modify : (xs : List A) (i : ℕ) (f : A → A) → length (modify xs i f) ≡ length xs
  length-modify [] i f = refl
  length-modify (x ∷ xs) zero f = refl
  length-modify (x ∷ xs) (suc i) f = ap suc (length-modify xs i f)

  pub get_or-modify_self :
      (xs : List A) (i : ℕ) (f : A → A) (d : A)
      → i < length xs
      → get_or (modify xs i f) i d ≡ f (get_or xs i d)
  get_or-modify_self [] i f d h = absurd (omega arith)
  get_or-modify_self (x ∷ xs) zero f d h = refl
  get_or-modify_self (x ∷ xs) (suc i) f d h = get_or-modify_self xs i f d (omega arith)

  pub get_or-modify_ne :
      (xs : List A) (i j : ℕ) (f : A → A) (d : A)
      → i ≢ j
      → get_or (modify xs i f) j d ≡ get_or xs j d
  get_or-modify_ne [] i j f d h = refl
  get_or-modify_ne (x ∷ xs) zero zero f d h = absurd (h refl)
  get_or-modify_ne (x ∷ xs) zero (suc j) f d h = refl
  get_or-modify_ne (x ∷ xs) (suc i) zero f d h = refl
  get_or-modify_ne (x ∷ xs) (suc i) (suc j) f d h = get_or-modify_ne xs i j f d (λ e. h (ap suc e))

  -- What a field of an element is after the write, if the field is not written.
  pub get_or-modify_keep {κ} :
      {B : Type κ} (g : A → B) (xs : List A) (i j : ℕ) (f : A → A) (d : A)
      → ((x : A) → g (f x) ≡ g x)
      → g (get_or (modify xs i f) j d) ≡ g (get_or xs j d)
  get_or-modify_keep g [] i j f d h = refl
  get_or-modify_keep g (x ∷ xs) zero zero f d h = h x
  get_or-modify_keep g (x ∷ xs) zero (suc j) f d h = refl
  get_or-modify_keep g (x ∷ xs) (suc i) zero f d h = refl
  get_or-modify_keep g (x ∷ xs) (suc i) (suc j) f d h = get_or-modify_keep g xs i j f d h

  pub set_twice : (xs : List A) (i : ℕ) (v w : A) → set (set xs i v) i w ≡ set xs i w
  set_twice [] i v w = refl
  set_twice (x ∷ xs) zero v w = refl
  set_twice (x ∷ xs) (suc i) v w = ap (λ l. x ∷ l) (set_twice xs i v w)

  -- A property of an element after a write: of the written value, or of the old element.
  pub get_or-modify_elim {κ} :
      (P : A → Type κ) (xs : List A) (t e : ℕ) (f : A → A) (d : A)
      → e < length xs
      → (t ≡ e → P (f (get_or xs e d)))
      → (t ≢ e → P (get_or xs e d))
      → P (get_or (modify xs t f) e d)
  get_or-modify_elim P [] t e f d h p q = absurd (omega arith)
  get_or-modify_elim P (x ∷ xs) zero zero f d h p q = p refl
  get_or-modify_elim P (x ∷ xs) zero (suc e) f d h p q = q (omega arith)
  get_or-modify_elim P (x ∷ xs) (suc t) zero f d h p q = q (omega arith)
  get_or-modify_elim P (x ∷ xs) (suc t) (suc e) f d h p q =
      get_or-modify_elim P xs t e f d (omega arith) (λ z. p (omega arith))
        (λ z. q (λ w. z (omega arith)))
