-- ===== src/Bitmap/Virgin/Loop.antt =====
-- The whole loop of `has_new_bits` against the reference.
use aflgo.Common.{
  ℕ, zero, suc, ◌*◌, ◌≤◌, max, List, [], ◌∷◌, length, take, drop, ◌≡◌, refl, sym, ap₂, arith,
  zip_with-nil, zip_with-take-drop, take-All, drop-All, length-take, length-drop,
}
use aflgo.Bitmap.Memory.{IsByte, IsBytes}
use aflgo.Bitmap.Virgin.{has_new_bits_loop}
use aflgo.Bitmap.Virgin.Reference.{novelty, novelty-le-two, wipe, wiped}
use aflgo.Bitmap.Virgin.Chunk.{chunk_ret, chunk_virgin}

pub novelty-nil : (cur : List ℕ) → novelty cur [] ≡ 0
novelty-nil [] = refl
novelty-nil (c ∷ cur) = refl

novelty-take-drop :
    (w : ℕ) (cur vir : List ℕ)
    → max (novelty (take w cur) (take w vir)) (novelty (drop w cur) (drop w vir)) ≡ novelty cur vir
novelty-take-drop zero cur vir = omega arith
novelty-take-drop (suc w) [] vir = omega arith
novelty-take-drop (suc w) (c ∷ cur) [] = omega (arith, novelty-nil (drop w cur))
novelty-take-drop (suc w) (c ∷ cur) (v ∷ vir) = omega (arith, novelty-take-drop w cur vir)

pub has_new_bits_loop_lem :
    (w i : ℕ) (cur vir : List ℕ) (ret : ℕ)
    → IsBytes cur
    → IsBytes vir
    → length vir ≡ i * w
    → length vir ≤ length cur
    → ret ≤ 2
    → has_new_bits_loop w i cur vir ret ≡ (max ret (novelty cur vir), wiped cur vir)
unfolding has_new_bits_loop
has_new_bits_loop_lem w zero cur [] ret hc hv e fits r =
    ap₂ (λ a b. (a, b)) (omega (arith, novelty-nil cur)) (sym (zip_with-nil wipe cur))
has_new_bits_loop_lem w zero cur (v ∷ vir) ret hc hv e fits r = absurd (omega arith)
has_new_bits_loop_lem w (suc i) cur vir ret hc hv e fits r =
    let cw : length (take w cur) ≡ w = omega (arith, length-take w cur) in
    let vw : length (take w vir) ≡ w = omega (arith, length-take w vir) in
    let c8 : IsBytes (take w cur) = take-All IsByte w cur hc in
    let v8 : IsBytes (take w vir) = take-All IsByte w vir hv in
    rw
      (
        chunk_virgin (take w cur) (take w vir) c8 v8 w cw vw,
        chunk_ret (take w cur) (take w vir) c8 v8 w cw vw ret r,
        has_new_bits_loop_lem w i (drop w cur) (drop w vir)
            (max ret (novelty (take w cur) (take w vir))) (drop-All IsByte w cur hc)
            (drop-All IsByte w vir hv) (omega (arith, length-drop w vir))
            (omega (arith, length-drop w vir, length-drop w cur))
            (omega (arith, novelty-le-two (take w cur) (take w vir))),
      )
      (ap₂ (λ a b. (a, b)) (omega (arith, novelty-take-drop w cur vir))
        (zip_with-take-drop wipe w cur vir))
