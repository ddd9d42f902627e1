-- ===== src/Stages/Extras/Insert.antt =====
-- Tokens inserted into the file: `ex_tmp` holds the head of the file, which grows by a byte with each place.
use aflgo.Common.{
  ℕ, zero, suc, ◌+◌, ◌<◌, ◌≤◌, ◌≡◌, refl, ap, ◌∙◌, subst, arith, leb, if◌then◌else◌, Bool-cases,
  inl, inr, List, [], ◌∷◌, ◌++◌, length, take, drop, set, get_or, replicate, length-drop,
  length-set, length-replicate, All,
}
use mathlib.Core.List.{append-nil}
use aflgo.Stages.Flow.{Outcome, goes, abandons, Item, input, change, gather, run_all, Visits}
use aflgo.Stages.Flow.Rules.{seq-Visits, for_carry, run_all-append}
use aflgo.Stages.Buffer.{over, write}
use aflgo.Stages.Buffer.Laws.{length-write, take-over}
use aflgo.Stages.Flips.{Fuzzing, Session, exec}
use aflgo.Stages.Extras.{
  max_file, max_dict_file, insert_token, insert_tokens, insert_place, extras_insert,
}

-- `memcpy` of two pieces, one behind the other, up to the end `n` of the second.
over_two :
    (n : ℕ) (tmp tok tail : List ℕ)
    → n ≡ length tok + length tail
    → n ≤ length tmp
    → take n (write (over tmp tok) (length tok) tail) ≡ tok ++ tail
over_two n tmp [] tail e h =
    ap (λ k. take k (over tmp tail)) (omega arith) ∙ take-over tmp tail (omega arith)
over_two zero tmp (x ∷ tok) tail e h = absurd (omega arith)
over_two (suc n) [] (x ∷ tok) tail e h = absurd (omega arith)
over_two (suc n) (y ∷ tmp) (x ∷ tok) tail e h =
    ap (λ l. x ∷ l) (over_two n tmp tok tail (omega arith) (omega arith))

write_two :
    (i j n : ℕ) (tmp tok tail : List ℕ)
    → j ≡ i + length tok
    → n ≡ j + length tail
    → n ≤ length tmp
    → take n (write (write tmp i tok) j tail) ≡ take i tmp ++ (tok ++ tail)
write_two zero j n tmp tok tail d e h =
    ap (λ k. take n (write (over tmp tok) k tail)) (omega arith)
    ∙ over_two n tmp tok tail (omega arith) h
write_two (suc i) zero n tmp tok tail d e h = absurd (omega arith)
write_two (suc i) (suc j) zero tmp tok tail d e h = absurd (omega arith)
write_two (suc i) (suc j) (suc n) [] tok tail d e h = absurd (omega arith)
write_two (suc i) (suc j) (suc n) (y ∷ tmp) tok tail d e h =
    ap (λ l. y ∷ l) (write_two i j n tmp tok tail (omega arith) (omega arith) (omega arith))

-- A write does not touch what is before it.
take-write_before : (i j : ℕ) (tmp bs : List ℕ) → i ≤ j → take i (write tmp j bs) ≡ take i tmp
take-write_before zero j tmp bs h = refl
take-write_before (suc i) zero tmp bs h = absurd (omega arith)
take-write_before (suc i) (suc j) [] bs h = refl
take-write_before (suc i) (suc j) (y ∷ tmp) bs h =
    ap (λ l. y ∷ l) (take-write_before i j tmp bs (omega arith))

-- The head of the file grows by the byte that is copied.
take-set :
    (n i : ℕ) (tmp out : List ℕ) (d : ℕ)
    → n ≡ i + 1
    → i < length tmp
    → i < length out
    → take i tmp ≡ take i out
    → take n (set tmp i (get_or out i d)) ≡ take n out
take-set zero i tmp out d e inside short same = absurd (omega arith)
take-set (suc n) i [] out d e inside short same = absurd (omega arith)
take-set (suc n) i (x ∷ tmp) [] d e inside short same = absurd (omega arith)
take-set (suc n) zero (x ∷ tmp) (y ∷ out) d e inside short same =
    let last : n ≡ 0 = omega arith in rw last refl
take-set (suc n) (suc i) (x ∷ tmp) (y ∷ out) d e inside short same =
    let head : x ≡ y = cc same in
    let rest : take i tmp ≡ take i out = cc same in
    ap (λ z. z ∷ take n (set tmp i (get_or out i d))) head
    ∙ ap (λ l. y ∷ l) (take-set n i tmp out d (omega arith) (omega arith) (omega arith) rest)

-- `ex_tmp` before the place `i`.
Holds : List ℕ → ℕ → List ℕ → Type 0
Holds out i tmp =
    (length tmp ≡ length out + max_dict_file) × (i ≤ length out → take i tmp ≡ take i out)

-- The file with a token in it.
abbrev pub inserted : List ℕ → ℕ → List ℕ → List ℕ
inserted out i tok = take i out ++ (tok ++ drop i out)

module _ {S : Type 0} where
  -- The inputs at one place: the tokens that leave the file small enough.
  abbrev pub insertion : List ℕ → ℕ → List ℕ → List (Item S)
  insertion out i tok =
      if leb (length out + length tok) max_file then input (inserted out i tok) ∷ [] else []

  abbrev pub insertions : List ℕ → ℕ → List (List ℕ) → List (Item S)
  insertions out i [] = []
  insertions out i (tok ∷ toks) = insertion out i tok ++ insertions out i toks

module _ {W : Type 0} (env : Fuzzing W) where
  insert_one-Visits :
      (out : List ℕ) (i : ℕ) (tok tmp : List ℕ)
      → i ≤ length out
      → length tok ≤ max_dict_file
      → Holds out i tmp
      → (c : List ℕ) × Holds out i c
        × Visits (exec env) (insert_token env out i tok) tmp (insertion out i tok) c
  unfolding Holds
  insert_one-Visits out i tok tmp inside short held =
      let tmp' = write (write tmp i tok) (i + length tok) (drop i out) in
      let kept : length tmp' ≡ length out + max_dict_file =
        length-write (write tmp i tok) (i + length tok) (drop i out)
        ∙ length-write tmp i tok
        ∙ held.0 in
      let before : take i tmp' ≡ take i out =
        take-write_before i (i + length tok) (write tmp i tok) (drop i out) (omega arith)
        ∙ take-write_before i i tmp tok (omega arith)
        ∙ held.1 inside in
      let whole : take (length out + length tok) tmp' ≡ inserted out i tok =
        write_two i (i + length tok) (length out + length tok) tmp tok (drop i out) refl
          (omega (arith, length-drop i out)) (omega (arith, held.0))
        ∙ ap (λ l. l ++ (tok ++ drop i out)) (held.1 inside) in
      elim (Bool-cases (leb (length out + length tok) max_file)) [
        | inl fit ↦ rw fit (tmp', (kept, λ h. before), λ s. rw whole refl)
        | inr big ↦ rw big (tmp, held, λ s. refl)
      ]

  insert_tokens-Visits :
      (out : List ℕ) (i : ℕ) (toks : List (List ℕ)) (tmp : List ℕ)
      → i ≤ length out
      → All (λ tok. length tok ≤ max_dict_file) toks
      → Holds out i tmp
      → (c : List ℕ) × Holds out i c
        × Visits (exec env) (insert_tokens env out i toks) tmp (insertions out i toks) c
  insert_tokens-Visits out i [] tmp inside short held = (tmp, held, λ s. refl)
  insert_tokens-Visits out i (tok ∷ toks) tmp inside short held =
      let first = insert_one-Visits out i tok tmp inside short.0 held in
      let rest = insert_tokens-Visits out i toks first.0 inside short.1 first.1 in
      (
        rest.0,
        rest.1,
        seq-Visits (exec env) (insert_token env out i tok) (insert_tokens env out i toks) tmp
            first.0 rest.0 (insertion out i tok) (insertions out i toks) first.2 rest.2,
      )

  grow-Holds :
      (out : List ℕ) (i d : ℕ) (tmp : List ℕ)
      → i ≤ length out
      → Holds out i tmp
      → Holds out (i + 1) (set tmp i (get_or out i d))
  unfolding Holds
  grow-Holds out i d tmp inside held = (
    length-set tmp i (get_or out i d) ∙ held.0,
    λ more. take-set (i + 1) i tmp out d refl (omega (arith, held.0)) (omega arith) (held.1 inside),
  )

  -- One place: the tokens, and the byte of the file.
  place-Visits :
      (behind : ℕ) (out : List ℕ) (toks : List (List ℕ)) (i : ℕ) (tmp : List ℕ)
      → All (λ tok. length tok ≤ max_dict_file) toks
      → i ≤ length out
      → Holds out i tmp
      → (c : List ℕ) × Holds out (i + 1) c
        × Visits (exec env) (insert_place env behind toks out i) tmp (insertions out i toks) c
  place-Visits behind out toks i tmp short inside held =
      let tried = insert_tokens-Visits out i toks tmp inside short held in
      let after = set tried.0 i (get_or out i behind) in
      (
        after,
        grow-Holds out i behind tried.0 inside tried.1,
        subst (λ l. Visits (exec env) (insert_place env behind toks out i) tmp l after)
            (append-nil (insertions out i toks))
            (seq-Visits (exec env) (insert_tokens env out i toks)
              (change (λ b. set b i (get_or out i behind))) tmp tried.0 after
              (insertions out i toks) [] tried.2 (λ s. refl)),
      )

  -- With tokens of at most 128 bytes, the stage that inserts tokens runs the target on the file with each token in turn inserted at
  -- place 0, then at place 1 and so on to the end of the file, save where the result would be larger than 1 MB, whatever
  -- the byte behind the buffer that the last round copies. It leaves the file as it was;
  -- the first run that asks to bail out abandons the entry.
  pub extras_insert-Visits :
      (behind : ℕ) (extras : List (List ℕ)) (buf : List ℕ)
      → All (λ tok. length tok ≤ max_dict_file) extras
      → Visits
          (exec env)
          (extras_insert env behind extras)
          buf
          (gather (length buf + 1) 0 (λ i. insertions buf i extras))
          buf
  unfolding extras_insert Holds
  extras_insert-Visits behind extras buf short s =
      let start : List ℕ = replicate (length buf + max_dict_file) 0 in
      let items : List (Item (Session W)) =
        gather (length buf + 1) 0 (λ i. insertions buf i extras) in
      let loop =
        for_carry (exec env) (Holds buf) (length buf + 1) 0 (insert_place env behind extras buf)
          (λ i. insertions buf i extras)
          (λ i below b held. place-Visits behind buf extras i b short (omega arith) held) start
          (length-replicate (length buf + max_dict_file) 0, λ h. refl) in
      ap
        (λ (o : Outcome (Session W)). elim o as (λ _. Outcome (Session W)) [
          | goes b s' ↦ goes buf s'
          | abandons s' ↦ abandons s'
        ])
        (loop.1 s)
      ∙ run_all-append (exec env) items [] loop.0 buf (λ b s'. goes buf s') (λ s'. refl) s
      ∙ ap (λ l. run_all (exec env) l buf s) (append-nil items)
