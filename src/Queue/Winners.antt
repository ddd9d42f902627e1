-- ===== src/Queue/Winners.antt =====
-- Who holds each slot after `update_bitmap_score`.
use native.Mathlib.Decide.{ℕ_discrete}
use aflgo.Common.{
  ℕ, zero, suc, ◌+◌, ◌<◌, ◌≤◌, ◌≡◌, refl, ap, sym, ◌∙◌, arith, if◌then◌else◌, Option, none, some,
  length, get_or, ltb, leb, ◌&&◌, ◌!=◌, ◌==◌, get_or-set_self, get_or-set_ne,
}
use aflgo.Doubles.{Doubles}
use aflgo.Fuzzer.{Fuzzer, entry}
use aflgo.Queue.{release, claim_slot, score_byte, score_loop, update_bitmap_score, factor}
use aflgo.Queue.Rounds.{score_byte_elim, IsFrame, score_byte-IsFrame}

module _ {D : Type 0} (d : Doubles D) where
  -- Entry `q` with factor `fav` against the holder `old` of a slot.
  abbrev pub duel : Fuzzer D → ℕ → ℕ → Option ℕ → Option ℕ
  duel s fav q none = some q
  duel s fav q (some t) = if ltb (factor (entry d s t)) fav then some t else some q

  -- The holder of slot `j` that the rule of `update_bitmap_score` picks.
  abbrev pub contender : Fuzzer D → ℕ → ℕ → ℕ → Option ℕ
  contender s fav q j =
      if get_or s.trace_bits j 0 != 0
      then duel s fav q (get_or s.top_rated j none)
      else get_or s.top_rated j none

  duel-frame :
      (s s' : Fuzzer D) (fav q : ℕ) (o : Option ℕ)
      → IsFrame d s s'
      → duel s' fav q o ≡ duel s fav q o
  duel-frame s s' fav q none f = refl
  duel-frame s s' fav q (some t) f =
      ap (λ x. if ltb x fav then some t else some q) (f.same_factor t)

  contender-frame :
      (s s' : Fuzzer D) (fav q j : ℕ)
      → IsFrame d s s'
      → get_or s'.top_rated j none ≡ get_or s.top_rated j none
      → contender s' fav q j ≡ contender s fav q j
  contender-frame s s' fav q j f e =
      rw (f.same_trace, e, duel-frame s s' fav q (get_or s.top_rated j none) f) refl

  -- A claim changes its slot and no other.
  claimed :
      (q i j : ℕ) (s : Fuzzer D)
      → i < length s.top_rated
      → get_or (claim_slot q i s).top_rated j none
        ≡ (if j == i then some q else get_or s.top_rated j none)
  unfolding claim_slot
  claimed q i j s h = elim (ℕ_discrete i j) [
    | yes e ↦
        ap (λ k. get_or (claim_slot q i s).top_rated k none) (sym e)
        ∙ get_or-set_self s.top_rated i (some q) none h
        ∙ ground arith
    | no e ↦ get_or-set_ne s.top_rated i j (some q) none e ∙ ground arith
  ]

  score_byte_slot :
      (fav q i j : ℕ) (s : Fuzzer D)
      → i < length s.top_rated
      → get_or (score_byte d fav q i s).top_rated j none
        ≡ (if j == i then contender s fav q i else get_or s.top_rated j none)
  score_byte_slot fav q i j s h =
      score_byte_elim d fav q i s
        (λ s'.
          get_or s'.top_rated j none
          ≡ (if j == i then contender s fav q i else get_or s.top_rated j none))
        (λ off. rw off (same j)) (λ on e. rw (on, e) (claimed q i j s h))
        (λ t on e w. rw (on, e, w) (kept t e j))
        (λ t on e w. rw (on, e, w) (unfold release in claimed q i j (release t s) h))
    where
      same :
          (j : ℕ)
          → get_or s.top_rated j none
            ≡ (if j == i then get_or s.top_rated i none else get_or s.top_rated j none)
      same j = ground arith

      kept :
          (t : ℕ)
          → get_or s.top_rated i none ≡ some t
          → (j : ℕ)
          → get_or s.top_rated j none ≡ (if j == i then some t else get_or s.top_rated j none)
      kept t e j = ground arith

  score_loop_slot :
      (n fav q i j : ℕ) (s : Fuzzer D)
      → i + n ≤ length s.top_rated
      → get_or (score_loop d n fav q i s).top_rated j none
        ≡ (if leb i j && ltb j (i + n) then contender s fav q j else get_or s.top_rated j none)
  unfolding score_loop
  score_loop_slot zero fav q i j s h = ground arith
  score_loop_slot (suc n) fav q i j s h =
      let s' = score_byte d fav q i s in
      let f = score_byte-IsFrame d fav q i s in
      let slot = score_byte_slot fav q i j s (omega arith) in
      score_loop_slot n fav q (i + 1) j s' (omega (arith, f.same_slots)) ∙ elim (ℕ_discrete j i) [
        | yes e ↦ ground (arith, slot, ap (λ k. contender s fav q k) e)
        | no e ↦ ground (arith, slot, contender-frame s s' fav q j f (slot ∙ ground arith))
      ]

  -- With one slot for each byte of the map, `update_bitmap_score` decides every slot by the state before the call: a byte that the trace
  -- does not hit keeps its holder; a vacant slot of a hit byte goes to `q`; a held one goes to `q`
  -- unless the holder's `exec_us * len` is smaller.
  pub update_bitmap_score_slots :
      (q j : ℕ) (s : Fuzzer D)
      → length s.top_rated ≡ s.map_size
      → j < s.map_size
      → get_or (update_bitmap_score d q s).top_rated j none ≡ contender s (factor (entry d s q)) q j
  unfolding update_bitmap_score
  update_bitmap_score_slots q j s w h =
      score_loop_slot s.map_size (factor (entry d s q)) q 0 j s (omega (arith, w)) ∙ ground arith
