-- ===== src/Stages/Flips/Effects.antt =====
-- The effector map that the stage of byte flips leaves.
use native.Mathlib.Decide.{ℕ_discrete}
use aflgo.Common.{
  ℕ, zero, suc, ◌+◌, ◌-◌, ◌*◌, ◌/◌, ◌<◌, ◌≤◌, ◌≡◌, ◌⊎◌, refl, ap, ◌∙◌, subst, arith, ◌==◌, ◌!=◌,
  ltb, if◌then◌else◌, Bool, true, false, Bool-cases, inl, inr, ◌&&◌, ◌||◌, List, [], ◌∷◌, ◌++◌,
  length, get_or, set, replicate, sum,
}
use aflgo.Stages.Flow.{Outcome, goes, Item, input, note, gather, run_all}
use aflgo.Stages.Flips.{
  Fuzzing, Session, exec, eff_alen, init_eff, effect_cksum, mark_effect, fill_eff, flip_byte, flip8,
}
use aflgo.Stages.Flips.Laws.{flip8-Visits}
use aflgo.Stages.Flips.Maps.{IsMap, none-IsMap, same-IsMap, set-IsMap}

module _ {W : Type 0} (env : Fuzzing W) (buf : List ℕ) (start : W) where
  -- The state of the fuzzer after the runs with each of the first `n` bytes inverted.
  abbrev pub reached : ℕ → W
  reached zero = start
  reached (suc n) = (env.common_fuzz_stuff (flip_byte n buf) (reached n)).1

  -- No run asks to bail out.
  abbrev pub IsQuiet : Type 0
  IsQuiet =
      (n : ℕ) → n < length buf → (env.common_fuzz_stuff (flip_byte n buf) (reached n)).0 ≡ false

  -- Inverting byte `cur` leads to another checksum, or none is taken.
  abbrev pub has_effect : ℕ → Bool
  has_effect cur =
      env.dumb_mode
      || (ltb (length buf) 128 || env.trace_cksum (reached (suc cur)) != env.exec_cksum)

  -- Block `b` is the first or the last of the file, or one of the first `n` bytes is in it and has an effect.
  abbrev pub is_marked : ℕ → ℕ → Bool
  is_marked zero b = (b == 0) || b == (length buf - 1) / 8
  is_marked (suc n) b = is_marked n b || ((n / 8 == b) && has_effect n)

  -- The blocks of eight bytes.
  abbrev pub blocks : ℕ
  blocks = (length buf + 7) / 8

  alen-blocks : eff_alen (length buf) ≡ blocks
  alen-blocks = ground arith

  -- What is known of the state after the runs with the first `n` bytes.
  record IsMarking (n : ℕ) (t : Session W) : Type 0 where
    pub world : t.world ≡ reached n
    pub map : IsMap blocks (is_marked n) t.eff_map t.eff_cnt

  init-IsMarking :
      (t : Session W) → t.world ≡ start → 1 ≤ length buf → IsMarking 0 (init_eff env (length buf) t)
  init-IsMarking t here some_bytes =
      let last = (length buf - 1) / 8 in
      let first : IsMap blocks (λ b. b == 0) (set (replicate blocks 0) 0 1) 1 =
        set-IsMap blocks (λ b. false) (λ b. b == 0) (replicate blocks 0) 0 0 (omega arith) refl refl
          (λ b other. ground arith) (none-IsMap blocks) in
      elim (Bool-cases (last != 0)) [
        | inl two ↦ rw two (record {
          world = here;
          map = rw alen-blocks (
              set-IsMap blocks (λ b. b == 0) (is_marked 0) (set (replicate blocks 0) 0 1) 1 last
                (omega arith) (ground arith) (ground arith) (λ b other. ground arith) first);
        })
        | inr one ↦ rw one (record {
          world = here;
          map = rw alen-blocks (
              same-IsMap blocks (λ b. b == 0) (is_marked 0) (set (replicate blocks 0) 0 1) 1
                (λ b. ground arith) first);
        })
      ]

  effect_lem :
      (n : ℕ) (t : Session W)
      → t.world ≡ reached (suc n)
      → (effect_cksum env (length buf) t != env.exec_cksum) ≡ has_effect n
  effect_lem n t here = rw here (ground arith)

  -- No block more is marked by a byte that has no effect, nor in a block that is marked.
  same_marks :
      (n : ℕ)
      → (is_marked n (n / 8) ≡ true) ⊎ (has_effect n ≡ false)
      → (b : ℕ) → is_marked (suc n) b ≡ is_marked n b
  same_marks n why b = elim (ℕ_discrete (n / 8) b) [
    | yes same ↦ elim why [
      | inl old ↦
          let here : is_marked n b ≡ true = subst (λ c. is_marked n c ≡ true) same old in
          rw here refl
      | inr still ↦ rw still (ground arith)
    ]
    | no other ↦ ground arith
  ]

  mark-IsMarking :
      (n : ℕ) (t : Session W)
      → n < length buf
      → t.world ≡ reached (suc n)
      → IsMap blocks (is_marked n) t.eff_map t.eff_cnt
      → IsMarking (suc n) (mark_effect env (length buf) n t)
  unfolding mark_effect
  mark-IsMarking n t inside here m =
      let empty : get_or t.eff_map (n / 8) 0 ≡ (if is_marked n (n / 8) then 1 else 0) =
        m.marks (n / 8) (omega arith) in
      elim (Bool-cases (is_marked n (n / 8))) [
        | inl old ↦
            rw (empty, old)
              (record {
                world = here;
                map =
                    same-IsMap blocks (is_marked n) (is_marked (suc n)) t.eff_map t.eff_cnt
                      (same_marks n (inl old)) m;
              })
        | inr new ↦
            rw (empty, new, effect_lem n t here)
              (elim (Bool-cases (has_effect n)) [
                | inr still ↦ rw still (record {
                  world = here;
                  map =
                      same-IsMap blocks (is_marked n) (is_marked (suc n)) t.eff_map t.eff_cnt
                        (same_marks n (inr still)) m;
                })
                | inl hit ↦ rw hit (record {
                  world = here;
                  map =
                      set-IsMap blocks (is_marked n) (is_marked (suc n)) t.eff_map t.eff_cnt (n / 8)
                        (omega arith) new (ground arith) (λ b other. ground arith) m;
                })
              ])
      ]

  -- The items of the rounds from byte `lo` on, before further ones.
  rounds-IsMarking :
      (n lo : ℕ) (rest : List (Item (Session W))) (t : Session W)
      → IsQuiet
      → lo + n ≤ length buf
      → IsMarking lo t
      → (u : Session W) × IsMarking (lo + n) u
        × (run_all
              (exec env)
              (gather n lo
                  (λ cur. input (flip_byte cur buf) ∷ note (mark_effect env (length buf) cur) ∷ [])
                ++ rest)
              buf
              t
            ≡ run_all (exec env) rest buf u)
  rounds-IsMarking zero lo rest t quiet inside m =
      (t, subst (λ i. IsMarking i t) (omega arith) m, refl)
  rounds-IsMarking (suc n) lo rest t quiet inside m =
      let v = flip_byte lo buf in
      let ran : Session W = (exec env v t).1 in
      let calm : (env.common_fuzz_stuff v t.world).0 ≡ false =
        ap (λ w. (env.common_fuzz_stuff v w).0) m.world ∙ quiet lo (omega arith) in
      let next =
        mark-IsMarking lo ran (omega arith) (ap (λ w. (env.common_fuzz_stuff v w).1) m.world)
          m.map in
      let out =
        rounds-IsMarking n (lo + 1) rest (mark_effect env (length buf) lo ran) quiet (omega arith)
          (subst (λ i. IsMarking i (mark_effect env (length buf) lo ran)) (omega arith) next) in
      (out.0, subst (λ i. IsMarking i out.0) (omega arith) out.1, rw calm out.2)

  fill_lem :
      (u : Session W)
      → u.eff_cnt ≡ sum u.eff_map
      → ((fill_eff env (length buf) u).world ≡ u.world)
        × ((fill_eff env (length buf) u).eff_map ≡ (
            if (sum u.eff_map != blocks) && ltb 90 (sum u.eff_map * 100 / blocks)
            then replicate blocks 1
            else u.eff_map))
  unfolding fill_eff
  fill_lem u counted =
      let dense = (sum u.eff_map != blocks) && ltb 90 (sum u.eff_map * 100 / blocks) in
      rw (fill_eff, counted, alen-blocks)
        (elim (Bool-cases dense) [
          | inl yes_dense ↦ rw yes_dense (refl, refl)
          | inr not_dense ↦ rw not_dense (refl, refl)
        ])

  -- How the stage ends: the blocks with an effect are marked, or all of them if more than 90 percent
  -- are, cut to a whole number.
  pub record IsEffective (out : Outcome (Session W)) : Type 0 where
    pub after : Session W
    pub goes_on : out ≡ goes buf after
    pub world : after.world ≡ reached (length buf)
    pub marked : List ℕ
    pub whole : length marked ≡ blocks
    pub marks :
        (b : ℕ) → b < blocks → get_or marked b 0 ≡ (if is_marked (length buf) b then 1 else 0)
    pub filled : after.eff_map ≡ (
        if (sum marked != blocks) && ltb 90 (sum marked * 100 / blocks)
        then replicate blocks 1
        else marked)

  -- On a file of one byte at least, and where no run asks to bail out, the stage that flips whole bytes goes on with the
  -- buffer as it was, after a run with each byte inverted, in order. Its effector map has a block for each eight
  -- bytes begun. Marked are the first block, the last, and each block with a byte whose inversion leads to a checksum
  -- other than that of the entry; in dumb mode and for files under 128 bytes every byte counts.
  -- If more than 90 percent of the blocks are marked, as a whole number, but not all, all of them end up marked.
  pub flip8-IsEffective :
      (t : Session W)
      → t.world ≡ start
      → 1 ≤ length buf
      → IsQuiet
      → IsEffective (flip8 env (length buf) buf t)
  flip8-IsEffective t here some_bytes quiet =
      let len = length buf in
      let first = init-IsMarking t here some_bytes in
      let out =
        rounds-IsMarking len 0 (note (fill_eff env len) ∷ []) (init_eff env len t) quiet
          (omega arith) first in
      let m : IsMarking len out.0 = subst (λ i. IsMarking i out.0) (omega arith) out.1 in
      let last = fill_lem out.0 m.map.counted in
      record {
        after = fill_eff env len out.0;
        goes_on = flip8-Visits env len buf t ∙ out.2;
        world = last.0 ∙ m.world;
        marked = out.0.eff_map;
        whole = m.map.whole;
        marks = m.map.marks;
        filled = last.1;
      }
