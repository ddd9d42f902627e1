-- ===== src/Queue/Cull.antt =====
-- The selection loop of `cull_queue` favors a covering choice of entries.
use native.Mathlib.Decide.{ℕ_discrete}
use aflgo.Common.{
  ℕ, zero, suc, ◌+◌, ◌-◌, ◌/◌, ◌%◌, ◌<◌, ◌≤◌, min, ◌≡◌, refl, ap, sym, ◌∙◌, arith, Bool-cases,
  Option-cases, inl, inr, ◌⊎◌, Option, none, some, List, [], ◌∷◌, length, get_or, map,
  get_or-modify_self, replicate, length-replicate, length-map,
}
use aflgo.Doubles.{Doubles}
use aflgo.Bits.Test.{test, test-le-one, test-complement, test-zero}
use aflgo.Bitmap.Minimize.Laws.{bit_at}
use aflgo.Fuzzer.{QueueEntry, Fuzzer, blank, entry_at, entry}
use aflgo.Queue.{strip, unseen, cull_step, cull_loop, cull_reset, unfavored}
use aflgo.Queue.Refs.{IsRated}
use aflgo.Queue.Strip.{unseen_lem, strip_lem}
use aflgo.Queue.Selected.{
  favor-eq, chosen-IsSelected, IsSelected-refl, IsSelected-trans, IsSelected, IsCovered, HasBytes,
  IsCulling, IsCovered-IsSelected, chosen, slot_mini, IsRated-IsSelected,
}

module _ {D : Type 0} (d : Doubles D) where
  -- The holder of slot `j` is a favorite, or another favorite has its bit.
  abbrev pub IsServed : Fuzzer D → ℕ → Type 0
  IsServed s j =
      (t : ℕ) → get_or s.top_rated j none ≡ some t → ((entry d s t).favored ≡ 1) ⊎ IsCovered d s j

  IsServed-IsSelected : (s s' : Fuzzer D) (j : ℕ) → IsSelected d s s' → IsServed s j → IsServed s' j
  IsServed-IsSelected s s' j f v t e = elim (v t (rw f.same_slots at e)) [
    | inl fav ↦ inl (f.more_favored t fav)
    | inr c ↦ inr (IsCovered-IsSelected d s s' j f c)
  ]

  chosen-favored :
      (t : ℕ) (mini : List ℕ) (s : Fuzzer D)
      → t < length s.queue
      → (entry d (chosen d t mini s) t).favored ≡ 1
  chosen-favored t mini s h =
      ap (λ x. x.favored)
        (get_or-modify_self s.queue t (λ (x : QueueEntry D). record x { favored = 1 }) (blank d) h)

  chosen-IsCulling :
      (t : ℕ) (mini : List ℕ) (s : Fuzzer D)
      → IsCulling d s
      → t < length s.queue
      → (entry d s t).trace_mini ≡ some mini
      → IsCulling d (chosen d t mini s)
  chosen-IsCulling t mini s v h e =
      let f = chosen-IsSelected d t mini s in
      record {
        room = f.same_temp ∙ v.room;
        whole = v.whole;
        seen = λ j inside gone.
            still j inside
              (strip_lem (s.map_size / 8) mini s.temp_v j (v.bytes t mini e) (omega (arith, v.room))
                (omega (arith, v.whole)))
              gone;
        bytes = λ u m k. v.bytes u m (sym (f.same_mini u) ∙ k);
        rated = IsRated-IsSelected d s (chosen d t mini s) f v.rated;
      }
    where
      still :
          (j : ℕ)
          → j < s.map_size
          → bit_at (strip (s.map_size / 8) mini s.temp_v) j
            ≡ min (bit_at s.temp_v j) (1 - bit_at mini j)
          → bit_at (strip (s.map_size / 8) mini s.temp_v) j ≡ 0
          → IsCovered d (chosen d t mini s) j
      still j inside left gone = elim (ℕ_discrete (bit_at s.temp_v j) 0) [
        | yes z ↦
            IsCovered-IsSelected d s (chosen d t mini s) j (chosen-IsSelected d t mini s)
              (v.seen j inside z)
        | no z ↦ (
          t,
          chosen-favored t mini s h,
          (
            mini,
            (chosen-IsSelected d t mini s).same_mini t ∙ e,
            omega (arith, left, gone, z, test-le-one (j % 8) (get_or mini (j / 8) 0)),
          ),
        )
      ]

  -- What a part of the loop guarantees of the slots from `i` to `j`.
  pub record IsCulled (s : Fuzzer D) (i j : ℕ) (out : Option (Fuzzer D)) : Type 0 where
    pub after : Fuzzer D
    pub returns : out ≡ some after
    pub selected : IsSelected d s after
    pub culling : IsCulling d after
    pub served : (k : ℕ) → i ≤ k → k < j → IsServed after k

  cull_step-IsCulled :
      (i : ℕ) (s : Fuzzer D)
      → IsCulling d s
      → i < s.map_size
      → IsCulled s i (i + 1) (cull_step d i s)
  unfolding cull_step
  cull_step-IsCulled i s v h = elim (Option-cases (get_or s.top_rated i none)) [
    | inl e ↦ record {
      after = s;
      returns = rw (e, cull_step) refl;
      selected = IsSelected-refl d s;
      culling = v;
      served = λ k p q t held. let same : k ≡ i = omega arith in absurd cc;
    }
    | inr o ↦
        let m = slot_mini d s i o.0 v.rated o.1 in
        let there = v.rated.in_range i o.0 o.1 in
        elim (Bool-cases (unseen s.temp_v i)) [
          | inl u ↦ record {
            after = chosen d o.0 m.0 s;
            returns = rw (o.1, u, cull_step) (favor-eq d o.0 m.0 s m.1);
            selected = chosen-IsSelected d o.0 m.0 s;
            culling = chosen-IsCulling o.0 m.0 s v there m.1;
            served = λ k p q t held.
                let same : k ≡ i = omega arith in
                let holder : t ≡ o.0 = cc o.1 in inl (rw holder (chosen-favored o.0 m.0 s there));
          }
          | inr u ↦ record {
            after = s;
            returns = rw (o.1, u, cull_step) refl;
            selected = IsSelected-refl d s;
            culling = v;
            served = λ k p q t held.
                let same : k ≡ i = omega arith in
                let gone : bit_at s.temp_v i ≡ 0 = ground (arith, unseen_lem s.temp_v i) in
                inr (rw same (v.seen i h gone));
          }
        ]
  ]

  -- The loop reads no NULL `trace_mini`, and serves every slot that it visits.
  pub cull_loop-IsCulled :
      (n i : ℕ) (s : Fuzzer D)
      → IsCulling d s
      → i + n ≤ s.map_size
      → IsCulled s i (i + n) (cull_loop d n i s)
  unfolding cull_loop
  cull_loop-IsCulled zero i s v h = record {
    after = s;
    returns = refl;
    selected = IsSelected-refl d s;
    culling = v;
    served = λ k p q. absurd (omega arith);
  }
  cull_loop-IsCulled (suc n) i s v h =
      let one = cull_step-IsCulled i s v (omega arith) in
      let rest =
        cull_loop-IsCulled n (i + 1) one.after one.culling
          (omega (arith, one.selected.same_size)) in
      record {
        after = rest.after;
        returns = rw (one.returns, cull_loop) rest.returns;
        selected = IsSelected-trans d s one.after rest.after one.selected rest.selected;
        culling = rest.culling;
        served = λ k p q. elim (ℕ_discrete k i) [
          | yes same ↦
              IsServed-IsSelected one.after rest.after k rest.selected
                (one.served k (omega arith) (omega arith))
          | no other ↦ rest.served k (omega arith) (omega arith)
        ];
      }

  -- The reset before the loop: no favorites, and every bit still to be seen.
  pub entry-unfavored :
      (queue : List (QueueEntry D)) (t : ℕ)
      → entry_at d (map unfavored queue) t ≡ unfavored (entry_at d queue t)
  entry-unfavored [] t = refl
  entry-unfavored (x ∷ queue) zero = refl
  entry-unfavored (x ∷ queue) (suc t) = entry-unfavored queue t

  full_byte : (k : ℕ) → k < 8 → test k 255 ≡ 1
  full_byte k h = omega (arith, test-complement 8 k 0 h (omega arith), test-zero k)

  get_or-replicate : (n b v : ℕ) → b < n → get_or (replicate n v) b 0 ≡ v
  get_or-replicate zero b v h = absurd (omega arith)
  get_or-replicate (suc n) zero v h = refl
  get_or-replicate (suc n) (suc b) v h = get_or-replicate n b v (omega arith)

  pub cull_reset-IsCulling :
      (s : Fuzzer D)
      → s.map_size % 8 ≡ 0
      → HasBytes d s
      → IsRated d s.queue s.top_rated
      → IsCulling d (cull_reset s)
  cull_reset-IsCulling s whole bytes r = record {
    room = length-replicate (s.map_size / 8) 255;
    whole = whole;
    seen = λ j inside gone.
        let full =
          ap (test (j % 8)) (get_or-replicate (s.map_size / 8) (j / 8) 255 (omega arith)) in
        absurd (omega (arith, full, full_byte (j % 8) (omega arith), gone));
    bytes = λ t m e. bytes t m (ap (λ x. x.trace_mini) (sym (entry-unfavored s.queue t)) ∙ e);
    rated = record {
      in_range = λ i t e. rw length-map (r.in_range i t e);
      counted = λ e l. rw entry-unfavored (r.counted e (rw length-map at l));
      kept = λ e l. rw entry-unfavored (r.kept e (rw length-map at l));
    };
  }
