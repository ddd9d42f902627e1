-- ===== src/Havoc/Loop/Termination.antt =====
-- The loop of the havoc stage ends.
use native.Mathlib.Nat.{mul-le-mul_left}
use aflgo.Common.{
  ℕ, zero, suc, ◌+◌, ◌*◌, ◌%◌, ◌^◌, ◌<◌, ◌≤◌, ◌≡◌, refl, arith, ltb, ltb→lt, leb, leb→le, ◌==◌,
  Bool, Bool-cases, ◌⊎◌, inl, inr, Option, some, List,
}
use aflgo.Havoc.Rules.{IsFile}
use aflgo.Havoc.Safety.{Tokens}
use aflgo.Havoc.Stack.{stacked-Safe}
use aflgo.Havoc.Tweaks.{Setup}
use aflgo.Havoc.Loop.{
  Runner, Stop, finished, abandoned, Budget, havoc_limit, havoc_rounds, extend, havoc_loop,
  havoc_stage,
}

-- The number of rounds grows with the score, which is doubled up to the limit only.
record IsLimited (start : ℕ) (r : Budget) : Type 0 where
  grown : r.stage_max ≤ start * r.perf_score
  capped : r.perf_score ≤ 3200

doubled : (start n m : ℕ) → n ≤ start * m → n * 2 % 2 ^ 32 ≤ start * (m * 2)
doubled start n m h = omega (arith, h)

extend-IsLimited :
    (start queued : ℕ) (r : Budget) → IsLimited start r → IsLimited start (extend queued r)
unfolding extend
extend-IsLimited start queued r h = elim (Bool-cases (queued == r.havoc_queued)) [
  | inl same ↦ rw (same, extend) h
  | inr more ↦
      rw (more, extend)
        (elim (Bool-cases (leb r.perf_score havoc_limit)) [
          | inl low ↦ rw low (record {
            grown = doubled start r.stage_max r.perf_score h.grown;
            capped = omega (arith, leb→le r.perf_score havoc_limit low);
          })
          | inr high ↦ rw high (record { grown = h.grown; capped = h.capped })
        ])
]

-- The stage has finished or the entry is abandoned.
abbrev pub Ends : {W : Type 0} → Option (Stop W) → Type 0
Ends {W} out = ((w : W) × (out ≡ some (finished w))) ⊎ ((w : W) × (out ≡ some (abandoned w)))

module _ {W : Type 0} (env : Runner W) (setup : Setup) (cycle : 0 < setup.queue_cycle)
    (h : Tokens setup.extras) (g : Tokens setup.a_extras) (in_buf : List ℕ)
    (fine : IsFile in_buf) where
  loop-Ends :
      (start fuel stage_cur : ℕ) (r : Budget) (w : W)
      → IsLimited start r
      → 0 < fuel
      → start * 3200 < stage_cur + fuel
      → Ends (havoc_loop env setup in_buf fuel stage_cur r w)
  unfolding havoc_loop
  loop-Ends start zero stage_cur r w limited some_fuel enough = absurd (omega arith)
  loop-Ends start (suc fuel) stage_cur r w limited some_fuel enough =
      elim (Bool-cases (ltb stage_cur r.stage_max)) [
        | inr over ↦ rw (over, havoc_loop) (inl (w, refl))
        | inl more ↦
            let below : stage_cur < start * 3200 = omega (
              arith,
              ltb→lt stage_cur r.stage_max more,
              limited.grown,
              mul-le-mul_left start limited.capped,
            ) in
            let out = (stacked-Safe env.random setup cycle h g in_buf fine).run w in
            let ran = env.common_fuzz_stuff out.0.0 out.0.1 in
            rw (more, out.1, havoc_loop)
              (elim (Bool-cases ran.0) [
                | inl bail ↦ rw bail (inr (ran.1, refl))
                | inr on ↦ rw on (
                    loop-Ends start fuel (stage_cur + 1) (extend (env.queued_paths ran.1) r) ran.1
                      (extend-IsLimited start (env.queued_paths ran.1) r limited) (omega arith)
                      (omega arith))
              ])
      ]

  -- From the first queue cycle on, with dictionaries of bytes, a file of bytes that is not empty and of at most 1 MB, and a score from
  -- 1 to 1600: whatever `random` returns and whatever the runs find, the havoc stage faults nowhere and
  -- ends within 3200 times its first number of rounds; it has finished, or a run asked to bail out and the
  -- entry is abandoned.
  pub havoc_stage-Ends :
      (doing_det spliced : Bool) (perf_score havoc_div : ℕ) (w : W)
      → 1 ≤ perf_score
      → perf_score ≤ 1600
      → Ends (
          havoc_stage env setup in_buf
            (havoc_rounds doing_det spliced perf_score havoc_div * 3200 + 1)
            doing_det
            spliced
            perf_score
            havoc_div
            w)
  unfolding havoc_stage
  havoc_stage-Ends doing_det spliced perf_score havoc_div w some_score small =
      let rounds = havoc_rounds doing_det spliced perf_score havoc_div in
      loop-Ends rounds (rounds * 3200 + 1) 0
        (record { stage_max = rounds; perf_score = perf_score; havoc_queued = env.queued_paths w })
        w
        (record { grown = omega (arith, mul-le-mul_left rounds some_score); capped = omega arith })
        (omega arith) (omega arith)
