-- ===== src/Havoc/Loop.antt =====
-- The loop of the havoc stage, which runs longer when it finds new paths.
pub mod Termination
use aflgo.Common.{
  ℕ, zero, suc, ◌+◌, ◌*◌, ◌/◌, ◌%◌, ◌^◌, ◌==◌, ltb, leb, max, if◌then◌else◌, Bool, true, false,
  Option, none, some, List,
}
use aflgo.Havoc.Tweaks.{Setup, stacked}

-- The fuzzer as the loop uses it; the state holds that of the generator of random numbers.
pub record Runner (W : Type 0) : Type 0 where
  pub common_fuzz_stuff : List ℕ → W → Bool × W
  pub queued_paths : W → ℕ
  pub random : W → ℕ × W

-- How the stage ends.
pub data Stop (W : Type 0) : Type 0 where
  finished : W → Stop W
  abandoned : W → Stop W
  faulted : Stop W

-- The locals of the loop.
pub record Budget : Type 0 where
  pub stage_max : ℕ
  pub perf_score : ℕ
  pub havoc_queued : ℕ

abbrev pub havoc_min : ℕ
havoc_min = 16

abbrev pub havoc_limit : ℕ
havoc_limit = 16 * 100

-- `stage_max` at the start, for the havoc stage and for a spliced file.
unfoldable pub havoc_rounds : Bool → Bool → ℕ → ℕ → ℕ
havoc_rounds doing_det spliced perf_score havoc_div =
    let cycles = if spliced then 32 else if doing_det then 1024 else 256 in
    max havoc_min (cycles * perf_score / havoc_div / 100)

-- `if (queued_paths != havoc_queued)`
unfoldable pub extend : ℕ → Budget → Budget
extend queued r =
    if queued == r.havoc_queued
    then r
    else if leb r.perf_score havoc_limit
    then record {
      stage_max = r.stage_max * 2 % 2 ^ 32;
      perf_score = r.perf_score * 2;
      havoc_queued = queued;
    }
    else record r { havoc_queued = queued }

module _ {W : Type 0} (env : Runner W) (setup : Setup) (in_buf : List ℕ) where
  -- The loop from `stage_cur` on, with fuel: `none` is out of fuel. Each round starts from the file.
  unfoldable pub havoc_loop : ℕ → ℕ → Budget → W → Option (Stop W)
  havoc_loop zero stage_cur r w = none
  havoc_loop (suc fuel) stage_cur r w = elim (ltb stage_cur r.stage_max) as (λ _. Option (Stop W)) [
    | false ↦ some (finished w)
    | true ↦ elim (stacked env.random setup in_buf w) as (λ _. Option (Stop W)) [
      | none ↦ some faulted
      | some (out_buf, w') ↦ elim (env.common_fuzz_stuff out_buf w').0 as (λ _. Option (Stop W)) [
        | true ↦ some (abandoned (env.common_fuzz_stuff out_buf w').1)
        | false ↦
            havoc_loop fuel (stage_cur + 1)
              (extend (env.queued_paths (env.common_fuzz_stuff out_buf w').1) r)
              (env.common_fuzz_stuff out_buf w').1
      ]
    ]
  ]

  unfoldable pub havoc_stage : ℕ → Bool → Bool → ℕ → ℕ → W → Option (Stop W)
  havoc_stage fuel doing_det spliced perf_score havoc_div w =
      havoc_loop fuel 0
        (record {
          stage_max = havoc_rounds doing_det spliced perf_score havoc_div;
          perf_score = perf_score;
          havoc_queued = env.queued_paths w;
        })
        w
