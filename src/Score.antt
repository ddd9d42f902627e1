-- ===== src/Score.antt =====
-- `calculate_score` of afl-2.57b/afl-fuzz.c: the energy of an entry, by its speed, coverage, age,
-- depth and distance to the targets. The type double and its functions are a parameter.
pub mod Laws
pub mod Tests
use aflgo.Common.{
  ℕ, zero, suc, ◌+◌, ◌-◌, ◌*◌, ◌/◌, ◌%◌, ◌^◌, ltb, leb, ◌==◌, min, if◌then◌else◌, Bool, true, false,
  not, List,
}

pub record Floats (D : Type 0) : Type 0 where
  -- The literal a / b, and the conversions from integers and to u32.
  pub lit : ℕ → ℕ → D
  pub of_nat : ℕ → D
  pub truncate : D → ℕ
  pub add : D → D → D
  pub sub : D → D → D
  pub mul : D → D → D
  pub div : D → D → D
  pub pow : D → D → D
  pub log : D → D
  pub log2 : D → D
  pub lt : D → D → Bool
  pub le : D → D → Bool
  pub eq : D → D → Bool

pub data Schedule : Type 0 where
  san_exp : Schedule
  san_log : Schedule
  san_lin : Schedule
  san_quad : Schedule

-- The fields of the entry that count.
pub record Seed (D : Type 0) : Type 0 where
  pub exec_us : ℕ
  pub bitmap_size : ℕ
  pub handicap : ℕ
  pub depth : ℕ
  pub distance : D

-- The globals; `seconds` is the time since the start.
pub record Totals (D : Type 0) : Type 0 where
  pub total_cal_us : ℕ
  pub total_cal_cycles : ℕ
  pub total_bitmap_size : ℕ
  pub total_bitmap_entries : ℕ
  pub max_distance : D
  pub min_distance : D
  pub cooling_schedule : Schedule
  pub seconds : ℕ
  pub t_x : ℕ

abbrev max_factor : ℕ
max_factor = 32

abbrev pub max_score : ℕ
max_score = 16 * 100

module _ {D : Type 0} (f : Floats D) where
  -- `n * x > m` and `n * x < m` in doubles, and `score *= x`.
  abbrev exceeds : ℕ → D → ℕ → Bool
  exceeds n x m = f.lt (f.of_nat m) (f.mul (f.of_nat n) x)

  abbrev pub scale : ℕ → D → ℕ
  scale score x = f.truncate (f.mul (f.of_nat score) x)

  abbrev speed_score : ℕ → ℕ → ℕ
  speed_score exec_us avg =
      if exceeds exec_us (f.lit 1 10) avg
      then 10
      else if exceeds exec_us (f.lit 1 4) avg
      then 25
      else if exceeds exec_us (f.lit 1 2) avg
      then 50
      else if exceeds exec_us (f.lit 3 4) avg
      then 75
      else if ltb (exec_us * 4 % 2 ^ 64) avg
      then 300
      else if ltb (exec_us * 3 % 2 ^ 64) avg
      then 200
      else if ltb (exec_us * 2 % 2 ^ 64) avg
      then 150
      else 100

  abbrev coverage_score : ℕ → ℕ → ℕ → ℕ
  coverage_score size avg score =
      if exceeds size (f.lit 3 10) avg
      then score * 3
      else if exceeds size (f.lit 1 2) avg
      then score * 2
      else if exceeds size (f.lit 3 4) avg
      then scale score (f.lit 3 2)
      else if ltb (size * 3 % 2 ^ 32) avg
      then scale score (f.lit 1 4)
      else if ltb (size * 2 % 2 ^ 32) avg
      then scale score (f.lit 1 2)
      else if f.lt (f.mul (f.of_nat size) (f.lit 3 2)) (f.of_nat avg)
      then scale score (f.lit 3 4)
      else score

  -- The score and the handicap that is left.
  abbrev handicap_score : ℕ → ℕ → ℕ × ℕ
  handicap_score handicap score =
      if leb 4 handicap
      then (score * 4, handicap - 4)
      else if handicap == 0
      then (score, handicap)
      else (score * 2, handicap - 1)

  abbrev depth_score : ℕ → ℕ → ℕ
  depth_score depth score =
      if leb depth 3
      then score
      else if leb depth 7
      then score * 2
      else if leb depth 13
      then score * 3
      else if leb depth 25
      then score * 4
      else score * 5

  -- `T`, by the schedule.
  abbrev cooled : Schedule → D → D
  cooled san_exp progress = f.div (f.lit 1 1) (f.pow (f.lit 20 1) progress)
  cooled san_log progress = f.div (f.lit 1 1) (
      f.add (f.lit 1 1) (
        f.mul (f.lit 2 1)
          (f.log (f.add (f.lit 1 1) (f.mul progress (f.lit 133587268297 10000000))))))
  cooled san_lin progress = f.div (f.lit 1 1) (f.add (f.lit 1 1) (f.mul (f.lit 19 1) progress))
  cooled san_quad progress =
      f.div (f.lit 1 1) (f.add (f.lit 1 1) (f.mul (f.lit 19 1) (f.pow progress (f.lit 2 1))))

  abbrev pub temperature : Totals D → D
  temperature g =
      cooled g.cooling_schedule (f.div (f.of_nat g.seconds) (f.mul (f.of_nat g.t_x) (f.lit 60 1)))

  abbrev pub normalized : Totals D → D → D
  normalized g distance =
      if f.eq g.max_distance g.min_distance
      then f.lit 0 1
      else f.div (f.sub distance g.min_distance) (f.sub g.max_distance g.min_distance)

  -- `p` and the power factor, for the normalized distance.
  abbrev pub closeness : D → D → D
  closeness t d = f.add (f.mul (f.sub (f.lit 1 1) d) (f.sub (f.lit 1 1) t)) (f.mul (f.lit 1 2) t)

  abbrev pub factor_at : D → D → D
  factor_at t d =
      f.pow (f.lit 2 1) (
        f.mul (f.mul (f.lit 2 1) (f.log2 (f.of_nat max_factor)))
          (f.sub (closeness t d) (f.lit 1 2)))

  abbrev pub power_factor : Totals D → D → D
  power_factor g distance =
      if f.lt (f.lit 0 1) distance
      then (if f.le (f.lit 0 1) (normalized g distance)
          then factor_at (temperature g) (normalized g distance)
          else f.lit 1 1)
      else f.lit 1 1

  -- The score before the distance counts, with the handicap that is left.
  abbrev pub base_score : Totals D → Seed D → ℕ × ℕ
  base_score g q =
      let avg_exec_us = g.total_cal_us / g.total_cal_cycles % 2 ^ 32 in
      let avg_bitmap_size = g.total_bitmap_size / g.total_bitmap_entries % 2 ^ 32 in
      let out =
        handicap_score q.handicap
          (coverage_score q.bitmap_size avg_bitmap_size (speed_score q.exec_us avg_exec_us)) in
      (depth_score q.depth out.0, out.1)

  -- The result and the new handicap of the entry.
  unfoldable pub calculate_score : Totals D → Seed D → ℕ × ℕ
  calculate_score g q =
      let base = base_score g q in
      let score = scale base.0 (power_factor g q.distance) in
      ((if ltb max_score score then max_score else score), base.1)
