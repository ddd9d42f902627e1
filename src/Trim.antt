-- ===== src/Trim.antt =====
-- `trim_case` of afl-2.57b/afl-fuzz.c: blocks of the file are removed as long as the checksum of
-- the trace stays the same. The statistics and the screen are left out.
pub mod Laws
pub mod Tests
use aflgo.Common.{
  ℕ, zero, suc, ◌+◌, ◌-◌, ◌*◌, ◌/◌, ◌==◌, ltb, leb, min, max, if◌then◌else◌, Bool, true, false, not,
  ◌&&◌, ◌||◌, Option, none, some, List, ◌++◌, length, take, drop,
}
use aflgo.Mutations.{next_p2}

-- The target and the globals of the fuzzer: `run_target` on an input (a fault code), the checksum of
-- `trace_bits`, the trace itself, and `update_bitmap_score` on the entry.
pub record Target (W : Type 0) : Type 0 where
  pub run_target : List ℕ → W → ℕ × W
  pub stop_soon : W → Bool
  pub trace_cksum : W → ℕ
  pub trace_bits : W → List ℕ
  pub set_trace : List ℕ → W → W
  pub update_bitmap_score : W → W
  pub exec_cksum : ℕ

abbrev pub fault_error : ℕ
fault_error = 3

abbrev pub trim_min_bytes : ℕ
trim_min_bytes = 4

abbrev pub trim_start_steps : ℕ
trim_start_steps = 16

abbrev pub trim_end_steps : ℕ
trim_end_steps = 1024

-- The locals; `in_buf` up to `q->len`, and the contents of the file `q->fname`.
pub record Trim (W : Type 0) : Type 0 where
  pub world : W
  pub in_buf : List ℕ
  pub len_p2 : ℕ
  pub needs_write : Bool
  pub clean_trace : List ℕ
  pub fault : ℕ
  pub file : List ℕ

-- What `write_with_gap` writes: the buffer without `skip_len` bytes at `skip_at`.
abbrev pub with_gap : List ℕ → ℕ → ℕ → List ℕ
with_gap mem skip_at skip_len = take skip_at mem ++ drop (skip_at + skip_len) mem

-- The end of the loops: aborted, or done.
pub data Ending (W : Type 0) : Type 0 where
  aborted : Trim W → Ending W
  done : Trim W → Ending W

module _ {W : Type 0} (env : Target W) where
  -- The target has run on the buffer with a gap.
  abbrev pub tried : Trim W → List ℕ → Trim W
  tried s shorter =
      let out = env.run_target shorter s.world in record s { world = out.1; fault = out.0 }

  -- `memmove` and the new lengths; the first clean trace is saved.
  abbrev pub shorten : Trim W → List ℕ → ℕ → Trim W
  shorten s shorter p2 = record s {
    in_buf = shorter;
    len_p2 = p2;
    needs_write = true;
    clean_trace = (if s.needs_write then s.clean_trace else env.trace_bits s.world);
  }

  -- The loop on `remove_pos`, with fuel: `none` is out of fuel.
  unfoldable pub trim_positions : ℕ → ℕ → ℕ → Trim W → Option (Ending W)
  trim_positions zero remove_len remove_pos s = none
  trim_positions (suc fuel) remove_len remove_pos s =
      let trim_avail = min remove_len (length s.in_buf - remove_pos) in
      let shorter = with_gap s.in_buf remove_pos trim_avail in
      let t = tried s shorter in
      elim (ltb remove_pos (length s.in_buf)) as (λ _. Option (Ending W)) [
        | false ↦ some (done s)
        | true ↦
            elim (env.stop_soon t.world || t.fault == fault_error) as (λ _. Option (Ending W)) [
              | true ↦ some (aborted t)
              | false ↦
                  elim (env.trace_cksum t.world == env.exec_cksum) as (λ _. Option (Ending W)) [
                    | true ↦ elim (next_p2 (length shorter)) as (λ _. Option (Ending W)) [
                      | none ↦ none
                      | some p2 ↦ trim_positions fuel remove_len remove_pos (shorten t shorter p2)
                    ]
                    | false ↦ trim_positions fuel remove_len (remove_pos + remove_len) t
                  ]
            ]
      ]

  -- The loop on `remove_len`, with fuel.
  unfoldable pub trim_lengths : ℕ → ℕ → Trim W → Option (Ending W)
  trim_lengths zero remove_len s = none
  trim_lengths (suc fuel) remove_len s =
      elim (leb (max (s.len_p2 / trim_end_steps) trim_min_bytes) remove_len)
        as (λ _. Option (Ending W)) [
          | false ↦ some (done s)
          | true ↦
              elim (trim_positions (length s.in_buf + 1) remove_len remove_len s)
                as (λ _. Option (Ending W)) [
                  | none ↦ none
                  | some out ↦ elim out as (λ _. Option (Ending W)) [
                    | aborted t ↦ some (aborted t)
                    | done t ↦ trim_lengths fuel (remove_len / 2) t
                  ]
                ]
        ]

  -- The file is written again, and the entry scored with its clean trace.
  abbrev pub write_back : Trim W → Trim W
  write_back s =
      if s.needs_write
      then record s {
        file = s.in_buf;
        world = env.update_bitmap_score (env.set_trace s.clean_trace s.world);
      }
      else s

  abbrev pub begin : List ℕ → List ℕ → W → ℕ → Trim W
  begin in_buf file w p2 = record {
    world = w;
    in_buf = in_buf;
    len_p2 = p2;
    needs_write = false;
    clean_trace = env.trace_bits w;
    fault = 0;
    file = file;
  }

  unfoldable pub trim_case : List ℕ → List ℕ → W → Option (Ending W)
  trim_case in_buf file w = elim (ltb (length in_buf) 5) as (λ _. Option (Ending W)) [
    | true ↦ some (done (begin in_buf file w 0))
    | false ↦ elim (next_p2 (length in_buf)) as (λ _. Option (Ending W)) [
      | none ↦ none
      | some p2 ↦
          elim (trim_lengths (max (p2 / trim_start_steps) trim_min_bytes + 1)
              (max (p2 / trim_start_steps) trim_min_bytes) (begin in_buf file w p2))
            as (λ _. Option (Ending W)) [
              | none ↦ none
              | some out ↦ elim out as (λ _. Option (Ending W)) [
                | aborted t ↦ some (aborted t)
                | done t ↦ some (done (write_back t))
              ]
            ]
    ]
  ]
