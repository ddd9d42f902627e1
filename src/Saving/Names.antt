-- ===== src/Saving/Names.antt =====
-- The names of the files that `save_if_interesting` of afl-2.57b/afl-fuzz.c writes, with
-- `describe_op`. `sprintf` writes into buffers without a bound.
use aflgo.Common.{
  ℕ, zero, suc, ◌+◌, ◌-◌, ◌/◌, ◌%◌, ◌^◌, ◌==◌, ltb, if◌then◌else◌, none, some, List, [], ◌∷◌, ◌++◌,
  length, replicate,
}
use aflgo.Session.{Operation, Globals}

-- The decimal digits of a number, on fuel.
unfoldable pub digits : ℕ → ℕ → List ℕ
digits zero n = []
digits (suc fuel) n =
    let higher = digits fuel (n / 10) in
    if ltb n 10 then (b'0' + n) ∷ [] else higher ++ ((b'0' + n % 10) ∷ [])

-- `%u` and `%llu`; a number of 64 bits has no more than 20 digits.
abbrev pub decimal : ℕ → List ℕ
decimal n = digits 20 n

-- `%06u` and `%02u`.
abbrev pub padded : ℕ → ℕ → List ℕ
padded width n = replicate (width - length (decimal n)) b'0' ++ decimal n

-- `%+d` of the 32 bits of a signed number.
abbrev pub signed : ℕ → List ℕ
signed n = if ltb n (2 ^ 31) then b'+' ∷ decimal n else b'-' ∷ decimal (2 ^ 32 - n)

abbrev pub stage_val_none : ℕ
stage_val_none = 0

abbrev pub stage_val_be : ℕ
stage_val_be = 2

-- `,val:%s%+d`
abbrev pub describe_val : Operation → List ℕ
describe_val o =
    if o.stage_val_type == stage_val_none
    then []
    else (b',' ∷ b'v' ∷ b'a' ∷ b'l' ∷ b':' ∷ [])
      ++ ((if o.stage_val_type == stage_val_be then b'b' ∷ b'e' ∷ b':' ∷ [] else [])
          ++ signed o.stage_cur_val)

-- `,pos:%u` and what follows, or `,rep:%u`.
abbrev pub describe_place : Operation → List ℕ
describe_place o = elim o.stage_cur_byte [
  | some i ↦ (b',' ∷ b'p' ∷ b'o' ∷ b's' ∷ b':' ∷ []) ++ (decimal i ++ describe_val o)
  | none ↦ (b',' ∷ b'r' ∷ b'e' ∷ b'p' ∷ b':' ∷ []) ++ decimal o.stage_cur_val
]

-- `+%06u`
abbrev pub describe_splice : Operation → List ℕ
describe_splice o = elim o.splicing_with [ some i ↦ b'+' ∷ padded 6 i | none ↦ [] ]

-- `sync:%s,src:%06u` or `src:%06u`; the former has no operation behind it.
abbrev pub describe_source : Operation → List ℕ
describe_source o = elim o.syncing_party [
  | some party ↦
      (b's' ∷ b'y' ∷ b'n' ∷ b'c' ∷ b':' ∷ [])
      ++ (party ++ ((b',' ∷ b's' ∷ b'r' ∷ b'c' ∷ b':' ∷ []) ++ padded 6 o.syncing_case))
  | none ↦
      (b's' ∷ b'r' ∷ b'c' ∷ b':' ∷ [])
      ++ (padded 6 o.current_entry
          ++ (describe_splice o
              ++ ((b',' ∷ b'o' ∷ b'p' ∷ b':' ∷ []) ++ (o.stage_short ++ describe_place o))))
]

-- `describe_op`
unfoldable pub describe_op : ℕ → Operation → List ℕ
describe_op hnb o =
    describe_source o ++ (if hnb == 2 then b',' ∷ b'+' ∷ b'c' ∷ b'o' ∷ b'v' ∷ [] else [])

abbrev pub queue_folder : List ℕ
queue_folder = b'/' ∷ b'q' ∷ b'u' ∷ b'e' ∷ b'u' ∷ b'e' ∷ b'/' ∷ b'i' ∷ b'd' ∷ b':' ∷ []

abbrev pub hangs_folder : List ℕ
hangs_folder = b'/' ∷ b'h' ∷ b'a' ∷ b'n' ∷ b'g' ∷ b's' ∷ b'/' ∷ b'i' ∷ b'd' ∷ b':' ∷ []

abbrev pub crashes_folder : List ℕ
crashes_folder =
    b'/' ∷ b'c' ∷ b'r' ∷ b'a' ∷ b's' ∷ b'h' ∷ b'e' ∷ b's' ∷ b'/' ∷ b'i' ∷ b'd' ∷ b':' ∷ []

-- What stands behind the number in a name: the milliseconds since the start, and `rest`.
abbrev pub stamped : ℕ → List ℕ → List ℕ
stamped elapsed rest = b',' ∷ decimal elapsed ++ (b',' ∷ rest)

module _ {D W : Type 0} where
  -- `get_cur_time() - start_time`
  abbrev pub elapsed : ℕ → Globals D W → ℕ
  elapsed now s = (now + 2 ^ 64 - s.start_time) % 2 ^ 64

  -- `%s/queue/id:%06u,%llu,%s`
  abbrev pub queue_name : ℕ → ℕ → Globals D W → List ℕ
  queue_name hnb now s =
      s.out_dir
      ++ (queue_folder
          ++ (padded 6 s.fuzzer.queued_paths
              ++ stamped (elapsed now s) (describe_op hnb s.operation)))

  -- `%s/hangs/id:%06llu,%llu,%s`
  abbrev pub hang_name : ℕ → Globals D W → List ℕ
  hang_name now s =
      s.out_dir
      ++ (hangs_folder
          ++ (padded 6 s.unique_hangs ++ stamped (elapsed now s) (describe_op 0 s.operation)))

  -- `%s/crashes/id:%06llu,%llu,sig:%02u,%s`
  abbrev pub crash_name : ℕ → Globals D W → List ℕ
  crash_name now s =
      s.out_dir
      ++ (crashes_folder
          ++ (padded 6 s.unique_crashes
              ++ stamped (elapsed now s) (
                  (b's' ∷ b'i' ∷ b'g' ∷ b':' ∷ [])
                  ++ (padded 2 s.kill_signal ++ (b',' ∷ describe_op 0 s.operation)))))
