-- ===== src/Fuzzer.antt =====
-- The state of afl-2.57b/afl-fuzz.c: struct queue_entry and the globals that the modelled
-- functions read and write. A pointer to a queue entry is its position in the queue, which only
-- grows; a byte array is a list.
use aflgo.Common.{ℕ, Option, none, List, [], get_or}
use aflgo.Doubles.{Doubles}

-- `struct queue_entry`. `next` is the entry behind this one in the queue.
pub record QueueEntry (D : Type 0) : Type 0 where
  pub fname : List ℕ
  pub len : ℕ
  pub cal_failed : ℕ
  pub trim_done : ℕ
  pub was_fuzzed : ℕ
  pub passed_det : ℕ
  pub has_new_cov : ℕ
  pub var_behavior : ℕ
  pub favored : ℕ
  pub fs_redundant : ℕ
  pub bitmap_size : ℕ
  pub exec_cksum : ℕ
  pub exec_us : ℕ
  pub handicap : ℕ
  pub depth : ℕ
  pub trace_mini : Option (List ℕ)
  pub tc_ref : ℕ
  pub distance : D
  pub next_100 : Option ℕ

-- The calls that leave a mark in the output directory.
pub data SysCall : Type 0 where
  create_redundant : List ℕ → SysCall
  unlink_redundant : List ℕ → SysCall
  symlink_variable : List ℕ → SysCall
  create_variable : List ℕ → SysCall

-- The globals. `syscalls` is the latest call first; `trace_bits` has the 16 bytes of the distance
-- behind its map_size bytes.
pub record Fuzzer (D : Type 0) : Type 0 where
  pub map_size : ℕ
  pub trace_bits : List ℕ
  pub queue : List (QueueEntry D)
  pub q_prev100 : Option ℕ
  pub top_rated : List (Option ℕ)
  pub score_changed : ℕ
  pub dumb_mode : ℕ
  pub temp_v : List ℕ
  pub queued_paths : ℕ
  pub queued_favored : ℕ
  pub pending_favored : ℕ
  pub pending_not_fuzzed : ℕ
  pub cycles_wo_finds : ℕ
  pub cur_depth : ℕ
  pub max_depth : ℕ
  pub last_path_time : ℕ
  pub cur_distance : D
  pub max_distance : D
  pub min_distance : D
  pub syscalls : List SysCall

module _ {D : Type 0} (d : Doubles D) where
  -- An entry as `ck_alloc` returns it, zeroed.
  abbrev pub blank : QueueEntry D
  blank = record {
    fname = [];
    len = 0;
    cal_failed = 0;
    trim_done = 0;
    was_fuzzed = 0;
    passed_det = 0;
    has_new_cov = 0;
    var_behavior = 0;
    favored = 0;
    fs_redundant = 0;
    bitmap_size = 0;
    exec_cksum = 0;
    exec_us = 0;
    handicap = 0;
    depth = 0;
    trace_mini = none;
    tc_ref = 0;
    distance = d.zero;
    next_100 = none;
  }

  -- What a pointer points to.
  abbrev pub entry_at : List (QueueEntry D) → ℕ → QueueEntry D
  entry_at queue t = get_or queue t blank

  abbrev pub entry : Fuzzer D → ℕ → QueueEntry D
  entry s t = entry_at s.queue t
