-- ===== src/Queue.antt =====
-- The queue of afl-2.57b/afl-fuzz.c: add_to_queue, update_bitmap_score, mark_as_redundant and
-- cull_queue.
pub mod Refs
pub mod Rounds
pub mod Winners
pub mod Strip
pub mod Selected
pub mod Cull
pub mod Redundant
pub mod Marks
pub mod Arrivals
pub mod Tracking
pub mod Distances
pub mod Added
pub mod Hundreds
pub mod Pending
pub mod Tests
use aflgo.Common.{
  ℕ, zero, suc, ◌+◌, ◌-◌, ◌*◌, ◌/◌, ◌%◌, ◌^◌, ◌==◌, ◌!=◌, ltb, Bool, true, false, not, ◌&&◌, ◌||◌,
  if◌then◌else◌, bit_and, Option, none, some, List, [], ◌∷◌, ◌++◌, map, length, get_or, set,
  replicate, modify, zip_with, take,
}
use aflgo.Doubles.{Doubles}
use aflgo.Fuzzer.{
  QueueEntry, Fuzzer, SysCall, create_redundant, unlink_redundant, blank, entry_at, entry,
}
use aflgo.Bitmap.Minimize.{minimize_bits}

-- What follows the last `/`: `strrchr(fname, '/') + 1`. With no `/` the source adds 1 to NULL.
unfoldable pub after_slash : List ℕ → Option (List ℕ)
after_slash [] = none
after_slash (c ∷ cs) = elim (after_slash cs) [
  | some rest ↦ some rest
  | none ↦ if c == b'/' then some cs else none
]

-- `*mem++ &= ~*mini` over the indices below `n`, from the last, skipping zero bytes of `mini`.
unfoldable pub strip : ℕ → List ℕ → List ℕ → List ℕ
strip zero mini temp = temp
strip (suc j) mini temp =
    let m = get_or mini j 0 in
    strip j mini (if m != 0 then set temp j (bit_and (get_or temp j 0) (255 - m)) else temp)

-- `temp_v[i >> 3] & (1 << (i & 7))`
abbrev pub unseen : List ℕ → ℕ → Bool
unseen temp i = bit_and (get_or temp (i / 8) 0) (2 ^ (i % 8)) != 0

module _ {D : Type 0} where
  -- `q_prev100->next_100 = q; q_prev100 = q;` for every hundredth entry.
  abbrev pub link_hundred : ℕ → Fuzzer D → Fuzzer D
  link_hundred q s =
      if s.queued_paths % 100 == 0
      then elim s.q_prev100 [
        | none ↦ s
        | some p ↦ record s {
          queue = modify s.queue p (λ e. record e { next_100 = some q });
          q_prev100 = some q;
        }
      ]
      else s

  -- The entry goes behind the last one; the first is also the first mark.
  abbrev pub append_entry : QueueEntry D → Fuzzer D → Fuzzer D
  append_entry e s = record s {
    queue = s.queue ++ (e ∷ []);
    q_prev100 = (if length s.queue == 0 then some 0 else s.q_prev100);
    queued_paths = (s.queued_paths + 1) % 2 ^ 32;
    pending_not_fuzzed = (s.pending_not_fuzzed + 1) % 2 ^ 32;
    cycles_wo_finds = 0;
  }

  -- `exec_us * len`, a `u64`.
  abbrev pub factor : QueueEntry D → ℕ
  factor e = e.exec_us * e.len % 2 ^ 64

  -- The previous winner of a slot loses it: its reference count falls, and its bits are freed.
  abbrev pub dropped : QueueEntry D → QueueEntry D
  dropped e =
      let n = (e.tc_ref + 2 ^ 32 - 1) % 2 ^ 32 in
      record e { tc_ref = n; trace_mini = (if n == 0 then none else e.trace_mini) }

  -- The new winner.
  abbrev pub grabbed : Fuzzer D → QueueEntry D → QueueEntry D
  grabbed s e = record e {
    tc_ref = (e.tc_ref + 1) % 2 ^ 32;
    trace_mini = elim e.trace_mini [
      | some m ↦ some m
      | none ↦ some (minimize_bits s.map_size (replicate (s.map_size / 8) 0) s.trace_bits)
    ];
  }

  unfoldable pub release : ℕ → Fuzzer D → Fuzzer D
  release t s = record s { queue = modify s.queue t dropped }

  unfoldable pub claim_slot : ℕ → ℕ → Fuzzer D → Fuzzer D
  claim_slot q i s = record s {
    top_rated = set s.top_rated i (some q);
    queue = modify s.queue q (grabbed s);
    score_changed = 1;
  }

  abbrev pub unfavored : QueueEntry D → QueueEntry D
  unfavored e = record e { favored = 0 }

  -- What `cull_queue` resets before its loop.
  abbrev pub cull_reset : Fuzzer D → Fuzzer D
  cull_reset s = record s {
    score_changed = 0;
    temp_v = replicate (s.map_size / 8) 255;
    queued_favored = 0;
    pending_favored = 0;
    queue = map unfavored s.queue;
  }

module _ {D : Type 0} (d : Doubles D) where
  -- The first distance above 0 sets both bounds; `max_distance <= 0` is read as no `>`.
  unfoldable pub seed_bounds : Fuzzer D → Fuzzer D
  seed_bounds s =
      if not (d.gt s.max_distance d.zero)
      then record s { max_distance = s.cur_distance; min_distance = s.cur_distance }
      else s

  unfoldable pub raise_max : Fuzzer D → Fuzzer D
  raise_max s =
      if d.gt s.cur_distance s.max_distance then record s { max_distance = s.cur_distance } else s

  unfoldable pub lower_min : Fuzzer D → Fuzzer D
  lower_min s =
      if d.gt s.min_distance s.cur_distance then record s { min_distance = s.cur_distance } else s

  unfoldable pub track_distance : Fuzzer D → Fuzzer D
  unfolding seed_bounds raise_max lower_min
  track_distance s = if d.gt s.cur_distance d.zero then lower_min (raise_max (seed_bounds s)) else s

  -- The new entry of `add_to_queue`.
  abbrev pub fresh_entry : List ℕ → ℕ → ℕ → Fuzzer D → QueueEntry D
  fresh_entry fname len passed_det s = record (blank d) {
    fname = fname;
    len = len;
    depth = (s.cur_depth + 1) % 2 ^ 32;
    passed_det = passed_det;
    distance = s.cur_distance;
  }

  -- `now` is the time that `get_cur_time` returns.
  unfoldable pub add_to_queue : List ℕ → ℕ → ℕ → ℕ → Fuzzer D → Fuzzer D
  add_to_queue fname len passed_det now s =
      let e = fresh_entry fname len passed_det s in
      let s1 = track_distance s in
      let s2 = record s1 {
        max_depth = (if ltb s1.max_depth e.depth then e.depth else s1.max_depth);
      } in
      let s3 = link_hundred (length s.queue) (append_entry e s2) in
      record s3 { last_path_time = now }

  -- The body of the loop of `update_bitmap_score`.
  unfoldable pub score_byte : ℕ → ℕ → ℕ → Fuzzer D → Fuzzer D
  unfolding release claim_slot
  score_byte fav q i s =
      if get_or s.trace_bits i 0 != 0
      then elim (get_or s.top_rated i none) [
        | none ↦ claim_slot q i s
        | some t ↦ if ltb (factor (entry d s t)) fav then s else claim_slot q i (release t s)
      ]
      else s

  -- The loop from index `i`, with `n` rounds left.
  unfoldable pub score_loop : ℕ → ℕ → ℕ → ℕ → Fuzzer D → Fuzzer D
  score_loop zero fav q i s = s
  score_loop (suc n) fav q i s = score_loop n fav q (i + 1) (score_byte fav q i s)

  unfoldable pub update_bitmap_score : ℕ → Fuzzer D → Fuzzer D
  update_bitmap_score q s = score_loop s.map_size (factor (entry d s q)) q 0 s

  -- The winner of slot `i` becomes a favorite. `none` is a read through a NULL `trace_mini`.
  unfoldable pub favor : ℕ → Fuzzer D → Option (Fuzzer D)
  favor t s = elim (entry d s t).trace_mini [
    | none ↦ none
    | some mini ↦ some (record s {
      temp_v = strip (s.map_size / 8) mini s.temp_v;
      queue = modify s.queue t (λ e. record e { favored = 1 });
      queued_favored = (s.queued_favored + 1) % 2 ^ 32;
      pending_favored =
          (if (entry d s t).was_fuzzed == 0
            then (s.pending_favored + 1) % 2 ^ 32
            else s.pending_favored);
    })
  ]

  unfoldable pub cull_step : ℕ → Fuzzer D → Option (Fuzzer D)
  cull_step i s = elim (get_or s.top_rated i none) [
    | none ↦ some s
    | some t ↦ if unseen s.temp_v i then favor t s else some s
  ]

  unfoldable pub cull_loop : ℕ → ℕ → Fuzzer D → Option (Fuzzer D)
  cull_loop zero i s = some s
  cull_loop (suc n) i s = elim (cull_step i s) [ none ↦ none | some s' ↦ cull_loop n (i + 1) s' ]

  -- `sys` says whether a call succeeds, given the calls before it; a failure ends the process.
  module _ (sys : List SysCall → SysCall → Bool) where
    unfoldable pub invoke : SysCall → Fuzzer D → Option (Fuzzer D)
    invoke c s = if sys s.syscalls c then some (record s { syscalls = c ∷ s.syscalls }) else none

    unfoldable pub mark_as_redundant : ℕ → ℕ → Fuzzer D → Option (Fuzzer D)
    unfolding invoke
    mark_as_redundant q state s =
        if state == (entry d s q).fs_redundant
        then some s
        else elim (after_slash (entry d s q).fname) [
          | none ↦ none
          | some fn ↦
              invoke (if state != 0 then create_redundant fn else unlink_redundant fn)
                (record s { queue = modify s.queue q (λ e. record e { fs_redundant = state }) })
        ]

    -- The last loop of `cull_queue`, from entry `q` on, with `n` entries left.
    unfoldable pub mark_loop : ℕ → ℕ → Fuzzer D → Option (Fuzzer D)
    mark_loop zero q s = some s
    mark_loop (suc n) q s =
        elim (mark_as_redundant q (if (entry d s q).favored == 0 then 1 else 0) s) [
          | none ↦ none
          | some s' ↦ mark_loop n (q + 1) s'
        ]

    unfoldable pub cull_queue : Fuzzer D → Option (Fuzzer D)
    cull_queue s =
        if s.dumb_mode != 0 || s.score_changed == 0
        then some s
        else elim (cull_loop s.map_size 0 (cull_reset s)) [
          | none ↦ none
          | some s' ↦ mark_loop (length s'.queue) 0 s'
        ]
