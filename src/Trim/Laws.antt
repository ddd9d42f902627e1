-- ===== src/Trim/Laws.antt =====
-- `trim_case` ends, and the entry keeps its path.
use aflgo.Common.{
  ℕ, zero, suc, ◌+◌, ◌-◌, ◌/◌, ◌^◌, ◌<◌, ◌≤◌, ◌≡◌, refl, ap, sym, ◌∙◌, arith, ltb, ltb→lt, ltb_off,
  leb, leb→le, ◌==◌, ==_iff, min, max, false, Bool-cases, inl, inr, ◌||◌, Option, none, some, List,
  [], ◌∷◌, ◌++◌, length, take, drop, length-append, length-take, length-drop,
}
use aflgo.Mutations.Lengths.{next_p2-IsCeiling}
use aflgo.Trim.{
  Target, Trim, Ending, aborted, done, with_gap, tried, shorten, trim_positions, trim_lengths,
  write_back, begin, trim_case, fault_error, trim_min_bytes, trim_start_steps, trim_end_steps,
}

take-append :
    (n i : ℕ) (xs ys : List ℕ) → n ≤ i → i ≤ length xs → take n (take i xs ++ ys) ≡ take n xs
take-append zero i xs ys h inside = refl
take-append (suc n) zero xs ys h inside = absurd (omega arith)
take-append (suc n) (suc i) [] ys h inside = absurd (omega arith)
take-append (suc n) (suc i) (x ∷ xs) ys h inside =
    ap (λ l. x ∷ l) (take-append n i xs ys (omega arith) (omega arith))

length-with_gap :
    (i k : ℕ) (xs : List ℕ) → i + k ≤ length xs → length (with_gap xs i k) ≡ length xs - k
length-with_gap i k xs h =
    omega
      (arith, length-append (take i xs) (drop (i + k) xs), length-take i xs, length-drop (i + k) xs)

module _ {W : Type 0} (env : Target W) (path : List ℕ → ℕ)
    (same : (v : List ℕ) (w : W) → env.trace_cksum (env.run_target v w).1 ≡ path v) where
  -- What holds of the locals all along, for the file `orig` that trimming starts with.
  record IsTrimming (orig : List ℕ) (s : Trim W) : Type 0 where
    keeps_path : path s.in_buf ≡ env.exec_cksum
    head : take 4 s.in_buf ≡ take 4 orig
    long : 4 ≤ length s.in_buf
    short : length s.in_buf ≤ length orig
    untouched : s.needs_write ≡ false → s.in_buf ≡ orig
    on_disk : s.file ≡ orig

  -- The file at the end: it takes the same path, and its first four bytes are kept.
  pub record IsShortened (orig after : List ℕ) : Type 0 where
    pub keeps_path : path after ≡ env.exec_cksum
    pub head : take 4 after ≡ take 4 orig
    pub short : length after ≤ length orig

  -- Aborted, the buffer is shortened and the file on disk is not; done, they are the same.
  abbrev pub IsTrimmed : List ℕ → Option (Ending W) → Type 0
  IsTrimmed orig none = ⊥
  IsTrimmed orig (some (aborted t)) = IsShortened orig t.in_buf × (t.file ≡ orig)
  IsTrimmed orig (some (done t)) = IsShortened orig t.in_buf × (t.file ≡ t.in_buf)

  -- The locals at the end of a loop.
  Holds : (Trim W → Type 0) → Ending W → Type 0
  Holds P (aborted t) = P t
  Holds P (done t) = P t

  shorten-IsTrimming :
      (orig : List ℕ) (s : Trim W) (pos avail p2 : ℕ)
      → IsTrimming orig s
      → 4 ≤ pos
      → pos < length s.in_buf
      → pos + avail ≤ length s.in_buf
      → env.trace_cksum (tried env s (with_gap s.in_buf pos avail)).world ≡ env.exec_cksum
      → IsTrimming orig
          (shorten env (tried env s (with_gap s.in_buf pos avail)) (with_gap s.in_buf pos avail) p2)
  shorten-IsTrimming orig s pos avail p2 h four inside fits kept = record {
    keeps_path = sym (same (with_gap s.in_buf pos avail) s.world) ∙ kept;
    head = take-append 4 pos s.in_buf (drop (pos + avail) s.in_buf) four (omega arith) ∙ h.head;
    long = omega (
      arith,
      length-append (take pos s.in_buf) (drop (pos + avail) s.in_buf),
      length-take pos s.in_buf,
    );
    short = omega (arith, length-with_gap pos avail s.in_buf fits, h.short);
    untouched = λ off. absurd (ground arith);
    on_disk = h.on_disk;
  }

  tried-IsTrimming :
      (orig : List ℕ) (s : Trim W) (v : List ℕ)
      → IsTrimming orig s
      → IsTrimming orig (tried env s v)
  tried-IsTrimming orig s v h = record {
    keeps_path = h.keeps_path;
    head = h.head;
    long = h.long;
    short = h.short;
    untouched = h.untouched;
    on_disk = h.on_disk;
  }

  positions-IsTrimming :
      (orig : List ℕ) (fuel remove_len pos : ℕ) (s : Trim W)
      → length orig ≤ 2 ^ 31
      → 4 ≤ remove_len
      → remove_len ≤ pos
      → length s.in_buf < pos + fuel
      → 0 < fuel
      → IsTrimming orig s
      → (out : Ending W) × (trim_positions env fuel remove_len pos s ≡ some out)
        × Holds (IsTrimming orig) out
  unfolding trim_positions Holds
  positions-IsTrimming orig zero remove_len pos s small big after enough some_fuel h =
      absurd (omega arith)
  positions-IsTrimming orig (suc fuel) remove_len pos s small big after enough some_fuel h =
      let avail = min remove_len (length s.in_buf - pos) in
      let shorter = with_gap s.in_buf pos avail in
      let t = tried env s shorter in
      elim (Bool-cases (ltb pos (length s.in_buf))) [
        | inr past ↦ rw (past, trim_positions) (done s, refl, h)
        | inl inside ↦
            rw (inside, trim_positions)
              (elim (Bool-cases (env.stop_soon t.world || t.fault == fault_error)) [
                | inl stop ↦ rw stop (aborted t, refl, tried-IsTrimming orig s shorter h)
                | inr on ↦ rw on (elim (Bool-cases (env.trace_cksum t.world == env.exec_cksum)) [
                  | inr differs ↦ rw differs (
                      positions-IsTrimming orig fuel remove_len (pos + remove_len) t small big
                        (omega arith) (omega arith)
                        (omega (arith, ltb→lt pos (length s.in_buf) inside))
                        (tried-IsTrimming orig s shorter h))
                  | inl kept ↦
                      let there = ltb→lt pos (length s.in_buf) inside in
                      let size = length-with_gap pos avail s.in_buf (omega arith) in
                      let p2 = next_p2-IsCeiling (length shorter) (omega (arith, h.short)) in
                      rw (kept, p2.returns)
                        (positions-IsTrimming orig fuel remove_len pos
                          (shorten env t shorter (2 ^ p2.exponent)) small big after (omega arith)
                          (omega arith)
                          (shorten-IsTrimming orig s pos avail (2 ^ p2.exponent) h (omega arith)
                            there (omega arith)
                            ((==_iff (env.trace_cksum t.world) env.exec_cksum).0 kept)))
                ])
              ])
      ]

  lengths-IsTrimming :
      (orig : List ℕ) (fuel remove_len : ℕ) (s : Trim W)
      → length orig ≤ 2 ^ 31
      → remove_len < fuel
      → IsTrimming orig s
      → (out : Ending W) × (trim_lengths env fuel remove_len s ≡ some out)
        × Holds (IsTrimming orig) out
  unfolding trim_lengths Holds
  lengths-IsTrimming orig zero remove_len s small enough h = absurd (omega arith)
  lengths-IsTrimming orig (suc fuel) remove_len s small enough h =
      elim (Bool-cases (leb (max (s.len_p2 / trim_end_steps) trim_min_bytes) remove_len)) [
        | inr over ↦ rw (over, trim_lengths) (done s, refl, h)
        | inl more ↦
            let big = leb→le (max (s.len_p2 / trim_end_steps) trim_min_bytes) remove_len more in
            let round =
              positions-IsTrimming orig (length s.in_buf + 1) remove_len remove_len s small
                (omega arith) (omega arith) (omega arith) (omega arith) h in
            rw (more, trim_lengths, round.1)
              (elim round.0
                  as (λ o.
                    Holds (IsTrimming orig) o
                    → (out : Ending W) × (elim o as (λ _. Option (Ending W)) [
                      | aborted t ↦ some (aborted t)
                      | done t ↦ trim_lengths env fuel (remove_len / 2) t
                    ]
                        ≡ some out)
                      × Holds (IsTrimming orig) out) [
                        | aborted t ↦ λ g. (aborted t, refl, g)
                        | done t ↦ λ g.
                            lengths-IsTrimming orig fuel (remove_len / 2) t small (omega arith) g
                      ]
                round.2)
      ]

  is_shortened : (orig : List ℕ) (t : Trim W) → IsTrimming orig t → IsShortened orig t.in_buf
  is_shortened orig t h = record { keeps_path = h.keeps_path; head = h.head; short = h.short }

  write_back-IsTrimmed :
      (orig : List ℕ) (t : Trim W)
      → IsTrimming orig t
      → IsTrimmed orig (some (done (write_back env t)))
  write_back-IsTrimmed orig t h = elim (Bool-cases t.needs_write) [
    | inl changed ↦ rw (changed, write_back) (is_shortened orig t h, refl)
    | inr same_file ↦
        rw (same_file, write_back) (is_shortened orig t h, h.on_disk ∙ sym (h.untouched same_file))
  ]

  begin-IsTrimming :
      (orig : List ℕ) (w : W) (p2 : ℕ)
      → path orig ≡ env.exec_cksum
      → 4 ≤ length orig
      → IsTrimming orig (begin env orig orig w p2)
  begin-IsTrimming orig w p2 h long = record {
    keeps_path = h;
    head = refl;
    long = long;
    short = omega arith;
    untouched = λ off. refl;
    on_disk = refl;
  }

  -- If the checksum of the trace depends on the input alone, and the file in the buffer and on disk has at most 2 ^ 31 bytes and
  -- the checksum of its entry, then `trim_case` ends, and the buffer is not longer than the file, begins with
  -- the same four bytes and still has the checksum of the entry; on disk is the buffer,
  -- or the file as it was when trimming was aborted.
  pub trim_case-IsTrimmed :
      (orig : List ℕ) (w : W)
      → length orig ≤ 2 ^ 31
      → path orig ≡ env.exec_cksum
      → IsTrimmed orig (trim_case env orig orig w)
  unfolding trim_case Holds
  trim_case-IsTrimmed orig w small h = elim (Bool-cases (ltb (length orig) 5)) [
    | inl tiny ↦
        rw (tiny, trim_case) (record { keeps_path = h; head = refl; short = omega arith }, refl)
    | inr long ↦
        let c = next_p2-IsCeiling (length orig) small in
        let first = max (2 ^ c.exponent / trim_start_steps) trim_min_bytes in
        let start =
          begin-IsTrimming orig w (2 ^ c.exponent) h
            (omega (arith, ltb_off (length orig) 5 long)) in
        let loop =
          lengths-IsTrimming orig (first + 1) first (begin env orig orig w (2 ^ c.exponent)) small
            (omega arith) start in
        rw (long, trim_case, c.returns, loop.1)
          (elim loop.0
              as (λ o.
                Holds (IsTrimming orig) o
                → IsTrimmed orig (elim o as (λ _. Option (Ending W)) [
                  | aborted t ↦ some (aborted t)
                  | done t ↦ some (done (write_back env t))
                ])) [
                  | aborted t ↦ λ g. (is_shortened orig t g, g.on_disk)
                  | done t ↦ λ g. write_back-IsTrimmed orig t g
                ]
            loop.2)
  ]
