-- ===== src/Stages/Flips.antt =====
-- The bit flipping stages of `fuzz_one`, with the dictionary that the first collects and the
-- effector map that the fourth fills. The counters of the status screen are left out.
pub mod Laws
pub mod Maps
pub mod Effects
use aflgo.Common.{
  ℕ, zero, suc, ◌+◌, ◌-◌, ◌*◌, ◌/◌, ◌%◌, ◌^◌, ◌==◌, ◌!=◌, ltb, leb, if◌then◌else◌, bit_xor, Bool,
  true, false, not, ◌&&◌, ◌||◌, List, [], ◌∷◌, length, get_or, set, take, replicate, modify,
}
use aflgo.Stages.Flow.{Stage, Outcome, ◌>>◌, pass, change, update, when, for, reading, fuzz}
use aflgo.Stages.Buffer.{flip_bits, peek, poke}

-- What the stages use of the fuzzer: `common_fuzz_stuff` (its result is whether to bail out),
-- `hash32` of `trace_bits` and `maybe_add_auto`; and the entry that is fuzzed.
pub record Fuzzing (W : Type 0) : Type 0 where
  pub common_fuzz_stuff : List ℕ → W → Bool × W
  pub trace_cksum : W → ℕ
  pub maybe_add_auto : List ℕ → W → W
  pub dumb_mode : Bool
  pub exec_cksum : ℕ

-- The locals of `fuzz_one` that the stages share, and the state of the fuzzer.
pub record Session (W : Type 0) : Type 0 where
  pub world : W
  pub prev_cksum : ℕ
  pub a_collect : List ℕ
  pub a_len : ℕ
  pub eff_map : List ℕ
  pub eff_cnt : ℕ

-- The macros EFF_APOS, EFF_REM, EFF_ALEN and EFF_SPAN_ALEN.
abbrev pub eff_apos : ℕ → ℕ
eff_apos p = p / 8

abbrev pub eff_alen : ℕ → ℕ
eff_alen l = eff_apos l + (if l % 8 != 0 then 1 else 0)

abbrev pub eff_span_alen : ℕ → ℕ → ℕ
eff_span_alen p l = eff_apos (p + l - 1) - eff_apos p + 1

-- Whether one of `n` bytes from `i` on has an effect.
abbrev pub touched : List ℕ → ℕ → ℕ → Bool
touched eff zero i = false
touched eff (suc n) i = get_or eff (eff_apos i) 0 != 0 || touched eff n (i + 1)

-- `out_buf[cur] ^= 0xFF`
abbrev pub flip_byte : ℕ → List ℕ → List ℕ
flip_byte cur buf = modify buf cur (λ x. bit_xor x 0xFF)

-- `*(u16*)(out_buf + i) ^= 0xFFFF` for `k` 2, and the same with `u32` for 4.
abbrev pub flip_word : ℕ → ℕ → List ℕ → List ℕ
flip_word k i buf = poke k i (bit_xor (peek k i buf) (256 ^ k - 1)) buf

module _ {W : Type 0} (env : Fuzzing W) where
  -- `common_fuzz_stuff` beside the locals.
  abbrev pub exec : List ℕ → Session W → Bool × Session W
  exec buf t = let out = env.common_fuzz_stuff buf t.world in (out.0, record t { world = out.1 })

  -- `if (a_len < MAX_AUTO_EXTRA) a_collect[a_len] = …; a_len++;`
  abbrev pub collect : ℕ → Session W → Session W
  collect b t = record t {
    a_collect = (if ltb t.a_len 32 then set t.a_collect t.a_len b else t.a_collect);
    a_len = t.a_len + 1;
  }

  -- A string of a proper length goes to `maybe_add_auto`.
  abbrev pub offer : Session W → Session W
  offer t =
      if leb 3 t.a_len && leb t.a_len 32
      then record t { world = env.maybe_add_auto (take t.a_len t.a_collect) t.world }
      else t

  -- The end of the file, or a checksum that differs from the one before.
  abbrev pub close_token : ℕ → Bool → ℕ → Session W → Session W
  close_token b last cksum t =
      if last && cksum == t.prev_cksum
      then offer (collect b t)
      else if cksum != t.prev_cksum
      then record (offer t) { a_len = 0; prev_cksum = cksum }
      else t

  -- The search for syntax tokens, after the lowest bit of a byte.
  unfoldable pub find_token : ℕ → ℕ → List ℕ → Session W → Session W
  find_token stage_max stage_cur buf t =
      let cksum = env.trace_cksum t.world in
      let b = get_or buf (stage_cur / 8) 0 in
      let t1 = close_token b (stage_cur == stage_max - 1) cksum t in
      if not env.dumb_mode && stage_cur % 8 == 7
      then (if cksum != env.exec_cksum then collect b t1 else t1)
      else t

  -- One round: `width` bits are flipped, tried and flipped back.
  abbrev pub flip_round : ℕ → ℕ → Stage (Session W)
  flip_round width cur = change (flip_bits width cur) >> fuzz exec >> change (flip_bits width cur)

  -- `prev_cksum = queue_cur->exec_cksum`
  abbrev pub start_tokens : Session W → Session W
  start_tokens t = record t { prev_cksum = env.exec_cksum }

  unfoldable pub flip1 : ℕ → Stage (Session W)
  flip1 len =
      update (λ buf. start_tokens)
      >> for (len * 8) 0 (λ cur. flip_round 1 cur >> update (find_token (len * 8) cur))

  unfoldable pub flip2 : ℕ → Stage (Session W)
  flip2 len = for (len * 8 - 1) 0 (flip_round 2)

  unfoldable pub flip4 : ℕ → Stage (Session W)
  flip4 len = for (len * 8 - 3) 0 (flip_round 4)

  -- The first and the last byte always count.
  abbrev pub init_eff : ℕ → Session W → Session W
  init_eff len t =
      let first = set (replicate (eff_alen len) 0) 0 1 in
      if eff_apos (len - 1) != 0
      then record t { eff_map = set first (eff_apos (len - 1)) 1; eff_cnt = 2 }
      else record t { eff_map = first; eff_cnt = 1 }

  -- The checksum after a byte was flipped; in dumb mode and for short files it always differs.
  abbrev pub effect_cksum : ℕ → Session W → ℕ
  effect_cksum len t =
      if not env.dumb_mode && leb 128 len
      then env.trace_cksum t.world
      else 2 ^ 32 - 1 - env.exec_cksum

  unfoldable pub mark_effect : ℕ → ℕ → Session W → Session W
  mark_effect len cur t =
      if get_or t.eff_map (eff_apos cur) 0 == 0 && effect_cksum len t != env.exec_cksum
      then record t { eff_map = set t.eff_map (eff_apos cur) 1; eff_cnt = t.eff_cnt + 1 }
      else t

  -- A map that is more than 90 percent dense is filled.
  unfoldable pub fill_eff : ℕ → Session W → Session W
  fill_eff len t =
      if t.eff_cnt != eff_alen len && ltb 90 (t.eff_cnt * 100 / eff_alen len)
      then record t { eff_map = replicate (eff_alen len) 1 }
      else t

  unfoldable pub flip8 : ℕ → Stage (Session W)
  unfolding fill_eff
  flip8 len =
      update (λ buf. init_eff len)
      >> for len 0 (λ cur.
        change (flip_byte cur)
        >> fuzz exec
        >> update (λ buf. mark_effect len cur)
        >> change (flip_byte cur))
      >> update (λ buf. fill_eff len)

  abbrev pub flip_words : ℕ → List ℕ → ℕ → Stage (Session W)
  flip_words k eff n =
      for n 0 (λ i.
        when (touched eff k i) (change (flip_word k i) >> fuzz exec >> change (flip_word k i)))

  unfoldable pub flip16 : List ℕ → ℕ → Stage (Session W)
  flip16 eff len = if ltb len 2 then pass else flip_words 2 eff (len - 1)

  unfoldable pub flip32 : List ℕ → ℕ → Stage (Session W)
  flip32 eff len = if ltb len 4 then pass else flip_words 4 eff (len - 3)
