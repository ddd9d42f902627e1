-- ===== src/Stages/Flips/Laws.antt =====
-- What the bit flipping stages run, against the list of inputs that they mean to run.
use aflgo.Common.{
  ℕ, ◌+◌, ◌-◌, ◌*◌, ◌^◌, ◌<◌, ◌≤◌, ◌≡◌, refl, ap, ◌∙◌, arith, ltb, ltb→lt, ltb_off, if◌then◌else◌,
  bit_xor, List, [], ◌∷◌, ◌++◌, length,
}
use aflgo.Bits.Test.{bit_xor_twice}
use aflgo.Bits.Powers.{bit_xor-lt}
use aflgo.Bitmap.Memory.{IsBytes}
use aflgo.Stages.Flow.{
  Stage, goes, Item, input, note, ◌>>◌, change, update, for, gather, fuzz, Visits,
}
use aflgo.Stages.Flow.Rules.{seq-Visits, when-Visits, for-Visits, for_guarded}
use aflgo.Stages.Buffer.{flip_bits, peek, poke}
use aflgo.Stages.Buffer.Laws.{peek-lt, peek-poke, poke-peek, poke-poke, flip_bits_undo, modify_undo}
use aflgo.Stages.Flips.{
  Fuzzing, Session, exec, flip_round, start_tokens, find_token, flip1, flip2, flip4, init_eff,
  mark_effect, fill_eff, flip_byte, flip8, flip_word, flip_words, flip16, flip32, touched,
}

flip_word_undo :
    (k i : ℕ) (buf : List ℕ)
    → IsBytes buf
    → i + k ≤ length buf
    → flip_word k i (flip_word k i buf) ≡ buf
flip_word_undo k i buf proper inside =
    let v = peek k i buf in
    let small : v < 256 ^ k = peek-lt k i buf proper inside in
    let inverted : bit_xor v (256 ^ k - 1) < 256 ^ k =
      bit_xor-lt k v (256 ^ k - 1) small (omega arith) in
    poke-poke k i (bit_xor v (256 ^ k - 1)) _ buf
    ∙ ap (λ x. poke k i (bit_xor x (256 ^ k - 1)) buf)
        (peek-poke k i (bit_xor v (256 ^ k - 1)) buf inverted inside)
    ∙ ap (λ x. poke k i x buf) (bit_xor_twice v (256 ^ k - 1))
    ∙ poke-peek k i buf proper inside

module _ {S : Type 0} where
  -- The runs of `width` bits from each of the first `n` bits on.
  abbrev pub flip_items : ℕ → ℕ → List ℕ → List (Item S)
  flip_items width n buf = gather n 0 (λ cur. input (flip_bits width cur buf) ∷ [])

  -- The words at the first `n` places that have an effect.
  abbrev pub flip_word_items : ℕ → List ℕ → ℕ → List ℕ → List (Item S)
  flip_word_items k eff n buf =
      gather n 0 (λ i. if touched eff k i then input (flip_word k i buf) ∷ [] else [])

module _ {W : Type 0} (env : Fuzzing W) where
  -- Each bit, and the search for a token.
  abbrev pub flip1_items : ℕ → List ℕ → List (Item (Session W))
  flip1_items len buf =
      note (start_tokens env)
      ∷ gather (len * 8) 0
          (λ cur. input (flip_bits 1 cur buf) ∷ note (find_token env (len * 8) cur buf) ∷ [])

  -- A new map, each byte with its mark, and the filling of the map.
  abbrev pub flip8_items : ℕ → List ℕ → List (Item (Session W))
  flip8_items len buf =
      note (init_eff env len)
        ∷ gather len 0 (λ cur. input (flip_byte cur buf) ∷ note (mark_effect env len cur) ∷ [])
      ++ note (fill_eff env len) ∷ []

  -- A change that undoes itself, round a run of the target.
  there_and_back :
      (f : List ℕ → List ℕ) (buf : List ℕ)
      → f (f buf) ≡ buf
      → Visits (exec env) (change f >> fuzz (exec env) >> change f) buf (input (f buf) ∷ []) buf
  there_and_back f buf h =
      seq-Visits (exec env) (change f >> fuzz (exec env)) (change f) buf (f buf) buf
        (input (f buf) ∷ []) [] (λ s. refl) (λ s. ap (λ b. goes b s) h)

  flip_round-Visits :
      (width cur : ℕ) (buf : List ℕ)
      → Visits (exec env) (flip_round env width cur) buf (input (flip_bits width cur buf) ∷ []) buf
  flip_round-Visits width cur buf =
      there_and_back (flip_bits width cur) buf (flip_bits_undo width cur buf)

  -- The stage that flips single bits starts from the checksum of the entry and runs the target on the buffer with bit 0 flipped, with bit 1 flipped and so
  -- on to the last bit of the file, looks for a syntax token after each run, on the buffer as it was, and leaves the
  -- buffer as it was; the first run that asks to bail out abandons the entry.
  pub flip1-Visits :
      (len : ℕ) (buf : List ℕ) → Visits (exec env) (flip1 env len) buf (flip1_items len buf) buf
  unfolding flip1
  flip1-Visits len buf =
      let round : ℕ → Stage (Session W) =
        λ cur. flip_round env 1 cur >> update (find_token env (len * 8) cur) in
      let items : ℕ → List (Item (Session W)) =
        λ cur. input (flip_bits 1 cur buf) ∷ note (find_token env (len * 8) cur buf) ∷ [] in
      seq-Visits (exec env) (update (λ b. start_tokens env)) (for (len * 8) 0 round) buf buf buf
        (note (start_tokens env) ∷ []) (gather (len * 8) 0 items) (λ s. refl)
        (for-Visits (exec env) (len * 8) 0 round buf items (λ cur lo hi.
          seq-Visits (exec env) (flip_round env 1 cur) (update (find_token env (len * 8) cur)) buf
            buf buf (input (flip_bits 1 cur buf) ∷ [])
            (note (find_token env (len * 8) cur buf) ∷ []) (flip_round-Visits 1 cur buf)
            (λ s. refl)))

  -- The stages that flip two and four bits in a row run the target on the buffer with the bits from 0 on flipped, from 1 on
  -- and so on, as long as the run of bits ends in the file, and leave the buffer as it was; the
  -- first run that asks to bail out abandons the entry.
  pub flip2-flip4-Visits :
      (len : ℕ) (buf : List ℕ)
      → Visits (exec env) (flip2 env len) buf (flip_items 2 (len * 8 - 1) buf) buf
        × Visits (exec env) (flip4 env len) buf (flip_items 4 (len * 8 - 3) buf) buf
  unfolding flip2 flip4
  flip2-flip4-Visits len buf = (
    for-Visits (exec env) (len * 8 - 1) 0 _ buf _ (λ cur lo hi. flip_round-Visits 2 cur buf),
    for-Visits (exec env) (len * 8 - 3) 0 _ buf _ (λ cur lo hi. flip_round-Visits 4 cur buf),
  )

  -- The stage that flips whole bytes starts a new effector map, runs the target on the buffer with each byte in turn
  -- inverted, marks the byte's block after each run if the checksum has changed, fills the map at
  -- the end if it is dense, and leaves the buffer as it was; the first run that asks to bail out abandons the entry.
  pub flip8-Visits :
      (len : ℕ) (buf : List ℕ) → Visits (exec env) (flip8 env len) buf (flip8_items len buf) buf
  unfolding flip8
  flip8-Visits len buf =
      let round : ℕ → Stage (Session W) = λ cur.
        change (flip_byte cur)
        >> fuzz (exec env)
        >> update (λ b. mark_effect env len cur)
        >> change (flip_byte cur) in
      let items : ℕ → List (Item (Session W)) =
        λ cur. input (flip_byte cur buf) ∷ note (mark_effect env len cur) ∷ [] in
      let one : (cur : ℕ) → Visits (exec env) (round cur) buf (items cur) buf = λ cur.
        seq-Visits (exec env)
          (change (flip_byte cur) >> fuzz (exec env) >> update (λ b. mark_effect env len cur))
          (change (flip_byte cur)) buf (flip_byte cur buf) buf (items cur) []
          (seq-Visits (exec env) (change (flip_byte cur) >> fuzz (exec env))
            (update (λ b. mark_effect env len cur)) buf (flip_byte cur buf) (flip_byte cur buf)
            (input (flip_byte cur buf) ∷ []) (note (mark_effect env len cur) ∷ []) (λ s. refl)
            (λ s. refl))
          (λ s. ap (λ b. goes b s) (modify_undo buf cur _ (λ x. bit_xor_twice x 0xFF))) in
      let loop : Visits (exec env) (update (λ b. init_eff env len) >> for len 0 round) buf
          (note (init_eff env len) ∷ gather len 0 items) buf =
        seq-Visits (exec env) (update (λ b. init_eff env len)) (for len 0 round) buf buf buf
          (note (init_eff env len) ∷ []) (gather len 0 items) (λ s. refl)
          (for-Visits (exec env) len 0 round buf items (λ cur lo hi. one cur)) in
      seq-Visits (exec env) (update (λ b. init_eff env len) >> for len 0 round)
        (update (λ b. fill_eff env len)) buf buf buf (note (init_eff env len) ∷ gather len 0 items)
        (note (fill_eff env len) ∷ []) loop (λ s. refl)

  flip_words-Visits :
      (k : ℕ) (eff : List ℕ) (n : ℕ) (buf : List ℕ)
      → IsBytes buf
      → n + k ≤ length buf + 1
      → Visits (exec env) (flip_words env k eff n) buf (flip_word_items k eff n buf) buf
  flip_words-Visits k eff n buf proper inside = for-Visits (exec env) n 0 _ buf _ (λ i lo hi.
      when-Visits (exec env) (touched eff k i)
        (change (flip_word k i) >> fuzz (exec env) >> change (flip_word k i)) buf
        (input (flip_word k i buf) ∷ [])
        (there_and_back (flip_word k i) buf (flip_word_undo k i buf proper (omega arith))))

  -- The stages that flip two and four bytes in a row run the target on the buffer with the word at 0 inverted, at 1
  -- and so on as long as the word lies in the file, save the words none of whose bytes has an effect; a
  -- file that is too short for a word is left alone. They leave a buffer of bytes as it
  -- was; the first run that asks to bail out abandons the entry.
  pub flip16-flip32-Visits :
      (eff buf : List ℕ)
      → IsBytes buf
      → Visits
          (exec env)
          (flip16 env eff (length buf))
          buf
          (flip_word_items 2 eff (length buf - 1) buf)
          buf
        × Visits
            (exec env)
            (flip32 env eff (length buf))
            buf
            (flip_word_items 4 eff (length buf - 3) buf)
            buf
  unfolding flip16 flip32
  flip16-flip32-Visits eff buf proper = (
    for_guarded (exec env) (ltb (length buf) 2) _ (length buf - 1) buf _
        (λ short. omega (arith, ltb→lt (length buf) 2 short))
        (λ long.
          flip_words-Visits 2 eff (length buf - 1) buf proper
            (omega (arith, ltb_off (length buf) 2 long))),
    for_guarded (exec env) (ltb (length buf) 4) _ (length buf - 3) buf _
        (λ short. omega (arith, ltb→lt (length buf) 4 short))
        (λ long.
          flip_words-Visits 4 eff (length buf - 3) buf proper
            (omega (arith, ltb_off (length buf) 4 long))),
  )
