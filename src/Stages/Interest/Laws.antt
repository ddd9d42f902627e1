-- ===== src/Stages/Interest/Laws.antt =====
-- What the stages with interesting values run, against the tables and filters of Values.
use aflgo.Common.{
  subst, ℕ, ◌+◌, ◌-◌, ◌^◌, ◌<◌, ◌≤◌, ◌≡◌, refl, ap, ◌∙◌, arith, ltb, ltb→lt, ltb_off, if◌then◌else◌,
  Bool, true, false, ◌||◌, List, [], ◌∷◌, ◌++◌, length,
}
use aflgo.Bitmap.Memory.{IsBytes}
use aflgo.Mutations.Arith.{swap16, swap32}
use aflgo.Stages.Flow.{Stage, goes, Item, input, ◌>>◌, pass, change, gather, fuzz, Visits}
use aflgo.Stages.Flow.Rules.{seq-Visits, when-Visits, guarded-Visits, gather_none, for_guarded}
use aflgo.Stages.Buffer.{peek, poke}
use aflgo.Stages.Buffer.Laws.{poke-poke, poke-peek, peek-lt}
use aflgo.Stages.Flips.{Fuzzing, Session, exec, touched}
use aflgo.Stages.Words.{try_values, at_words}
use aflgo.Stages.Words.Laws.{
  chosen, Spoils, seq-Spoils, try_values-Spoils, restored-Visits, at_words-Visits,
}
use aflgo.Stages.Words.Sums.{turned, swap16-turned, swap32-turned}
use aflgo.Stages.Interest.Values.{
  keeps_byte, meant_values, interest8_guard-keeps_byte, interests-meant,
}
use aflgo.Stages.Interest.Repeats.{
  bytes_of_interest, pairs_of_interest, quads_of_interest, repeats, could_be_interest-pair,
  could_be_interest-quad,
}
use aflgo.Stages.Interest.{
  could_be_interest, interesting_8, interesting_16, interesting_32, interest8_guard, interests,
  each, interest8_try, interest8, interest_body, interest16, interest32, interest_words, interest,
}

module _ {S : Type 0} where
  -- The items for the values of a table in order.
  abbrev pub across : List ℕ → (ℕ → List (Item S)) → List (Item S)
  across [] items = []
  across (v ∷ table) items = items v ++ across table items

  -- The bytes of the table that are not products of earlier stages, at each place with an effect.
  abbrev pub byte_choice : List ℕ → ℕ → ℕ → List (Item S)
  byte_choice buf i v = if keeps_byte (peek 1 i buf) v then input (poke 1 i v buf) ∷ [] else []

  abbrev pub interest8_items : List ℕ → List ℕ → List (Item S)
  interest8_items eff buf =
      gather (length buf) 0
        (λ i. if touched eff 1 i then across bytes_of_interest (byte_choice buf i) else [])

  -- The same with words of `k` bytes, in both byte orders.
  abbrev pub word_choice : ℕ → List ℕ → ℕ → ℕ → List (Item S)
  word_choice k buf i v = chosen k i buf (meant_values k (peek k i buf) v)

  abbrev pub interest_items : ℕ → List ℕ → List ℕ → ℕ → List ℕ → List (Item S)
  interest_items k table eff n buf =
      gather n 0 (λ i. if touched eff k i then across table (word_choice k buf i) else [])

  abbrev pub word_items : List ℕ → List ℕ → List (Item S)
  word_items eff buf =
      interest_items 2 pairs_of_interest eff (length buf - 1) buf
      ++ interest_items 4 quads_of_interest eff (length buf - 3) buf

  no_words : (eff buf : List ℕ) → length buf < 2 → word_items eff buf ≡ []
  no_words eff buf short =
      rw
        (gather_none (length buf - 1)
          (λ i. if touched eff 2 i then across pairs_of_interest (word_choice 2 buf i) else [])
          (omega arith))
        (gather_none (length buf - 3)
          (λ i. if touched eff 4 i then across quads_of_interest (word_choice 4 buf i) else [])
          (omega arith))

module _ {W : Type 0} (env : Fuzzing W) where
  each-Visits :
      (table : List ℕ) (body : ℕ → Stage (Session W)) (buf : List ℕ)
      (items : ℕ → List (Item (Session W)))
      → ((v : ℕ) → Visits (exec env) (body v) buf (items v) buf)
      → Visits (exec env) (each env table body) buf (across table items) buf
  each-Visits [] body buf items h s = refl
  each-Visits (v ∷ table) body buf items h s =
      seq-Visits (exec env) (body v) (each env table body) buf buf buf (items v)
        (across table items) (h v) (each-Visits table body buf items h) s

  each-Spoils :
      (k i : ℕ) (buf : List ℕ) (table : List ℕ) (body : ℕ → Stage (Session W))
      (items : ℕ → List (Item (Session W)))
      → ((v : ℕ) → Spoils env k i buf (body v) (items v))
      → Spoils env k i buf (each env table body) (across table items)
  each-Spoils k i buf [] body items h b spoilt = (b, spoilt, λ s. refl)
  each-Spoils k i buf (v ∷ table) body items h b spoilt =
      seq-Spoils env k i buf (body v) (each env table body) (items v) (across table items) (h v)
        (each-Spoils k i buf table body items h) b spoilt

  byte-Visits :
      (i v : ℕ) (buf : List ℕ)
      → IsBytes buf
      → i + 1 ≤ length buf
      → Visits
          (exec env)
          (change (poke 1 i v) >> fuzz (exec env) >> change (poke 1 i (peek 1 i buf)))
          buf
          (input (poke 1 i v buf) ∷ [])
          buf
  byte-Visits i v buf proper inside =
      seq-Visits (exec env) (change (poke 1 i v) >> fuzz (exec env))
        (change (poke 1 i (peek 1 i buf))) buf (poke 1 i v buf) buf (input (poke 1 i v buf) ∷ []) []
        (λ s. refl)
        (λ s. ap (λ b. goes b s) (poke-poke 1 i v _ buf ∙ poke-peek 1 i buf proper inside))

  try-Visits :
      (i v : ℕ) (buf : List ℕ)
      → IsBytes buf
      → i + 1 ≤ length buf
      → Visits (exec env) (interest8_try env i (peek 1 i buf) v) buf (byte_choice buf i v) buf
  try-Visits i v buf proper inside =
      let m : Stage (Session W) =
        change (poke 1 i v) >> fuzz (exec env) >> change (poke 1 i (peek 1 i buf)) in
      subst
        (λ g.
          Visits (exec env) (interest8_try env i (peek 1 i buf) v) buf
            (if g then input (poke 1 i v buf) ∷ [] else []) buf)
        (interest8_guard-keeps_byte (peek 1 i buf) v)
        (when-Visits (exec env) (interest8_guard (peek 1 i buf) v) m buf
          (input (poke 1 i v buf) ∷ []) (byte-Visits i v buf proper inside))

  interest8-Visits :
      (eff buf : List ℕ)
      → IsBytes buf
      → Visits (exec env) (interest8 env eff (length buf)) buf (interest8_items eff buf) buf
  unfolding interest8
  interest8-Visits eff buf proper =
      at_words-Visits env 1 eff (length buf) buf
        (λ i orig. each env interesting_8 (interest8_try env i orig))
        (λ i. across bytes_of_interest (byte_choice buf i))
        (λ i below.
          each-Visits interesting_8 (interest8_try env i (peek 1 i buf)) buf (byte_choice buf i)
            (λ v. try-Visits i v buf proper (omega arith)))

  table-Visits :
      (k : ℕ) (swap : ℕ → ℕ)
      → ((v : ℕ) → swap v ≡ turned k v)
      → ((orig : ℕ)
          → orig < 256 ^ k
          → (new : ℕ) (b : Bool) → could_be_interest orig new k b ≡ repeats k orig new b)
      → (table eff : List ℕ) (n : ℕ) (buf : List ℕ) → IsBytes buf
      → n + k ≤ length buf + 1
      → Visits
          (exec env)
          (at_words env k eff n (interest_body env k swap table))
          buf
          (interest_items k table eff n buf)
          buf
  table-Visits k swap agree told table eff n buf proper inside =
      at_words-Visits env k eff n buf (interest_body env k swap table)
        (λ i. across table (word_choice k buf i))
        (λ i below.
          restored-Visits env k i buf
            (each env table (λ v. try_values env k i (interests k swap (peek k i buf) v)))
            (across table (word_choice k buf i)) proper (omega arith)
            (each-Spoils k i buf table (λ v. try_values env k i (interests k swap (peek k i buf) v))
              (word_choice k buf i)
              (λ v.
                subst
                  (λ cs.
                    Spoils env k i buf (try_values env k i (interests k swap (peek k i buf) v))
                      (chosen k i buf cs))
                  (interests-meant k swap (peek k i buf) v (agree v)
                    (told (peek k i buf) (peek-lt k i buf proper (omega arith))))
                  (try_values-Spoils env k i buf (interests k swap (peek k i buf) v)))))

  interest_words-Visits :
      (eff buf : List ℕ)
      → IsBytes buf
      → 2 ≤ length buf
      → Visits (exec env) (interest_words env eff (length buf)) buf (word_items eff buf) buf
  unfolding interest16 interest32
  interest_words-Visits eff buf proper long =
      seq-Visits (exec env) (interest16 env eff (length buf))
        (if ltb (length buf) 4 then pass else interest32 env eff (length buf)) buf buf buf
        (interest_items 2 pairs_of_interest eff (length buf - 1) buf)
        (interest_items 4 quads_of_interest eff (length buf - 3) buf)
        (table-Visits 2 swap16 swap16-turned (λ orig h new b. could_be_interest-pair orig new b h)
          interesting_16 eff (length buf - 1) buf proper (omega arith))
        (for_guarded (exec env) (ltb (length buf) 4) (interest32 env eff (length buf))
          (length buf - 3) buf _ (λ short. omega (arith, ltb→lt (length buf) 4 short))
          (λ full.
            table-Visits 4 swap32 swap32-turned
              (λ orig h new b. could_be_interest-quad orig new b h) interesting_32 eff
              (length buf - 3) buf proper (omega (arith, ltb_off (length buf) 4 full))))

  interest_rest-Visits :
      (no_arith : Bool) (eff buf : List ℕ)
      → IsBytes buf
      → Visits
          (exec env)
          (if no_arith || ltb (length buf) 2 then pass else interest_words env eff (length buf))
          buf
          (if no_arith then [] else word_items eff buf)
          buf
  interest_rest-Visits true eff buf proper s = refl
  interest_rest-Visits false eff buf proper s =
      guarded-Visits (exec env) (ltb (length buf) 2) (interest_words env eff (length buf)) buf
        (word_items eff buf) (λ short. no_words eff buf (ltb→lt (length buf) 2 short))
        (λ long. interest_words-Visits eff buf proper (ltb_off (length buf) 2 long)) s

  -- On a buffer of bytes, the stages with interesting values run the target, for every place
  -- whose word has a byte with an effect, on the buffer as it was with a value of the table in it: first bytes, then, unless
  -- `no_arith` is set, words of two and of four bytes, with the lowest byte first and, where that is another word, with the highest byte first.
  -- Left out is what `could_be_bitflip` or `could_be_arith` says yes to, and, for the longer words, what an earlier value of interest makes: the word as it was, the word
  -- with a byte of interest in one place, in four bytes the word with a pair of interest in one place in either
  -- order, and, for a value with its highest byte first, one that is in the table with its lowest byte first.
  -- Files that are too short for a word are left alone. The buffer is left as it was; the first run that asks to bail out
  -- abandons the entry.
  pub interest-Visits :
      (no_arith : Bool) (eff buf : List ℕ)
      → IsBytes buf
      → Visits
          (exec env)
          (interest env no_arith eff (length buf))
          buf
          (interest8_items eff buf ++ (if no_arith then [] else word_items eff buf))
          buf
  unfolding interest
  interest-Visits no_arith eff buf proper =
      seq-Visits (exec env) (interest8 env eff (length buf))
        (if no_arith || ltb (length buf) 2 then pass else interest_words env eff (length buf)) buf
        buf buf (interest8_items eff buf) (if no_arith then [] else word_items eff buf)
        (interest8-Visits eff buf proper) (interest_rest-Visits no_arith eff buf proper)
