-- ===== src/Havoc/Safety.antt =====
-- The tweaks never fault, and what they leave is a file again.
use aflgo.Common.{
  ℕ, ◌+◌, ◌-◌, ◌*◌, ◌/◌, ◌<◌, ◌≤◌, arith, leb, ltb, ◌==◌, ◌!=◌, ltb_off, leb_off, List, [], ◌∷◌,
  length, replicate, length-replicate, All,
}
use aflgo.Bitmap.Memory.{IsByte, IsBytes}
use aflgo.Mutations.Arith.{arith_max}
use aflgo.Stages.Interest.{interesting_8}
use aflgo.Stages.Extras.{max_file}
use aflgo.Havoc.Dice.{pick, block_len}
use aflgo.Havoc.Rules.{
  Safe, IsFile, pure-Safe, bind-Safe, if-Safe, alter-Safe, copy_in-Safe, slice-Safe, splice_in-Safe,
  cut_out-Safe, ur-Safe, pick-Safe, block_len-Safe, replicate-IsBytes,
}
use aflgo.Havoc.Tweaks.{
  Setup, flip_random_bit, set_byte, set_word, shift_byte, shift_word, xor_byte, filler, pick_extra,
  delete_bytes, clone_bytes, overwrite_bytes, overwrite_extra, insert_extra, havoc_blk_xl,
}

-- Anything at all, for draws whose value does not matter.
IsAnything : ℕ → Type 0
IsAnything x = Unit

IsAnything-table : (xs : List ℕ) → All IsAnything xs
unfolding IsAnything
IsAnything-table [] = tt
IsAnything-table (x ∷ xs) = (tt, IsAnything-table xs)

-- The dictionaries are made of bytes.
abbrev pub Tokens : List (List ℕ) → Type 0
Tokens toks = All IsBytes toks

module _ {R : Type 0} (random : R → ℕ × R) where
  pick_value-Safe : (table : List ℕ) → 0 < length table → Safe IsAnything (pick random table)
  pick_value-Safe table h = pick-Safe random table (IsAnything-table table) h

  pub flip_random_bit-Safe : (buf : List ℕ) → IsFile buf → Safe IsFile (flip_random_bit random buf)
  flip_random_bit-Safe buf h =
      bind-Safe (ur-Safe random (length buf * 8) (omega (arith, h.some_byte)))
        (λ b inside. alter-Safe 1 (b / 8) _ buf h (omega arith))

  pub set_byte-Safe : (buf : List ℕ) → IsFile buf → Safe IsFile (set_byte random buf)
  set_byte-Safe buf h = bind-Safe (ur-Safe random (length buf) (h.some_byte)) (λ i inside.
      bind-Safe (pick_value-Safe interesting_8 (omega arith))
        (λ v _. alter-Safe 1 i (λ x. v) buf h (omega arith)))

  pub set_word-Safe :
      (k : ℕ) (swap : ℕ → ℕ) (table buf : List ℕ)
      → IsFile buf
      → 0 < k
      → 0 < length table
      → Safe IsFile (set_word random k swap table buf)
  set_word-Safe k swap table buf h pos some_value =
      if-Safe (ltb (length buf) k) (λ short. pure-Safe buf h)
        (λ long. bind-Safe (ur-Safe random 2 (omega arith)) (λ le _.
          bind-Safe
            (ur-Safe random (length buf - (k - 1)) (omega (arith, ltb_off (length buf) k long)))
            (λ i inside.
              bind-Safe (pick_value-Safe table some_value)
                (λ v _. alter-Safe k i _ buf h (omega (arith, ltb_off (length buf) k long))))))

  pub shift_byte-Safe :
      (op : ℕ → ℕ → ℕ → ℕ) (buf : List ℕ) → IsFile buf → Safe IsFile (shift_byte random op buf)
  shift_byte-Safe op buf h = bind-Safe (ur-Safe random (length buf) h.some_byte) (λ i inside.
      bind-Safe (ur-Safe random arith_max (omega arith))
        (λ n _. alter-Safe 1 i _ buf h (omega arith)))

  pub shift_word-Safe :
      (k : ℕ) (swap : ℕ → ℕ) (op : ℕ → ℕ → ℕ → ℕ) (buf : List ℕ)
      → IsFile buf
      → 0 < k
      → Safe IsFile (shift_word random k swap op buf)
  shift_word-Safe k swap op buf h pos =
      if-Safe (ltb (length buf) k) (λ short. pure-Safe buf h)
        (λ long. bind-Safe (ur-Safe random 2 (omega arith)) (λ le _.
          bind-Safe
            (ur-Safe random (length buf - (k - 1)) (omega (arith, ltb_off (length buf) k long)))
            (λ i inside.
              bind-Safe (ur-Safe random arith_max (omega arith))
                (λ n _. alter-Safe k i _ buf h (omega (arith, ltb_off (length buf) k long))))))

  pub xor_byte-Safe : (buf : List ℕ) → IsFile buf → Safe IsFile (xor_byte random buf)
  xor_byte-Safe buf h = bind-Safe (ur-Safe random (length buf) h.some_byte) (λ i inside.
      bind-Safe (ur-Safe random 255 (omega arith)) (λ x _. alter-Safe 1 i _ buf h (omega arith)))

  pub filler-Safe : (buf : List ℕ) → IsFile buf → Safe IsByte (filler random buf)
  filler-Safe buf h = bind-Safe (ur-Safe random 2 (omega arith)) (λ c _.
      if-Safe (c != 0) (λ _. ur-Safe random 256 (omega arith))
        (λ _. pick-Safe random buf h.proper h.some_byte))

  pub pick_extra-Safe :
      (setup : Setup)
      → Tokens setup.extras
      → Tokens setup.a_extras
      → 0 < length setup.extras + length setup.a_extras
      → Safe IsBytes (pick_extra random setup)
  pick_extra-Safe setup h g some_token =
      if-Safe (length setup.extras == 0)
        (λ none_given. pick-Safe random setup.a_extras g (ground arith))
        (λ given.
          if-Safe (length setup.a_extras == 0)
            (λ none_found. pick-Safe random setup.extras h (ground arith))
            (λ found. bind-Safe (ur-Safe random 2 (omega arith)) (λ c _.
              if-Safe (c != 0) (λ _. pick-Safe random setup.a_extras g (ground arith))
                (λ _. pick-Safe random setup.extras h (ground arith)))))

  module _ (setup : Setup) (cycle : 0 < setup.queue_cycle) where
    pub len_of_block-Safe :
        (limit : ℕ)
        → 0 < limit
        → Safe
            (λ n. (1 ≤ n) × (n ≤ limit) × (n ≤ 32768))
            (block_len random setup.queue_cycle setup.run_over10m limit)
    len_of_block-Safe limit h =
        block_len-Safe random setup.queue_cycle setup.run_over10m limit cycle h

    pub delete_bytes-Safe :
        (buf : List ℕ) → IsFile buf → Safe IsFile (delete_bytes random setup buf)
    delete_bytes-Safe buf h =
        if-Safe (ltb (length buf) 2) (λ short. pure-Safe buf h)
          (λ long.
            bind-Safe
              (len_of_block-Safe (length buf - 1) (omega (arith, ltb_off (length buf) 2 long)))
              (λ n size. bind-Safe (ur-Safe random (length buf - n + 1) (omega arith)) (λ i inside.
                cut_out-Safe i n buf h (omega (arith, size, ltb_off (length buf) 2 long))
                  (omega (arith, size, ltb_off (length buf) 2 long)))))

    pub clone_bytes-Safe : (buf : List ℕ) → IsFile buf → Safe IsFile (clone_bytes random setup buf)
    clone_bytes-Safe buf h =
        if-Safe (leb max_file (length buf + havoc_blk_xl)) (λ big. pure-Safe buf h)
          (λ room. bind-Safe (ur-Safe random 4 (omega arith)) (λ c _.
            if-Safe (c != 0)
              (λ _. bind-Safe (len_of_block-Safe (length buf) h.some_byte) (λ n size.
                bind-Safe (ur-Safe random (length buf - n + 1) (omega arith)) (λ i inside.
                  bind-Safe (ur-Safe random (length buf) h.some_byte) (λ j there.
                    bind-Safe (slice-Safe i n buf h (omega (arith, size))) (λ part bytes.
                      splice_in-Safe j part buf h bytes.0 (omega arith) (
                        omega (
                          arith,
                          size,
                          bytes.1,
                          leb_off max_file (length buf + havoc_blk_xl) room,
                        )))))))
              (λ _. bind-Safe (len_of_block-Safe havoc_blk_xl (omega arith)) (λ n size.
                bind-Safe (ur-Safe random (length buf) h.some_byte) (λ j there.
                  bind-Safe (filler-Safe buf h) (λ fill byte.
                    splice_in-Safe j (replicate n fill) buf h (replicate-IsBytes n fill byte)
                      (omega arith)
                      (omega (
                        arith,
                        size,
                        length-replicate n fill,
                        leb_off max_file (length buf + havoc_blk_xl) room,
                      ))))))))

    pub overwrite_bytes-Safe :
        (buf : List ℕ) → IsFile buf → Safe IsFile (overwrite_bytes random setup buf)
    overwrite_bytes-Safe buf h =
        if-Safe (ltb (length buf) 2) (λ short. pure-Safe buf h)
          (λ long.
            bind-Safe
              (len_of_block-Safe (length buf - 1) (omega (arith, ltb_off (length buf) 2 long)))
              (λ n size. bind-Safe (ur-Safe random (length buf - n + 1) (omega arith)) (λ i from.
                bind-Safe (ur-Safe random (length buf - n + 1) (omega arith)) (λ j to.
                  bind-Safe (ur-Safe random 4 (omega arith)) (λ c _.
                    if-Safe (c != 0)
                      (λ _.
                        if-Safe (i == j) (λ _. pure-Safe buf h)
                          (λ _.
                            bind-Safe (slice-Safe i n buf h (omega (arith, size))) (λ part bytes.
                              copy_in-Safe j part buf h bytes.0 (omega (arith, size, bytes.1)))))
                      (λ _. bind-Safe (filler-Safe buf h) (λ fill byte.
                        copy_in-Safe j (replicate n fill) buf h (replicate-IsBytes n fill byte)
                          (omega (arith, size, length-replicate n fill)))))))))

    module _ (h : Tokens setup.extras) (g : Tokens setup.a_extras) where
      pub overwrite_extra-Safe :
          (buf : List ℕ)
          → IsFile buf
          → 0 < length setup.extras + length setup.a_extras
          → Safe IsFile (overwrite_extra random setup buf)
      overwrite_extra-Safe buf fine some_token =
          bind-Safe (pick_extra-Safe setup h g some_token) (λ tok bytes.
            if-Safe (ltb (length buf) (length tok)) (λ _. pure-Safe buf fine)
              (λ fits.
                bind-Safe (ur-Safe random (length buf - length tok + 1) (omega arith)) (λ i inside.
                  copy_in-Safe i tok buf fine bytes
                    (omega (arith, ltb_off (length buf) (length tok) fits)))))

      pub insert_extra-Safe :
          (buf : List ℕ)
          → IsFile buf
          → 0 < length setup.extras + length setup.a_extras
          → Safe IsFile (insert_extra random setup buf)
      insert_extra-Safe buf fine some_token =
          bind-Safe (ur-Safe random (length buf + 1) (omega arith)) (λ i inside.
            bind-Safe (pick_extra-Safe setup h g some_token) (λ tok bytes.
              if-Safe (leb max_file (length buf + length tok)) (λ _. pure-Safe buf fine)
                (λ fits.
                  splice_in-Safe i tok buf fine bytes (omega arith)
                    (omega (arith, leb_off max_file (length buf + length tok) fits)))))
