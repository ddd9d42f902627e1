-- ===== src/Havoc/Stack.antt =====
-- The switch of the havoc stage and the stack of tweaks.
use aflgo.Common.{ℕ, zero, suc, ◌+◌, ◌<◌, ◌^◌, arith, leb, ◌==◌, ◌!=◌, if◌then◌else◌, List, length}
use aflgo.Mutations.Arith.{swap16, swap32}
use aflgo.Stages.Words.{plus, minus}
use aflgo.Stages.Interest.{interesting_16, interesting_32}
use aflgo.Havoc.Rules.{Safe, IsFile, pure-Safe, bind-Safe, if-Safe, ur-Safe}
use aflgo.Havoc.Tweaks.{Setup, tweak_case, tweak, tweaks, stacked}
use aflgo.Havoc.Safety.{
  Tokens, flip_random_bit-Safe, set_byte-Safe, set_word-Safe, shift_byte-Safe, shift_word-Safe,
  xor_byte-Safe, delete_bytes-Safe, clone_bytes-Safe, overwrite_bytes-Safe, overwrite_extra-Safe,
  insert_extra-Safe,
}

module _ {R : Type 0} (random : R → ℕ × R) (setup : Setup) (cycle : 0 < setup.queue_cycle)
    (h : Tokens setup.extras) (g : Tokens setup.a_extras) where
  tweak_case-Safe :
      (n : ℕ) (buf : List ℕ)
      → IsFile buf
      → (14 < n → 0 < length setup.extras + length setup.a_extras)
      → Safe IsFile (tweak_case random setup n buf)
  unfolding tweak_case
  tweak_case-Safe n buf fine tokens =
      if-Safe (n == 0) (λ _. flip_random_bit-Safe random buf fine)
        (λ _.
          if-Safe (n == 1) (λ _. set_byte-Safe random buf fine)
            (λ _.
              if-Safe (n == 2)
                (λ _.
                  set_word-Safe random 2 swap16 interesting_16 buf fine (omega arith) (omega arith))
                (λ _.
                  if-Safe (n == 3)
                    (λ _.
                      set_word-Safe random 4 swap32 interesting_32 buf fine (omega arith)
                        (omega arith))
                    (λ _.
                      if-Safe (n == 4) (λ _. shift_byte-Safe random minus buf fine)
                        (λ _.
                          if-Safe (n == 5) (λ _. shift_byte-Safe random plus buf fine)
                            (λ _.
                              if-Safe (n == 6)
                                (λ _. shift_word-Safe random 2 swap16 minus buf fine (omega arith))
                                (λ _.
                                  if-Safe (n == 7)
                                    (λ _.
                                      shift_word-Safe random 2 swap16 plus buf fine (omega arith))
                                    (λ _.
                                      if-Safe (n == 8)
                                        (λ _.
                                          shift_word-Safe random 4 swap32 minus buf fine
                                            (omega arith))
                                        (λ _.
                                          if-Safe (n == 9)
                                            (λ _.
                                              shift_word-Safe random 4 swap32 plus buf fine
                                                (omega arith))
                                            (λ _.
                                              if-Safe (n == 10) (λ _. xor_byte-Safe random buf fine)
                                                (λ _.
                                                  if-Safe (leb n 12)
                                                    (λ _.
                                                      delete_bytes-Safe random setup cycle buf fine)
                                                    (λ a.
                                                      if-Safe (n == 13)
                                                        (λ _.
                                                          clone_bytes-Safe random setup cycle buf
                                                            fine)
                                                        (λ b.
                                                          if-Safe (n == 14)
                                                            (λ _.
                                                            overwrite_bytes-Safe random setup cycle
                                                            buf fine)
                                                            (λ c.
                                                            if-Safe (n == 15)
                                                            (λ d.
                                                            overwrite_extra-Safe random setup cycle
                                                            h g buf fine (tokens (ground arith)))
                                                            (λ _.
                                                            insert_extra-Safe random setup cycle h g
                                                            buf fine
                                                            (tokens (ground arith)))))))))))))))))

  tweak-Safe : (buf : List ℕ) → IsFile buf → Safe IsFile (tweak random setup buf)
  unfolding tweak
  tweak-Safe buf fine =
      bind-Safe
        (ur-Safe random (15 + (if length setup.extras + length setup.a_extras != 0 then 2 else 0))
          (omega arith))
        (λ n inside. tweak_case-Safe n buf fine (λ high. ground arith))

  tweaks-Safe : (n : ℕ) (buf : List ℕ) → IsFile buf → Safe IsFile (tweaks random setup n buf)
  tweaks-Safe zero buf fine = pure-Safe buf fine
  tweaks-Safe (suc n) buf fine =
      bind-Safe (tweak-Safe buf fine) (λ out good. tweaks-Safe n out good)

  -- From the first queue cycle on and with dictionaries of bytes: whatever `random` returns, a stack of havoc tweaks on a file of
  -- bytes, not empty and of at most 1 MB, divides by no zero, accesses no byte outside of the
  -- buffer, and returns such a file again.
  pub stacked-Safe : (buf : List ℕ) → IsFile buf → Safe IsFile (stacked random setup buf)
  unfolding stacked
  stacked-Safe buf fine =
      bind-Safe (ur-Safe random 7 (omega arith)) (λ pow _. tweaks-Safe (2 ^ (1 + pow)) buf fine)
