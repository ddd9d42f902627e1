-- ===== src/Havoc.antt =====
-- The havoc stage of `fuzz_one` in afl-2.57b/afl-fuzz.c: random tweaks stacked on a copy of the file.
pub mod Dice
pub mod Rules
pub mod Tweaks
pub mod Safety
pub mod Stack
pub mod Loop
pub mod Splice
pub mod Tests
