-- ===== src/Stages.antt =====
-- The deterministic stages of `fuzz_one` in afl-2.57b/afl-fuzz.c: loops that change `out_buf` in
-- place, run the target on it and change it back.
pub mod Buffer
pub mod Flow
pub mod Flips
pub mod Words
pub mod Interest
pub mod Extras
pub mod Deterministic
pub mod Tests
