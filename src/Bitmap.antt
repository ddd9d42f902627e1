-- ===== src/Bitmap.antt =====
-- The coverage maps of afl-2.57b/afl-fuzz.c (trace_bits and the virgin maps).
pub mod Memory
pub mod Virgin
pub mod Classes
pub mod Counts
pub mod Minimize
pub mod Tests
