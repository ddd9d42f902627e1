-- ===== src/Bits.antt =====
-- Bits of the native numbers: the laws of `&`, `|` and `^` of C at variables.
pub mod Step
pub mod Test
pub mod Fields
pub mod Powers
