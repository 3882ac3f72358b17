-- ===== src/Bits.antt =====
-- The binary digits of a number, and what the C operators `|`, `&`, `^`, `<<` and `>>` do to them.
pub mod Digits
pub mod Shifts
