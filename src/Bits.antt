-- ===== src/Bits.antt =====
-- Bitwise operators of the source (`&`, `|`, `^`, `<<`, `>>`) on words of any width, as arithmetic.
pub mod Digit
pub mod Xor
pub mod Field
