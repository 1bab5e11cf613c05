-- ===== src/U128.antt =====
-- 128-bit unsigned integers: src/ubgp/u128.h and src/ubgp/u128.c.
pub mod Words
pub mod Arith
pub mod Text
pub mod TextRoundTrip
