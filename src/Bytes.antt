-- ===== src/Bytes.antt =====
-- Byte strings, loads and stores of fixed width, and the comparisons of keys
-- (src/core/fce_hash.c). A pointer with its length is a list of numbers below 256.
pub mod Words
pub mod Compare
pub mod Lexical
pub mod Range
