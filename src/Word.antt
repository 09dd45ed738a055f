-- ===== src/Word.antt =====
pub mod Bits
