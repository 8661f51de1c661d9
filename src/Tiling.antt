-- ===== src/Tiling.antt =====
-- Tokenizer.ts: what every token stream is like.
pub mod Cover
pub mod Tags
pub mod Whole
