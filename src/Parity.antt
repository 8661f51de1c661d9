-- ===== src/Parity.antt =====
-- The two tokenizers of packages/irc-message agree, and so do the two parsers.
pub mod Sim
pub mod Tags
pub mod Rfc
pub mod Whole
pub mod Parsers
