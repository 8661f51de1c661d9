-- ===== src/Lexer.antt =====
-- What both tokenizers of packages/irc-message share: character classes (tokenizer/chars.ts), token
-- kinds (Token.ts), errors (errors.ts), limits, and the control flow of a scan that may return early.
pub mod Chars
pub mod Token
pub mod Flow
