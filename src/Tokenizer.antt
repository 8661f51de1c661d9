-- ===== src/Tokenizer.antt =====
-- The reference tokenizer, packages/irc-message/src/tokenizer/Tokenizer.ts: `tokenize`, block by block.
mod Tags
mod Rfc
unfoldable pub use Tags.{
  throw_limit, resume, advance, client_key, key_loop, key_name, value_loop, tag_value,
  tag_value_start, space_loop, next_tag, tag_value_at, tag_end, tag, tag_loop, tag_section,
}
unfoldable pub use Rfc.{
  rfc_length, prefix_name, prefix_user, prefix_host, prefix_end, prefix, command_word, separators,
  param_loop, tokenize_line, tokenize_range, content, run_token, middle,
}
pub use Tags.{Tokens, eof, push, last, type_of}
pub use Rfc.{tokenize}
