-- ===== src/FastTokenizer.antt =====
-- The allocation-free tokenizer, packages/irc-message/src/tokenizer/JsFastTokenizer.ts: `tokenizeInto`,
-- block by block, on the triple buffer of flat.ts.
mod Triples
mod Tags
mod Rfc
unfoldable pub use Tags.{
  throw_limit, resume, advance, client_key, key_loop, key_name, value_loop, tag_value,
  tag_value_start, space_loop, next_tag, tag_value_at, tag_end, tag, tag_loop, tag_section,
}
unfoldable pub use Rfc.{
  rfc_length, prefix_name, prefix_user, prefix_host, prefix_end, prefix, command_word, separators,
  param_loop, tokenize_line, tokenize_range, content, run_token, middle,
}
unfoldable pub use Triples.{triple_capacity, reserve, emit, finish, last_tok}
pub use Triples.{Buffer, Scratch}
pub use Rfc.{tokenize_into}
