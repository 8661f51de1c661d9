-- ===== src/Parser.antt =====
-- packages/irc-message/src/parser/Parser.ts and FlatParser.ts: from tokens to a `Message`. The decoder
-- of UTF-8 (`TextDecoder`) is a parameter.
mod State
mod Objects
mod Flat
pub use State.{ParseState, and_then}
unfoldable pub use State.{flush_tag, initial, subarray, finish}
unfoldable pub use Objects.{on_token, step, run, parse}
unfoldable pub use Flat.{slot, on_type, flat_step, flat_run, parse_flat}
