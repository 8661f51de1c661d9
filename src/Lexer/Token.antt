-- ===== src/Lexer/Token.antt =====
-- packages/irc-message/src/tokenizer/Token.ts: the enum and the token objects.
use mojo_jojo.Base.{ℕ}

pub data TokenType : Type 0 where
  eof tags_start tag_client_key_start tag_key tag_value_start tag_value : TokenType
  tag_separator prefix_start prefix_name prefix_user_start prefix_user : TokenType
  prefix_host_start prefix_host separator command middle_parameter : TokenType
  trailing_parameter_start trailing_parameter : TokenType

-- The numbers of the enum, which the flat token stream holds.
unfoldable pub type_code : TokenType → ℕ
type_code eof = 0
type_code tags_start = 1
type_code tag_client_key_start = 2
type_code tag_key = 3
type_code tag_value_start = 4
type_code tag_value = 5
type_code tag_separator = 6
type_code prefix_start = 7
type_code prefix_name = 8
type_code prefix_user_start = 9
type_code prefix_user = 10
type_code prefix_host_start = 11
type_code prefix_host = 12
type_code separator = 13
type_code command = 14
type_code middle_parameter = 15
type_code trailing_parameter_start = 16
type_code trailing_parameter = 17

-- A `Token` object: its class, and the span `[start, end)` of the buffer.
pub record Token : Type 0 where
  pub type : TokenType
  pub start : ℕ
  pub end : ℕ
