-- ===== src/Lexer/Chars.antt =====
-- packages/irc-message/src/tokenizer/chars.ts
use mojo_jojo.Base.{ℕ, Bool, not, ◌&&◌, ◌==◌}

abbrev pub char_at : ℕ
char_at = 0x40

abbrev pub char_space : ℕ
char_space = 0x20

abbrev pub char_plus : ℕ
char_plus = 0x2b

abbrev pub char_equals : ℕ
char_equals = 0x3d

abbrev pub char_semicolon : ℕ
char_semicolon = 0x3b

abbrev pub char_colon : ℕ
char_colon = 0x3a

abbrev pub char_excl : ℕ
char_excl = 0x21

unfoldable pub is_tag_key_char : ℕ → Bool
is_tag_key_char c = not (c == char_equals) && not (c == char_space) && not (c == char_semicolon)

unfoldable pub is_tag_value_char : ℕ → Bool
is_tag_value_char c = not (c == char_space) && not (c == char_semicolon)

unfoldable pub is_prefix_name_char : ℕ → Bool
is_prefix_name_char c = not (c == char_space) && not (c == char_at) && not (c == char_excl)

unfoldable pub is_prefix_user_char : ℕ → Bool
is_prefix_user_char c = not (c == char_space) && not (c == char_at)

-- The test `buffer[pos] !== CHAR_SPACE` of the scans.
unfoldable pub is_not_space : ℕ → Bool
is_not_space c = not (c == char_space)

-- The test `buffer[pos] === CHAR_SPACE`.
unfoldable pub is_space : ℕ → Bool
is_space c = c == char_space
