-- ===== src/Tokenizer/Tags.antt =====
-- Tokenizer.ts, the message-tags part.
use mojo_jojo.Base.{
  ℕ, zero, suc, ◌+◌, Bool, true, false, not, List, [], ◌∷◌, ◌++◌, Option, none, some, Bytes, ltb,
  leb, ◌==◌, if◌then◌else◌, get_last?,
}
use mojo_jojo.Lexer.Chars.{
  char_plus, char_equals, char_semicolon, char_space, is_tag_key_char, is_tag_value_char,
}
use mojo_jojo.Lexer.Token.{Token, TokenType, type_code}
use mojo_jojo.Lexer.Flow.{
  LimitName, tag_data_limit, tag_count_limit, limit_exceeded, unexpected_char, Limits, Outcome,
  returned, thrown, out_of_fuel, Flow, go, halt, ◌>>=◌, Cursor,
}

abbrev pub Tokens : Type 0
Tokens = List Token

-- `tokens.push(new Type(start, end))`
abbrev pub push : Tokens → TokenType → ℕ → ℕ → Tokens
push tokens type start end = tokens ++ (record { type = type; start = start; end = end }) ∷ []

-- The type of `last(tokens)`, for an error.
abbrev pub type_of : Option Token → Option ℕ
type_of none = none
type_of (some t) = some (type_code t.type)

abbrev pub last : Tokens → Option ℕ
last tokens = type_of (get_last? tokens)

-- `return eof(tokens, pos)`
abbrev pub eof : Tokens → ℕ → Outcome Tokens
eof tokens pos = returned (push tokens TokenType.eof pos pos)

unfoldable pub throw_limit : {A : Type 0} → LimitName → ℕ → ℕ → Tokens → Flow Tokens A
throw_limit name limit pos tokens = halt (thrown (limit_exceeded name limit pos (last tokens)))

-- `if (pos >= end) return eof(tokens, pos)`
unfoldable pub resume : Tokens → ℕ → Bytes → Flow Tokens (Cursor Tokens)
resume tokens pos [] = halt (eof tokens pos)
resume tokens pos (c ∷ rest) = go (record { pos = pos; head = c; tail = rest; tokens = tokens })

-- A one-byte token, `pos++`, and the test for the end.
unfoldable pub advance : Cursor Tokens → TokenType → Flow Tokens (Cursor Tokens)
unfolding resume
advance k type = resume (push k.tokens type k.pos (k.pos + 1)) (k.pos + 1) k.tail

-- The client-only `+` in front of a key.
unfoldable pub client_key : ℕ → ℕ → Cursor Tokens → Flow Tokens (Cursor Tokens)
unfolding throw_limit resume
client_key limit limit_pos k =
    if k.head == char_plus
    then (let tokens = push k.tokens TokenType.tag_client_key_start k.pos (k.pos + 1) in
        if ltb limit_pos (k.pos + 1)
        then throw_limit tag_data_limit limit (k.pos + 1) tokens
        else resume tokens (k.pos + 1) k.tail)
    else go k

unfoldable pub key_loop : ℕ → ℕ → ℕ → Tokens → ℕ → Bytes → Flow Tokens (Cursor Tokens)
unfolding throw_limit
key_loop limit limit_pos token_start tokens pos [] =
    if ltb limit_pos pos
    then throw_limit tag_data_limit limit pos tokens
    else halt (eof (push tokens TokenType.tag_key token_start pos) pos)
key_loop limit limit_pos token_start tokens pos (c ∷ rest) =
    let further = key_loop limit limit_pos token_start tokens (pos + 1) rest in
    if ltb limit_pos pos
    then throw_limit tag_data_limit limit pos tokens
    else if not (is_tag_key_char c)
    then go (record {
      pos = pos;
      head = c;
      tail = rest;
      tokens = push tokens TokenType.tag_key token_start pos;
    })
    else further

unfoldable pub key_name : ℕ → ℕ → Cursor Tokens → Flow Tokens (Cursor Tokens)
key_name limit limit_pos k =
    if is_tag_key_char k.head
    then key_loop limit limit_pos k.pos k.tokens (k.pos + 1) k.tail
    else go k

unfoldable pub value_loop : ℕ → ℕ → ℕ → Tokens → ℕ → Bytes → Flow Tokens (Cursor Tokens)
unfolding throw_limit
value_loop limit limit_pos token_start tokens pos [] =
    if ltb limit_pos pos
    then throw_limit tag_data_limit limit pos tokens
    else halt (eof (push tokens TokenType.tag_value token_start pos) pos)
value_loop limit limit_pos token_start tokens pos (c ∷ rest) =
    let further = value_loop limit limit_pos token_start tokens (pos + 1) rest in
    if ltb limit_pos pos
    then throw_limit tag_data_limit limit pos tokens
    else if not (is_tag_value_char c)
    then go (record {
      pos = pos;
      head = c;
      tail = rest;
      tokens = push tokens TokenType.tag_value token_start pos;
    })
    else further

unfoldable pub tag_value : ℕ → ℕ → Cursor Tokens → Flow Tokens (Cursor Tokens)
tag_value limit limit_pos k =
    if is_tag_value_char k.head
    then value_loop limit limit_pos k.pos k.tokens (k.pos + 1) k.tail
    else go (record k { tokens = push k.tokens TokenType.tag_value k.pos k.pos })

-- Behind the `=`: an empty value at the end of the input, or the value.
unfoldable pub tag_value_at : ℕ → ℕ → Tokens → ℕ → Bytes → Flow Tokens (Cursor Tokens)
tag_value_at limit limit_pos tokens pos [] =
    halt (eof (push tokens TokenType.tag_value pos pos) pos)
tag_value_at limit limit_pos tokens pos (c ∷ rest) =
    tag_value limit limit_pos (record { pos = pos; head = c; tail = rest; tokens = tokens })

unfoldable pub tag_value_start : ℕ → ℕ → Cursor Tokens → Flow Tokens (Cursor Tokens)
unfolding throw_limit
tag_value_start limit limit_pos k =
    if k.head == char_equals
    then (let tokens = push k.tokens TokenType.tag_value_start k.pos (k.pos + 1) in
        if ltb limit_pos (k.pos + 1)
        then throw_limit tag_data_limit limit (k.pos + 1) tokens
        else tag_value_at limit limit_pos tokens (k.pos + 1) k.tail)
    else go k

-- The run of spaces behind the tags. The end is tested before the limit here.
unfoldable pub space_loop : ℕ → ℕ → ℕ → Tokens → ℕ → Bytes → Flow Tokens (Cursor Tokens)
unfolding throw_limit
space_loop limit limit_pos token_start tokens pos [] =
    halt (eof (push tokens TokenType.separator token_start pos) pos)
space_loop limit limit_pos token_start tokens pos (c ∷ rest) =
    let further = space_loop limit limit_pos token_start tokens (pos + 1) rest in
    let tokens' = push tokens TokenType.separator token_start pos in
    if ltb limit_pos pos
    then throw_limit tag_data_limit limit pos tokens'
    else if not (c == char_space)
    then go (record { pos = pos; head = c; tail = rest; tokens = tokens' })
    else further

-- Behind the `@` or a `;`: the end of the input is tested before the limit.
unfoldable pub next_tag : ℕ → ℕ → Tokens → ℕ → Bytes → Flow Tokens (Cursor Tokens)
unfolding throw_limit
next_tag limit limit_pos tokens pos [] = halt (eof tokens pos)
next_tag limit limit_pos tokens pos (c ∷ rest) =
    if ltb limit_pos pos
    then throw_limit tag_data_limit limit pos tokens
    else go (record { pos = pos; head = c; tail = rest; tokens = tokens })

-- What ends a tag. The flag says whether the loop over tags goes on (`continue`) or ends (`break`).
unfoldable pub tag_end : ℕ → ℕ → Cursor Tokens → Flow Tokens (Bool × Cursor Tokens)
tag_end limit limit_pos k =
    if k.head == char_semicolon
    then (next_tag limit limit_pos (push k.tokens TokenType.tag_separator k.pos (k.pos + 1))
          (k.pos + 1) k.tail
        >>= λ k'. go (true, k'))
    else if k.head == char_space
    then (space_loop limit limit_pos k.pos k.tokens (k.pos + 1) k.tail >>= λ k'. go (false, k'))
    else halt (thrown (unexpected_char k.pos k.head (last k.tokens)))

-- One round of the loop over tags, behind its test of the count.
unfoldable pub tag : ℕ → ℕ → Cursor Tokens → Flow Tokens (Bool × Cursor Tokens)
tag limit limit_pos k = do
  k₁ ← client_key limit limit_pos k
  k₂ ← key_name limit limit_pos k₁
  k₃ ← tag_value_start limit limit_pos k₂
  tag_end limit limit_pos k₃

-- `TAG: for (;;)`; the fuel bounds the rounds.
unfoldable pub tag_loop : ℕ → Limits → ℕ → ℕ → Cursor Tokens → Flow Tokens (Cursor Tokens)
unfolding throw_limit
tag_loop zero limits limit_pos tag_count k = halt out_of_fuel
tag_loop (suc fuel) limits limit_pos tag_count k =
    if leb limits.tag_count tag_count
    then throw_limit tag_count_limit limits.tag_count k.pos k.tokens
    else (tag limits.tag_data limit_pos k >>= λ r. elim r.0 [
      | true ↦ tag_loop fuel limits limit_pos (tag_count + 1) r.1
      | false ↦ go r.1
    ])

-- The whole section, entered at the `@`.
unfoldable pub tag_section : ℕ → Limits → Cursor Tokens → Flow Tokens (Cursor Tokens)
unfolding throw_limit
tag_section fuel limits k =
    let limit_pos = k.pos + limits.tag_data in
    if limits.tag_data == 0
    then throw_limit tag_data_limit limits.tag_data k.pos k.tokens
    else (next_tag limits.tag_data limit_pos (push k.tokens TokenType.tags_start k.pos (k.pos + 1))
          (k.pos + 1) k.tail
        >>= λ k'. tag_loop fuel limits limit_pos 0 k')
