-- ===== src/Tokenizer/Rfc.antt =====
-- Tokenizer.ts, the RFC 1459 part: prefix, command and parameters; and `tokenize` as a whole.
use mojo_jojo.Base.{
  ℕ, zero, suc, ◌+◌, Bool, [], ◌∷◌, Bytes, ltb, leb, ◌==◌, if◌then◌else◌, length, take, drop, min,
}
use mojo_jojo.Lexer.Chars.{
  char_at, char_colon, char_excl, char_space, is_prefix_name_char, is_prefix_user_char,
  is_not_space, is_space,
}
use mojo_jojo.Lexer.Token.{TokenType}
use mojo_jojo.Lexer.Flow.{
  rfc1459_data_limit, param_count_limit, limit_exceeded, unexpected_char, Limits, Outcome, thrown,
  out_of_fuel, Flow, go, halt, ◌>>=◌, through, Cursor, skip_while,
}
use mojo_jojo.Tokenizer.Tags.{Tokens, push, last, eof, throw_limit, resume, advance, tag_section}

-- The length check of the prefix, the command and the parameters together: `end - pos`.
unfoldable pub rfc_length : Limits → Cursor Tokens → Flow Tokens (Cursor Tokens)
unfolding throw_limit
rfc_length limits k =
    if ltb limits.rfc1459_data (suc (length k.tail))
    then throw_limit rfc1459_data_limit limits.rfc1459_data k.pos k.tokens
    else go k

-- A content token over a run of bytes, left out where the run is empty, and the test for the end.
unfoldable pub content : TokenType → (ℕ → Bool) → Cursor Tokens → Flow Tokens (Cursor Tokens)
unfolding resume
content type test k =
    let (pos, rest) = skip_while test k.pos (k.head ∷ k.tail) in
    resume (if ltb k.pos pos then push k.tokens type k.pos pos else k.tokens) pos rest

-- A content token over a run of bytes, also over an empty one, and the test for the end.
unfoldable pub run_token : TokenType → (ℕ → Bool) → Cursor Tokens → Flow Tokens (Cursor Tokens)
unfolding resume
run_token type test k =
    let (pos, rest) = skip_while test k.pos (k.head ∷ k.tail) in
    resume (push k.tokens type k.pos pos) pos rest

unfoldable pub prefix_name : Cursor Tokens → Flow Tokens (Cursor Tokens)
unfolding content
prefix_name k = content TokenType.prefix_name is_prefix_name_char k

unfoldable pub prefix_user : Cursor Tokens → Flow Tokens (Cursor Tokens)
unfolding content advance
prefix_user k =
    if k.head == char_excl
    then (advance k TokenType.prefix_user_start
        >>= content TokenType.prefix_user is_prefix_user_char)
    else go k

unfoldable pub prefix_host : Cursor Tokens → Flow Tokens (Cursor Tokens)
unfolding content advance
prefix_host k =
    if k.head == char_at
    then (advance k TokenType.prefix_host_start >>= content TokenType.prefix_host is_not_space)
    else go k

unfoldable pub prefix_end : Cursor Tokens → Flow Tokens (Cursor Tokens)
unfolding run_token
prefix_end k =
    if k.head == char_space
    then run_token TokenType.separator is_space k
    else halt (thrown (unexpected_char k.pos k.head (last k.tokens)))

unfoldable pub prefix : Cursor Tokens → Flow Tokens (Cursor Tokens)
unfolding advance
prefix k =
    if k.head == char_colon
    then (do
      k₁ ← advance k TokenType.prefix_start
      k₂ ← prefix_name k₁
      k₃ ← prefix_user k₂
      k₄ ← prefix_host k₃
      prefix_end k₄)
    else go k

unfoldable pub command_word : Cursor Tokens → Flow Tokens (Cursor Tokens)
unfolding run_token
command_word k = run_token TokenType.command is_not_space k

unfoldable pub separators : Cursor Tokens → Flow Tokens (Cursor Tokens)
unfolding run_token
separators k = run_token TokenType.separator is_space k

unfoldable pub middle : Cursor Tokens → Flow Tokens (Cursor Tokens)
unfolding run_token
middle k = run_token TokenType.middle_parameter is_not_space k

-- `while (true)` over the parameters; the fuel bounds the rounds.
unfoldable pub param_loop : ℕ → Limits → ℕ → Cursor Tokens → Outcome Tokens
param_loop zero limits param_count k = out_of_fuel
param_loop (suc fuel) limits param_count k =
    let further = through (middle k >>= separators) (param_loop fuel limits (param_count + 1)) in
    let end = k.pos + suc (length k.tail) in
    if leb limits.param_count param_count
    then thrown (limit_exceeded param_count_limit limits.param_count k.pos (last k.tokens))
    else if k.head == char_colon
    then eof
        (push (push k.tokens TokenType.trailing_parameter_start k.pos (k.pos + 1))
          TokenType.trailing_parameter (k.pos + 1) end)
        end
    else further

-- From the first byte that is no space.
unfoldable pub tokenize_line : ℕ → Limits → Cursor Tokens → Outcome Tokens
tokenize_line fuel limits k =
    through
      (do
        k₁ ← if k.head == char_at then tag_section fuel limits k else go k
        k₂ ← rfc_length limits k₁
        k₃ ← prefix k₂
        k₄ ← command_word k₃
        separators k₄)
      (param_loop fuel limits 0)

-- `tokenize(buffer, start, end)`: the bytes of `[start, end)`, with the leading spaces skipped.
unfoldable pub tokenize_range : Limits → Bytes → ℕ → ℕ → Outcome Tokens
unfolding resume
tokenize_range limits buffer start end =
    let range = drop start (take (min (length buffer) end) buffer) in
    let (pos, rest) = skip_while is_space start range in
    through (resume [] pos rest) (tokenize_line (suc (length range)) limits)

abbrev pub tokenize : Limits → Bytes → Outcome Tokens
tokenize limits buffer = tokenize_range limits buffer 0 (length buffer)
