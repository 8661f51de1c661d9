-- ===== src/Parser/Objects.antt =====
-- Parser.ts. `none` is the `TypeError` of an assignment to a field of the source `null`.
use mojo_jojo.Base.{true, false, List, [], ◌∷◌, ◌++◌, Option, none, some, Str, Bytes, if◌then◌else◌}
use mojo_jojo.Message.{Source, Message}
use mojo_jojo.Escape.{unescape_tag_value}
use mojo_jojo.Lexer.Token.{TokenType, Token}
use mojo_jojo.Parser.State.{ParseState, initial, flush_tag, subarray, finish, and_then}

-- `source!.field = …`
unfoldable pub set_source : ParseState → (Source → Source) → Option ParseState
set_source s f = elim s.source [
  | none ↦ none
  | some src ↦ some (record s { source = some (f src) })
]

-- The `switch (token.type)`, on the decoded text of the token.
unfoldable pub on_token : TokenType → Str → ParseState → Option ParseState
unfolding flush_tag set_source
on_token TokenType.tag_client_key_start text s = some (record s { client_prefix = true })
on_token TokenType.tag_key text s = some (record (flush_tag s) {
  tag_key = some ((if s.client_prefix then b'+' ∷ [] else []) ++ text);
  client_prefix = false;
})
on_token TokenType.tag_value text s = some (record s { tag_value = unescape_tag_value text })
on_token TokenType.tag_separator text s = some (record (flush_tag s) { client_prefix = false })
on_token TokenType.prefix_start text s =
    some (record (flush_tag s) { source = some (record { name = []; user = none; host = none }) })
on_token TokenType.prefix_name text s = set_source s (λ src. record src { name = text })
on_token TokenType.prefix_user_start text s = set_source s (λ src. record src { user = some [] })
on_token TokenType.prefix_user text s = set_source s (λ src. record src { user = some text })
on_token TokenType.prefix_host text s = set_source s (λ src. record src { host = some text })
on_token TokenType.separator text s = some (flush_tag s)
on_token TokenType.command text s = some (record (flush_tag s) { command = text })
on_token TokenType.middle_parameter text s = some (record s { params = s.params ++ text ∷ [] })
on_token TokenType.trailing_parameter text s = some (record s { params = s.params ++ text ∷ [] })
on_token _ text s = some s

module _ (decode : Bytes → Str) where
  unfoldable pub step : Bytes → Token → ParseState → Option ParseState
  step buffer t s = on_token t.type (decode (subarray buffer t.start t.end)) s

  -- `for (const token of tokens)`
  unfoldable pub run : Bytes → List Token → ParseState → Option ParseState
  run buffer [] s = some s
  run buffer (t ∷ tokens) s = and_then (step buffer t s) (run buffer tokens)

  unfoldable pub parse : Bytes → List Token → Option Message
  parse buffer tokens = and_then (run buffer tokens initial) (λ s. some (finish s))
