-- ===== src/Parser/Flat.antt =====
-- FlatParser.ts: the same over the triples `[type, start, end]` of a flat array.
use mojo_jojo.Base.{
  ℕ, zero, suc, ◌+◌, true, false, ◌||◌, List, [], ◌∷◌, ◌++◌, Option, none, some, Str, Bytes, ◌==◌,
  if◌then◌else◌,
}
use mojo_jojo.Message.{Source, Message}
use mojo_jojo.Escape.{unescape_tag_value}
use mojo_jojo.Lexer.Token.{TokenType, type_code}
use mojo_jojo.Parser.State.{ParseState, initial, flush_tag, subarray, finish, and_then}

-- `tokens[i]`. Past the end JavaScript gives `undefined`, which takes the default branch of the
-- `switch`, as the number 0 does.
unfoldable pub slot : List ℕ → ℕ → ℕ
slot [] i = 0
slot (x ∷ xs) zero = x
slot (x ∷ xs) (suc i) = slot xs i

-- `source!.field = …`
unfoldable pub set_field : ParseState → (Source → Source) → Option ParseState
set_field s f = elim s.source [ none ↦ none | some src ↦ some (record s { source = some (f src) }) ]

-- The `switch (type)` on the number.
unfoldable pub on_type : ℕ → Str → ParseState → Option ParseState
unfolding flush_tag set_field type_code
on_type type text s =
    if type == type_code TokenType.tag_client_key_start
    then some (record s { client_prefix = true })
    else if type == type_code TokenType.tag_key
    then some (record (flush_tag s) {
      tag_key = some ((if s.client_prefix then b'+' ∷ [] else []) ++ text);
      client_prefix = false;
    })
    else if type == type_code TokenType.tag_value
    then some (record s { tag_value = unescape_tag_value text })
    else if type == type_code TokenType.tag_separator
    then some (record (flush_tag s) { client_prefix = false })
    else if type == type_code TokenType.prefix_start
    then some
        (record (flush_tag s) { source = some (record { name = []; user = none; host = none }) })
    else if type == type_code TokenType.prefix_name
    then set_field s (λ src. record src { name = text })
    else if type == type_code TokenType.prefix_user_start
    then set_field s (λ src. record src { user = some [] })
    else if type == type_code TokenType.prefix_user
    then set_field s (λ src. record src { user = some text })
    else if type == type_code TokenType.prefix_host
    then set_field s (λ src. record src { host = some text })
    else if type == type_code TokenType.separator
    then some (flush_tag s)
    else if type == type_code TokenType.command
    then some (record (flush_tag s) { command = text })
    else if type == type_code TokenType.middle_parameter
        || type == type_code TokenType.trailing_parameter
    then some (record s { params = s.params ++ text ∷ [] })
    else some s

module _ (decode : Bytes → Str) where
  -- The body of the loop, at index `i`.
  unfoldable pub flat_step : Bytes → List ℕ → ℕ → ParseState → Option ParseState
  flat_step buffer tokens i s =
      on_type (slot tokens i) (decode (subarray buffer (slot tokens (i + 1)) (slot tokens (i + 2))))
        s

  -- `for (let i = 0; i < len; i += 3)`, by the number of triples left.
  unfoldable pub flat_run : Bytes → List ℕ → ℕ → ℕ → ParseState → Option ParseState
  flat_run buffer tokens zero i s = some s
  flat_run buffer tokens (suc count) i s =
      and_then (flat_step buffer tokens i s) (flat_run buffer tokens count (i + 3))

  unfoldable pub parse_flat : Bytes → List ℕ → ℕ → Option Message
  parse_flat buffer tokens count =
      and_then (flat_run buffer tokens count 0 initial) (λ s. some (finish s))
