-- ===== src/Bot/CommandLine.antt =====
-- packages/bot/src/command/parse.ts: a message as a command word and its arguments.
use mojo_jojo.Base.{
  Bool, List, [], ◌∷◌, Option, none, some, Str, length, drop, starts_with, is_whitespace,
  if◌then◌else◌,
}

pub record ParsedCommand : Type 0 where
  pub name : Str
  pub args : List Str
  pub arg_line : Str

-- Without the leading white space.
unfoldable pub skip_space : Str → Str
skip_space [] = []
skip_space (c ∷ s) = let rest = skip_space s in if is_whitespace c then rest else c ∷ s

-- The text in front of the first white space, and the text from there on.
unfoldable pub take_word : Str → Str × Str
take_word [] = ([], [])
take_word (c ∷ s) = let r = take_word s in if is_whitespace c then ([], c ∷ s) else (c ∷ r.0, r.1)

-- `argLine.split(/\s+/).filter((a) => a.length > 0)`
unfoldable pub words : Str → List Str
unfolding take_word
words [] = []
words (c ∷ s) =
    let rest = words s in
    if is_whitespace c then rest else elim s [
      | [] ↦ (c ∷ []) ∷ []
      | d ∷ t ↦
          if is_whitespace d
          then (c ∷ []) ∷ rest
          else elim rest [ [] ↦ (c ∷ []) ∷ [] | w ∷ ws ↦ (c ∷ w) ∷ ws ]
    ]

-- The match of the text behind the leading white space.
unfoldable pub parsed_command : (Str → Str) → Str → Option ParsedCommand
unfolding take_word skip_space words
parsed_command lower [] = none
parsed_command lower (c ∷ s) =
    let r = take_word (c ∷ s) in
    let arg_line = skip_space r.1 in
    some (record { name = lower r.0; args = words arg_line; arg_line = arg_line })

unfoldable pub parse_command_line : (Str → Str) → Str → Str → Bool → Option ParsedCommand
unfolding parsed_command skip_space
parse_command_line lower prefix text require_prefix =
    if starts_with prefix text
    then parsed_command lower (skip_space (drop (length prefix) text))
    else if require_prefix
    then none
    else parsed_command lower (skip_space text)
