-- ===== src/Build.antt =====
-- packages/irc-message/src/build.ts: `buildMessage` and `isValidTagKey`.
pub mod Safe
use mojo_jojo.Base.{
  ℕ, ◌+◌, Bool, true, false, not, ◌&&◌, ◌||◌, List, [], ◌∷◌, ◌++◌, Option, none, some, Str, any,
  includes, is_alphanumeric, is_whitespace, ◌==◌, if◌then◌else◌,
}
use mojo_jojo.Message.{Source, Tags, Message}
use mojo_jojo.Escape.{escape_tag_value}

-- The class `[\r\n\0]`.
unfoldable pub is_forbidden : ℕ → Bool
is_forbidden c = c == b'\r' || c == b'\n' || c == 0

unfoldable pub is_empty : Str → Bool
is_empty [] = true
is_empty (c ∷ s) = false

abbrev pub all : (ℕ → Bool) → Str → Bool
all p [] = true
all p (c ∷ s) = p c && all p s

-- `[0-9A-Za-z-]` and `[0-9A-Za-z.-]`
unfoldable pub is_key_char : ℕ → Bool
is_key_char c = is_alphanumeric c || c == b'-'

unfoldable pub is_vendor_char : ℕ → Bool
is_vendor_char c = is_alphanumeric c || c == b'.' || c == b'-'

-- What stands before and behind the first `/`.
unfoldable pub split_slash : Str → Option (Str × Str)
split_slash [] = none
split_slash (c ∷ s) =
    if c == b'/'
    then some ([], s)
    else elim (split_slash s) [ none ↦ none | some (a, b) ↦ some (c ∷ a, b) ]

-- `(?:[0-9A-Za-z.-]+\/)?[0-9A-Za-z-]+`. No class holds `/`, so the first `/` ends the vendor.
unfoldable pub is_key_body : Str → Bool
unfolding split_slash is_empty is_key_char is_vendor_char
is_key_body s = elim (split_slash s) [
  | none ↦ not (is_empty s) && all is_key_char s
  | some (vendor, body) ↦
      not (is_empty vendor)
      && all is_vendor_char vendor
      && not (is_empty body)
      && all is_key_char body
]

-- `TAG_KEY.test(key)`
unfoldable pub is_valid_tag_key : Str → Bool
unfolding is_key_body
is_valid_tag_key [] = is_key_body []
is_valid_tag_key (c ∷ s) = if c == b'+' then is_key_body s else is_key_body (c ∷ s)

-- The errors that are thrown, with what their text names.
pub data BuildError : Type 0 where
  invalid_tag_key : Str → BuildError
  invalid_command : Str → BuildError
  forbidden_byte : ℕ → BuildError
  bad_middle : ℕ → Str → BuildError

pub data Built : Type 0 where
  line : Str → Built
  throws : BuildError → Built

-- The rest of the line behind a piece of it.
abbrev pub before : Str → Built → Built
before piece (line rest) = line (piece ++ rest)
before piece (throws e) = throws e

unfoldable pub tag_text : Str → Str → Str
tag_text key value = if is_empty value then key else key ++ (b'=' ∷ escape_tag_value value)

-- The loop over the keys; `first` is `i === 0`, and `rest` is what the line goes on with.
unfoldable pub build_tags : Bool → Bool → Tags → Built → Built
unfolding tag_text is_empty
build_tags validate first [] rest = rest
build_tags validate first ((key, value) ∷ tags) rest =
    let later = build_tags validate false tags rest in
    if validate && not (is_valid_tag_key key)
    then throws (invalid_tag_key key)
    else before ((if first then [] else b';' ∷ []) ++ tag_text key value) later

unfoldable pub tag_part : Bool → Tags → Built → Built
tag_part validate [] rest = rest
tag_part validate (t ∷ tags) rest =
    before (b'@' ∷ []) (build_tags validate true (t ∷ tags) (before (b' ' ∷ []) rest))

-- `sigil + text`, where there is a text.
unfoldable pub optional : ℕ → Option Str → Str
optional sigil none = []
optional sigil (some text) = sigil ∷ text

unfoldable pub source_part : Option Source → Str
unfolding optional
source_part none = []
source_part (some source) =
    b':'
    ∷ (source.name ++ (optional b'!' source.user ++ (optional b'@' source.host ++ (b' ' ∷ []))))

unfoldable pub is_bad_command : Str → Bool
unfolding is_empty is_forbidden
is_bad_command command = is_empty command || any is_whitespace command || any is_forbidden command

-- `param === "" || param.includes(" ") || param.startsWith(":")`
unfoldable pub needs_trailing : Str → Bool
needs_trailing [] = true
needs_trailing (c ∷ s) = includes (c ∷ s) b' ' || c == b':'

-- The loop over the parameters, at index `i`. The last one is that with no other behind it.
unfoldable pub build_params : Bool → ℕ → List Str → Built
unfolding is_forbidden needs_trailing
build_params validate i [] = line []
build_params validate i (param ∷ []) =
    if validate && any is_forbidden param
    then throws (forbidden_byte i)
    else line ((if needs_trailing param then b' ' ∷ b':' ∷ [] else b' ' ∷ []) ++ param)
build_params validate i (param ∷ next ∷ params) =
    let later = build_params validate (i + 1) (next ∷ params) in
    if validate && any is_forbidden param
    then throws (forbidden_byte i)
    else if validate && needs_trailing param
    then throws (bad_middle i param)
    else before (b' ' ∷ param) later

unfoldable pub command_part : Bool → Str → List Str → Built
command_part validate command params =
    if validate && is_bad_command command
    then throws (invalid_command command)
    else before command (build_params validate 0 params)

unfoldable pub build_message : Message → Bool → Built
unfolding tag_part build_tags source_part command_part build_params is_bad_command
build_message message validate =
    tag_part validate message.tags
      (before (source_part message.source) (command_part validate message.command message.params))
