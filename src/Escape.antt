-- ===== src/Escape.antt =====
-- packages/irc-message/src/escape.ts: the escaping of message-tag values.
pub mod RoundTrip
use mojo_jojo.Base.{
  ℕ, Bool, ◌||◌, not, List, [], ◌∷◌, ◌++◌, Str, any, includes, ◌==◌, if◌then◌else◌,
}

-- The `switch (next)` behind a backslash.
unfoldable pub unescape_char : ℕ → ℕ
unescape_char next =
    if next == b':'
    then b';'
    else if next == b's'
    then b' '
    else if next == b'\\'
    then b'\\'
    else if next == b'r'
    then b'\r'
    else if next == b'n'
    then b'\n'
    else next

unfoldable pub unescape_loop : Str → Str
unfolding unescape_char
unescape_loop [] = []
unescape_loop (ch ∷ []) = if not (ch == b'\\') then ch ∷ [] else []
unescape_loop (ch ∷ next ∷ value) =
    let plain = ch ∷ unescape_loop (next ∷ value) in
    let escaped = unescape_char next ∷ unescape_loop value in
    if not (ch == b'\\') then plain else escaped

unfoldable pub unescape_tag_value : Str → Str
unfolding unescape_loop
unescape_tag_value value = if not (includes value b'\\') then value else unescape_loop value

-- What the loop of `escapeTagValue` appends for one character.
unfoldable pub escape_char : ℕ → Str
escape_char ch =
    if ch == b';'
    then b'\\' ∷ b':' ∷ []
    else if ch == b' '
    then b'\\' ∷ b's' ∷ []
    else if ch == b'\\'
    then b'\\' ∷ b'\\' ∷ []
    else if ch == b'\r'
    then b'\\' ∷ b'r' ∷ []
    else if ch == b'\n'
    then b'\\' ∷ b'n' ∷ []
    else ch ∷ []

unfoldable pub escape_loop : Str → Str
unfolding escape_char
escape_loop [] = []
escape_loop (ch ∷ value) = escape_char ch ++ escape_loop value

-- The class `[; \r\n\\]`.
unfoldable pub needs_escape : ℕ → Bool
needs_escape c = c == b';' || c == b' ' || c == b'\r' || c == b'\n' || c == b'\\'

unfoldable pub escape_tag_value : Str → Str
unfolding escape_loop needs_escape
escape_tag_value value = if not (any needs_escape value) then value else escape_loop value
