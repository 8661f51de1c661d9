-- ===== src/Isupport.antt =====
-- packages/irc-client/src/isupport/parseIsupport.ts: the tokens of `005` and the typed view of them.
pub mod Limits
use mojo_jojo.Base.{
  ℕ, ◌+◌, ◌-◌, ◌*◌, Bool, true, false, not, ◌&&◌, ◌||◌, List, [], ◌∷◌, Option, none, some, Str,
  codes, str_eq, length, drop, get_elem?, within, includes, ltb, leb, ◌==◌, is_digit, is_whitespace,
  if◌then◌else◌,
}
use mojo_jojo.Base.Dict
use mojo_jojo.Base.Dict.{Dict}
use mojo_jojo.CaseMapping.{CaseMapping, rfc1459, to_case_mapping}

pub record PrefixSpec : Type 0 where
  pub mode : Str
  pub prefix : Str

pub record ChanModes : Type 0 where
  pub a : Str
  pub b : Str
  pub c : Str
  pub d : Str

-- A flag `KEY` is `none`, a token `KEY=value` is `some value`. A finite number is its own text.
pub record ISupport : Type 0 where
  pub prefixes : List PrefixSpec
  pub chan_modes : ChanModes
  pub chan_types : Str
  pub status_msg : Str
  pub case_mapping : CaseMapping
  pub network : Option Str
  pub modes_per_line : Option Str
  pub whox : Bool
  pub raw : Dict (Option Str)

-- What the code calls of the JavaScript library: `s.toUpperCase()`, and `Number(s)` where it is finite.
pub record TextOps : Type 0 where
  pub to_upper : Str → Str
  pub finite_number : Str → Option Str

abbrev pub max_isupport_keys : ℕ
max_isupport_keys = 256

abbrev pub default_prefixes : List PrefixSpec
default_prefixes =
    record { mode = codes "o"; prefix = codes "@" }
    ∷ record { mode = codes "v"; prefix = codes "+" }
    ∷ []

abbrev pub default_chan_modes : ChanModes
default_chan_modes = record { a = codes "b"; b = codes "k"; c = codes "l"; d = codes "imnpst" }

abbrev pub default_chan_types : Str
default_chan_types = codes "#&"

abbrev pub empty_isupport : ISupport
empty_isupport = record {
  prefixes = default_prefixes;
  chan_modes = default_chan_modes;
  chan_types = default_chan_types;
  status_msg = [];
  case_mapping = rfc1459;
  network = none;
  modes_per_line = none;
  whox = false;
  raw = [];
}

-- `[0-9A-Fa-f]`, and what such a digit stands for.
unfoldable pub is_hex : ℕ → Bool
unfolding is_digit
is_hex c = is_digit c || within b'A' b'F' c || within b'a' b'f' c

unfoldable pub hex_value : ℕ → ℕ
unfolding is_digit
hex_value c =
    if is_digit c then c - b'0' else if within b'A' b'F' c then c - b'A' + 10 else c - b'a' + 10

unfoldable pub unescape_value : Str → Str
unfolding is_hex hex_value
unescape_value (b ∷ x ∷ h ∷ l ∷ s) =
    let code = (hex_value h * 16 + hex_value l) ∷ unescape_value s in
    let rest = b ∷ unescape_value (x ∷ h ∷ l ∷ s) in
    if b == b'\\' && x == b'x' && is_hex h && is_hex l then code else rest
unescape_value s = s

-- The text in front of the first `d`, and the text behind it.
unfoldable pub cut : ℕ → Str → Str × Option Str
cut d [] = ([], none)
cut d (c ∷ s) = let r = cut d s in if c == d then ([], some s) else (c ∷ r.0, r.1)

-- What `.` of a regular expression does not match.
unfoldable pub is_line_terminator : ℕ → Bool
is_line_terminator c = c == 0x0a || c == 0x0d || c == 0x2028 || c == 0x2029

unfoldable pub matches_dots : Str → Bool
unfolding is_line_terminator
matches_dots [] = true
matches_dots (c ∷ s) = not (is_line_terminator c) && matches_dots s

-- The two groups of `/^\(([^)]*)\)(.*)$/`.
unfoldable pub match_prefix : Str → Option (Str × Str)
unfolding cut matches_dots
match_prefix [] = none
match_prefix (c ∷ s) =
    if c == b'('
    then elim (cut b')' s).1 [
      | none ↦ none
      | some rest ↦ if matches_dots rest then some ((cut b')' s).0, rest) else none
    ]
    else none

unfoldable pub zip_specs : Str → Str → List PrefixSpec
zip_specs (m ∷ modes) (p ∷ prefixes) =
    record { mode = m ∷ []; prefix = p ∷ [] } ∷ zip_specs modes prefixes
zip_specs _ _ = []

unfoldable pub parse_prefix : Str → List PrefixSpec
unfolding match_prefix zip_specs
parse_prefix value = elim (match_prefix value) [
  | none ↦ default_prefixes
  | some g ↦
      if length g.0 == 0 || not (length g.0 == length g.1)
      then default_prefixes
      else zip_specs g.0 g.1
]

-- `s.split(d)` for a separator of one code unit.
unfoldable pub split_on : ℕ → Str → List Str
split_on d [] = [] ∷ []
split_on d (c ∷ s) =
    if c == d
    then [] ∷ split_on d s
    else elim (split_on d s) [ [] ↦ (c ∷ []) ∷ [] | w ∷ ws ↦ (c ∷ w) ∷ ws ]

abbrev pub or_empty : Option Str → Str
or_empty none = []
or_empty (some s) = s

unfoldable pub parse_chan_modes : Str → ChanModes
unfolding split_on
parse_chan_modes value =
    let parts = split_on b',' value in
    record {
      a = or_empty (get_elem? parts 0);
      b = or_empty (get_elem? parts 1);
      c = or_empty (get_elem? parts 2);
      d = or_empty (get_elem? parts 3);
    }

-- `raw[key]`: absent, a flag, or a value.
abbrev pub text_of : Option (Option Str) → Option Str
text_of (some (some s)) = some s
text_of _ = none

unfoldable pub derive_prefixes : Option (Option Str) → List PrefixSpec
unfolding parse_prefix
derive_prefixes none = default_prefixes
derive_prefixes (some none) = []
derive_prefixes (some (some [])) = []
derive_prefixes (some (some (c ∷ s))) = parse_prefix (c ∷ s)

unfoldable pub derive_chan_types : Option (Option Str) → Str
derive_chan_types none = default_chan_types
derive_chan_types (some none) = []
derive_chan_types (some (some s)) = s

unfoldable pub derive_chan_modes : Option (Option Str) → ChanModes
unfolding parse_chan_modes
derive_chan_modes (some (some s)) = parse_chan_modes s
derive_chan_modes _ = default_chan_modes

abbrev pub non_empty : Option Str → Option Str
non_empty (some (c ∷ s)) = some (c ∷ s)
non_empty _ = none

-- `s.trim() === ""`
unfoldable pub is_blank : Str → Bool
unfolding is_whitespace
is_blank [] = true
is_blank (c ∷ s) = is_whitespace c && is_blank s

unfoldable pub derive_modes : TextOps → Option Str → Option Str
unfolding is_blank
derive_modes ops none = none
derive_modes ops (some s) = if is_blank s then none else ops.finite_number s

unfoldable pub derive_isupport : TextOps → Dict (Option Str) → ISupport
unfolding derive_prefixes derive_chan_types derive_chan_modes derive_modes
derive_isupport ops raw = record {
  prefixes = derive_prefixes (Dict.get raw (codes "PREFIX"));
  chan_modes = derive_chan_modes (Dict.get raw (codes "CHANMODES"));
  chan_types = derive_chan_types (Dict.get raw (codes "CHANTYPES"));
  status_msg = or_empty (text_of (Dict.get raw (codes "STATUSMSG")));
  case_mapping = to_case_mapping (text_of (Dict.get raw (codes "CASEMAPPING")));
  network = non_empty (text_of (Dict.get raw (codes "NETWORK")));
  modes_per_line = derive_modes ops (text_of (Dict.get raw (codes "MODES")));
  whox = Dict.has raw (codes "WHOX");
  raw = raw;
}

unfoldable pub token_value : Option Str → Option Str
unfolding unescape_value
token_value none = none
token_value (some value) = some (unescape_value value)

-- One round of the loop over the tokens. The order of the keys of `raw` is not read by the program.
unfoldable pub apply_token : TextOps → Dict (Option Str) → Str → Dict (Option Str)
unfolding cut token_value
apply_token ops raw [] = raw
apply_token ops raw (c ∷ token) =
    let key = ops.to_upper (cut b'=' (c ∷ token)).0 in
    if c == b'-'
    then Dict.remove raw (ops.to_upper token)
    else if not (Dict.has raw key) && leb max_isupport_keys (length raw)
    then raw
    else Dict.put raw key (token_value (cut b'=' (c ∷ token)).1)

unfoldable pub apply_tokens : TextOps → Dict (Option Str) → List Str → Dict (Option Str)
unfolding apply_token
apply_tokens ops raw [] = raw
apply_tokens ops raw (token ∷ tokens) = apply_tokens ops (apply_token ops raw token) tokens

unfoldable pub parse_isupport : TextOps → List Str → ISupport → ISupport
unfolding apply_tokens derive_isupport
parse_isupport ops tokens previous = derive_isupport ops (apply_tokens ops previous.raw tokens)

unfoldable pub is_channel_name : Str → ISupport → Bool
is_channel_name [] isupport = false
is_channel_name (c ∷ name) isupport = includes isupport.chan_types c

-- The prefix that was stripped, and the bare target.
unfoldable pub split_status_prefix : Str → ISupport → Str × Str
split_status_prefix [] isupport = ([], [])
split_status_prefix (c ∷ target) isupport =
    if includes isupport.status_msg c then (c ∷ [], target) else ([], c ∷ target)

unfoldable pub find_prefix : List PrefixSpec → Str → Option Str
find_prefix [] prefix = none
find_prefix (p ∷ ps) prefix = if str_eq p.prefix prefix then some p.mode else find_prefix ps prefix

unfoldable pub find_mode : List PrefixSpec → Str → Option Str
find_mode [] mode = none
find_mode (p ∷ ps) mode = if str_eq p.mode mode then some p.prefix else find_mode ps mode

unfoldable pub prefix_to_mode : Str → ISupport → Option Str
unfolding find_prefix
prefix_to_mode prefix isupport = find_prefix isupport.prefixes prefix

unfoldable pub mode_to_prefix : Str → ISupport → Option Str
unfolding find_mode
mode_to_prefix mode isupport = find_mode isupport.prefixes mode
