-- ===== src/Modes.antt =====
-- packages/irc-client/src/protocol/modeParser.ts: a MODE string into changes with their parameters.
pub mod Params
use mojo_jojo.Base.{
  ℕ, ◌+◌, Bool, true, false, ◌&&◌, ◌||◌, List, [], ◌∷◌, Option, none, some, Str, codes, str_eq,
  get_elem?, within, starts_with, any, if◌then◌else◌,
}
use mojo_jojo.Isupport.{ISupport}

pub data ModeKind : Type 0 where
  status_prefix : ModeKind
  group_a : ModeKind
  group_b : ModeKind
  group_c : ModeKind
  group_d : ModeKind
  unknown : ModeKind

pub record ModeChange : Type 0 where
  pub added : Bool
  pub mode : Str
  pub param : Option Str
  pub kind : ModeKind

-- `s.includes(part)`
unfoldable pub includes_text : Str → Str → Bool
includes_text [] part = starts_with part []
includes_text (c ∷ s) part = starts_with part (c ∷ s) || includes_text s part

unfoldable pub classify_mode : Str → ISupport → ModeKind
unfolding includes_text
classify_mode mode isupport =
    let m = isupport.chan_modes in
    if any (λ p. str_eq p.mode mode) isupport.prefixes
    then ModeKind.status_prefix
    else if includes_text m.a mode
    then ModeKind.group_a
    else if includes_text m.b mode
    then ModeKind.group_b
    else if includes_text m.c mode
    then ModeKind.group_c
    else if includes_text m.d mode
    then ModeKind.group_d
    else ModeKind.unknown

unfoldable pub takes_param : ModeKind → Bool → Bool
takes_param ModeKind.status_prefix added = true
takes_param ModeKind.group_a added = true
takes_param ModeKind.group_b added = true
takes_param ModeKind.group_c added = added
takes_param ModeKind.group_d added = false
takes_param ModeKind.unknown added = false

-- The steps of `for (const char of modeString)`: a code point is one code unit, or a surrogate pair.
unfoldable pub characters : Str → List Str
characters [] = []
characters (c ∷ []) = (c ∷ []) ∷ []
characters (c ∷ d ∷ s) =
    let pair = (c ∷ d ∷ []) ∷ characters s in
    let single = (c ∷ []) ∷ characters (d ∷ s) in
    if within 0xd800 0xdbff c && within 0xdc00 0xdfff d then pair else single

-- The index behind what was taken.
unfoldable pub next_index : ℕ → Option Str → ℕ
next_index index none = index
next_index index (some param) = index + 1

-- The loop, at `added` and `paramIndex`.
unfoldable pub mode_loop : List Str → ISupport → Bool → ℕ → List Str → List ModeChange
unfolding classify_mode takes_param next_index
mode_loop params isupport added index [] = []
mode_loop params isupport added index (char ∷ chars) =
    let kind = classify_mode char isupport in
    let param = if takes_param kind added then get_elem? params index else none in
    let set = mode_loop params isupport true index chars in
    let unset = mode_loop params isupport false index chars in
    let later = mode_loop params isupport added (next_index index param) chars in
    if str_eq char (codes "+")
    then set
    else if str_eq char (codes "-")
    then unset
    else record { added = added; mode = char; param = param; kind = kind } ∷ later

unfoldable pub parse_mode_changes : Str → List Str → ISupport → List ModeChange
unfolding characters mode_loop
parse_mode_changes mode_string params isupport =
    mode_loop params isupport true 0 (characters mode_string)
