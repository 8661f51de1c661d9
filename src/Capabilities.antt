-- ===== src/Capabilities.antt =====
-- packages/irc-client/src/protocol/capabilities.ts: `CAP` lines, the set to request, and its lines.
pub mod Store
pub mod Requests
use mojo_jojo.Base.{
  ℕ, suc, ◌+◌, Bool, true, false, not, ◌&&◌, ◌||◌, List, [], ◌∷◌, ◌++◌, Option, none, some, Str,
  codes, str_eq, get_elem?, any, length, ltb, ◌==◌, if◌then◌else◌, starts_with, drop,
}
use mojo_jojo.Base.Dict
use mojo_jojo.Base.Dict.{Dict}
use mojo_jojo.Message.{Message}

pub data CapSubcommand : Type 0 where
  ls : CapSubcommand
  ack : CapSubcommand
  nak : CapSubcommand
  new : CapSubcommand
  del : CapSubcommand
  list : CapSubcommand

pub record CapToken : Type 0 where
  pub name : Str
  pub value : Option Str
  pub disabled : Bool

pub record CapMessage : Type 0 where
  pub subcommand : CapSubcommand
  pub final : Bool
  pub tokens : List CapToken

-- `CAP_SUBCOMMANDS`
unfoldable pub subcommand_of : Str → Option CapSubcommand
subcommand_of s =
    if str_eq s (codes "LS")
    then some CapSubcommand.ls
    else if str_eq s (codes "ACK")
    then some CapSubcommand.ack
    else if str_eq s (codes "NAK")
    then some CapSubcommand.nak
    else if str_eq s (codes "NEW")
    then some CapSubcommand.new
    else if str_eq s (codes "DEL")
    then some CapSubcommand.del
    else if str_eq s (codes "LIST")
    then some CapSubcommand.list
    else none

-- The text before the first `=`, and the text behind it.
unfoldable pub split_value : Str → Str × Option Str
split_value [] = ([], none)
split_value (c ∷ s) = if c == b'=' then ([], some s) else (let r = split_value s in (c ∷ r.0, r.1))

unfoldable pub parse_cap_token : Str → CapToken
unfolding split_value
parse_cap_token token =
    let disabled = starts_with (codes "-") token in
    let body = if disabled then drop 1 token else token in
    let r = split_value body in record { name = r.0; value = r.1; disabled = disabled }

-- `list.split(" ")`
unfoldable pub split_words : Str → List Str
split_words [] = [] ∷ []
split_words (c ∷ s) =
    if c == b' '
    then [] ∷ split_words s
    else elim (split_words s) [ [] ↦ (c ∷ []) ∷ [] | w ∷ ws ↦ (c ∷ w) ∷ ws ]

-- The loop of `parseCapList`, over the parts.
unfoldable pub cap_tokens : List Str → List CapToken
cap_tokens [] = []
cap_tokens ([] ∷ parts) = cap_tokens parts
cap_tokens ((c ∷ w) ∷ parts) = parse_cap_token (c ∷ w) ∷ cap_tokens parts

unfoldable pub parse_cap_list : Option Str → List CapToken
unfolding split_words cap_tokens
parse_cap_list none = []
parse_cap_list (some words) = cap_tokens (split_words words)

-- `param === "*"`
unfoldable pub is_star : Option Str → Bool
is_star none = false
is_star (some p) = str_eq p (codes "*")

-- The message for a subcommand that is known.
unfoldable pub cap_message : List Str → CapSubcommand → CapMessage
unfolding parse_cap_list is_star
cap_message params subcommand =
    let continued = is_star (get_elem? params 2) in
    let words = if continued then get_elem? params 3 else get_elem? params 2 in
    record { subcommand = subcommand; final = not continued; tokens = parse_cap_list words }

unfoldable pub parse_cap_message : Message → Option CapMessage
unfolding subcommand_of cap_message
parse_cap_message message =
    if str_eq message.command (codes "CAP")
    then elim (get_elem? message.params 1) [
      | none ↦ none
      | some name ↦ elim (subcommand_of name) [
        | none ↦ none
        | some subcommand ↦ some (cap_message message.params subcommand)
      ]
    ]
    else none

-- `requested.includes(cap)`
unfoldable pub contains : List Str → Str → Bool
contains l cap = any (λ x. str_eq x cap) l
