-- ===== src/Entities/Member.antt =====
-- packages/irc-client/src/entities/Member.ts: the status modes of a user in one channel.
use mojo_jojo.Base.{
  ℕ, Bool, List, [], ◌∷◌, Option, none, some, Str, codes, get_elem?, if◌then◌else◌,
}
use mojo_jojo.Base.Dict
use mojo_jojo.Base.Dict.{Dict}
use mojo_jojo.Isupport.{PrefixSpec, ISupport, prefix_to_mode}
use mojo_jojo.Modes.{characters}
use mojo_jojo.Capabilities.Store.{Names}

pub record Member : Type 0 where
  pub user : ℕ
  pub modes : Names

unfoldable pub new_member : ℕ → Member
new_member user = record { user = user; modes = [] }

unfoldable pub add_mode : Str → Member → Member
add_mode mode member = record member { modes = Dict.put member.modes mode tt }

unfoldable pub remove_mode : Str → Member → Member
remove_mode mode member = record member { modes = Dict.remove member.modes mode }

abbrev pub add_found : Option Str → Member → Member
add_found none member = member
add_found (some mode) member = add_mode mode member

unfoldable pub apply_chars : ISupport → List Str → Member → Member
apply_chars isupport [] member = member
apply_chars isupport (char ∷ chars) member =
    apply_chars isupport chars (add_found (prefix_to_mode char isupport) member)

unfoldable pub apply_prefix_chars : ISupport → Str → Member → Member
unfolding apply_chars
apply_prefix_chars isupport chars member = apply_chars isupport (characters chars) member

unfoldable pub held_prefixes : List PrefixSpec → Names → List Str
held_prefixes [] modes = []
held_prefixes (p ∷ ps) modes =
    let rest = held_prefixes ps modes in if Dict.has modes p.mode then p.prefix ∷ rest else rest

unfoldable pub prefixes : ISupport → Member → List Str
unfolding held_prefixes
prefixes isupport member = held_prefixes isupport.prefixes member.modes

unfoldable pub highest_prefix : ISupport → Member → Option Str
unfolding prefixes
highest_prefix isupport member = get_elem? (prefixes isupport member) 0

unfoldable pub is_owner : Member → Bool
is_owner member = Dict.has member.modes (codes "q")

unfoldable pub is_admin : Member → Bool
is_admin member = Dict.has member.modes (codes "a")

unfoldable pub is_op : Member → Bool
is_op member = Dict.has member.modes (codes "o")

unfoldable pub is_half_op : Member → Bool
is_half_op member = Dict.has member.modes (codes "h")

unfoldable pub is_voice : Member → Bool
is_voice member = Dict.has member.modes (codes "v")
