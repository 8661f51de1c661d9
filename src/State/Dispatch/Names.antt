-- ===== src/State/Dispatch/Names.antt =====
-- packages/irc-client/src/state/dispatch.ts: the list of names, 353 and 366.
use mojo_jojo.Base.{
  ℕ, ◌+◌, ◌-◌, not, ◌&&◌, ◌||◌, List, [], ◌∷◌, Option, none, some, Str, length, take, drop, any,
  str_eq, get_elem?, ltb, leb, if◌then◌else◌, when_some,
}
use mojo_jojo.Base.Dict.{Dict}
use mojo_jojo.CaseMapping.IrcMap
use mojo_jojo.CaseMapping.IrcMap.{Entry}
use mojo_jojo.Message.{Source, Message}
use mojo_jojo.Capabilities.{split_words}
use mojo_jojo.Isupport.{PrefixSpec, cut}
use mojo_jojo.Events.{Platform, MemberRef, names_event}
use mojo_jojo.Entities.User.{nick_of, update_from_source}
use mojo_jojo.Entities.Member.{Member, apply_prefix_chars}
use mojo_jojo.Entities.Channel.{Channel}
use mojo_jojo.State.Store.{
  StateStore, channel, with_user, with_member, get_or_create_user, add_member, emit_channel,
}
use mojo_jojo.State.Handlers.{Outcome, is_some}
use mojo_jojo.State.Dispatch.Membership.{max_members_per_channel}

pub record NamesEntry : Type 0 where
  pub prefix_chars : Str
  pub nick : Str
  pub user : Option Str
  pub host : Option Str

-- The leading status prefixes, and the rest.
unfoldable pub span_prefixes : List PrefixSpec → Str → Str × Str
span_prefixes prefixes [] = ([], [])
span_prefixes prefixes (c ∷ token) =
    let r = span_prefixes prefixes token in
    if any (λ p. str_eq p.prefix (c ∷ [])) prefixes then (c ∷ r.0, r.1) else ([], c ∷ token)

-- `s.indexOf(d)`, or none for -1.
unfoldable pub index_of : ℕ → Str → Option ℕ
unfolding cut
index_of d s = elim (cut d s).1 [ none ↦ none | some rest ↦ some (length (cut d s).0) ]

unfoldable pub split_identity : Str → Str → Option ℕ → Option ℕ → NamesEntry
split_identity prefix_chars rest (some bang) (some at) =
    if ltb bang at
    then record {
      prefix_chars = prefix_chars;
      nick = take bang rest;
      user = some (take (at - (bang + 1)) (drop (bang + 1) rest));
      host = some (drop (at + 1) rest);
    }
    else record { prefix_chars = prefix_chars; nick = rest; user = none; host = none }
split_identity prefix_chars rest bang at = record {
  prefix_chars = prefix_chars;
  nick = rest;
  user = none;
  host = none;
}

unfoldable pub split_names_entry : Str → List PrefixSpec → NamesEntry
unfolding span_prefixes split_identity
split_names_entry token prefixes =
    let r = span_prefixes prefixes token in
    split_identity r.0 r.1 (index_of b'!' r.1) (index_of b'@' r.1)

unfoldable pub with_identity : NamesEntry → ℕ → StateStore → StateStore
with_identity entry id store =
    let source : Source = record { name = entry.nick; user = entry.user; host = entry.host } in
    if is_some entry.user || is_some entry.host
    then with_user id (update_from_source source) store
    else store

unfoldable pub add_name : Str → NamesEntry → StateStore → StateStore
unfolding with_identity
add_name name entry store =
    let c = get_or_create_user entry.nick store in
    let told = with_identity entry c.1 c.0 in
    with_member name (nick_of told.heap c.1)
      (apply_prefix_chars told.server.isupport entry.prefix_chars) (add_member name c.1 told)

-- A new member past the bound is skipped.
unfoldable pub names_entry : Str → NamesEntry → Channel → StateStore → StateStore
unfolding add_name
names_entry name entry found store =
    if not (IrcMap.has found.members entry.nick)
      && leb max_members_per_channel (IrcMap.size found.members)
    then store
    else add_name name entry store

unfoldable pub names_step : Str → Str → StateStore → StateStore
unfolding names_entry
names_step name [] store = store
names_step name (c ∷ token) store = when_some (channel store name) store λ found.
    names_entry name (split_names_entry (c ∷ token) store.server.isupport.prefixes) found store

unfoldable pub names_loop : Str → List Str → StateStore → StateStore
unfolding names_step
names_loop name [] store = store
names_loop name (token ∷ tokens) store = names_loop name tokens (names_step name token store)

unfoldable pub on_namreply : Message → StateStore → Outcome
unfolding names_loop
on_namreply message store =
    when_some (get_elem? message.params 2) (store, none)
      λ name.
        when_some (get_elem? message.params 3) (store, none)
          λ names.
            when_some (channel store name) (store, none)
              λ found. (names_loop name (split_words names) store, none)

unfoldable pub member_refs : Str → Dict (Entry Member) → List MemberRef
member_refs name [] = []
member_refs name ((k, e) ∷ members) =
    record { channel = name; user = e.value.user } ∷ member_refs name members

unfoldable pub on_end_of_names : Platform → Message → StateStore → Outcome
unfolding member_refs
on_end_of_names p message store =
    when_some (get_elem? message.params 1) (store, none)
      λ name.
        when_some (channel store name) (store, none)
          λ found.
            let members = member_refs found.name found.members.entries in
            let event =
              names_event p message (record { channel = found.name; members = members }) in
            (emit_channel found.name event store, some event)
