-- ===== src/State/Identity.antt =====
-- StateStore.ts: a NICK moves the identity, and who is asked for twice is made once.
use mojo_jojo.Base.{
  ℕ, suc, true, false, str_eq, get_elem?, List, [], ◌∷◌, Option, none, some, ◌≡◌, refl, sym, ap,
  ◌∙◌, arith, Str, length, if_lem, when_some-cases, when_some-found, if◌then◌else◌,
}
use mathlib.Core.Option.{none-ne-some}
use mojo_jojo.Base.Dict
use mojo_jojo.Base.Dict.{Dict, length-put}
use mojo_jojo.Message.{Source, Message}
use mojo_jojo.CaseMapping.{normalize, equals}
use mojo_jojo.CaseMapping.IrcMap
use mojo_jojo.CaseMapping.IrcMap.{Entry, IrcMap}
use mojo_jojo.CaseMapping.MapLaws.{IsKeyed, set-delete-IsKeyed, get-set-delete}
use mojo_jojo.Entities.Server.{set_nick, set_name}
use mojo_jojo.State.Store.{
  StateStore, create_user, get_or_create_user, mark_self, with_channels, with_channel, with_user,
  with_users, is_self, user, channels_with_user, rename_members, move_user, rename_found,
  rename_user,
}
use mojo_jojo.State.Handlers.{Outcome}
use mojo_jojo.State.Dispatch.Settings.{named_by, on_welcome}

rename_members-users :
    (names : List Str) (old_nick new_nick : Str) (store : StateStore)
    → (rename_members names old_nick new_nick store).server.users ≡ store.server.users
unfolding rename_members with_channel with_channels
rename_members-users [] old_nick new_nick store = refl
rename_members-users (name ∷ names) old_nick new_nick store =
    rename_members-users names old_nick new_nick _

rename_found-users :
    (old_nick new_nick : Str) (id : ℕ) (store : StateStore)
    → (rename_found old_nick new_nick id store).0.server.users
      ≡ IrcMap.set (IrcMap.delete store.server.users old_nick) new_nick id
unfolding rename_found move_user with_users with_user set_nick
rename_found-users old_nick new_nick id store =
    let moved : (move_user old_nick new_nick id store).server.users
        ≡ IrcMap.set (IrcMap.delete store.server.users old_nick) new_nick id =
      rename_members-users (channels_with_user store old_nick) old_nick new_nick _ in
    if_lem
      (λ (s : StateStore).
        s.server.users ≡ IrcMap.set (IrcMap.delete store.server.users old_nick) new_nick id)
      (is_self store old_nick) _ _ (λ e. moved) (λ e. moved)

-- Where the users are in the slots of their nicks, a rename of a known user onto a nick that nobody has
-- succeeds: the new nick then finds that very user, the old nick nobody unless the casemapping equates
-- the two, and every other nick whom it found before.
pub rename_user-user :
    (old_nick new_nick other : Str) (id : ℕ) (store : StateStore)
    → IsKeyed store.server.users
    → user store old_nick ≡ some id
    → user store new_nick ≡ none
    → ((rename_user old_nick new_nick store).1 ≡ some (id, channels_with_user store old_nick))
      × (user (rename_user old_nick new_nick store).0 other ≡ (
          if equals store.server.users.mapper new_nick other
          then some id
          else if equals store.server.users.mapper old_nick other
          then none
          else user store other))
unfolding rename_user user IrcMap.delete rename_found
rename_user-user old_nick new_nick other id store k known free =
    let users = store.server.users in
    let deleted = set-delete-IsKeyed users old_nick id k in
    let found : user (rename_found old_nick new_nick id store).0 other ≡ (
        if equals users.mapper new_nick other
        then some id
        else if equals users.mapper old_nick other
        then none
        else user store other) =
      ap (λ (m : IrcMap ℕ). IrcMap.get m other) (rename_found-users old_nick new_nick id store)
      ∙ (get-set-delete (IrcMap.delete users old_nick) new_nick other id deleted.1).0
      ∙ ap (λ o. if equals users.mapper new_nick other then some id else o)
          (get-set-delete users old_nick other id k).1 in
    let Q = λ (r : StateStore × Option (ℕ × List Str)).
      (r.1 ≡ some (id, channels_with_user store old_nick))
      × (user r.0 other ≡ (
          if equals users.mapper new_nick other
          then some id
          else if equals users.mapper old_nick other
          then none
          else user store other)) in
    when_some-found Q (user store old_nick) _ _ id known (
      when_some-cases Q (user store new_nick) _ _ (λ e. (refl, found))
        (λ o e. absurd (none-ne-some o (sym free ∙ e))))

get-some-has :
    (m : Dict (Entry ℕ)) (key : Str) (id : ℕ)
    → IrcMap.value_of (Dict.get m key) ≡ some id
    → Dict.has m key ≡ true
unfolding Dict.get Dict.has
get-some-has [] key id e = absurd (none-ne-some id e)
get-some-has ((j, x) ∷ m) key id e =
    if_lem
      (λ (o : Option (Entry ℕ)). IrcMap.value_of o ≡ some id → Dict.has ((j, x) ∷ m) key ≡ true)
      (str_eq j key) _ _ (λ t f. ground (arith, t))
      (λ t f. ground (arith, t, get-some-has m key id f)) e

create_user-size :
    (nick : Str) (store : StateStore)
    → IrcMap.has store.server.users nick ≡ false
    → IrcMap.size (get_or_create_user nick store).0.server.users
      ≡ suc (IrcMap.size store.server.users)
unfolding get_or_create_user create_user with_users user IrcMap.get IrcMap.has IrcMap.set
    IrcMap.size
create_user-size nick store fresh =
    let users = store.server.users in
    let key = normalize users.mapper nick in
    when_some-cases
      (λ (r : StateStore × ℕ). length r.0.server.users.entries ≡ suc (length users.entries))
      (user store nick) _ _
      (λ e. ground (
        arith,
        fresh,
        length-put users.entries key (record { key = nick; value = length store.heap }),
      ))
      (λ id e. absurd (ground (arith, fresh, get-some-has users.entries key id e)))

-- A 001 for a nick that no user has adds a user, whatever was there, so that such messages grow the
-- table of users without a bound.
pub on_welcome-users :
    (message : Message) (nick : Str) (store : StateStore)
    → get_elem? message.params 0 ≡ some nick
    → IrcMap.has store.server.users nick ≡ false
    → IrcMap.size (on_welcome message store).0.server.users ≡ suc (IrcMap.size store.server.users)
unfolding on_welcome mark_self set_nick set_name
on_welcome-users message nick store first fresh =
    when_some-found
      (λ (r : Outcome). IrcMap.size r.0.server.users ≡ suc (IrcMap.size store.server.users))
      (get_elem? message.params 0) _ _ nick first (named-size message.source)
  where
    named-size :
        (source : Option Source)
        → IrcMap.size (mark_self nick (named_by source store)).server.users
          ≡ suc (IrcMap.size store.server.users)
    named-size none =
        create_user-size nick (record store { server = set_nick nick store.server }) fresh
    named-size (some source) =
        create_user-size nick
          (record store { server = set_nick nick (set_name source.name store.server) }) fresh
