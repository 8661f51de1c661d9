-- ===== src/State/Dispatch/Attributes.antt =====
-- packages/irc-client/src/state/dispatch.ts: what a known user reports of itself (ACCOUNT, AWAY,
-- CHGHOST, SETNAME), and the replies 352 and 354 about it.
use mojo_jojo.Base.{
  ℕ, [], ◌∷◌, Option, none, some, Str, codes, str_eq, get_elem?, starts_with, if◌then◌else◌,
  when_some,
}
use mojo_jojo.Message.{Source, Message}
use mojo_jojo.Sasl.{or_else}
use mojo_jojo.Isupport.{cut, or_empty}
use mojo_jojo.Whox.{parse_whox_reply}
use mojo_jojo.Events.{Platform, account_event, away_event, chghost_event, setname_event}
use mojo_jojo.Entities.User.{user_at, update_from_source, set_account, set_real_name, set_away}
use mojo_jojo.Entities.Member.{apply_prefix_chars}
use mojo_jojo.State.Store.{StateStore, user, is_self, with_user, with_member, channels_with_user}
use mojo_jojo.State.Handlers.{Outcome, is_some, from_known_user, emit_shared}

unfoldable pub on_account : Platform → Message → StateStore → Outcome
on_account p message store = from_known_user store message λ source id.
    let account = or_else (get_elem? message.params 0) (codes "*") in
    let told =
      with_user id (set_account (some account)) (with_user id (update_from_source source) store) in
    let channels = channels_with_user told source.name in
    let event = account_event p message (record {
      user = id;
      account = (user_at told.heap id).account;
      channels = channels;
      is_self = is_self told source.name;
    }) in
    emit_shared id channels event told

unfoldable pub on_away : Platform → Message → StateStore → Outcome
on_away p message store = from_known_user store message λ source id.
    let reason = get_elem? message.params 0 in
    let away = is_some reason in
    let told = with_user id (set_away away) (with_user id (update_from_source source) store) in
    let channels = channels_with_user told source.name in
    let event = away_event p message (record {
      user = id;
      away = away;
      message = reason;
      channels = channels;
      is_self = is_self told source.name;
    }) in
    emit_shared id channels event told

unfoldable pub on_chghost : Platform → Message → StateStore → Outcome
on_chghost p message store = from_known_user store message λ source id.
    when_some (get_elem? message.params 0) (store, none)
      λ new_user.
        when_some (get_elem? message.params 1) (store, none)
          λ new_host.
            let told =
              with_user id
                (update_from_source
                  (record { name = source.name; user = some new_user; host = some new_host }))
                store in
            let channels = channels_with_user told source.name in
            let event = chghost_event p message (record {
              user = id;
              new_user = new_user;
              new_host = new_host;
              channels = channels;
              is_self = is_self told source.name;
            }) in
            emit_shared id channels event told

unfoldable pub on_setname : Platform → Message → StateStore → Outcome
on_setname p message store = from_known_user store message λ source id.
    let real_name = or_empty (get_elem? message.params 0) in
    let told =
      with_user id (set_real_name (some real_name))
        (with_user id (update_from_source source) store) in
    let channels = channels_with_user told source.name in
    let event = setname_event p message (record {
      user = id;
      real_name = real_name;
      channels = channels;
      is_self = is_self told source.name;
    }) in
    emit_shared id channels event told

-- The away marker is the first flag.
unfoldable pub told_flags : Option Str → ℕ → StateStore → StateStore
told_flags none id store = store
told_flags (some flags) id store = with_user id (set_away (starts_with (codes "G") flags)) store

unfoldable pub told_name : Str → ℕ → StateStore → StateStore
told_name [] id store = store
told_name (c ∷ real_name) id store = with_user id (set_real_name (some (c ∷ real_name))) store

-- The real name stands behind the hop count.
unfoldable pub behind_space : Option Str → Str
behind_space none = []
behind_space (some trailing) = or_empty (cut b' ' trailing).1

unfoldable pub on_who_reply : Message → StateStore → Outcome
unfolding told_flags told_name behind_space
on_who_reply message store =
    let p = message.params in
    when_some (get_elem? p 5) (store, none)
      λ nick.
        when_some (user store nick) (store, none)
          λ id.
            let source : Source = record {
              name = nick;
              user = get_elem? p 2;
              host = get_elem? p 3;
            } in
            let sourced = with_user id (update_from_source source) store in
            let flagged = told_flags (get_elem? p 6) id sourced in
            (told_name (behind_space (get_elem? p 7)) id flagged, none)

-- `0` is the logged-out account.
unfoldable pub told_account : Option Str → ℕ → StateStore → StateStore
told_account none id store = store
told_account (some account) id store =
    let sent = if str_eq account (codes "0") then codes "*" else account in
    with_user id (set_account (some sent)) store

unfoldable pub told_status : Option Str → Str → Option Str → StateStore → StateStore
told_status (some name) nick (some flags) store =
    if str_eq name (codes "*")
    then store
    else with_member name nick (apply_prefix_chars store.server.isupport flags) store
told_status name nick flags store = store

unfoldable pub on_whox_reply : Message → StateStore → Outcome
unfolding told_flags told_name told_account told_status
on_whox_reply message store =
    when_some (parse_whox_reply message) (store, none)
      λ reply.
        when_some reply.nick (store, none)
          λ nick.
            when_some (user store nick) (store, none)
              λ id.
                let source : Source = record {
                  name = nick;
                  user = reply.user;
                  host = reply.host;
                } in
                let sourced = with_user id (update_from_source source) store in
                let flagged = told_flags reply.flags id sourced in
                let known = told_account reply.account id flagged in
                let named = told_name (or_empty reply.real_name) id known in
                (told_status reply.channel nick reply.flags named, none)
