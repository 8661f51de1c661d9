-- ===== src/State/Dispatch/Messages.antt =====
-- packages/irc-client/src/state/dispatch.ts: PRIVMSG and NOTICE, and CTCP ACTION in the former.
use mojo_jojo.Base.{
  ℕ, ◌-◌, ◌==◌, not, [], ◌∷◌, Option, none, some, Str, codes, str_eq, length, take, drop, get_elem?,
  get_last?, starts_with, if◌then◌else◌, when_some,
}
use mojo_jojo.Base.Dict
use mojo_jojo.Message.{Source, Message}
use mojo_jojo.Isupport.{is_channel_name, split_status_prefix}
use mojo_jojo.Events.{
  Platform, IrcEvent, MemberRef, MessageFields, privmsg_event, action_event, notice_event,
}
use mojo_jojo.Entities.User.{nick_of, update_from_source, set_account}
use mojo_jojo.Entities.Channel.{Channel}
use mojo_jojo.State.Store.{
  StateStore, channel, with_user, get_or_create_user, emit_channel, emit_user,
}
use mojo_jojo.State.Handlers.{Outcome, is_user_source, resolve_by, prune_if_orphan, member_ref}

-- The text, with the code unit at its end, without the framing byte there.
unfoldable pub strip_at : Option ℕ → Str → Str
strip_at none inner = inner
strip_at (some c) inner = if c == 0x01 then take (length inner - 1) inner else inner

unfoldable pub strip_frame : Str → Str
unfolding strip_at
strip_frame inner = strip_at (get_last? inner) inner

unfoldable pub parse_action_text : Str → Option Str
unfolding strip_frame
parse_action_text text =
    let inner = strip_frame (drop 1 text) in
    if starts_with (0x01 ∷ codes "ACTION") text
    then (if str_eq inner (codes "ACTION")
        then some []
        else if starts_with (codes "ACTION ") inner
        then some (drop 7 inner)
        else none)
    else none

unfoldable pub with_account : Option Str → ℕ → StateStore → StateStore
with_account none id store = store
with_account (some account) id store = with_user id (set_account (some account)) store

-- The channel that a bare target names.
unfoldable pub target_channel : Str → StateStore → Option Channel
target_channel target store =
    if is_channel_name target store.server.isupport then channel store target else none

abbrev pub name_option : Option Channel → Option Str
name_option none = none
name_option (some found) = some found.name

abbrev pub member_option : Option Channel → Str → Option MemberRef
member_option none nick = none
member_option (some found) nick = member_ref found nick

abbrev pub emit_option : Option Channel → IrcEvent → StateStore → StateStore
emit_option none event store = store
emit_option (some found) event store = emit_channel found.name event store

unfoldable pub message_fields :
    {U : Type 0} → Message → Str → Str → U → Option Str → StateStore → MessageFields U
unfolding target_channel
message_fields message target text user nick store =
    let split = split_status_prefix target store.server.isupport in
    let found = target_channel split.1 store in
    record {
      channel = name_option found;
      user = user;
      member = elim nick [ none ↦ none | some n ↦ member_option found n ];
      target = target;
      text = text;
      is_private = not (is_channel_name split.1 store.server.isupport);
      account = Dict.get message.tags (codes "account");
      status_prefix = split.0;
    }

unfoldable pub said_event : Platform → Message → Str → Str → Str → ℕ → StateStore → IrcEvent
unfolding message_fields
said_event p message target text nick id store =
    let told = privmsg_event p message (message_fields message target text id (some nick) store) in
    elim (parse_action_text text) [
      | none ↦ told
      | some action ↦
          action_event p message (message_fields message target action id (some nick) store)
    ]

unfoldable pub on_privmsg_from : Platform → Message → Source → Str → Str → StateStore → Outcome
unfolding with_account said_event target_channel
on_privmsg_from p message source target text store =
    let c = get_or_create_user source.name store in
    let told =
      with_account (Dict.get message.tags (codes "account")) c.1
        (with_user c.1 (update_from_source source) c.0) in
    let found = target_channel (split_status_prefix target told.server.isupport).1 told in
    let event = said_event p message target text source.name c.1 told in
    (prune_if_orphan (some c.1) (emit_user c.1 event (emit_option found event told)), some event)

unfoldable pub on_privmsg : Platform → Message → StateStore → Outcome
unfolding on_privmsg_from
on_privmsg p message store =
    when_some message.source (store, none)
      λ source.
        when_some (get_elem? message.params 0) (store, none)
          λ target.
            when_some (get_elem? message.params 1) (store, none)
              λ text.
                if is_user_source source
                then on_privmsg_from p message source target text store
                else (store, none)

-- A notice tells of its user, where it has one.
unfoldable pub tell_source : Message → Option ℕ → StateStore → StateStore
unfolding with_account
tell_source message none store = store
tell_source message (some id) store = when_some message.source store λ source.
    with_account (Dict.get message.tags (codes "account")) id
      (with_user id (update_from_source source) store)

abbrev pub nick_of_option : StateStore → Option ℕ → Option Str
nick_of_option store none = none
nick_of_option store (some id) = some (nick_of store.heap id)

abbrev pub emit_user_option : Option ℕ → IrcEvent → StateStore → StateStore
emit_user_option none event store = store
emit_user_option (some id) event store = emit_user id event store

unfoldable pub on_notice : Platform → Message → StateStore → Outcome
unfolding tell_source message_fields target_channel
on_notice p message store =
    when_some (get_elem? message.params 0) (store, none)
      λ target.
        when_some (get_elem? message.params 1) (store, none)
          λ text.
            let b = resolve_by message.source store in
            let told = tell_source message b.1 b.0 in
            let found = target_channel (split_status_prefix target told.server.isupport).1 told in
            let nick = nick_of_option told b.1 in
            let event = notice_event p message (message_fields message target text b.1 nick told) in
            (
              prune_if_orphan b.1 (emit_user_option b.1 event (emit_option found event told)),
              some event,
            )
