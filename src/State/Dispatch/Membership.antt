-- ===== src/State/Dispatch/Membership.antt =====
-- packages/irc-client/src/state/dispatch.ts: JOIN, PART, QUIT, KICK and NICK.
use mojo_jojo.Base.{
  ℕ, Bool, true, false, not, ◌&&◌, List, ◌∷◌, Option, none, some, Str, get_elem?, leb,
  if◌then◌else◌, when_some,
}
use mojo_jojo.CaseMapping.IrcMap
use mojo_jojo.Message.{Source, Message}
use mojo_jojo.Events.{Platform, join_event, part_event, quit_event, kick_event, nick_event}
use mojo_jojo.Entities.User.{
  Heap, nick_of, is_self_of, logged_in, update_from_source, set_account, set_real_name,
}
use mojo_jojo.Entities.MemberList.{Members}
use mojo_jojo.Entities.Channel.{Channel}
use mojo_jojo.State.Store.{
  StateStore, user, channel, is_self, with_user, get_or_create_user, get_or_create_channel,
  add_member, emit_channel, emit_user, emit_channels, remove_channel, remove_member, remove_user,
  prune_members, prune_orphan, channels_with_user, rename_user,
}
use mojo_jojo.State.Handlers.{Outcome, resolve_by, prune_if_orphan, member_ref, emit_shared}

abbrev pub max_members_per_channel : ℕ
max_members_per_channel = 100000

-- extended-join: JOIN <channel> <account> :<realname>
unfoldable pub extend_join : List Str → ℕ → StateStore → StateStore
extend_join (name ∷ account ∷ real_name ∷ params) id store =
    with_user id (set_real_name (some real_name)) (with_user id (set_account (some account)) store)
extend_join params id store = store

unfoldable pub join_account : List Str → Option Str
join_account (name ∷ account ∷ real_name ∷ params) = logged_in (some account)
join_account params = none

unfoldable pub join_real_name : List Str → Option Str
join_real_name (name ∷ account ∷ real_name ∷ params) = some real_name
join_real_name params = none

-- The user of the membership that `addMember` returns.
unfoldable pub joined_user : Heap → ℕ → Members → ℕ
joined_user heap id members = elim (IrcMap.get members (nick_of heap id)) [
  | none ↦ id
  | some member ↦ member.user
]

unfoldable pub join_channel :
    Platform → Message → Source → Str → Bool → Channel → StateStore → Outcome
unfolding extend_join join_account join_real_name joined_user
join_channel p message source name self found store =
    let c = get_or_create_user source.name store in
    let sourced = with_user c.1 (update_from_source source) c.0 in
    let extended = extend_join message.params c.1 sourced in
    let event = join_event p message (record {
      channel = found.name;
      user = c.1;
      member = record { channel = found.name; user = joined_user extended.heap c.1 found.members };
      is_self = self;
      account = join_account message.params;
      real_name = join_real_name message.params;
    }) in
    (emit_channel found.name event (add_member name c.1 extended), some event)

-- A new member of a full channel is not admitted, unless we are.
unfoldable pub admit_join :
    Platform → Message → Source → Str → Bool → Channel → StateStore → Outcome
unfolding join_channel
admit_join p message source name self found store =
    if not self
      && not (IrcMap.has found.members source.name)
      && leb max_members_per_channel (IrcMap.size found.members)
    then (store, none)
    else join_channel p message source name self found store

-- Only our own join makes the channel.
unfoldable pub joined_channel : Str → Bool → StateStore → StateStore × Option Channel
joined_channel name true store = get_or_create_channel name store
joined_channel name false store = (store, channel store name)

unfoldable pub on_join : Platform → Message → StateStore → Outcome
unfolding admit_join joined_channel
on_join p message store =
    when_some message.source (store, none)
      λ source.
        when_some (get_elem? message.params 0) (store, none)
          λ name.
            let self = is_self store source.name in
            let r = joined_channel name self store in
            when_some r.1 (r.0, none) λ found. admit_join p message source name self found r.0

-- Our own leaving drops the channel and the users seen only there, another's drops its membership.
unfoldable pub leave_channel : Str → Str → Bool → Channel → StateStore → StateStore
leave_channel name nick self found store =
    if self
    then prune_members found.members.entries (remove_channel name store)
    else prune_orphan nick (remove_member name nick store)

unfoldable pub on_part : Platform → Message → StateStore → Outcome
unfolding leave_channel
on_part p message store =
    when_some message.source (store, none)
      λ source.
        when_some (get_elem? message.params 0) (store, none)
          λ name.
            when_some (channel store name) (store, none)
              λ found.
                let c = get_or_create_user source.name store in
                let self = is_self c.0 source.name in
                let event = part_event p message (record {
                  channel = found.name;
                  user = c.1;
                  member = member_ref found source.name;
                  is_self = self;
                  reason = get_elem? message.params 1;
                }) in
                (
                  leave_channel name source.name self found (emit_channel found.name event c.0),
                  some event,
                )

unfoldable pub on_quit : Platform → Message → StateStore → Outcome
on_quit p message store =
    when_some message.source (store, none)
      λ source.
        when_some (user store source.name) (store, none)
          λ id.
            let channels = channels_with_user store source.name in
            let event = quit_event p message (record {
              user = id;
              channels = channels;
              is_self = is_self store source.name;
              reason = get_elem? message.params 0;
            }) in
            (
              remove_user source.name (emit_user id event (emit_channels channels event store)),
              some event,
            )

unfoldable pub on_kick : Platform → Message → StateStore → Outcome
unfolding leave_channel
on_kick p message store =
    when_some (get_elem? message.params 0) (store, none)
      λ name.
        when_some (get_elem? message.params 1) (store, none)
          λ target_nick.
            when_some (channel store name) (store, none)
              λ found.
                let c = get_or_create_user target_nick store in
                let b = resolve_by message.source c.0 in
                let self = is_self b.0 target_nick in
                let event = kick_event p message (record {
                  channel = found.name;
                  target = c.1;
                  member = member_ref found target_nick;
                  by = b.1;
                  is_self = self;
                  reason = get_elem? message.params 2;
                }) in
                (
                  prune_if_orphan b.1 (
                      leave_channel name target_nick self found
                        (emit_channel found.name event b.0)),
                  some event,
                )

unfoldable pub on_nick : Platform → Message → StateStore → Outcome
on_nick p message store =
    when_some message.source (store, none)
      λ source.
        when_some (get_elem? message.params 0) (store, none)
          λ new_nick.
            let r = rename_user source.name new_nick store in
            when_some r.1 (r.0, none)
              λ renamed.
                let event = nick_event p message (record {
                  user = renamed.0;
                  old_nick = source.name;
                  new_nick = new_nick;
                  channels = renamed.1;
                  is_self = is_self_of r.0.heap renamed.0;
                }) in
                emit_shared renamed.0 renamed.1 event r.0
