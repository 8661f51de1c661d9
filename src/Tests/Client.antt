-- ===== src/Tests/Client.antt =====
-- The properties of the client's state at concrete inputs.
use mojo_jojo.Base.{
  ℕ, ◌==◌, Option, false, suc, ◌≤◌, true, List, [], ◌∷◌, none, some, ◌≡◌, refl, arith, Str, codes,
  length, get_elem?, str_eq, starts_with, if◌then◌else◌, when_some,
}
use mojo_jojo.Base.Dict
use mojo_jojo.Message.{Message}
use mojo_jojo.CaseMapping.{
  rfc1459, equals, normalize, scan, after_scan, fold_loop, needs_fold, fold_code,
}
use mojo_jojo.CaseMapping.IrcMap
use mojo_jojo.Commands.{action}
use mojo_jojo.Isupport.{TextOps, max_isupport_keys, empty_isupport, parse_isupport}
use mojo_jojo.Isupport.Limits.{parse_isupport-length}
use mojo_jojo.Events.{Platform}
use mojo_jojo.Entities.Server.{new_server}
use mojo_jojo.State.Store.{
  StateStore, max_channels, new_store, is_self, user, create_user, with_users, channels_with_user,
  channels_listing, rename_user, get_or_create_channel, create_channel, channel, with_channels,
  get_or_create_user, with_user, add_member, with_channel, modify, update_slot, with_members,
  join_members, emit_channel, push, prune_orphan,
}
use mojo_jojo.Modes.{characters, mode_loop, parse_mode_changes}
use mojo_jojo.Isupport.{is_channel_name}
use mojo_jojo.Entities.Channel.{Channel, apply_channel_mode, new_channel}
use mojo_jojo.Entities.MemberList
use mojo_jojo.Entities.MemberList.{Members}
use mojo_jojo.Entities.Member.{new_member}
use mojo_jojo.Entities.User.{User, update_from_source, new_user}
use mojo_jojo.State.Handlers.{resolve_by, is_user_source, prune_if_orphan}
use mojo_jojo.State.Dispatch.Membership.{
  on_part, on_kick, on_join, joined_channel, admit_join, join_channel, extend_join,
}
use mojo_jojo.State.Dispatch.Messages.{parse_action_text}
use mojo_jojo.State.Dispatch.Settings.{
  on_welcome, on_mode, on_channel_mode, apply_changes, apply_change,
}
use mojo_jojo.State.Dispatcher.{new_dispatcher, dispatch, handle, handlers, run}
use mojo_jojo.State.Bounds.Run.{Retains, run-new-Retains, dispatch-channels}
use mojo_jojo.State.Leaving.{Absent, on_part-Absent, on_kick-Absent}
use mojo_jojo.State.Identity.{on_welcome-users}
use mojo_jojo.State.Renaming.{moved_lookup, rename_user-moves}
use mojo_jojo.State.Actions.{parse_action_text-action}

abbrev text_ops : TextOps
text_ops = record { to_upper = λ s. s; finite_number = λ s. some s }

abbrev platform : Platform
platform = record {
  text_ops = text_ops;
  parse_date = λ tag. some tag;
  date_of_seconds = λ seconds. some seconds;
  now = codes "2026";
}

abbrev from : Str → Str → List Str → Message
from nick command params = record {
  tags = [];
  source = some (record { name = nick; user = some (codes "u"); host = some (codes "h") });
  command = command;
  params = params;
}

abbrev session : List (Platform × Message)
session =
    (platform, from (codes "me") (codes "JOIN") (codes "#a" ∷ []))
    ∷ (platform, from (codes "bob") (codes "JOIN") (codes "#a" ∷ []))
    ∷ (platform, from (codes "bob") (codes "MODE") (codes "#a" ∷ codes "+b" ∷ codes "*!*@x" ∷ []))
    ∷ (platform, from (codes "bob") (codes "BATCH") (codes "+r" ∷ codes "netjoin" ∷ []))
    ∷ []

run-new-Retains_example : Retains max_channels (run session (new_dispatcher (codes "me")))
run-new-Retains_example = run-new-Retains (codes "me") session

abbrev kick : Message
kick = from (codes "bob") (codes "KICK") (codes "#a" ∷ codes "me" ∷ [])

dispatch-channels_example :
    IrcMap.size
      (dispatch platform kick (run session (new_dispatcher (codes "me")))).0.store.server.channels
    ≤ IrcMap.size (run session (new_dispatcher (codes "me"))).store.server.channels
dispatch-channels_example =
    dispatch-channels platform kick (codes "me") session (λ e. absurd (ground (arith, e)))

parse_isupport-length_example :
    length (parse_isupport text_ops (codes "NETWORK=x" ∷ codes "-PREFIX" ∷ []) empty_isupport).raw
    ≤ max_isupport_keys
parse_isupport-length_example =
    parse_isupport-length text_ops (codes "NETWORK=x" ∷ codes "-PREFIX" ∷ []) empty_isupport
      (omega arith)

abbrev part : Message
part = from (codes "me") (codes "PART") (codes "#a" ∷ [])

me_is_self : is_self (run session (new_dispatcher (codes "me"))).store (codes "me") ≡ true
unfolding is_self run new_dispatcher new_store new_server dispatch handle handlers on_join
    joined_channel get_or_create_channel create_channel channel with_channels admit_join
    join_channel get_or_create_user create_user user with_users with_user extend_join add_member
    with_channel modify update_slot with_members join_members emit_channel push on_mode
    on_channel_mode resolve_by is_user_source apply_changes apply_change apply_channel_mode
    parse_mode_changes mode_loop characters prune_if_orphan prune_orphan channels_with_user
    channels_listing is_channel_name equals normalize scan after_scan fold_loop needs_fold fold_code
    IrcMap.get IrcMap.set IrcMap.has IrcMap.size Dict.put Dict.get Dict.has str_eq new_channel
    MemberList.add new_member update_from_source new_user starts_with
me_is_self = refl

on_part-Absent_example :
    Absent (codes "#a") (on_part platform part (run session (new_dispatcher (codes "me"))).store).0
on_part-Absent_example =
    on_part-Absent platform part (codes "#a") (codes "me") session
      (record { name = codes "me"; user = some (codes "u"); host = some (codes "h") }) refl refl
      me_is_self

on_kick-Absent_example :
    Absent (codes "#a") (on_kick platform kick (run session (new_dispatcher (codes "me"))).store).0
on_kick-Absent_example =
    on_kick-Absent platform kick (codes "#a") (codes "me") session (codes "me") refl refl me_is_self

abbrev with_bob : StateStore
with_bob = create_user (codes "bob") (new_store (codes "me"))

abbrev bob : User
bob = new_user (codes "bob") false

-- A channel with bob in it.
abbrev meeting : Channel
meeting = record (new_channel (codes "#c") rfc1459) {
  members = record {
    mapper = rfc1459;
    entries = (codes "bob", record { key = codes "bob"; value = new_member 0 }) ∷ [];
  };
}

abbrev in_meeting : StateStore
in_meeting = record (new_store (codes "me")) {
  heap = bob ∷ [];
  server = record (new_server (codes "me")) {
    users = record {
      mapper = rfc1459;
      entries = (codes "bob", record { key = codes "bob"; value = 0 }) ∷ [];
    };
    channels = record {
      mapper = rfc1459;
      entries = (codes "#c", record { key = codes "#c"; value = meeting }) ∷ [];
    };
  };
}

abbrev behind_nick : StateStore × Option (ℕ × List Str)
behind_nick = rename_user (codes "bob") (codes "al") in_meeting

rename_user-moves_example :
    (behind_nick.1 ≡ some (0, channels_with_user in_meeting (codes "bob")))
    × (user behind_nick.0 (codes "AL") ≡ (
        if equals rfc1459 (codes "al") (codes "AL")
        then some 0
        else if equals rfc1459 (codes "bob") (codes "AL")
        then none
        else user in_meeting (codes "AL")))
    × (get_elem? behind_nick.0.heap 0
        ≡ (if 0 == 0 then some (record bob { nick = codes "al" }) else get_elem? in_meeting.heap 0))
    × ((members : Members) × (channel behind_nick.0 (codes "#C")
          ≡ some (record meeting { members = members }))
        × (IrcMap.get members (codes "AL")
            ≡ moved_lookup (codes "bob") (codes "al") meeting.members (codes "AL")))
unfolding new_channel new_store new_server user channel IrcMap.get normalize scan after_scan
    fold_loop needs_fold fold_code Dict.get Dict.has str_eq
rename_user-moves_example =
    rename_user-moves (codes "bob") (codes "al") (codes "AL") (codes "#C") 0 0 in_meeting bob
      meeting ((refl, tt), (refl, tt)) (refl, tt) (refl, tt) ((refl, tt), (refl, tt)) refl refl refl
      refl

on_welcome-users_example :
    IrcMap.size
      (on_welcome (from (codes "irc") (codes "001") (codes "you" ∷ [])) with_bob).0.server.users
    ≡ suc (IrcMap.size with_bob.server.users)
unfolding create_user with_users new_store new_server user IrcMap.set IrcMap.has normalize scan
    after_scan fold_loop needs_fold fold_code Dict.put Dict.has str_eq
on_welcome-users_example =
    on_welcome-users (from (codes "irc") (codes "001") (codes "you" ∷ [])) (codes "you") with_bob
      refl refl

parse_action_text-action_example :
    when_some (get_elem? (action (codes "#c") (codes "waves")).params 1) none parse_action_text
    ≡ some (codes "waves")
parse_action_text-action_example = parse_action_text-action (codes "#c") (codes "waves")
