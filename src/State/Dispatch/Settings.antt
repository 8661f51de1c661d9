-- ===== src/State/Dispatch/Settings.antt =====
-- packages/irc-client/src/state/dispatch.ts: the registration burst (001, 005), the topic (331, 332,
-- 333, TOPIC) and MODE.
use mojo_jojo.Base.{
  ℕ, ◌-◌, Bool, true, false, List, [], ◌∷◌, Option, none, some, Str, codes, str_eq, includes,
  length, take, drop, get_elem?, get_last?, if◌then◌else◌, when_some,
}
use mojo_jojo.Message.{Source, Message}
use mojo_jojo.Modes.{ModeKind, ModeChange, characters, parse_mode_changes}
use mojo_jojo.Isupport.{is_channel_name, is_blank}
use mojo_jojo.Events.{Platform, Date, event_time, topic_event, mode_event}
use mojo_jojo.Entities.User.{nick_of}
use mojo_jojo.Entities.Member.{add_mode, remove_mode}
use mojo_jojo.Entities.Channel.{set_topic, apply_channel_mode}
use mojo_jojo.Entities.Server.{set_name}
use mojo_jojo.State.Store.{
  StateStore, channel, mark_self, apply_isupport, with_channel, with_member, emit_channel,
}
use mojo_jojo.State.Handlers.{Outcome, resolve_by, prune_if_orphan}

abbrev pub named_by : Option Source → StateStore → StateStore
named_by none store = store
named_by (some source) store = record store { server = set_name source.name store.server }

unfoldable pub on_welcome : Message → StateStore → Outcome
on_welcome message store =
    let named = named_by message.source store in
    when_some (get_elem? message.params 0) (named, none) λ nick. (mark_self nick named, none)

-- The sentence behind the tokens has a space, which a token never has.
unfoldable pub isupport_tokens : List Str → List Str
isupport_tokens params = elim (get_last? params) [
  | none ↦ params
  | some last ↦ if includes last b' ' then take (length params - 1) params else params
]

unfoldable pub on_isupport : Platform → Message → StateStore → Outcome
unfolding isupport_tokens
on_isupport p message store =
    (apply_isupport p.text_ops (isupport_tokens (drop 1 message.params)) store, none)

unfoldable pub on_topic_reply : Platform → Message → StateStore → Outcome
on_topic_reply p message store =
    when_some (get_elem? message.params 1) (store, none)
      λ name.
        when_some (channel store name) (store, none)
          λ found.
            let topic =
              if str_eq message.command (codes "332") then get_elem? message.params 2 else none in
            let event =
              topic_event p message (record {
                channel = found.name;
                topic = topic;
                set_by = none;
                is_initial = true;
              }) in
            (
              emit_channel found.name event (with_channel name (set_topic topic none none) store),
              some event,
            )

-- A missing, blank or not finite time, and one that is no valid date, is absent.
unfoldable pub topic_time : Platform → Option Str → Option Date
topic_time p none = none
topic_time p (some raw) = if is_blank raw then none else elim (p.text_ops.finite_number raw) [
  | none ↦ none
  | some seconds ↦ p.date_of_seconds seconds
]

unfoldable pub on_topic_who_time : Platform → Message → StateStore → Outcome
unfolding topic_time
on_topic_who_time p message store =
    when_some (get_elem? message.params 1) (store, none)
      λ name.
        when_some (channel store name) (store, none)
          λ found.
            let set_at = topic_time p (get_elem? message.params 3) in
            (
              with_channel name (set_topic found.topic (get_elem? message.params 2) set_at) store,
              none,
            )

abbrev pub nick_option : StateStore → Option ℕ → Option Str
nick_option store none = none
nick_option store (some id) = some (nick_of store.heap id)

unfoldable pub on_topic : Platform → Message → StateStore → Outcome
on_topic p message store =
    when_some (get_elem? message.params 0) (store, none)
      λ name.
        when_some (channel store name) (store, none)
          λ found.
            let topic = get_elem? message.params 1 in
            let b = resolve_by message.source store in
            let set_by = nick_option b.0 b.1 in
            let topical =
              with_channel name (set_topic topic set_by (some (event_time p message))) b.0 in
            let event =
              topic_event p message (record {
                channel = found.name;
                topic = topic;
                set_by = b.1;
                is_initial = false;
              }) in
            (prune_if_orphan b.1 (emit_channel found.name event topical), some event)

unfoldable pub user_modes : List Str → Bool → List ModeChange
user_modes [] added = []
user_modes (char ∷ chars) added =
    let set = user_modes chars true in
    let unset = user_modes chars false in
    let rest = user_modes chars added in
    if str_eq char (codes "+")
    then set
    else if str_eq char (codes "-")
    then unset
    else record { added = added; mode = char; param = none; kind = ModeKind.group_d } ∷ rest

unfoldable pub parse_user_modes : Str → List ModeChange
unfolding user_modes
parse_user_modes mode_string = user_modes (characters mode_string) true

-- A status mode of a nick that is no member changes nothing.
unfoldable pub apply_status : Str → Bool → Str → Option Str → StateStore → StateStore
apply_status name added mode none store = store
apply_status name added mode (some nick) store =
    with_member name nick (if added then add_mode mode else remove_mode mode) store

-- `change.kind === "prefix"`
abbrev pub is_status : ModeKind → Bool
is_status ModeKind.status_prefix = true
is_status _ = false

unfoldable pub apply_change : Str → ModeChange → StateStore → StateStore
unfolding apply_status
apply_change name change store =
    if is_status change.kind
    then apply_status name change.added change.mode change.param store
    else with_channel name (apply_channel_mode change) store

unfoldable pub apply_changes : Str → List ModeChange → StateStore → StateStore
unfolding apply_change
apply_changes name [] store = store
apply_changes name (change ∷ changes) store =
    apply_changes name changes (apply_change name change store)

unfoldable pub on_user_mode : Platform → Message → Str → Str → StateStore → Outcome
unfolding parse_user_modes
on_user_mode p message target mode_string store =
    let b = resolve_by message.source store in
    let event = mode_event p message (record {
      target = target;
      channel = none;
      by = b.1;
      changes = parse_user_modes mode_string;
    }) in
    (prune_if_orphan b.1 b.0, some event)

unfoldable pub on_channel_mode : Platform → Message → Str → Str → StateStore → Outcome
unfolding apply_changes
on_channel_mode p message target mode_string store =
    when_some (channel store target) (store, none)
      λ found.
        let b = resolve_by message.source store in
        let changes = parse_mode_changes mode_string (drop 2 message.params) b.0.server.isupport in
        let event =
          mode_event p message
            (record { target = target; channel = some found.name; by = b.1; changes = changes }) in
        (
          prune_if_orphan b.1 (emit_channel found.name event (apply_changes target changes b.0)),
          some event,
        )

unfoldable pub on_mode : Platform → Message → StateStore → Outcome
unfolding on_user_mode on_channel_mode
on_mode p message store =
    when_some (get_elem? message.params 0) (store, none)
      λ target.
        when_some (get_elem? message.params 1) (store, none)
          λ mode_string.
            if is_channel_name target store.server.isupport
            then on_channel_mode p message target mode_string store
            else on_user_mode p message target mode_string store
