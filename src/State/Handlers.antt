-- ===== src/State/Handlers.antt =====
-- What the handlers of packages/irc-client/src/state/dispatch.ts share.
use mojo_jojo.Base.{
  ℕ, Bool, true, false, ◌||◌, List, Option, none, some, Str, if◌then◌else◌, when_some,
}
use mojo_jojo.CaseMapping.IrcMap
use mojo_jojo.Message.{Source, Message}
use mojo_jojo.Events.{IrcEvent, MemberRef}
use mojo_jojo.Entities.User.{nick_of}
use mojo_jojo.Entities.Channel.{Channel}
use mojo_jojo.State.Store.{
  StateStore, user, prune_orphan, get_or_create_user, emit_user, emit_channels,
}

-- The state, and the event for the firehose.
abbrev pub Outcome : Type 0
Outcome = StateStore × Option IrcEvent

abbrev pub is_some : Option Str → Bool
is_some none = false
is_some (some value) = true

unfoldable pub is_user_source : Source → Bool
is_user_source source = is_some source.user || is_some source.host

unfoldable pub prune_if_orphan : Option ℕ → StateStore → StateStore
prune_if_orphan none store = store
prune_if_orphan (some id) store = prune_orphan (nick_of store.heap id) store

abbrev pub found_user : StateStore × ℕ → StateStore × Option ℕ
found_user r = (r.0, some r.1)

-- The user behind a source that names one.
unfoldable pub resolve_by : Option Source → StateStore → StateStore × Option ℕ
unfolding is_user_source
resolve_by none store = (store, none)
resolve_by (some source) store =
    if is_user_source source
    then found_user (get_or_create_user source.name store)
    else (store, none)

-- The member of a channel under a nick.
unfoldable pub member_ref : Channel → Str → Option MemberRef
member_ref channel nick = elim (IrcMap.get channel.members nick) [
  | none ↦ none
  | some member ↦ some (record { channel = channel.name; user = member.user })
]

-- The handlers of changes that a known user reports of itself go on with the source and the user.
unfoldable pub from_known_user : StateStore → Message → (Source → ℕ → Outcome) → Outcome
unfolding is_user_source
from_known_user store message next =
    when_some message.source (store, none)
      λ source.
        when_some (user store source.name) (store, none)
          λ id. if is_user_source source then next source id else (store, none)

-- The event goes to the user and to every channel shared with it.
unfoldable pub emit_shared : ℕ → List Str → IrcEvent → StateStore → Outcome
emit_shared id channels event store =
    (emit_channels channels event (emit_user id event store), some event)
