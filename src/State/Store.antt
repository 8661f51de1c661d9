-- ===== src/State/Store.antt =====
-- packages/irc-client/src/state/StateStore.ts: the single writer of the state of one connection. A
-- channel is named by its name and a user by its place in `heap`; `streams` records what the event
-- streams of these entities were sent, in order.
use mojo_jojo.Base.{
  ℕ, Bool, List, [], ◌∷◌, ◌++◌, Option, none, some, Str, ◌==◌, str_eq, length, set, leb,
  if◌then◌else◌, when_some,
}
use mojo_jojo.Base.Dict.{Dict}
use mojo_jojo.CaseMapping.{equals, normalize}
use mojo_jojo.CaseMapping.IrcMap
use mojo_jojo.CaseMapping.IrcMap.{Entry, IrcMap}
use mojo_jojo.Isupport.{TextOps}
use mojo_jojo.Events.{IrcEvent}
use mojo_jojo.Entities.User.{User, Heap, new_user, rename_to, user_at, nick_of}
use mojo_jojo.Entities.Member.{Member, new_member}
use mojo_jojo.Entities.MemberList
use mojo_jojo.Entities.MemberList.{Members}
use mojo_jojo.Entities.Channel.{Channel, new_channel}
use mojo_jojo.Entities.Server
use mojo_jojo.Entities.Server.{Server, new_server, set_nick, map_values}

pub data StreamAction : Type 0 where
  next_channel : Str → IrcEvent → StreamAction
  next_user : ℕ → IrcEvent → StreamAction
  complete_channel : Str → StreamAction
  complete_user : ℕ → StreamAction

pub record StateStore : Type 0 where
  pub server : Server
  pub heap : Heap
  pub streams : List StreamAction

abbrev pub max_channels : ℕ
max_channels = 4096

unfoldable pub new_store : Str → StateStore
new_store nick = record { server = new_server nick; heap = []; streams = [] }

unfoldable pub push : StreamAction → StateStore → StateStore
push action store = record store { streams = store.streams ++ action ∷ [] }

-- `channel[EMIT](event)` and `user[EMIT](event)`
unfoldable pub emit_channel : Str → IrcEvent → StateStore → StateStore
unfolding push
emit_channel name event store = push (StreamAction.next_channel name event) store

unfoldable pub emit_user : ℕ → IrcEvent → StateStore → StateStore
unfolding push
emit_user id event store = push (StreamAction.next_user id event) store

unfoldable pub emit_channels : List Str → IrcEvent → StateStore → StateStore
unfolding emit_channel
emit_channels [] event store = store
emit_channels (name ∷ names) event store = emit_channels names event (emit_channel name event store)

-- A change of the object in a slot, in place.
unfoldable pub update_slot {ℓ} : {V : Type ℓ} → Dict (Entry V) → Str → (V → V) → Dict (Entry V)
update_slot [] key f = []
update_slot ((k, e) ∷ entries) key f =
    if str_eq k key
    then (k, record e { value = f e.value }) ∷ entries
    else (k, e) ∷ update_slot entries key f

unfoldable pub modify {ℓ} : {V : Type ℓ} → IrcMap V → Str → (V → V) → IrcMap V
unfolding update_slot
modify m name f = record m { entries = update_slot m.entries (normalize m.mapper name) f }

unfoldable pub with_channels : (IrcMap Channel → IrcMap Channel) → StateStore → StateStore
with_channels f store = record store {
  server = record store.server { channels = f store.server.channels };
}

unfoldable pub with_channel : Str → (Channel → Channel) → StateStore → StateStore
unfolding with_channels modify
with_channel name f store = with_channels (λ channels. modify channels name f) store

unfoldable pub with_members : (Members → Members) → Channel → Channel
with_members f channel = record channel { members = f channel.members }

unfoldable pub with_user : ℕ → (User → User) → StateStore → StateStore
with_user id f store = record store { heap = set store.heap id (f (user_at store.heap id)) }

unfoldable pub with_users : (IrcMap ℕ → IrcMap ℕ) → StateStore → StateStore
with_users f store = record store { server = record store.server { users = f store.server.users } }

unfoldable pub is_self : StateStore → Str → Bool
is_self store nick = equals store.server.case_mapper nick store.server.nick

unfoldable pub user : StateStore → Str → Option ℕ
user store nick = IrcMap.get store.server.users nick

unfoldable pub channel : StateStore → Str → Option Channel
channel store name = IrcMap.get store.server.channels name

-- A new user at the end of the heap, under its nick.
unfoldable pub create_user : Str → StateStore → StateStore
unfolding with_users is_self
create_user nick store =
    let made : StateStore = record store {
      heap = store.heap ++ new_user nick (is_self store nick) ∷ [];
    } in
    with_users (λ users. IrcMap.set users nick (length store.heap)) made

unfoldable pub get_or_create_user : Str → StateStore → StateStore × ℕ
unfolding user create_user
get_or_create_user nick store =
    when_some (user store nick) (create_user nick store, length store.heap) λ id. (store, id)

unfoldable pub mark_self : Str → StateStore → StateStore
unfolding get_or_create_user
mark_self nick store =
    (get_or_create_user nick (record store { server = set_nick nick store.server })).0

unfoldable pub create_channel : Str → StateStore → StateStore × Option Channel
unfolding with_channels
create_channel name store =
    let made = new_channel name store.server.case_mapper in
    if leb max_channels (IrcMap.size store.server.channels)
    then (store, none)
    else (with_channels (λ channels. IrcMap.set channels name made) store, some made)

unfoldable pub get_or_create_channel : Str → StateStore → StateStore × Option Channel
unfolding channel create_channel
get_or_create_channel name store =
    when_some (channel store name) (create_channel name store) λ found. (store, some found)

unfoldable pub delete_channel : Str → Option Channel → StateStore → StateStore
unfolding with_channels push
delete_channel name none store = store
delete_channel name (some found) store =
    push (StreamAction.complete_channel found.name)
      (with_channels (λ channels. IrcMap.delete channels name) store)

unfoldable pub remove_channel : Str → StateStore → StateStore
unfolding delete_channel channel
remove_channel name store = delete_channel name (channel store name) store

-- The member stays where the nick is there.
unfoldable pub join_members : Heap → ℕ → Members → Members
join_members heap id members =
    if IrcMap.has members (nick_of heap id)
    then members
    else MemberList.add heap members (new_member id)

unfoldable pub add_member : Str → ℕ → StateStore → StateStore
unfolding with_channel with_members join_members
add_member name id store = with_channel name (with_members (join_members store.heap id)) store

unfoldable pub with_member : Str → Str → (Member → Member) → StateStore → StateStore
unfolding with_channel with_members
with_member name nick f store =
    with_channel name (with_members (λ members. modify members nick f)) store

unfoldable pub remove_member : Str → Str → StateStore → StateStore
unfolding with_channel with_members
remove_member name nick store =
    with_channel name (with_members (λ members. MemberList.remove members nick)) store

unfoldable pub channels_listing : Str → Dict (Entry Channel) → List Str
channels_listing nick [] = []
channels_listing nick ((k, e) ∷ entries) =
    let rest = channels_listing nick entries in
    if IrcMap.has e.value.members nick then e.value.name ∷ rest else rest

unfoldable pub channels_with_user : StateStore → Str → List Str
unfolding channels_listing
channels_with_user store nick = channels_listing nick store.server.channels.entries

unfoldable pub remove_members : List Str → Str → StateStore → StateStore
unfolding remove_member
remove_members [] nick store = store
remove_members (name ∷ names) nick store = remove_members names nick (remove_member name nick store)

-- The user leaves every channel and the map, and its stream completes.
unfoldable pub forget_user : Str → ℕ → StateStore → StateStore
unfolding remove_members channels_with_user with_users push
forget_user nick id store = push (StreamAction.complete_user id) (
    with_users (λ users. IrcMap.delete users nick)
      (remove_members (channels_with_user store nick) nick store))

unfoldable pub remove_user : Str → StateStore → StateStore
unfolding user forget_user
remove_user nick store = when_some (user store nick) store λ id. forget_user nick id store

unfoldable pub prune_orphan : Str → StateStore → StateStore
unfolding is_self channels_with_user remove_user
prune_orphan nick store =
    if is_self store nick
    then store
    else elim (channels_with_user store nick) [ [] ↦ remove_user nick store | name ∷ names ↦ store ]

-- `for (const member of members) this.pruneOrphan(member.nick)`
unfoldable pub prune_members : Dict (Entry Member) → StateStore → StateStore
unfolding prune_orphan
prune_members [] store = store
prune_members ((k, e) ∷ members) store =
    prune_members members (prune_orphan (nick_of store.heap e.value.user) store)

unfoldable pub dispose_channels : List Channel → StateStore → StateStore
unfolding prune_members push
dispose_channels [] store = store
dispose_channels (found ∷ channels) store =
    dispose_channels channels
      (prune_members found.members.entries (push (StreamAction.complete_channel found.name) store))

-- The members that are the user itself are removed, over a copy of the members.
unfoldable pub drop_loop : Heap → ℕ → Dict (Entry Member) → Members → Members
drop_loop heap id [] members = members
drop_loop heap id ((k, e) ∷ copy) members =
    drop_loop heap id copy (
      if e.value.user == id then MemberList.remove members (nick_of heap e.value.user) else members)

unfoldable pub drop_user : Heap → ℕ → Channel → Channel
unfolding with_members drop_loop
drop_user heap id found = with_members (λ members. drop_loop heap id members.entries members) found

unfoldable pub dispose_users : List ℕ → StateStore → StateStore
unfolding with_channels drop_user push
dispose_users [] store = store
dispose_users (id ∷ ids) store = dispose_users ids (
    push (StreamAction.complete_user id) (
      with_channels
        (λ channels. record channels {
          entries = map_values (drop_user store.heap id) channels.entries;
        })
        store))

unfoldable pub apply_isupport : TextOps → List Str → StateStore → StateStore
unfolding dispose_channels dispose_users
apply_isupport ops tokens store =
    let r = Server.apply_isupport ops store.heap tokens store.server in
    dispose_users r.2 (dispose_channels r.1 (record store { server = r.0 }))

unfoldable pub rename_members : List Str → Str → Str → StateStore → StateStore
unfolding with_channel with_members
rename_members [] old_nick new_nick store = store
rename_members (name ∷ names) old_nick new_nick store = rename_members names old_nick new_nick (
    with_channel name (with_members (λ members. MemberList.rename members old_nick new_nick)) store)

-- The user under its new nick, in the map and in every channel.
unfoldable pub move_user : Str → Str → ℕ → StateStore → StateStore
unfolding channels_with_user with_users with_user rename_members
move_user old_nick new_nick id store =
    let freed = with_users (λ users. IrcMap.delete users old_nick) store in
    let named = with_user id (rename_to new_nick) freed in
    let placed = with_users (λ users. IrcMap.set users new_nick id) named in
    rename_members (channels_with_user store old_nick) old_nick new_nick placed

-- The rename proper, of a user that is there onto a nick that is free or its own.
unfoldable pub rename_found : Str → Str → ℕ → StateStore → StateStore × List Str
unfolding is_self move_user channels_with_user
rename_found old_nick new_nick id store =
    let moved = move_user old_nick new_nick id store in
    let us : StateStore = record moved { server = set_nick new_nick moved.server } in
    (if is_self store old_nick then us else moved, channels_with_user store old_nick)

-- The user and the channels, or nothing and the state as it was.
unfoldable pub rename_user : Str → Str → StateStore → StateStore × Option (ℕ × List Str)
unfolding user is_self forget_user rename_found
rename_user old_nick new_nick store =
    when_some (user store old_nick) (store, none)
      λ id.
        let r = rename_found old_nick new_nick id store in
        when_some (user store new_nick) (r.0, some (id, r.1))
          λ other.
            let d = rename_found old_nick new_nick id (forget_user new_nick other store) in
            if other == id
            then (r.0, some (id, r.1))
            else if is_self store new_nick
            then (store, none)
            else (d.0, some (id, d.1))

unfoldable pub complete_channels : Dict (Entry Channel) → StateStore → StateStore
unfolding push
complete_channels [] store = store
complete_channels ((k, e) ∷ entries) store =
    complete_channels entries (push (StreamAction.complete_channel e.value.name) store)

unfoldable pub complete_users : Dict (Entry ℕ) → StateStore → StateStore
unfolding push
complete_users [] store = store
complete_users ((k, e) ∷ entries) store =
    complete_users entries (push (StreamAction.complete_user e.value) store)

unfoldable pub dispose_all : StateStore → StateStore
unfolding complete_channels complete_users
dispose_all store =
    complete_users store.server.users.entries
      (complete_channels store.server.channels.entries store)
