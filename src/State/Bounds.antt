-- ===== src/State/Bounds.antt =====
-- State: how many channels there are and how long their lists of masks are, kept by every operation of
-- the store (here) and by every handler (in the children).
pub mod Rekey
pub mod Membership
pub mod Replies
pub mod Settings
pub mod Run
use mojo_jojo.Base.{
  ℕ, ◌+◌, ◌≤◌, suc, Bool, true, false, List, [], ◌∷◌, Option, none, some, ◌≡◌, refl, ◌∙◌, arith,
  Str, length, str_eq, leb, if_lem, when_some, when_some_lem, if◌then◌else◌,
}
use mojo_jojo.Base.Dict
use mojo_jojo.Base.Dict.{
  Dict, AllValues, AllValues-put, AllValues-remove, length-put, length-remove,
}
use mojo_jojo.CaseMapping.{CaseMapping, normalize}
use mojo_jojo.CaseMapping.IrcMap
use mojo_jojo.CaseMapping.IrcMap.{Entry, IrcMap}
use mojo_jojo.CaseMapping.MapLaws.{KeyedBy, IsKeyed, set-delete-IsKeyed}
use mojo_jojo.Isupport.{TextOps, parse_isupport}
use mojo_jojo.Events.{IrcEvent}
use mojo_jojo.Entities.User.{User, Heap, nick_of}
use mojo_jojo.Entities.Member.{Member}
use mojo_jojo.Entities.MemberList.{Members}
use mojo_jojo.Entities.MemberList
use mojo_jojo.Entities.Channel.{Channel, new_channel, set_topic}
use mojo_jojo.Entities.Server
use mojo_jojo.Entities.Server.{Server, map_values, rekey_members, rekeyed, same_mapping}
use mojo_jojo.Entities.Bounds.{ListsBounded, AtMost, rekey-AtMost}
use mojo_jojo.State.Store.{
  StateStore, StreamAction, max_channels, push, emit_channel, emit_user, emit_channels, update_slot,
  modify, with_channels, with_channel, with_members, with_user, with_users, is_self, user, channel,
  create_user, get_or_create_user, mark_self, create_channel, get_or_create_channel, delete_channel,
  remove_channel, add_member, with_member, remove_member, channels_with_user, remove_members,
  forget_user, remove_user, prune_orphan, prune_members, dispose_channels, drop_user, dispose_users,
  apply_isupport, rename_members, rename_found, rename_user,
}

abbrev pub Fits : ℕ → IrcMap Channel → Type 0
Fits = AtMost ListsBounded

-- At most `n` channels, each in the slot of its name, and no list of masks over its bound.
abbrev pub IsBounded : ℕ → StateStore → Type 0
IsBounded n store = Fits n store.server.channels

abbrev pub Lists : Entry Channel → Type 0
Lists e = ListsBounded e.value

update_slot-length :
    (m : Dict (Entry Channel)) (key : Str) (f : Channel → Channel)
    → length (update_slot m key f) ≡ length m
unfolding update_slot
update_slot-length [] key f = refl
update_slot-length ((k, e) ∷ m) key f = ground (arith, update_slot-length m key f)

update_slot-Lists :
    (m : Dict (Entry Channel)) (key : Str) (f : Channel → Channel)
    → ((c : Channel) → ListsBounded c → ListsBounded (f c))
    → AllValues Lists m
    → AllValues Lists (update_slot m key f)
unfolding update_slot
update_slot-Lists [] key f h a = tt
update_slot-Lists ((k, e) ∷ m) key f h a =
    if_lem (AllValues Lists) (str_eq k key) _ _ (λ t. (h e.value a.0, a.1))
      (λ t. (a.0, update_slot-Lists m key f h a.1))

has-update_slot :
    (m : Dict (Entry Channel)) (key j : Str) (f : Channel → Channel)
    → Dict.has (update_slot m key f) j ≡ Dict.has m j
unfolding update_slot Dict.has
has-update_slot [] key j f = refl
has-update_slot ((k, e) ∷ m) key j f = ground (arith, has-update_slot m key j f)

-- A change in place keeps the slots.
update_slot-KeyedBy :
    (mapper : CaseMapping) (m : Dict (Entry Channel)) (key : Str) (f : Channel → Channel)
    → KeyedBy mapper m
    → KeyedBy mapper (update_slot m key f)
unfolding update_slot
update_slot-KeyedBy mapper [] key f h = h
update_slot-KeyedBy mapper ((k, e) ∷ m) key f h =
    let r = update_slot-KeyedBy mapper m key f (h.0.1, h.1.1) in
    if_lem (KeyedBy mapper) (str_eq k key) _ _ (λ t. h)
      (λ t. ((has-update_slot m key k f ∙ h.0.0, r.0), (h.1.0, r.1)))

module _ (n : ℕ) where
  pub with_channel-IsBounded :
      (name : Str) (f : Channel → Channel) (store : StateStore)
      → ((c : Channel) → ListsBounded c → ListsBounded (f c))
      → IsBounded n store
      → IsBounded n (with_channel name f store)
  unfolding with_channel with_channels modify IrcMap.size
  with_channel-IsBounded name f store h b =
      let m = store.server.channels in
      let key = normalize m.mapper name in
      (
        omega (arith, b.0, update_slot-length m.entries key f),
        update_slot-Lists m.entries key f h b.1,
        update_slot-KeyedBy m.mapper m.entries key f b.2,
      )

  -- A change of the members of a channel leaves its lists alone.
  pub with_members-IsBounded :
      (name : Str) (f : Members → Members) (store : StateStore)
      → IsBounded n store
      → IsBounded n (with_channel name (with_members f) store)
  unfolding with_members
  with_members-IsBounded name f store =
      with_channel-IsBounded name (with_members f) store (λ c h. h)

  pub add_member-IsBounded :
      (name : Str) (id : ℕ) (store : StateStore)
      → IsBounded n store
      → IsBounded n (add_member name id store)
  unfolding add_member
  add_member-IsBounded name id store = with_members-IsBounded name _ store

  pub with_member-IsBounded :
      (name nick : Str) (f : Member → Member) (store : StateStore)
      → IsBounded n store
      → IsBounded n (with_member name nick f store)
  unfolding with_member
  with_member-IsBounded name nick f store = with_members-IsBounded name _ store

  pub remove_member-IsBounded :
      (name nick : Str) (store : StateStore)
      → IsBounded n store
      → IsBounded n (remove_member name nick store)
  unfolding remove_member
  remove_member-IsBounded name nick store = with_members-IsBounded name _ store

  remove_members-IsBounded :
      (names : List Str) (nick : Str) (store : StateStore)
      → IsBounded n store
      → IsBounded n (remove_members names nick store)
  unfolding remove_members
  remove_members-IsBounded [] nick store b = b
  remove_members-IsBounded (name ∷ names) nick store b =
      remove_members-IsBounded names nick (remove_member name nick store)
        (remove_member-IsBounded name nick store b)

  pub forget_user-IsBounded :
      (nick : Str) (id : ℕ) (store : StateStore)
      → IsBounded n store
      → IsBounded n (forget_user nick id store)
  unfolding forget_user with_users push
  forget_user-IsBounded nick id store =
      remove_members-IsBounded (channels_with_user store nick) nick store

  pub remove_user-IsBounded :
      (nick : Str) (store : StateStore) → IsBounded n store → IsBounded n (remove_user nick store)
  unfolding remove_user
  remove_user-IsBounded nick store b =
      when_some_lem (IsBounded n) (user store nick) _ _ b
        (λ id e. forget_user-IsBounded nick id store b)

  pub prune_orphan-IsBounded :
      (nick : Str) (store : StateStore) → IsBounded n store → IsBounded n (prune_orphan nick store)
  unfolding prune_orphan
  prune_orphan-IsBounded nick store b =
      if_lem (IsBounded n) (is_self store nick) _ _ (λ e. b)
        (λ e.
          elim (channels_with_user store nick)
            as (λ l. IsBounded n (elim l [ [] ↦ remove_user nick store | name ∷ names ↦ store ])) [
              | [] ↦ remove_user-IsBounded nick store b
              | name ∷ names ↦ b
            ])

  pub prune_members-IsBounded :
      (members : Dict (Entry Member)) (store : StateStore)
      → IsBounded n store
      → IsBounded n (prune_members members store)
  unfolding prune_members
  prune_members-IsBounded [] store b = b
  prune_members-IsBounded ((k, e) ∷ members) store b =
      prune_members-IsBounded members (prune_orphan (nick_of store.heap e.value.user) store)
        (prune_orphan-IsBounded (nick_of store.heap e.value.user) store b)

  pub emit_channels-IsBounded :
      (names : List Str) (event : IrcEvent) (store : StateStore)
      → IsBounded n store
      → IsBounded n (emit_channels names event store)
  unfolding emit_channels emit_channel push
  emit_channels-IsBounded [] event store b = b
  emit_channels-IsBounded (name ∷ names) event store b =
      emit_channels-IsBounded names event (emit_channel name event store) b

  pub get_or_create_user-IsBounded :
      (nick : Str) (store : StateStore)
      → IsBounded n store
      → IsBounded n (get_or_create_user nick store).0
  unfolding get_or_create_user create_user with_users
  get_or_create_user-IsBounded nick store b =
      when_some_lem (λ (r : StateStore × ℕ). IsBounded n r.0) (user store nick) _ _ b (λ id e. b)

  pub remove_channel-IsBounded :
      (name : Str) (store : StateStore)
      → IsBounded n store
      → IsBounded n (remove_channel name store)
  unfolding remove_channel delete_channel with_channels push IrcMap.delete IrcMap.size
  remove_channel-IsBounded name store b = delete_channel-IsBounded (channel store name)
    where
      delete_channel-IsBounded : (o : Option Channel) → IsBounded n (delete_channel name o store)
      delete_channel-IsBounded none = b
      delete_channel-IsBounded (some found) =
          let m = store.server.channels in
          let key = normalize m.mapper name in
          (
            omega (arith, b.0, length-remove m.entries key),
            AllValues-remove Lists m.entries key b.1,
            (set-delete-IsKeyed m name found b.2).1,
          )

  pub rename_members-IsBounded :
      (names : List Str) (old_nick new_nick : Str) (store : StateStore)
      → IsBounded n store
      → IsBounded n (rename_members names old_nick new_nick store)
  unfolding rename_members
  rename_members-IsBounded [] old_nick new_nick store b = b
  rename_members-IsBounded (name ∷ names) old_nick new_nick store b =
      rename_members-IsBounded names old_nick new_nick _ (
        with_members-IsBounded name (λ members. MemberList.rename members old_nick new_nick) store
          b)
