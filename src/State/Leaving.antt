-- ===== src/State/Leaving.antt =====
-- dispatch.ts: behind our own PART, or a KICK of us, the channel is gone.
use mojo_jojo.Base.{
  ℕ, Bool, true, false, List, [], ◌∷◌, Option, none, some, ◌≡◌, refl, sym, ◌∙◌, arith, Str, str_eq,
  str_eq_iff, get_elem?, if_lem, when_some_lem, when_some-cases, when_some-found,
}
use mojo_jojo.Base.Dict
use mojo_jojo.Base.Dict.{Dict, Distinct}
use mojo_jojo.CaseMapping.{normalize}
use mojo_jojo.CaseMapping.IrcMap
use mojo_jojo.CaseMapping.IrcMap.{Entry, IrcMap}
use mojo_jojo.CaseMapping.MapLaws.{IsKeyed}
use mojo_jojo.Message.{Source, Message}
use mojo_jojo.Events.{Platform}
use mojo_jojo.Entities.User.{nick_of}
use mojo_jojo.Entities.Member.{Member}
use mojo_jojo.Entities.Channel.{Channel}
use mojo_jojo.State.Store.{
  max_channels, StateStore, push, emit_channel, update_slot, modify, with_channels, with_channel,
  with_users, is_self, user, channel, create_user, get_or_create_user, delete_channel,
  remove_channel, remove_member, channels_with_user, remove_members, forget_user, remove_user,
  prune_orphan, prune_members,
}
use mojo_jojo.State.Handlers.{Outcome, is_user_source, resolve_by, prune_if_orphan}
use mojo_jojo.State.Dispatcher.{new_dispatcher, run}
use mojo_jojo.State.Bounds.{get_or_create_user-IsBounded}
use mojo_jojo.State.Bounds.Membership.{resolve_by-IsBounded}
use mojo_jojo.State.Bounds.Run.{run-new-Retains}
use mojo_jojo.State.Dispatch.Membership.{leave_channel, on_part, on_kick}

-- No channel has the name.
abbrev pub Absent : Str → StateStore → Type 0
Absent name store = IrcMap.has store.server.channels name ≡ false

has-update_slot :
    (m : Dict (Entry Channel)) (key j : Str) (f : Channel → Channel)
    → Dict.has (update_slot m key f) j ≡ Dict.has m j
unfolding update_slot Dict.has
has-update_slot [] key j f = refl
has-update_slot ((k, e) ∷ m) key j f = ground (arith, has-update_slot m key j f)

has-remove :
    (m : Dict (Entry Channel)) (key : Str) → Distinct m → Dict.has (Dict.remove m key) key ≡ false
unfolding Dict.remove Dict.has
has-remove [] key d = refl
has-remove ((k, e) ∷ m) key d = ground (arith, str_eq_iff k key, d.0, has-remove m key d.1)

get-has :
    (m : Dict (Entry Channel)) (key : Str)
    → IrcMap.value_of (Dict.get m key) ≡ none
    → Dict.has m key ≡ false
unfolding Dict.get Dict.has
get-has [] key h = refl
get-has ((j, x) ∷ m) key h =
    if_lem
      (λ (o : Option (Entry Channel)). IrcMap.value_of o ≡ none → Dict.has ((j, x) ∷ m) key ≡ false)
      (str_eq j key) _ _ (λ t f. absurd (ground (arith, f)))
      (λ t f. ground (arith, t, get-has m key f)) h

module _ (name : Str) where
  remove_members-Absent :
      (names : List Str) (nick : Str) (store : StateStore)
      → Absent name store
      → Absent name (remove_members names nick store)
  unfolding remove_members remove_member with_channel with_channels modify IrcMap.has
  remove_members-Absent [] nick store h = h
  remove_members-Absent (other ∷ names) nick store h =
      let m = store.server.channels in
      remove_members-Absent names nick (remove_member other nick store)
        (has-update_slot m.entries (normalize m.mapper other) (normalize m.mapper name) _ ∙ h)

  prune_orphan-Absent :
      (nick : Str) (store : StateStore) → Absent name store → Absent name (prune_orphan nick store)
  unfolding prune_orphan remove_user forget_user with_users push
  prune_orphan-Absent nick store h =
      let removed : Absent name (remove_user nick store) =
        when_some_lem (Absent name) (user store nick) _ _ h
          (λ id e. remove_members-Absent (channels_with_user store nick) nick store h) in
      if_lem (Absent name) (is_self store nick) _ _ (λ e. h)
        (λ e.
          elim (channels_with_user store nick)
            as (λ l. Absent name (elim l [ [] ↦ remove_user nick store | other ∷ names ↦ store ])) [
              | [] ↦ removed
              | other ∷ names ↦ h
            ])

  prune_members-Absent :
      (members : Dict (Entry Member)) (store : StateStore)
      → Absent name store
      → Absent name (prune_members members store)
  unfolding prune_members
  prune_members-Absent [] store h = h
  prune_members-Absent ((k, e) ∷ members) store h =
      prune_members-Absent members (prune_orphan (nick_of store.heap e.value.user) store)
        (prune_orphan-Absent (nick_of store.heap e.value.user) store h)

  prune_if_orphan-Absent :
      (by : Option ℕ) (store : StateStore)
      → Absent name store
      → Absent name (prune_if_orphan by store)
  unfolding prune_if_orphan
  prune_if_orphan-Absent none store h = h
  prune_if_orphan-Absent (some id) store h = prune_orphan-Absent (nick_of store.heap id) store h

  delete_channel-Absent :
      (found : Option Channel) (store : StateStore)
      → IsKeyed store.server.channels
      → found ≡ channel store name
      → Absent name (delete_channel name found store)
  unfolding delete_channel with_channels push IrcMap.delete IrcMap.has channel IrcMap.get
  delete_channel-Absent none store k e = get-has _ _ (sym e)
  delete_channel-Absent (some found) store k e = has-remove store.server.channels.entries _ k.0

  -- Our own leaving removes the channel.
  pub leave_channel-Absent :
      (nick : Str) (found : Channel) (store : StateStore)
      → IsKeyed store.server.channels
      → Absent name (leave_channel name nick true found store)
  unfolding leave_channel remove_channel
  leave_channel-Absent nick found store k =
      prune_members-Absent found.members.entries (remove_channel name store)
        (delete_channel-Absent (channel store name) store k refl)

-- The nick that is ours stays ours while a user is made.
is_self-get_or_create_user :
    (made nick : Str) (store : StateStore)
    → is_self (get_or_create_user made store).0 nick ≡ is_self store nick
unfolding get_or_create_user create_user with_users is_self
is_self-get_or_create_user made nick store =
    when_some_lem (λ (r : StateStore × ℕ). is_self r.0 nick ≡ is_self store nick) (user store made)
      _ _ refl (λ id e. refl)

is_self-resolve_by :
    (source : Option Source) (nick : Str) (store : StateStore)
    → is_self (resolve_by source store).0 nick ≡ is_self store nick
unfolding resolve_by
is_self-resolve_by none nick store = refl
is_self-resolve_by (some source) nick store =
    if_lem (λ (r : StateStore × Option ℕ). is_self r.0 nick ≡ is_self store nick)
      (is_user_source source) _ _ (λ e. is_self-get_or_create_user source.name nick store)
      (λ e. refl)

channel-none : (name : Str) (store : StateStore) → channel store name ≡ none → Absent name store
unfolding channel IrcMap.get IrcMap.has
channel-none name store e = get-has store.server.channels.entries _ e

module _ (name : Str) where
  leave_channel-own :
      (nick : Str) (self : Bool) (found : Channel) (store : StateStore)
      → self ≡ true
      → IsKeyed store.server.channels
      → Absent name (leave_channel name nick self found store)
  leave_channel-own nick true found store e k = leave_channel-Absent name nick found store k
  leave_channel-own nick false found store e k = absurd (ground (arith, e))

  abbrev Gone : Outcome → Type 0
  Gone r = Absent name r.0

module _ (p : Platform) (message : Message) (name nick : Str)
    (inputs : List (Platform × Message)) where
  -- Behind a PART from our own nick, whatever came before, no channel has the name that it gives.
  pub on_part-Absent :
      (source : Source)
      → message.source ≡ some source
      → get_elem? message.params 0 ≡ some name
      → is_self (run inputs (new_dispatcher nick)).store source.name ≡ true
      → Absent name (on_part p message (run inputs (new_dispatcher nick)).store).0
  unfolding on_part emit_channel push
  on_part-Absent source from first self =
      let store = (run inputs (new_dispatcher nick)).store in
      let made =
        get_or_create_user-IsBounded max_channels source.name store
          (run-new-Retains nick inputs).0 in
      when_some-found (Gone name) message.source _ _ source from (
        when_some-found (Gone name) (get_elem? message.params 0) _ _ name first (
          when_some-cases (Gone name) (channel store name) _ _ (λ e. channel-none name store e)
            (λ found e.
              leave_channel-own name source.name _ found _
                (is_self-get_or_create_user source.name source.name store ∙ self) made.2)))

  -- Behind a KICK of our own nick, whatever came before, no channel has the name that it gives.
  pub on_kick-Absent :
      (target : Str)
      → get_elem? message.params 0 ≡ some name
      → get_elem? message.params 1 ≡ some target
      → is_self (run inputs (new_dispatcher nick)).store target ≡ true
      → Absent name (on_kick p message (run inputs (new_dispatcher nick)).store).0
  unfolding on_kick emit_channel push
  on_kick-Absent target first second self =
      let store = (run inputs (new_dispatcher nick)).store in
      let c = get_or_create_user target store in
      let made =
        resolve_by-IsBounded max_channels message.source c.0 (
          get_or_create_user-IsBounded max_channels target store (run-new-Retains nick inputs).0) in
      when_some-found (Gone name) (get_elem? message.params 0) _ _ name first (
        when_some-found (Gone name) (get_elem? message.params 1) _ _ target second (
          when_some-cases (Gone name) (channel store name) _ _ (λ e. channel-none name store e)
            (λ found e. prune_if_orphan-Absent name (resolve_by message.source c.0).1 _ (
              leave_channel-own name target _ found _
                (is_self-resolve_by message.source target c.0
                  ∙ is_self-get_or_create_user target target store
                  ∙ self)
                made.2))))
