-- ===== src/State/Bounds/Rekey.antt =====
-- StateStore.ts: a rename and a line of 005 make no channel, and only a new channel needs room.
use mojo_jojo.Base.{
  ℕ, suc, List, [], ◌∷◌, Option, ◌≡◌, refl, ◌∙◌, arith, Str, length, leb, if_lem, when_some_lem, ap,
  ◌==◌,
}
use mojo_jojo.Base.Dict
use mojo_jojo.Base.Dict.{Dict, AllValues, AllValues-put, length-put}
use mojo_jojo.CaseMapping.{CaseMapping, normalize}
use mojo_jojo.CaseMapping.IrcMap
use mojo_jojo.CaseMapping.IrcMap.{Entry, IrcMap}
use mojo_jojo.CaseMapping.MapLaws.{KeyedBy, set-delete-IsKeyed}
use mojo_jojo.Isupport.{TextOps, parse_isupport}
use mojo_jojo.Entities.User.{Heap}
use mojo_jojo.Entities.Channel.{Channel, new_channel}
use mojo_jojo.Entities.Server
use mojo_jojo.Entities.Server.{Server, set_nick, map_values, rekey_members, rekeyed, same_mapping}
use mojo_jojo.Entities.Bounds.{ListsBounded, rekey-AtMost}
use mojo_jojo.State.Store.{
  StateStore, StreamAction, max_channels, push, with_channels, with_members, with_user, with_users,
  is_self, user, channel, create_channel, get_or_create_channel, prune_members, dispose_channels,
  drop_user, dispose_users, apply_isupport, forget_user, move_user, rename_found, rename_user,
  channels_with_user,
}
use mojo_jojo.State.Bounds.{
  Fits, IsBounded, Lists, prune_members-IsBounded, forget_user-IsBounded, rename_members-IsBounded,
}

map_values-Lists :
    (f : Channel → Channel) (m : Dict (Entry Channel))
    → ((c : Channel) → ListsBounded c → ListsBounded (f c))
    → AllValues Lists m
    → (length (map_values f m) ≡ length m) × AllValues Lists (map_values f m)
unfolding map_values
map_values-Lists f [] h a = (refl, tt)
map_values-Lists f ((k, e) ∷ m) h a =
    let r = map_values-Lists f m h a.1 in (ap suc r.0, (h e.value a.0, r.1))

has-map_values :
    (f : Channel → Channel) (m : Dict (Entry Channel)) (j : Str)
    → Dict.has (map_values f m) j ≡ Dict.has m j
unfolding map_values Dict.has
has-map_values f [] j = refl
has-map_values f ((k, e) ∷ m) j = ground (arith, has-map_values f m j)

map_values-KeyedBy :
    (mapper : CaseMapping) (f : Channel → Channel) (m : Dict (Entry Channel))
    → KeyedBy mapper m
    → KeyedBy mapper (map_values f m)
unfolding map_values
map_values-KeyedBy mapper f [] h = h
map_values-KeyedBy mapper f ((k, e) ∷ m) h =
    let r = map_values-KeyedBy mapper f m (h.0.1, h.1.1) in
    ((has-map_values f m k ∙ h.0.0, r.0), (h.1.0, r.1))

module _ (n : ℕ) where
  map_values-Fits :
      (f : Channel → Channel) (m : IrcMap Channel)
      → ((c : Channel) → ListsBounded c → ListsBounded (f c))
      → Fits n m
      → Fits n (record m { entries = map_values f m.entries })
  unfolding IrcMap.size
  map_values-Fits f m h b =
      let r = map_values-Lists f m.entries h b.1 in
      (omega (arith, b.0, r.0), r.1, map_values-KeyedBy m.mapper f m.entries b.2)

  dispose_channels-IsBounded :
      (channels : List Channel) (store : StateStore)
      → IsBounded n store
      → IsBounded n (dispose_channels channels store)
  unfolding dispose_channels push
  dispose_channels-IsBounded [] store b = b
  dispose_channels-IsBounded (c ∷ channels) store b =
      let disposed = push (StreamAction.complete_channel c.name) store in
      dispose_channels-IsBounded channels (prune_members c.members.entries disposed)
        (prune_members-IsBounded n c.members.entries disposed b)

  dispose_users-IsBounded :
      (ids : List ℕ) (store : StateStore)
      → IsBounded n store
      → IsBounded n (dispose_users ids store)
  unfolding dispose_users push with_channels drop_user with_members
  dispose_users-IsBounded [] store b = b
  dispose_users-IsBounded (id ∷ ids) store b =
      dispose_users-IsBounded ids _
        (map_values-Fits (drop_user store.heap id) store.server.channels (λ c h. h) b)

  server-Fits :
      (ops : TextOps) (heap : Heap) (tokens : List Str) (server : Server)
      → Fits n server.channels
      → Fits n (Server.apply_isupport ops heap tokens server).0.channels
  unfolding Server.apply_isupport rekeyed rekey_members
  server-Fits ops heap tokens server b =
      let next = parse_isupport ops tokens server.isupport in
      if_lem (λ (r : Server × List Channel × List ℕ). Fits n r.0.channels)
        (same_mapping next.case_mapping server.isupport.case_mapping) _ _ (λ e. b)
        (λ e.
          map_values-Fits (rekey_members heap next.case_mapping) _ (λ c h. h)
            (rekey-AtMost ListsBounded server.channels next.case_mapping _ n b))

  pub apply_isupport-IsBounded :
      (ops : TextOps) (tokens : List Str) (store : StateStore)
      → IsBounded n store
      → IsBounded n (apply_isupport ops tokens store)
  unfolding apply_isupport
  apply_isupport-IsBounded ops tokens store b =
      let r = Server.apply_isupport ops store.heap tokens store.server in
      let moved : StateStore = record store { server = r.0 } in
      dispose_users-IsBounded r.2 (dispose_channels r.1 moved)
        (dispose_channels-IsBounded r.1 moved (server-Fits ops store.heap tokens store.server b))

  rename_found-IsBounded :
      (old_nick new_nick : Str) (id : ℕ) (store : StateStore)
      → IsBounded n store
      → IsBounded n (rename_found old_nick new_nick id store).0
  unfolding rename_found move_user with_users with_user set_nick
  rename_found-IsBounded old_nick new_nick id store b =
      let moved : IsBounded n (move_user old_nick new_nick id store) =
        rename_members-IsBounded n (channels_with_user store old_nick) old_nick new_nick _ b in
      if_lem (IsBounded n) (is_self store old_nick) _ _ (λ e. moved) (λ e. moved)

  pub rename_user-IsBounded :
      (old_nick new_nick : Str) (store : StateStore)
      → IsBounded n store
      → IsBounded n (rename_user old_nick new_nick store).0
  unfolding rename_user
  rename_user-IsBounded old_nick new_nick store b =
      let Q = λ (r : StateStore × Option (ℕ × List Str)). IsBounded n r.0 in
      when_some_lem Q (user store old_nick) _ _ b λ id e.
        when_some_lem Q (user store new_nick) _ _
          (rename_found-IsBounded old_nick new_nick id store b)
          λ other f.
            if_lem Q (other == id) _ _ (λ g. rename_found-IsBounded old_nick new_nick id store b)
              (λ g.
                if_lem Q (is_self store new_nick) _ _ (λ k. b)
                  (λ k.
                    rename_found-IsBounded old_nick new_nick id (forget_user new_nick other store)
                      (forget_user-IsBounded n new_nick other store b)))

create_channel-IsBounded :
    (name : Str) (store : StateStore)
    → IsBounded max_channels store
    → IsBounded max_channels (create_channel name store).0
unfolding create_channel with_channels IrcMap.set IrcMap.size new_channel
create_channel-IsBounded name store b =
    let m = store.server.channels in
    let key = normalize m.mapper name in
    if_lem (λ (r : StateStore × Option Channel). IsBounded max_channels r.0)
      (leb max_channels (length m.entries)) _ _ (λ e. b)
      (λ e. (
        ground (
          arith,
          b.0,
          e,
          length-put m.entries key
              (record { key = name; value = new_channel name store.server.case_mapper }),
        ),
        AllValues-put Lists m.entries key _ tt b.1,
        (set-delete-IsKeyed m name (new_channel name store.server.case_mapper) b.2).0,
      ))

-- There is room for a channel that is made.
pub get_or_create_channel-IsBounded :
    (name : Str) (store : StateStore)
    → IsBounded max_channels store
    → IsBounded max_channels (get_or_create_channel name store).0
unfolding get_or_create_channel
get_or_create_channel-IsBounded name store b =
    when_some_lem (λ (r : StateStore × Option Channel). IsBounded max_channels r.0)
      (channel store name) _ _ (create_channel-IsBounded name store b) (λ found e. b)
