-- ===== src/State/Bounds/Membership.antt =====
-- dispatch.ts: the handlers of memberships and of what users report of themselves make no channel, but
-- for our own join, and keep the lists bounded.
use mojo_jojo.Base.{
  ℕ, Bool, true, false, not, ◌&&◌, List, [], ◌∷◌, Option, none, some, ◌≡◌, ◌⊎◌, inl, inr, sym,
  subst, arith, Str, get_elem?, leb, if_lem, when_some_lem,
}
use mojo_jojo.CaseMapping.IrcMap
use mojo_jojo.Message.{Source, Message}
use mojo_jojo.Events.{Platform, IrcEvent}
use mojo_jojo.Entities.User.{nick_of}
use mojo_jojo.Entities.Channel.{Channel}
use mojo_jojo.State.Store.{
  StateStore, max_channels, push, emit_channel, emit_user, with_user, is_self, user, channel,
  get_or_create_user, get_or_create_channel, remove_channel, remove_member, rename_user,
  channels_with_user,
}
use mojo_jojo.State.Handlers.{
  Outcome, is_user_source, prune_if_orphan, resolve_by, from_known_user, emit_shared,
}
use mojo_jojo.State.Dispatch.Membership.{
  max_members_per_channel, extend_join, join_channel, admit_join, joined_channel, on_join,
  leave_channel, on_part, on_quit, on_kick, on_nick,
}
use mojo_jojo.State.Dispatch.Attributes.{on_account, on_away, on_chghost, on_setname}
use mojo_jojo.State.Bounds.{
  IsBounded, add_member-IsBounded, remove_member-IsBounded, remove_user-IsBounded,
  prune_orphan-IsBounded, prune_members-IsBounded, emit_channels-IsBounded,
  get_or_create_user-IsBounded, remove_channel-IsBounded,
}
use mojo_jojo.State.Bounds.Rekey.{rename_user-IsBounded, get_or_create_channel-IsBounded}

-- The bound, behind a handler.
abbrev pub Keeps : ℕ → Outcome → Type 0
Keeps n r = IsBounded n r.0

-- There is room for a channel, or the message is not ours.
abbrev pub Room : ℕ → Message → StateStore → Type 0
Room n message store =
    (n ≡ max_channels)
    ⊎ ((source : Source) → message.source ≡ some source → is_self store source.name ≡ false)

module _ (n : ℕ) where
  pub prune_if_orphan-IsBounded :
      (by : Option ℕ) (store : StateStore)
      → IsBounded n store
      → IsBounded n (prune_if_orphan by store)
  unfolding prune_if_orphan
  prune_if_orphan-IsBounded none store b = b
  prune_if_orphan-IsBounded (some id) store b =
      prune_orphan-IsBounded n (nick_of store.heap id) store b

  pub resolve_by-IsBounded :
      (source : Option Source) (store : StateStore)
      → IsBounded n store
      → IsBounded n (resolve_by source store).0
  unfolding resolve_by
  resolve_by-IsBounded none store b = b
  resolve_by-IsBounded (some source) store b =
      if_lem (λ (r : StateStore × Option ℕ). IsBounded n r.0) (is_user_source source) _ _
        (λ e. get_or_create_user-IsBounded n source.name store b) (λ e. b)

  emit_shared-Keeps :
      (id : ℕ) (channels : List Str) (event : IrcEvent) (store : StateStore)
      → IsBounded n store
      → Keeps n (emit_shared id channels event store)
  unfolding emit_shared emit_user push
  emit_shared-Keeps id channels event store b =
      emit_channels-IsBounded n channels event (emit_user id event store) b

  from_known_user-Keeps :
      (store : StateStore) (message : Message) (next : Source → ℕ → Outcome)
      → ((source : Source) (id : ℕ) → Keeps n (next source id))
      → IsBounded n store
      → Keeps n (from_known_user store message next)
  unfolding from_known_user
  from_known_user-Keeps store message next h b =
      when_some_lem (Keeps n) message.source _ _ b λ source e.
        when_some_lem (Keeps n) (user store source.name) _ _ b
          λ id f. if_lem (Keeps n) (is_user_source source) _ _ (λ g. h source id) (λ g. b)

  leave_channel-IsBounded :
      (name nick : Str) (self : Bool) (found : Channel) (store : StateStore)
      → IsBounded n store
      → IsBounded n (leave_channel name nick self found store)
  unfolding leave_channel
  leave_channel-IsBounded name nick true found store b =
      prune_members-IsBounded n found.members.entries (remove_channel name store)
        (remove_channel-IsBounded n name store b)
  leave_channel-IsBounded name nick false found store b =
      prune_orphan-IsBounded n nick (remove_member name nick store)
        (remove_member-IsBounded n name nick store b)

  extend_join-IsBounded :
      (params : List Str) (id : ℕ) (store : StateStore)
      → IsBounded n store
      → IsBounded n (extend_join params id store)
  unfolding extend_join with_user
  extend_join-IsBounded [] id store b = b
  extend_join-IsBounded (a ∷ []) id store b = b
  extend_join-IsBounded (a ∷ c ∷ []) id store b = b
  extend_join-IsBounded (a ∷ c ∷ d ∷ params) id store b = b

  join_channel-Keeps :
      (p : Platform) (message : Message) (source : Source) (name : Str) (self : Bool)
      (found : Channel) (store : StateStore)
      → IsBounded n store
      → Keeps n (join_channel p message source name self found store)
  unfolding join_channel emit_channel push with_user
  join_channel-Keeps p message source name self found store b = add_member-IsBounded n name _ _ (
      extend_join-IsBounded message.params _ _ (get_or_create_user-IsBounded n source.name store b))

  admit_join-Keeps :
      (p : Platform) (message : Message) (source : Source) (name : Str) (self : Bool)
      (found : Channel) (store : StateStore)
      → IsBounded n store
      → Keeps n (admit_join p message source name self found store)
  unfolding admit_join
  admit_join-Keeps p message source name self found store b =
      if_lem (Keeps n)
        (not self
          && not (IrcMap.has found.members source.name)
          && leb max_members_per_channel (IrcMap.size found.members))
        _ _ (λ e. b) (λ e. join_channel-Keeps p message source name self found store b)

  joined_channel-IsBounded :
      (name : Str) (self : Bool) (store : StateStore)
      → (n ≡ max_channels) ⊎ (self ≡ false)
      → IsBounded n store
      → IsBounded n (joined_channel name self store).0
  unfolding joined_channel
  joined_channel-IsBounded name false store room b = b
  joined_channel-IsBounded name true store (inr e) b = absurd (ground (arith, e))
  joined_channel-IsBounded name true store (inl e) b =
      subst (λ m. IsBounded m (get_or_create_channel name store).0) (sym e)
        (get_or_create_channel-IsBounded name store (subst (λ m. IsBounded m store) e b))

  pub on_join-Keeps :
      (p : Platform) (message : Message) (store : StateStore)
      → Room n message store
      → IsBounded n store
      → Keeps n (on_join p message store)
  unfolding on_join
  on_join-Keeps p message store room b = when_some_lem (Keeps n) message.source _ _ b λ source e.
      when_some_lem (Keeps n) (get_elem? message.params 0) _ _ b λ name f.
        let self = is_self store source.name in
        let made =
          joined_channel-IsBounded name self store
            (elim room [ inl r ↦ inl r | inr r ↦ inr (r source e) ]) b in
        when_some_lem (Keeps n) (joined_channel name self store).1 _ _ made λ found g.
          admit_join-Keeps p message source name self found (joined_channel name self store).0 made

  pub on_part-Keeps :
      (p : Platform) (message : Message) (store : StateStore)
      → IsBounded n store
      → Keeps n (on_part p message store)
  unfolding on_part emit_channel push
  on_part-Keeps p message store b = when_some_lem (Keeps n) message.source _ _ b λ source e.
      when_some_lem (Keeps n) (get_elem? message.params 0) _ _ b λ name f.
        when_some_lem (Keeps n) (channel store name) _ _ b λ found g.
          leave_channel-IsBounded name source.name _ found _
            (get_or_create_user-IsBounded n source.name store b)

  pub on_quit-Keeps :
      (p : Platform) (message : Message) (store : StateStore)
      → IsBounded n store
      → Keeps n (on_quit p message store)
  unfolding on_quit emit_user push
  on_quit-Keeps p message store b = when_some_lem (Keeps n) message.source _ _ b λ source e.
      when_some_lem (Keeps n) (user store source.name) _ _ b λ id f.
        remove_user-IsBounded n source.name _
          (emit_channels-IsBounded n (channels_with_user store source.name) _ store b)

  pub on_kick-Keeps :
      (p : Platform) (message : Message) (store : StateStore)
      → IsBounded n store
      → Keeps n (on_kick p message store)
  unfolding on_kick emit_channel push
  on_kick-Keeps p message store b =
      when_some_lem (Keeps n) (get_elem? message.params 0) _ _ b λ name e.
        when_some_lem (Keeps n) (get_elem? message.params 1) _ _ b λ nick f.
          when_some_lem (Keeps n) (channel store name) _ _ b λ found g.
            let c = get_or_create_user nick store in
            prune_if_orphan-IsBounded (resolve_by message.source c.0).1 _ (
              leave_channel-IsBounded name nick _ found _ (
                resolve_by-IsBounded message.source c.0
                  (get_or_create_user-IsBounded n nick store b)))

  pub on_nick-Keeps :
      (p : Platform) (message : Message) (store : StateStore)
      → IsBounded n store
      → Keeps n (on_nick p message store)
  unfolding on_nick
  on_nick-Keeps p message store b = when_some_lem (Keeps n) message.source _ _ b λ source e.
      when_some_lem (Keeps n) (get_elem? message.params 0) _ _ b λ new_nick f.
        let r = rename_user source.name new_nick store in
        let moved = rename_user-IsBounded n source.name new_nick store b in
        when_some_lem (Keeps n) r.1 _ _ moved
          λ renamed g. emit_shared-Keeps renamed.0 renamed.1 _ r.0 moved

  pub on_account-Keeps :
      (p : Platform) (message : Message) (store : StateStore)
      → IsBounded n store
      → Keeps n (on_account p message store)
  unfolding on_account with_user
  on_account-Keeps p message store b =
      from_known_user-Keeps store message _ (λ source id. emit_shared-Keeps id _ _ _ b) b

  pub on_away-Keeps :
      (p : Platform) (message : Message) (store : StateStore)
      → IsBounded n store
      → Keeps n (on_away p message store)
  unfolding on_away with_user
  on_away-Keeps p message store b =
      from_known_user-Keeps store message _ (λ source id. emit_shared-Keeps id _ _ _ b) b

  pub on_setname-Keeps :
      (p : Platform) (message : Message) (store : StateStore)
      → IsBounded n store
      → Keeps n (on_setname p message store)
  unfolding on_setname with_user
  on_setname-Keeps p message store b =
      from_known_user-Keeps store message _ (λ source id. emit_shared-Keeps id _ _ _ b) b

  pub on_chghost-Keeps :
      (p : Platform) (message : Message) (store : StateStore)
      → IsBounded n store
      → Keeps n (on_chghost p message store)
  unfolding on_chghost with_user
  on_chghost-Keeps p message store b =
      from_known_user-Keeps store message _
        (λ source id. when_some_lem (Keeps n) (get_elem? message.params 0) _ _ b λ new_user e.
          when_some_lem (Keeps n) (get_elem? message.params 1) _ _ b
            λ new_host f. emit_shared-Keeps id _ _ _ b)
        b
