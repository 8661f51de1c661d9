-- ===== src/State/Bounds/Settings.antt =====
-- dispatch.ts: the registration burst, topics, modes and messages make no channel, and keep the lists
-- bounded.
use mojo_jojo.Base.{
  ℕ, Bool, List, [], ◌∷◌, Option, none, some, Str, codes, get_elem?, drop, if_lem, when_some_lem,
}
use mojo_jojo.Base.Dict
use mojo_jojo.Message.{Source, Message}
use mojo_jojo.Modes.{ModeChange, parse_mode_changes}
use mojo_jojo.Isupport.{is_channel_name}
use mojo_jojo.Events.{Platform, IrcEvent}
use mojo_jojo.Entities.User.{update_from_source}
use mojo_jojo.Entities.Channel.{Channel, set_topic, apply_channel_mode}
use mojo_jojo.Entities.Server.{set_nick, set_name}
use mojo_jojo.Entities.Bounds.{apply_channel_mode-ListsBounded}
use mojo_jojo.State.Store.{
  StateStore, push, emit_channel, emit_user, with_channel, with_user, channel, get_or_create_user,
  mark_self,
}
use mojo_jojo.State.Handlers.{is_user_source, resolve_by}
use mojo_jojo.State.Dispatch.Settings.{
  named_by, on_welcome, on_isupport, on_topic_reply, on_topic_who_time, on_topic, is_status,
  apply_status, apply_change, apply_changes, on_user_mode, on_channel_mode, on_mode,
}
use mojo_jojo.State.Dispatch.Messages.{
  with_account, emit_option, on_privmsg_from, on_privmsg, tell_source, emit_user_option, on_notice,
}
use mojo_jojo.State.Bounds.{
  IsBounded, with_channel-IsBounded, with_member-IsBounded, get_or_create_user-IsBounded,
}
use mojo_jojo.State.Bounds.Rekey.{apply_isupport-IsBounded}
use mojo_jojo.State.Bounds.Membership.{Keeps, prune_if_orphan-IsBounded, resolve_by-IsBounded}

module _ (n : ℕ) where
  topic-IsBounded :
      (name : Str) (topic set_by : Option Str) (set_at : Option Str) (store : StateStore)
      → IsBounded n store
      → IsBounded n (with_channel name (set_topic topic set_by set_at) store)
  unfolding set_topic
  topic-IsBounded name topic set_by set_at store = with_channel-IsBounded n name _ store (λ c h. h)

  pub on_welcome-Keeps :
      (message : Message) (store : StateStore)
      → IsBounded n store
      → Keeps n (on_welcome message store)
  unfolding on_welcome mark_self set_nick set_name
  on_welcome-Keeps message store b =
      let named = named_by-IsBounded message.source in
      when_some_lem (Keeps n) (get_elem? message.params 0) _ _ named
        λ nick e. get_or_create_user-IsBounded n nick _ named
    where
      named_by-IsBounded : (source : Option Source) → IsBounded n (named_by source store)
      named_by-IsBounded none = b
      named_by-IsBounded (some source) = b

  pub on_isupport-Keeps :
      (p : Platform) (message : Message) (store : StateStore)
      → IsBounded n store
      → Keeps n (on_isupport p message store)
  unfolding on_isupport
  on_isupport-Keeps p message store = apply_isupport-IsBounded n p.text_ops _ store

  pub on_topic_reply-Keeps :
      (p : Platform) (message : Message) (store : StateStore)
      → IsBounded n store
      → Keeps n (on_topic_reply p message store)
  unfolding on_topic_reply emit_channel push
  on_topic_reply-Keeps p message store b =
      when_some_lem (Keeps n) (get_elem? message.params 1) _ _ b λ name e.
        when_some_lem (Keeps n) (channel store name) _ _ b
          λ found f. topic-IsBounded name _ none none store b

  pub on_topic_who_time-Keeps :
      (p : Platform) (message : Message) (store : StateStore)
      → IsBounded n store
      → Keeps n (on_topic_who_time p message store)
  unfolding on_topic_who_time
  on_topic_who_time-Keeps p message store b =
      when_some_lem (Keeps n) (get_elem? message.params 1) _ _ b λ name e.
        when_some_lem (Keeps n) (channel store name) _ _ b
          λ found f. topic-IsBounded name found.topic (get_elem? message.params 2) _ store b

  pub on_topic-Keeps :
      (p : Platform) (message : Message) (store : StateStore)
      → IsBounded n store
      → Keeps n (on_topic p message store)
  unfolding on_topic emit_channel push
  on_topic-Keeps p message store b =
      when_some_lem (Keeps n) (get_elem? message.params 0) _ _ b λ name e.
        when_some_lem (Keeps n) (channel store name) _ _ b λ found f.
          prune_if_orphan-IsBounded n (resolve_by message.source store).1 _ (
            topic-IsBounded name (get_elem? message.params 1) _ _ _
              (resolve_by-IsBounded n message.source store b))

  apply_status-IsBounded :
      (name : Str) (added : Bool) (mode : Str) (nick : Option Str) (store : StateStore)
      → IsBounded n store
      → IsBounded n (apply_status name added mode nick store)
  unfolding apply_status
  apply_status-IsBounded name added mode none store b = b
  apply_status-IsBounded name added mode (some nick) store b =
      with_member-IsBounded n name nick _ store b

  apply_change-IsBounded :
      (name : Str) (change : ModeChange) (store : StateStore)
      → IsBounded n store
      → IsBounded n (apply_change name change store)
  unfolding apply_change
  apply_change-IsBounded name change store b =
      let plain =
        with_channel-IsBounded n name (apply_channel_mode change) store
          (apply_channel_mode-ListsBounded change) b in
      if_lem (IsBounded n) (is_status change.kind) _ _
        (λ e. apply_status-IsBounded name change.added change.mode change.param store b)
        (λ e. plain)

  apply_changes-IsBounded :
      (name : Str) (changes : List ModeChange) (store : StateStore)
      → IsBounded n store
      → IsBounded n (apply_changes name changes store)
  unfolding apply_changes
  apply_changes-IsBounded name [] store b = b
  apply_changes-IsBounded name (change ∷ changes) store b =
      apply_changes-IsBounded name changes (apply_change name change store)
        (apply_change-IsBounded name change store b)

  pub on_mode-Keeps :
      (p : Platform) (message : Message) (store : StateStore)
      → IsBounded n store
      → Keeps n (on_mode p message store)
  unfolding on_mode on_channel_mode on_user_mode emit_channel push
  on_mode-Keeps p message store b =
      when_some_lem (Keeps n) (get_elem? message.params 0) _ _ b λ target e.
        when_some_lem (Keeps n) (get_elem? message.params 1) _ _ b λ mode_string f.
          let r = resolve_by message.source store in
          let told = resolve_by-IsBounded n message.source store b in
          if_lem (Keeps n) (is_channel_name target store.server.isupport) _ _
            (λ g. when_some_lem (Keeps n) (channel store target) _ _ b λ found h.
              prune_if_orphan-IsBounded n r.1 _ (
                apply_changes-IsBounded target
                  (parse_mode_changes mode_string (drop 2 message.params) r.0.server.isupport) r.0
                  told))
            (λ g. prune_if_orphan-IsBounded n r.1 r.0 told)

  with_account-IsBounded :
      (account : Option Str) (id : ℕ) (store : StateStore)
      → IsBounded n store
      → IsBounded n (with_account account id store)
  unfolding with_account with_user
  with_account-IsBounded none id store b = b
  with_account-IsBounded (some account) id store b = b

  emit_option-IsBounded :
      (found : Option Channel) (event : IrcEvent) (store : StateStore)
      → IsBounded n store
      → IsBounded n (emit_option found event store)
  unfolding emit_channel push
  emit_option-IsBounded none event store b = b
  emit_option-IsBounded (some found) event store b = b

  emit_user_option-IsBounded :
      (id : Option ℕ) (event : IrcEvent) (store : StateStore)
      → IsBounded n store
      → IsBounded n (emit_user_option id event store)
  unfolding emit_user push
  emit_user_option-IsBounded none event store b = b
  emit_user_option-IsBounded (some id) event store b = b

  pub on_privmsg-Keeps :
      (p : Platform) (message : Message) (store : StateStore)
      → IsBounded n store
      → Keeps n (on_privmsg p message store)
  unfolding on_privmsg on_privmsg_from emit_user push with_user
  on_privmsg-Keeps p message store b = when_some_lem (Keeps n) message.source _ _ b λ source e.
      when_some_lem (Keeps n) (get_elem? message.params 0) _ _ b λ target f.
        when_some_lem (Keeps n) (get_elem? message.params 1) _ _ b λ text g.
          let c = get_or_create_user source.name store in
          let made = get_or_create_user-IsBounded n source.name store b in
          if_lem (Keeps n) (is_user_source source) _ _
            (λ h. prune_if_orphan-IsBounded n (some c.1) _ (
              emit_option-IsBounded _ _ _ (
                with_account-IsBounded (Dict.get message.tags (codes "account")) c.1
                  (with_user c.1 (update_from_source source) c.0) made)))
            (λ h. b)

  tell_source-IsBounded :
      (message : Message) (id : Option ℕ) (store : StateStore)
      → IsBounded n store
      → IsBounded n (tell_source message id store)
  unfolding tell_source with_user
  tell_source-IsBounded message none store b = b
  tell_source-IsBounded message (some id) store b =
      when_some_lem (IsBounded n) message.source _ _ b λ source e.
        with_account-IsBounded (Dict.get message.tags (codes "account")) id
          (with_user id (update_from_source source) store) b

  pub on_notice-Keeps :
      (p : Platform) (message : Message) (store : StateStore)
      → IsBounded n store
      → Keeps n (on_notice p message store)
  unfolding on_notice
  on_notice-Keeps p message store b =
      when_some_lem (Keeps n) (get_elem? message.params 0) _ _ b λ target e.
        when_some_lem (Keeps n) (get_elem? message.params 1) _ _ b λ text f.
          let r = resolve_by message.source store in
          prune_if_orphan-IsBounded n r.1 _ (
            emit_user_option-IsBounded r.1 _ _ (
              emit_option-IsBounded _ _ _ (
                tell_source-IsBounded message r.1 r.0
                  (resolve_by-IsBounded n message.source store b))))
