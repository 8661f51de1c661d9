-- ===== src/State/Bounds/Replies.antt =====
-- dispatch.ts: the replies to WHO and NAMES make no channel, and keep the lists bounded.
use mojo_jojo.Base.{
  ℕ, not, ◌&&◌, ◌||◌, List, [], ◌∷◌, Option, none, some, Str, str_eq, codes, get_elem?, leb, if_lem,
  when_some_lem,
}
use mojo_jojo.CaseMapping.IrcMap
use mojo_jojo.Capabilities.{split_words}
use mojo_jojo.Message.{Message}
use mojo_jojo.Isupport.{or_empty}
use mojo_jojo.Whox.{parse_whox_reply}
use mojo_jojo.Events.{Platform}
use mojo_jojo.State.Store.{
  StateStore, push, emit_channel, with_user, user, channel, get_or_create_user,
}
use mojo_jojo.State.Handlers.{is_some}
use mojo_jojo.State.Dispatch.Membership.{max_members_per_channel}
use mojo_jojo.State.Dispatch.Attributes.{
  told_flags, told_name, told_account, told_status, on_who_reply, on_whox_reply, behind_space,
}
use mojo_jojo.State.Dispatch.Names.{
  NamesEntry, split_names_entry, with_identity, add_name, names_entry, names_step, names_loop,
  on_namreply, on_end_of_names,
}
use mojo_jojo.State.Bounds.{
  IsBounded, add_member-IsBounded, with_member-IsBounded, get_or_create_user-IsBounded,
}
use mojo_jojo.State.Bounds.Membership.{Keeps}

module _ (n : ℕ) where
  told_flags-IsBounded :
      (flags : Option Str) (id : ℕ) (store : StateStore)
      → IsBounded n store
      → IsBounded n (told_flags flags id store)
  unfolding told_flags with_user
  told_flags-IsBounded none id store b = b
  told_flags-IsBounded (some flags) id store b = b

  told_name-IsBounded :
      (real_name : Str) (id : ℕ) (store : StateStore)
      → IsBounded n store
      → IsBounded n (told_name real_name id store)
  unfolding told_name with_user
  told_name-IsBounded [] id store b = b
  told_name-IsBounded (c ∷ s) id store b = b

  told_account-IsBounded :
      (account : Option Str) (id : ℕ) (store : StateStore)
      → IsBounded n store
      → IsBounded n (told_account account id store)
  unfolding told_account with_user
  told_account-IsBounded none id store b = b
  told_account-IsBounded (some account) id store b = b

  told_status-IsBounded :
      (name : Option Str) (nick : Str) (flags : Option Str) (store : StateStore)
      → IsBounded n store
      → IsBounded n (told_status name nick flags store)
  unfolding told_status
  told_status-IsBounded none nick flags store b = b
  told_status-IsBounded (some name) nick none store b = b
  told_status-IsBounded (some name) nick (some flags) store b =
      if_lem (IsBounded n) (str_eq name (codes "*")) _ _ (λ e. b)
        (λ e. with_member-IsBounded n name nick _ store b)

  pub on_who_reply-Keeps :
      (message : Message) (store : StateStore)
      → IsBounded n store
      → Keeps n (on_who_reply message store)
  unfolding on_who_reply with_user
  on_who_reply-Keeps message store b =
      when_some_lem (Keeps n) (get_elem? message.params 5) _ _ b λ nick e.
        when_some_lem (Keeps n) (user store nick) _ _ b λ id f.
          told_name-IsBounded (behind_space (get_elem? message.params 7)) id _
            (told_flags-IsBounded (get_elem? message.params 6) id _ b)

  pub on_whox_reply-Keeps :
      (message : Message) (store : StateStore)
      → IsBounded n store
      → Keeps n (on_whox_reply message store)
  unfolding on_whox_reply with_user
  on_whox_reply-Keeps message store b =
      when_some_lem (Keeps n) (parse_whox_reply message) _ _ b λ reply e.
        when_some_lem (Keeps n) reply.nick _ _ b λ nick f.
          when_some_lem (Keeps n) (user store nick) _ _ b λ id g.
            told_status-IsBounded reply.channel nick reply.flags _ (
              told_name-IsBounded (or_empty reply.real_name) id _ (
                told_account-IsBounded reply.account id _
                  (told_flags-IsBounded reply.flags id _ b)))

  with_identity-IsBounded :
      (entry : NamesEntry) (id : ℕ) (store : StateStore)
      → IsBounded n store
      → IsBounded n (with_identity entry id store)
  unfolding with_identity with_user
  with_identity-IsBounded entry id store b =
      if_lem (IsBounded n) (is_some entry.user || is_some entry.host) _ _ (λ e. b) (λ e. b)

  add_name-IsBounded :
      (name : Str) (entry : NamesEntry) (store : StateStore)
      → IsBounded n store
      → IsBounded n (add_name name entry store)
  unfolding add_name
  add_name-IsBounded name entry store b =
      let c = get_or_create_user entry.nick store in
      with_member-IsBounded n name _ _ _ (
        add_member-IsBounded n name c.1 _ (
          with_identity-IsBounded entry c.1 c.0
            (get_or_create_user-IsBounded n entry.nick store b)))

  names_step-IsBounded :
      (name token : Str) (store : StateStore)
      → IsBounded n store
      → IsBounded n (names_step name token store)
  unfolding names_step names_entry
  names_step-IsBounded name [] store b = b
  names_step-IsBounded name (c ∷ token) store b =
      when_some_lem (IsBounded n) (channel store name) _ _ b λ found e.
        let entry = split_names_entry (c ∷ token) store.server.isupport.prefixes in
        if_lem (IsBounded n)
          (not (IrcMap.has found.members entry.nick)
            && leb max_members_per_channel (IrcMap.size found.members))
          _ _ (λ f. b) (λ f. add_name-IsBounded name entry store b)

  names_loop-IsBounded :
      (name : Str) (tokens : List Str) (store : StateStore)
      → IsBounded n store
      → IsBounded n (names_loop name tokens store)
  unfolding names_loop
  names_loop-IsBounded name [] store b = b
  names_loop-IsBounded name (token ∷ tokens) store b =
      names_loop-IsBounded name tokens (names_step name token store)
        (names_step-IsBounded name token store b)

  pub on_namreply-Keeps :
      (message : Message) (store : StateStore)
      → IsBounded n store
      → Keeps n (on_namreply message store)
  unfolding on_namreply
  on_namreply-Keeps message store b =
      when_some_lem (Keeps n) (get_elem? message.params 2) _ _ b λ name e.
        when_some_lem (Keeps n) (get_elem? message.params 3) _ _ b λ names f.
          when_some_lem (Keeps n) (channel store name) _ _ b
            λ found g. names_loop-IsBounded name (split_words names) store b

  pub on_end_of_names-Keeps :
      (p : Platform) (message : Message) (store : StateStore)
      → IsBounded n store
      → Keeps n (on_end_of_names p message store)
  unfolding on_end_of_names emit_channel push
  on_end_of_names-Keeps p message store b =
      when_some_lem (Keeps n) (get_elem? message.params 1) _ _ b
        λ name e. when_some_lem (Keeps n) (channel store name) _ _ b λ found g. b
