-- ===== src/State/Bounds/Run.antt =====
-- dispatch.ts: what the dispatcher retains is bounded, whatever the server sends.
use mojo_jojo.Base.{
  ℕ, ◌≤◌, true, false, List, [], ◌∷◌, Option, some, ◌≡◌, inl, inr, refl, subst, arith, Str, str_eq,
  str_eq_iff, codes, get_elem?, length, All, ltb, leb, if_lem, when_some_lem, length-concat, ◌==◌,
}
use mathlib.Core.Option.{some-injective}
use mojo_jojo.Base.Dict
use mojo_jojo.Base.Dict.{
  Dict, AllValues, AllValues-put, AllValues-get, AllValues-remove, length-put, length-remove,
}
use mojo_jojo.CaseMapping.IrcMap
use mojo_jojo.Message.{Source, Message}
use mojo_jojo.Events.{Platform, IrcEvent, ReplyType}
use mojo_jojo.Entities.Server.{new_server}
use mojo_jojo.State.Store.{StateStore, max_channels, new_store, is_self}
use mojo_jojo.State.Dispatcher.{
  OpenBatch, Dispatcher, Handler, max_open_batches, max_batch_messages, new_dispatcher,
  collect_into, collect, open_batch_of, close_batch, batch_token, on_batch, on_standard_reply,
  handlers, handle, dispatch, run,
}
use mojo_jojo.State.Bounds.{IsBounded}
use mojo_jojo.State.Bounds.Membership.{
  Keeps, Room, on_join-Keeps, on_part-Keeps, on_quit-Keeps, on_kick-Keeps, on_nick-Keeps,
  on_account-Keeps, on_away-Keeps, on_chghost-Keeps, on_setname-Keeps,
}
use mojo_jojo.State.Bounds.Replies.{
  on_who_reply-Keeps, on_whox_reply-Keeps, on_namreply-Keeps, on_end_of_names-Keeps,
}
use mojo_jojo.State.Bounds.Settings.{
  on_welcome-Keeps, on_isupport-Keeps, on_topic_reply-Keeps, on_topic_who_time-Keeps,
  on_topic-Keeps, on_mode-Keeps, on_privmsg-Keeps, on_notice-Keeps,
}

-- A handler that keeps the bound, if for JOIN there is room.
Fine : Str × Handler → Type 0
Fine s =
    (n : ℕ) (p : Platform) (message : Message) (store : StateStore)
    → (s.0 ≡ codes "JOIN" → Room n message store)
    → IsBounded n store
    → Keeps n (s.1 p message store)

on_standard_reply-Fine : (key : Str) (t : ReplyType) → Fine (key, on_standard_reply t)
unfolding Fine on_standard_reply
on_standard_reply-Fine key t n p message store room b = b

infixr 20 ◌▸◌
◌▸◌ : {A B : Type 0} → A → B → A × B
a ▸ b = (a, b)

handlers-Fine : All Fine handlers
unfolding Fine handlers
handlers-Fine =
    (λ n p message store room. on_welcome-Keeps n message store)
    ▸ (λ n p message store room. on_isupport-Keeps n p message store)
    ▸ (λ n p message store room. on_topic_reply-Keeps n p message store)
    ▸ (λ n p message store room. on_topic_reply-Keeps n p message store)
    ▸ (λ n p message store room. on_topic_who_time-Keeps n p message store)
    ▸ (λ n p message store room. on_namreply-Keeps n message store)
    ▸ (λ n p message store room. on_end_of_names-Keeps n p message store)
    ▸ (λ n p message store room. on_join-Keeps n p message store (room refl))
    ▸ (λ n p message store room. on_part-Keeps n p message store)
    ▸ (λ n p message store room. on_quit-Keeps n p message store)
    ▸ (λ n p message store room. on_kick-Keeps n p message store)
    ▸ (λ n p message store room. on_nick-Keeps n p message store)
    ▸ (λ n p message store room. on_account-Keeps n p message store)
    ▸ (λ n p message store room. on_away-Keeps n p message store)
    ▸ (λ n p message store room. on_chghost-Keeps n p message store)
    ▸ (λ n p message store room. on_setname-Keeps n p message store)
    ▸ (λ n p message store room. on_mode-Keeps n p message store)
    ▸ (λ n p message store room. on_topic-Keeps n p message store)
    ▸ (λ n p message store room. on_privmsg-Keeps n p message store)
    ▸ (λ n p message store room. on_notice-Keeps n p message store)
    ▸ on_standard_reply-Fine (codes "FAIL") ReplyType.fail
    ▸ on_standard_reply-Fine (codes "WARN") ReplyType.warn
    ▸ on_standard_reply-Fine (codes "NOTE") ReplyType.note
    ▸ (λ n p message store room. on_who_reply-Keeps n message store)
    ▸ (λ n p message store room. on_whox_reply-Keeps n message store)
    ▸ tt

-- What a lookup finds has the predicate of the entry.
get-All :
    (P : Str × Handler → Type 0) (m : Dict Handler) (k : Str) (h : Handler)
    → All P m
    → Dict.get m k ≡ some h
    → P (k, h)
unfolding Dict.get
get-All P [] k h a e = absurd (ground (arith, e))
get-All P ((j, g) ∷ m) k h a e =
    if_lem (λ o. o ≡ some h → P (k, h)) (str_eq j k) _ _
      (λ t f.
        subst (λ i. P (i, h)) ((str_eq_iff j k).0 t)
          (subst (λ i. P (j, i)) (some-injective g h f) a.0))
      (λ t f. get-All P m k h a.1 f) e

handle-Keeps :
    (n : ℕ) (p : Platform) (message : Message) (store : StateStore)
    → (message.command ≡ codes "JOIN" → Room n message store)
    → IsBounded n store
    → Keeps n (handle p message store)
unfolding handle Fine
handle-Keeps n p message store room b =
    when_some_lem (Keeps n) (Dict.get handlers message.command) _ _ b λ handler e.
      get-All Fine handlers message.command handler handlers-Fine e n p message store room b

-- No batch has more messages than its bound, and no more batches are open than theirs.
abbrev pub BatchesBounded : Dict OpenBatch → Type 0
BatchesBounded batches =
    (length batches ≤ max_open_batches)
    × AllValues (λ open_batch. length open_batch.messages ≤ max_batch_messages) batches

abbrev Small : OpenBatch → Type 0
Small open_batch = length open_batch.messages ≤ max_batch_messages

collect_into-Small : (message : Message) (o : OpenBatch) → Small o → Small (collect_into message o)
unfolding collect_into
collect_into-Small message o h =
    if_lem Small (ltb (length o.messages) max_batch_messages) _ _
      (λ e. ground (arith, e, length-concat o.messages message)) (λ e. h)

has-get-some :
    (m : Dict OpenBatch) (k : Str) (o : OpenBatch) → Dict.get m k ≡ some o → Dict.has m k ≡ true
unfolding Dict.get Dict.has
has-get-some [] k o e = absurd (ground (arith, e))
has-get-some ((j, w) ∷ m) k o e = ground (arith, e, has-get-some m k o)

collect-BatchesBounded :
    (message : Message) (batches : Dict OpenBatch)
    → BatchesBounded batches
    → BatchesBounded (collect message batches)
unfolding collect
collect-BatchesBounded message batches b =
    when_some_lem BatchesBounded (Dict.get message.tags (codes "batch")) _ _ b λ reference e.
      when_some_lem BatchesBounded (Dict.get batches reference) _ _ b λ o f.
        let next = collect_into message o in
        (
          ground
              (arith, b.0, length-put batches reference next, has-get-some batches reference o f),
          AllValues-put Small batches reference next
              (collect_into-Small message o (AllValues-get Small batches reference o b.1 f)) b.1,
        )

close_batch-BatchesBounded :
    (p : Platform) (message : Message) (reference : Str) (batches : Dict OpenBatch)
    → BatchesBounded batches
    → BatchesBounded (close_batch p message reference batches).0
unfolding close_batch
close_batch-BatchesBounded p message reference batches b =
    when_some_lem (λ (r : Dict OpenBatch × Option IrcEvent). BatchesBounded r.0)
      (Dict.get batches reference) _ _ b
      λ o e. (
        omega (arith, b.0, length-remove batches reference),
        AllValues-remove Small batches reference b.1,
      )

batch_token-BatchesBounded :
    (p : Platform) (message : Message) (token : Str) (batches : Dict OpenBatch)
    → BatchesBounded batches
    → BatchesBounded (batch_token p message token batches).0
unfolding batch_token
batch_token-BatchesBounded p message [] batches b = b
batch_token-BatchesBounded p message (c ∷ reference) batches b =
    let Q = λ (r : Dict OpenBatch × Option IrcEvent). BatchesBounded r.0 in
    let opened = open_batch_of message.params in
    if_lem Q (c == b'+') _ _
      (λ e.
        if_lem Q (leb max_open_batches (length batches)) _ _ (λ f. b)
          (λ f. (
            ground (arith, f, b.0, length-put batches reference opened),
            AllValues-put Small batches reference opened (opened-Small message.params) b.1,
          )))
      (λ e.
        if_lem Q (c == b'-') _ _ (λ f. close_batch-BatchesBounded p message reference batches b)
          (λ f. b))
  where
    opened-Small : (params : List Str) → Small (open_batch_of params)
    opened-Small params = omega arith

-- What a dispatcher retains.
abbrev pub Retains : ℕ → Dispatcher → Type 0
Retains n d = IsBounded n d.store × BatchesBounded d.batches

dispatch-Retains :
    (n : ℕ) (p : Platform) (message : Message) (d : Dispatcher)
    → (message.command ≡ codes "JOIN" → Room n message d.store)
    → Retains n d
    → Retains n (dispatch p message d).0
unfolding dispatch on_batch
dispatch-Retains n p message d room r =
    let batches = collect message d.batches in
    let collected = collect-BatchesBounded message d.batches r.1 in
    if_lem (λ (o : Dispatcher × Option IrcEvent). Retains n o.0)
      (str_eq message.command (codes "BATCH")) _ _
      (λ e. (
        r.0,
        when_some_lem (λ (o : Dict OpenBatch × Option IrcEvent). BatchesBounded o.0)
            (get_elem? message.params 0) _ _ collected
            λ token f. batch_token-BatchesBounded p message token batches collected,
      ))
      (λ e. (handle-Keeps n p message d.store room r.0, collected))

run-Retains :
    (inputs : List (Platform × Message)) (d : Dispatcher)
    → Retains max_channels d
    → Retains max_channels (run inputs d)
unfolding run
run-Retains [] d r = r
run-Retains ((p, message) ∷ inputs) d r =
    run-Retains inputs (dispatch p message d).0
      (dispatch-Retains max_channels p message d (λ e. inl refl) r)

-- Whatever a server sends after a connection starts, at most 4096 channels are tracked, no list of
-- masks has more than 1000, and at most 64 batches are open with at most 4096 messages in each.
pub run-new-Retains :
    (nick : Str) (inputs : List (Platform × Message))
    → Retains max_channels (run inputs (new_dispatcher nick))
unfolding new_dispatcher new_store new_server IrcMap.size
run-new-Retains nick inputs =
    run-Retains inputs (new_dispatcher nick) ((omega arith, tt, (tt, tt)), (omega arith, tt))

-- A message that is no JOIN from our own nick makes no channel.
pub dispatch-channels :
    (p : Platform) (message : Message) (nick : Str) (inputs : List (Platform × Message))
    → (message.command ≡ codes "JOIN"
        → (source : Source) → message.source ≡ some source
        → is_self (run inputs (new_dispatcher nick)).store source.name ≡ false)
    → IrcMap.size (dispatch p message (run inputs (new_dispatcher nick))).0.store.server.channels
      ≤ IrcMap.size (run inputs (new_dispatcher nick)).store.server.channels
dispatch-channels p message nick inputs foreign =
    let d = run inputs (new_dispatcher nick) in
    let r = run-new-Retains nick inputs in
    (dispatch-Retains (IrcMap.size d.store.server.channels) p message d (λ e. inr (foreign e))
      ((omega arith, r.0.1, r.0.2), r.1)).0.0
