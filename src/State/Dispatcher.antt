-- ===== src/State/Dispatcher.antt =====
-- packages/irc-client/src/state/dispatch.ts: the dispatcher, its batches, and the standard replies.
use mojo_jojo.Base.{
  ℕ, ◌-◌, List, [], ◌∷◌, ◌++◌, Option, none, some, Str, codes, ◌==◌, str_eq, length, take, drop,
  get_elem?, get_last?, ltb, leb, if◌then◌else◌, when_some,
}
use mojo_jojo.Base.Dict
use mojo_jojo.Base.Dict.{Dict}
use mojo_jojo.Message.{Message}
use mojo_jojo.Sasl.{or_else}
use mojo_jojo.Isupport.{or_empty}
use mojo_jojo.Events.{Platform, IrcEvent, ReplyType, batch_event, standard_reply_event}
use mojo_jojo.State.Store.{StateStore, new_store}
use mojo_jojo.State.Handlers.{Outcome}
use mojo_jojo.State.Dispatch.Membership.{on_join, on_part, on_quit, on_kick, on_nick}
use mojo_jojo.State.Dispatch.Attributes.{
  on_account, on_away, on_chghost, on_setname, on_who_reply, on_whox_reply,
}
use mojo_jojo.State.Dispatch.Names.{on_namreply, on_end_of_names}
use mojo_jojo.State.Dispatch.Settings.{
  on_welcome, on_isupport, on_topic_reply, on_topic_who_time, on_topic, on_mode,
}
use mojo_jojo.State.Dispatch.Messages.{on_privmsg, on_notice}

pub record OpenBatch : Type 0 where
  pub batch_type : Str
  pub params : List Str
  pub messages : List Message

abbrev pub max_open_batches : ℕ
max_open_batches = 64

abbrev pub max_batch_messages : ℕ
max_batch_messages = 4096

pub record Dispatcher : Type 0 where
  pub store : StateStore
  pub batches : Dict OpenBatch

unfoldable pub new_dispatcher : Str → Dispatcher
new_dispatcher nick = record { store = new_store nick; batches = [] }

-- A batch at its bound is not added to.
unfoldable pub collect_into : Message → OpenBatch → OpenBatch
collect_into message open_batch =
    if ltb (length open_batch.messages) max_batch_messages
    then record open_batch { messages = open_batch.messages ++ message ∷ [] }
    else open_batch

unfoldable pub collect : Message → Dict OpenBatch → Dict OpenBatch
unfolding collect_into
collect message batches = when_some (Dict.get message.tags (codes "batch")) batches λ reference.
    when_some (Dict.get batches reference) batches
      λ open_batch. Dict.put batches reference (collect_into message open_batch)

unfoldable pub open_batch_of : List Str → OpenBatch
open_batch_of params = record {
  batch_type = or_empty (get_elem? params 1);
  params = drop 2 params;
  messages = [];
}

unfoldable pub close_batch :
    Platform → Message → Str → Dict OpenBatch → Dict OpenBatch × Option IrcEvent
close_batch p message reference batches =
    when_some (Dict.get batches reference) (batches, none)
      λ closed.
        let event = batch_event p message (record {
          reference = reference;
          batch_type = closed.batch_type;
          params = closed.params;
          messages = closed.messages;
        }) in
        (Dict.remove batches reference, some event)

unfoldable pub batch_token :
    Platform → Message → Str → Dict OpenBatch → Dict OpenBatch × Option IrcEvent
unfolding open_batch_of close_batch
batch_token p message [] batches = (batches, none)
batch_token p message (c ∷ reference) batches =
    let opened = Dict.put batches reference (open_batch_of message.params) in
    if c == b'+'
    then (if leb max_open_batches (length batches) then (batches, none) else (opened, none))
    else if c == b'-'
    then close_batch p message reference batches
    else (batches, none)

unfoldable pub on_batch : Platform → Message → Dict OpenBatch → Dict OpenBatch × Option IrcEvent
unfolding batch_token
on_batch p message batches =
    when_some (get_elem? message.params 0) (batches, none)
      λ token. batch_token p message token batches

unfoldable pub on_standard_reply : ReplyType → Platform → Message → StateStore → Outcome
on_standard_reply reply_type p message store =
    let params = message.params in
    let event = standard_reply_event p message (record {
      reply_type = reply_type;
      command = or_else (get_elem? params 0) (codes "*");
      code = or_empty (get_elem? params 1);
      context = if leb 4 (length params) then take (length params - 3) (drop 2 params) else [];
      text = if leb 3 (length params) then or_empty (get_last? params) else [];
    }) in
    (store, some event)

abbrev pub Handler : Type 0
Handler = Platform → Message → StateStore → Outcome

-- The cases of the `switch` in `dispatch`, but for BATCH.
unfoldable pub handlers : Dict Handler
unfolding on_standard_reply
handlers =
    (codes "001", λ p message. on_welcome message)
    ∷ (codes "005", on_isupport)
    ∷ (codes "332", on_topic_reply)
    ∷ (codes "331", on_topic_reply)
    ∷ (codes "333", on_topic_who_time)
    ∷ (codes "353", λ p message. on_namreply message)
    ∷ (codes "366", on_end_of_names)
    ∷ (codes "JOIN", on_join)
    ∷ (codes "PART", on_part)
    ∷ (codes "QUIT", on_quit)
    ∷ (codes "KICK", on_kick)
    ∷ (codes "NICK", on_nick)
    ∷ (codes "ACCOUNT", on_account)
    ∷ (codes "AWAY", on_away)
    ∷ (codes "CHGHOST", on_chghost)
    ∷ (codes "SETNAME", on_setname)
    ∷ (codes "MODE", on_mode)
    ∷ (codes "TOPIC", on_topic)
    ∷ (codes "PRIVMSG", on_privmsg)
    ∷ (codes "NOTICE", on_notice)
    ∷ (codes "FAIL", on_standard_reply ReplyType.fail)
    ∷ (codes "WARN", on_standard_reply ReplyType.warn)
    ∷ (codes "NOTE", on_standard_reply ReplyType.note)
    ∷ (codes "352", λ p message. on_who_reply message)
    ∷ (codes "354", λ p message. on_whox_reply message)
    ∷ []

unfoldable pub handle : Platform → Message → StateStore → Outcome
unfolding handlers
handle p message store =
    when_some (Dict.get handlers message.command) (store, none) λ handler. handler p message store

unfoldable pub dispatch : Platform → Message → Dispatcher → Dispatcher × Option IrcEvent
unfolding collect on_batch handle
dispatch p message d =
    let batches = collect message d.batches in
    let b = on_batch p message batches in
    let r = handle p message d.store in
    if str_eq message.command (codes "BATCH")
    then (record { store = d.store; batches = b.0 }, b.1)
    else (record { store = r.0; batches = batches }, r.1)

-- The state behind a sequence of messages, each with what the library answers at its time.
unfoldable pub run : List (Platform × Message) → Dispatcher → Dispatcher
unfolding dispatch
run [] d = d
run ((p, message) ∷ inputs) d = run inputs (dispatch p message d).0
