-- ===== src/Events.antt =====
-- packages/irc-client/src/events: the entity-resolved events of types.ts and the constructors of
-- factory.ts. An event names a channel by its name and a user by its place among the users made.
use mojo_jojo.Base.{ℕ, Bool, List, Option, none, some, [], ◌∷◌, Str, codes}
use mojo_jojo.Base.Dict
use mojo_jojo.Message.{Message, Tags}
use mojo_jojo.Modes.{ModeChange}
use mojo_jojo.Isupport.{TextOps}

-- A valid `Date`, as its text.
abbrev pub Date : Type 0
Date = Str

-- What the code calls of the JavaScript library while it handles one message: texts, `new Date(tag)`
-- and `new Date(seconds * 1000)` where these are valid, and the time of receipt.
pub record Platform : Type 0 where
  pub text_ops : TextOps
  pub parse_date : Str → Option Date
  pub date_of_seconds : Str → Option Date
  pub now : Date

pub record BaseEvent : Type 0 where
  pub raw : Message
  pub time : Date
  pub tags : Tags

-- A member, as the channel and the user that it joins.
pub record MemberRef : Type 0 where
  pub channel : Str
  pub user : ℕ

-- The sender is a user, or for a notice perhaps none.
pub record MessageFields (U : Type 0) : Type 0 where
  pub channel : Option Str
  pub user : U
  pub member : Option MemberRef
  pub target : Str
  pub text : Str
  pub is_private : Bool
  pub account : Option Str
  pub status_prefix : Str

pub record JoinFields : Type 0 where
  pub channel : Str
  pub user : ℕ
  pub member : MemberRef
  pub is_self : Bool
  pub account : Option Str
  pub real_name : Option Str

pub record PartFields : Type 0 where
  pub channel : Str
  pub user : ℕ
  pub member : Option MemberRef
  pub is_self : Bool
  pub reason : Option Str

pub record QuitFields : Type 0 where
  pub user : ℕ
  pub channels : List Str
  pub is_self : Bool
  pub reason : Option Str

pub record KickFields : Type 0 where
  pub channel : Str
  pub target : ℕ
  pub member : Option MemberRef
  pub by : Option ℕ
  pub is_self : Bool
  pub reason : Option Str

pub record NickFields : Type 0 where
  pub user : ℕ
  pub old_nick : Str
  pub new_nick : Str
  pub channels : List Str
  pub is_self : Bool

pub record AccountFields : Type 0 where
  pub user : ℕ
  pub account : Option Str
  pub channels : List Str
  pub is_self : Bool

pub record ModeFields : Type 0 where
  pub target : Str
  pub channel : Option Str
  pub by : Option ℕ
  pub changes : List ModeChange

pub record TopicFields : Type 0 where
  pub channel : Str
  pub topic : Option Str
  pub set_by : Option ℕ
  pub is_initial : Bool

pub record NamesFields : Type 0 where
  pub channel : Str
  pub members : List MemberRef

pub record AwayFields : Type 0 where
  pub user : ℕ
  pub away : Bool
  pub message : Option Str
  pub channels : List Str
  pub is_self : Bool

pub record ChghostFields : Type 0 where
  pub user : ℕ
  pub new_user : Str
  pub new_host : Str
  pub channels : List Str
  pub is_self : Bool

pub record SetnameFields : Type 0 where
  pub user : ℕ
  pub real_name : Str
  pub channels : List Str
  pub is_self : Bool

pub record BatchFields : Type 0 where
  pub reference : Str
  pub batch_type : Str
  pub params : List Str
  pub messages : List Message

pub data ReplyType : Type 0 where
  fail warn note : ReplyType

pub record StandardReplyFields : Type 0 where
  pub reply_type : ReplyType
  pub command : Str
  pub code : Str
  pub context : List Str
  pub text : Str

pub data CapChange : Type 0 where
  new del ack : CapChange

pub record CapFields : Type 0 where
  pub subcommand : CapChange
  pub caps : List Str
  pub enabled : List Str

pub data IrcEvent : Type 0 where
  privmsg : BaseEvent → MessageFields ℕ → IrcEvent
  action : BaseEvent → MessageFields ℕ → IrcEvent
  notice : BaseEvent → MessageFields (Option ℕ) → IrcEvent
  join : BaseEvent → JoinFields → IrcEvent
  part : BaseEvent → PartFields → IrcEvent
  quit : BaseEvent → QuitFields → IrcEvent
  kick : BaseEvent → KickFields → IrcEvent
  nick : BaseEvent → NickFields → IrcEvent
  account : BaseEvent → AccountFields → IrcEvent
  away : BaseEvent → AwayFields → IrcEvent
  chghost : BaseEvent → ChghostFields → IrcEvent
  setname : BaseEvent → SetnameFields → IrcEvent
  mode : BaseEvent → ModeFields → IrcEvent
  topic : BaseEvent → TopicFields → IrcEvent
  names : BaseEvent → NamesFields → IrcEvent
  batch : BaseEvent → BatchFields → IrcEvent
  standard_reply : BaseEvent → StandardReplyFields → IrcEvent
  cap : BaseEvent → CapFields → IrcEvent

-- The `time` tag where it is a valid date, else the time of receipt.
abbrev pub time_of : Platform → Option Str → Date
time_of p none = p.now
time_of p (some []) = p.now
time_of p (some (c ∷ tag)) = elim (p.parse_date (c ∷ tag)) [ none ↦ p.now | some date ↦ date ]

unfoldable pub event_time : Platform → Message → Date
event_time p message = time_of p (Dict.get message.tags (codes "time"))

unfoldable pub base_event : Platform → Message → BaseEvent
unfolding event_time
base_event p message = record { raw = message; time = event_time p message; tags = message.tags }

module _ (p : Platform) (message : Message) where
  unfoldable pub privmsg_event : MessageFields ℕ → IrcEvent
  privmsg_event fields = IrcEvent.privmsg (base_event p message) fields

  unfoldable pub action_event : MessageFields ℕ → IrcEvent
  action_event fields = IrcEvent.action (base_event p message) fields

  unfoldable pub notice_event : MessageFields (Option ℕ) → IrcEvent
  notice_event fields = IrcEvent.notice (base_event p message) fields

  unfoldable pub join_event : JoinFields → IrcEvent
  join_event fields = IrcEvent.join (base_event p message) fields

  unfoldable pub part_event : PartFields → IrcEvent
  part_event fields = IrcEvent.part (base_event p message) fields

  unfoldable pub quit_event : QuitFields → IrcEvent
  quit_event fields = IrcEvent.quit (base_event p message) fields

  unfoldable pub kick_event : KickFields → IrcEvent
  kick_event fields = IrcEvent.kick (base_event p message) fields

  unfoldable pub nick_event : NickFields → IrcEvent
  nick_event fields = IrcEvent.nick (base_event p message) fields

  unfoldable pub account_event : AccountFields → IrcEvent
  account_event fields = IrcEvent.account (base_event p message) fields

  unfoldable pub mode_event : ModeFields → IrcEvent
  mode_event fields = IrcEvent.mode (base_event p message) fields

  unfoldable pub topic_event : TopicFields → IrcEvent
  topic_event fields = IrcEvent.topic (base_event p message) fields

  unfoldable pub names_event : NamesFields → IrcEvent
  names_event fields = IrcEvent.names (base_event p message) fields

  unfoldable pub away_event : AwayFields → IrcEvent
  away_event fields = IrcEvent.away (base_event p message) fields

  unfoldable pub chghost_event : ChghostFields → IrcEvent
  chghost_event fields = IrcEvent.chghost (base_event p message) fields

  unfoldable pub setname_event : SetnameFields → IrcEvent
  setname_event fields = IrcEvent.setname (base_event p message) fields

  unfoldable pub batch_event : BatchFields → IrcEvent
  batch_event fields = IrcEvent.batch (base_event p message) fields

  unfoldable pub standard_reply_event : StandardReplyFields → IrcEvent
  standard_reply_event fields = IrcEvent.standard_reply (base_event p message) fields

  unfoldable pub cap_event : CapFields → IrcEvent
  cap_event fields = IrcEvent.cap (base_event p message) fields
