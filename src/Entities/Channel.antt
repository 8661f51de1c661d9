-- ===== src/Entities/Channel.antt =====
-- packages/irc-client/src/entities/Channel.ts: the topic, the modes and the members of a channel.
use mojo_jojo.Base.{
  ℕ, Bool, true, false, ◌||◌, [], Option, none, some, Str, length, ltb, if◌then◌else◌,
}
use mojo_jojo.Base.Dict
use mojo_jojo.Base.Dict.{Dict}
use mojo_jojo.Events.{Date}
use mojo_jojo.Modes.{ModeKind, ModeChange}
use mojo_jojo.CaseMapping.{CaseMapping}
use mojo_jojo.Capabilities.Store.{Names}
use mojo_jojo.Entities.User.{overwrite}
use mojo_jojo.Entities.MemberList.{Members}

pub record Channel : Type 0 where
  pub name : Str
  pub members : Members
  pub topic : Option Str
  pub topic_set_by : Option Str
  pub topic_set_at : Option Date
  pub modes : Dict (Option Str)
  pub lists : Dict Names

abbrev pub max_list_entries : ℕ
max_list_entries = 1000

unfoldable pub new_channel : Str → CaseMapping → Channel
new_channel name mapper = record {
  name = name;
  members = record { mapper = mapper; entries = [] };
  topic = none;
  topic_set_by = none;
  topic_set_at = none;
  modes = [];
  lists = [];
}

unfoldable pub set_topic : Option Str → Option Str → Option Date → Channel → Channel
set_topic topic set_by set_at channel = record channel {
  topic = topic;
  topic_set_by = overwrite set_by channel.topic_set_by;
  topic_set_at = overwrite set_at channel.topic_set_at;
}

-- `set.add(param)` under the bound.
unfoldable pub add_mask : Names → Str → Names
add_mask masks param =
    if ltb (length masks) max_list_entries || Dict.has masks param
    then Dict.put masks param tt
    else masks

-- The list of a mode, made where it is added to first.
unfoldable pub list_added : Dict Names → Str → Str → Option Names → Dict Names
unfolding add_mask
list_added lists mode param none = Dict.put lists mode (add_mask [] param)
list_added lists mode param (some masks) = Dict.put lists mode (add_mask masks param)

unfoldable pub list_removed : Dict Names → Str → Str → Option Names → Dict Names
list_removed lists mode param none = lists
list_removed lists mode param (some masks) = Dict.put lists mode (Dict.remove masks param)

unfoldable pub apply_list_mode : Bool → Str → Option Str → Dict Names → Dict Names
unfolding list_added list_removed
apply_list_mode added mode none lists = lists
apply_list_mode true mode (some param) lists = list_added lists mode param (Dict.get lists mode)
apply_list_mode false mode (some param) lists = list_removed lists mode param (Dict.get lists mode)

unfoldable pub apply_plain_mode : Bool → Str → Option Str → Dict (Option Str) → Dict (Option Str)
apply_plain_mode true mode param modes = Dict.put modes mode param
apply_plain_mode false mode param modes = Dict.remove modes mode

-- A letter that the server did not announce is not kept.
unfoldable pub apply_kind : ModeKind → ModeChange → Channel → Channel
unfolding apply_list_mode apply_plain_mode
apply_kind ModeKind.group_a change channel = record channel {
  lists = apply_list_mode change.added change.mode change.param channel.lists;
}
apply_kind ModeKind.unknown change channel = channel
apply_kind kind change channel = record channel {
  modes = apply_plain_mode change.added change.mode change.param channel.modes;
}

unfoldable pub apply_channel_mode : ModeChange → Channel → Channel
unfolding apply_kind
apply_channel_mode change channel = apply_kind change.kind change channel
