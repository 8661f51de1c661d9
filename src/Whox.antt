-- ===== src/Whox.antt =====
-- packages/irc-client/src/protocol/whox.ts: the one WHOX query that is sent, and its replies.
use mojo_jojo.Base.{[], ◌∷◌, ◌++◌, Option, none, some, Str, codes, str_eq, get_elem?, if◌then◌else◌}
use mojo_jojo.Message.{Message}
use mojo_jojo.Commands.{command}

abbrev pub whox_token : Str
whox_token = codes "909"

abbrev pub whox_fields : Str
whox_fields = codes "tcuhnfar"

unfoldable pub whox_query : Str → Message
unfolding command
whox_query mask = command (codes "WHO") (mask ∷ (b'%' ∷ whox_fields ++ b',' ∷ whox_token) ∷ [])

pub record WhoxReply : Type 0 where
  pub channel : Option Str
  pub user : Option Str
  pub host : Option Str
  pub nick : Option Str
  pub flags : Option Str
  pub account : Option Str
  pub real_name : Option Str

unfoldable pub parse_whox_reply : Message → Option WhoxReply
parse_whox_reply message =
    let p = message.params in
    let reply : WhoxReply = record {
      channel = get_elem? p 2;
      user = get_elem? p 3;
      host = get_elem? p 4;
      nick = get_elem? p 5;
      flags = get_elem? p 6;
      account = get_elem? p 7;
      real_name = get_elem? p 8;
    } in
    elim (get_elem? p 1) [
      | none ↦ none
      | some token ↦ if str_eq token whox_token then some reply else none
    ]
