-- ===== src/Commands.antt =====
-- packages/irc-client/src/protocol/commands.ts: the messages that the client sends.
use mojo_jojo.Base.{List, [], ◌∷◌, ◌++◌, Option, none, some, Str, codes}
use mojo_jojo.Message.{Message}

unfoldable pub command : Str → List Str → Message
command name params = record { tags = []; source = none; command = name; params = params }

unfoldable pub pass : Str → Message
unfolding command
pass password = command (codes "PASS") (password ∷ [])

unfoldable pub nick : Str → Message
unfolding command
nick name = command (codes "NICK") (name ∷ [])

unfoldable pub user : Str → Str → Message
unfolding command
user username real_name = command (codes "USER") (username ∷ codes "0" ∷ codes "*" ∷ real_name ∷ [])

unfoldable pub cap_ls : Message
unfolding command
cap_ls = command (codes "CAP") (codes "LS" ∷ codes "302" ∷ [])

-- `caps.join(" ")`
unfoldable pub join_words : List Str → Str
join_words [] = []
join_words (a ∷ []) = a
join_words (a ∷ b ∷ l) = a ++ b' ' ∷ join_words (b ∷ l)

unfoldable pub cap_req : List Str → Message
unfolding command join_words
cap_req caps = command (codes "CAP") (codes "REQ" ∷ join_words caps ∷ [])

unfoldable pub cap_end : Message
unfolding command
cap_end = command (codes "CAP") (codes "END" ∷ [])

unfoldable pub authenticate : Str → Message
unfolding command
authenticate payload = command (codes "AUTHENTICATE") (payload ∷ [])

unfoldable pub pong : Str → Message
unfolding command
pong token = command (codes "PONG") (token ∷ [])

unfoldable pub ping : Str → Message
unfolding command
ping token = command (codes "PING") (token ∷ [])

unfoldable pub quit : Str → Message
unfolding command
quit reason = command (codes "QUIT") (reason ∷ [])

unfoldable pub privmsg : Str → Str → Message
unfolding command
privmsg target text = command (codes "PRIVMSG") (target ∷ text ∷ [])

unfoldable pub notice : Str → Str → Message
unfolding command
notice target text = command (codes "NOTICE") (target ∷ text ∷ [])

unfoldable pub action : Str → Str → Message
unfolding command
action target text =
    command (codes "PRIVMSG") (target ∷ (0x01 ∷ codes "ACTION " ++ text ++ 0x01 ∷ []) ∷ [])

-- An optional parameter at the end.
abbrev pub optional : Option Str → List Str
optional none = []
optional (some param) = param ∷ []

unfoldable pub join : Str → Option Str → Message
unfolding command
join channel key = command (codes "JOIN") (channel ∷ optional key)

unfoldable pub part : Str → Option Str → Message
unfolding command
part channel reason = command (codes "PART") (channel ∷ optional reason)

unfoldable pub kick : Str → Str → Option Str → Message
unfolding command
kick channel name reason = command (codes "KICK") (channel ∷ name ∷ optional reason)

unfoldable pub mode : Str → Option Str → List Str → Message
unfolding command
mode target none params = command (codes "MODE") (target ∷ [])
mode target (some modes) params = command (codes "MODE") (target ∷ modes ∷ params)

unfoldable pub topic : Str → Option Str → Message
unfolding command
topic channel new_topic = command (codes "TOPIC") (channel ∷ optional new_topic)

unfoldable pub invite : Str → Str → Message
unfolding command
invite name channel = command (codes "INVITE") (name ∷ channel ∷ [])

unfoldable pub whois : Str → Message
unfolding command
whois target = command (codes "WHOIS") (target ∷ [])

unfoldable pub who : Str → Message
unfolding command
who mask = command (codes "WHO") (mask ∷ [])

unfoldable pub names : Str → Message
unfolding command
names channel = command (codes "NAMES") (channel ∷ [])

unfoldable pub away : Option Str → Message
unfolding command
away reason = command (codes "AWAY") (optional reason)
