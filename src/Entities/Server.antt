-- ===== src/Entities/Server.antt =====
-- packages/irc-client/src/entities/Server.ts: the root of the state of one connection.
use mojo_jojo.Base.{
  Bool, true, false, not, List, [], ◌∷◌, Option, none, some, Str, if◌then◌else◌, ℕ,
}
use mojo_jojo.Base.Dict.{Dict}
use mojo_jojo.CaseMapping.{CaseMapping, ascii, rfc1459, rfc1459_strict}
use mojo_jojo.CaseMapping.IrcMap
use mojo_jojo.CaseMapping.IrcMap.{Entry, IrcMap}
use mojo_jojo.Capabilities.Store.{Names}
use mojo_jojo.Isupport.{ISupport, TextOps, empty_isupport, parse_isupport}
use mojo_jojo.Entities.User.{Heap, is_self_of}
use mojo_jojo.Entities.MemberList
use mojo_jojo.Entities.Channel.{Channel}

pub record Server : Type 0 where
  pub nick : Str
  pub name : Option Str
  pub isupport : ISupport
  pub case_mapper : CaseMapping
  pub caps : Names
  pub channels : IrcMap Channel
  pub users : IrcMap ℕ

unfoldable pub new_server : Str → Server
new_server nick = record {
  nick = nick;
  name = none;
  isupport = empty_isupport;
  case_mapper = empty_isupport.case_mapping;
  caps = [];
  channels = record { mapper = empty_isupport.case_mapping; entries = [] };
  users = record { mapper = empty_isupport.case_mapping; entries = [] };
}

unfoldable pub set_nick : Str → Server → Server
set_nick nick server = record server { nick = nick }

unfoldable pub set_name : Str → Server → Server
set_name name server = record server { name = some name }

unfoldable pub set_caps : Names → Server → Server
set_caps caps server = record server { caps = caps }

-- `a === b`
unfoldable pub same_mapping : CaseMapping → CaseMapping → Bool
same_mapping ascii ascii = true
same_mapping rfc1459 rfc1459 = true
same_mapping rfc1459_strict rfc1459_strict = true
same_mapping _ _ = false

-- A change of every object that a map holds, in place.
unfoldable pub map_values : (Channel → Channel) → Dict (Entry Channel) → Dict (Entry Channel)
map_values f [] = []
map_values f ((k, e) ∷ entries) = (k, record e { value = f e.value }) ∷ map_values f entries

unfoldable pub rekey_members : Heap → CaseMapping → Channel → Channel
rekey_members heap mapper channel = record channel {
  members = MemberList.rekey heap mapper channel.members;
}

-- The server under its new mapping, with the channels and the users that a collision displaced.
unfoldable pub rekeyed : Heap → CaseMapping → Server → Server × List Channel × List ℕ
unfolding map_values rekey_members
rekeyed heap mapper server =
    let channels = IrcMap.rekey server.channels mapper (λ incoming existing. true) in
    let users =
      IrcMap.rekey server.users mapper (λ incoming existing. not (is_self_of heap existing)) in
    (
      record server {
        case_mapper = mapper;
        channels = record (channels.0) {
          entries = map_values (rekey_members heap mapper) channels.0.entries;
        };
        users = users.0;
      },
      channels.1,
      users.1,
    )

unfoldable pub apply_isupport : TextOps → Heap → List Str → Server → Server × List Channel × List ℕ
unfolding rekeyed same_mapping
apply_isupport ops heap tokens server =
    let isupport = parse_isupport ops tokens server.isupport in
    let next : Server = record server { isupport = isupport } in
    if same_mapping isupport.case_mapping server.isupport.case_mapping
    then (next, [], [])
    else rekeyed heap isupport.case_mapping next
