-- ===== src/Entities/MemberList.antt =====
-- packages/irc-client/src/entities/MemberList.ts: the members of one channel, by nick.
use mojo_jojo.Base.{not, Option, none, some, Str}
use mojo_jojo.CaseMapping.{CaseMapping}
use mojo_jojo.CaseMapping.IrcMap
use mojo_jojo.CaseMapping.IrcMap.{IrcMap}
use mojo_jojo.Entities.User.{Heap, nick_of, is_self_of}
use mojo_jojo.Entities.Member.{Member}

abbrev pub Members : Type 0
Members = IrcMap Member

-- `add` keys by the current nick of the member.
unfoldable pub add : Heap → Members → Member → Members
add heap members member = IrcMap.set members (nick_of heap member.user) member

unfoldable pub remove : Members → Str → Members
remove members nick = IrcMap.delete members nick

abbrev pub renamed : Members → Str → Str → Option Member → Members
renamed members old_nick new_nick none = members
renamed members old_nick new_nick (some member) =
    IrcMap.set (IrcMap.delete members old_nick) new_nick member

unfoldable pub rename : Members → Str → Str → Members
rename members old_nick new_nick = renamed members old_nick new_nick (IrcMap.get members old_nick)

-- On a collision our own membership is kept, and otherwise the later one.
unfoldable pub rekey : Heap → CaseMapping → Members → Members
rekey heap mapper members =
    (IrcMap.rekey members mapper (λ incoming existing. not (is_self_of heap existing.user))).0
