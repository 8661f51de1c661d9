-- ===== src/CaseMapping/IrcSet.antt =====
-- packages/irc-client/src/casemapping/IrcMap.ts: `IrcSet`, a map whose values say nothing.
use mojo_jojo.Base.{ℕ, Bool, true, List, [], Str}
use mojo_jojo.CaseMapping.{CaseMapping}
use mojo_jojo.CaseMapping.IrcMap
use mojo_jojo.CaseMapping.IrcMap.{IrcMap}

abbrev pub IrcSet : Type 0
IrcSet = IrcMap Unit

unfoldable pub new_set : CaseMapping → IrcSet
new_set mapper = record { mapper = mapper; entries = [] }

unfoldable pub size : IrcSet → ℕ
size s = IrcMap.size s

unfoldable pub add : IrcSet → Str → IrcSet
add s name = IrcMap.set s name tt

unfoldable pub has : IrcSet → Str → Bool
has s name = IrcMap.has s name

unfoldable pub delete : IrcSet → Str → IrcSet
delete s name = IrcMap.delete s name

unfoldable pub clear : IrcSet → IrcSet
clear s = IrcMap.clear s

unfoldable pub names : IrcSet → List Str
names s = IrcMap.keys s

unfoldable pub rekey : IrcSet → CaseMapping → IrcSet
rekey s mapper = (IrcMap.rekey s mapper (λ incoming existing. true)).0
