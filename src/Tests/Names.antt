-- ===== src/Tests/Names.antt =====
-- The casemapping and its tables at concrete inputs.
use mojo_jojo.Base.{
  ltb, ℕ, ◌+◌, Bool, true, List, [], ◌∷◌, none, some, ◌≡◌, refl, codes, str_eq, if◌then◌else◌,
}
use mojo_jojo.Base.Dict
use mojo_jojo.CaseMapping.{
  CaseMapping, ascii, rfc1459, rfc1459_strict, equals, fold_loop, normalize,
}
use mojo_jojo.CaseMapping.Laws.{equals_coarser, normalize-eq-fold_loop, normalize_twice}
use mojo_jojo.CaseMapping.IrcMap
use mojo_jojo.CaseMapping.IrcMap.{IrcMap, rekey, size}
use mojo_jojo.CaseMapping.MapLaws.{
  tally, IsKeyed, get-set-delete, rekey-IsKeyed, set-delete-IsKeyed,
}
use mojo_jojo.CaseMapping.MapRuns.{Call, apply_all, apply_all-replay, is_value, replay}

normalize-eq-fold_loop_example :
    normalize rfc1459 (codes "ab[C]") ≡ fold_loop rfc1459 (codes "ab[C]")
normalize-eq-fold_loop_example = normalize-eq-fold_loop rfc1459 (codes "ab[C]")

normalize_twice_example :
    normalize rfc1459 (normalize rfc1459 (codes "Nick~")) ≡ normalize rfc1459 (codes "Nick~")
normalize_twice_example = normalize_twice rfc1459 (codes "Nick~")

equals_coarser_example :
    ((m : CaseMapping)
      → equals ascii (codes "Nick[") (codes "nick[") ≡ true
      → equals m (codes "Nick[") (codes "nick[") ≡ true)
    × (equals rfc1459_strict (codes "Nick[") (codes "nick[") ≡ true
        → equals rfc1459 (codes "Nick[") (codes "nick[") ≡ true)
equals_coarser_example = equals_coarser (codes "Nick[") (codes "nick[")

-- Two nicknames that `rfc1459` joins.
abbrev members : IrcMap ℕ
members = record {
  mapper = ascii;
  entries =
      (codes "a[", record { key = codes "A["; value = 1 })
      ∷ (codes "a{", record { key = codes "A{"; value = 2 })
      ∷ [];
}

members-IsKeyed : IsKeyed members
unfolding normalize Dict.has str_eq
members-IsKeyed = ((refl, (refl, tt)), (refl, (refl, tt)))

get-set-delete_example :
    (IrcMap.get (IrcMap.set members (codes "a[") 3) (codes "A[") ≡ (
      if equals ascii (codes "a[") (codes "A[") then some 3 else IrcMap.get members (codes "A[")))
    × (IrcMap.get (IrcMap.delete members (codes "a[")) (codes "A[") ≡ (
        if equals ascii (codes "a[") (codes "A[") then none else IrcMap.get members (codes "A[")))
get-set-delete_example = get-set-delete members (codes "a[") (codes "A[") 3 members-IsKeyed

set-delete-IsKeyed_example :
    IsKeyed (IrcMap.set members (codes "a[") 3) × IsKeyed (IrcMap.delete members (codes "a["))
set-delete-IsKeyed_example = set-delete-IsKeyed members (codes "a[") 3 members-IsKeyed

abbrev calls : List (Call ℕ)
calls =
    Call.set_to (codes "a[") 3
    ∷ Call.set_to (codes "b") 2
    ∷ Call.deleted (codes "B")
    ∷ Call.set_to (codes "A{") 5
    ∷ []

apply_all-replay_example :
    (IrcMap.get (apply_all (IrcMap.new_map rfc1459) calls) (codes "a[")
      ≡ replay rfc1459 (λ _. none) calls (codes "a["))
    × (IrcMap.has (apply_all (IrcMap.new_map rfc1459) calls) (codes "a[")
        ≡ is_value (replay rfc1459 (λ _. none) calls (codes "a[")))
apply_all-replay_example = apply_all-replay rfc1459 calls (codes "a[")

-- The later of two that collide wins.
abbrev later_wins : ℕ → ℕ → Bool
later_wins incoming existing = true

rekey-IsKeyed_example :
    ((rekey members rfc1459 later_wins).0.mapper ≡ rfc1459)
    × IsKeyed (rekey members rfc1459 later_wins).0
    × (tally (ltb 1) (IrcMap.values (rekey members rfc1459 later_wins).0)
          + tally (ltb 1) (rekey members rfc1459 later_wins).1
        ≡ tally (ltb 1) (IrcMap.values members))
rekey-IsKeyed_example = rekey-IsKeyed members rfc1459 later_wins (ltb 1)
