-- ===== src/CaseMapping/IrcMap.antt =====
-- packages/irc-client/src/casemapping/IrcMap.ts
use mojo_jojo.Base.{ℕ, Bool, List, [], ◌∷◌, ◌++◌, Option, none, some, Str, length, if◌then◌else◌}
use mojo_jojo.Base.Dict
use mojo_jojo.Base.Dict.{Dict, Distinct, has-put, length-put, get-put}
use mojo_jojo.CaseMapping.{CaseMapping, normalize}

pub record Entry {ℓ} (V : Type ℓ) : Type ℓ where
  pub key : Str
  pub value : V

pub record IrcMap {ℓ} (V : Type ℓ) : Type ℓ where
  pub mapper : CaseMapping
  pub entries : Dict (Entry V)

module _ {ℓ} {V : Type ℓ} where
  -- `new IrcMap(mapper)`
  unfoldable pub new_map : CaseMapping → IrcMap V
  new_map mapper = record { mapper = mapper; entries = [] }

  abbrev pub value_of : Option (Entry V) → Option V
  value_of none = none
  value_of (some e) = some e.value

  unfoldable pub get : IrcMap V → Str → Option V
  get m name = value_of (Dict.get m.entries (normalize m.mapper name))

  unfoldable pub has : IrcMap V → Str → Bool
  has m name = Dict.has m.entries (normalize m.mapper name)

  -- Whether the slot is there or new, the entry has the new display name and value; `Dict.put` keeps
  -- the slot of a key that is there.
  unfoldable pub set : IrcMap V → Str → V → IrcMap V
  set m name value = record m {
    entries = Dict.put m.entries (normalize m.mapper name) (record { key = name; value = value });
  }

  unfoldable pub delete : IrcMap V → Str → IrcMap V
  delete m name = record m { entries = Dict.remove m.entries (normalize m.mapper name) }

  unfoldable pub clear : IrcMap V → IrcMap V
  clear m = record m { entries = [] }

  abbrev keys_of : Dict (Entry V) → List Str
  keys_of [] = []
  keys_of ((k, e) ∷ entries) = e.key ∷ keys_of entries

  abbrev pub values_of : Dict (Entry V) → List V
  values_of [] = []
  values_of ((k, e) ∷ entries) = e.value ∷ values_of entries

  -- The display names and the values, in iteration order.
  unfoldable pub keys : IrcMap V → List Str
  keys m = keys_of m.entries

  unfoldable pub values : IrcMap V → List V
  values m = values_of m.entries

  unfoldable pub size : IrcMap V → ℕ
  size m = length m.entries

  -- One round of the loop of `rekey`, at what the new table has in the slot.
  unfoldable pub place :
      (V → V → Bool)
      → Str
      → Dict (Entry V)
      → List V
      → Entry V
      → Option (Entry V)
      → Dict (Entry V) × List V
  place prefer key table displaced entry none = (Dict.put table key entry, displaced)
  place prefer key table displaced entry (some existing) =
      if prefer entry.value existing.value
      then (Dict.put table key entry, displaced ++ existing.value ∷ [])
      else (table, displaced ++ entry.value ∷ [])

  unfoldable pub rekey_step :
      CaseMapping → (V → V → Bool) → Dict (Entry V) → List V → Entry V → Dict (Entry V) × List V
  rekey_step mapper prefer table displaced entry =
      let key = normalize mapper entry.key in
      place prefer key table displaced entry (Dict.get table key)

  unfoldable pub rekey_loop :
      CaseMapping
      → (V → V → Bool)
      → Dict (Entry V)
      → List V
      → Dict (Entry V)
      → Dict (Entry V) × List V
  rekey_loop mapper prefer table displaced [] = (table, displaced)
  rekey_loop mapper prefer table displaced ((k, entry) ∷ entries) =
      let r = rekey_step mapper prefer table displaced entry in
      rekey_loop mapper prefer r.0 r.1 entries

  -- The map under the new mapper, and the values that lost a collision.
  unfoldable pub rekey : IrcMap V → CaseMapping → (V → V → Bool) → IrcMap V × List V
  unfolding rekey_loop rekey_step
  rekey m mapper prefer =
      let r = rekey_loop mapper prefer [] [] m.entries in
      (record { mapper = mapper; entries = r.0 }, r.1)
