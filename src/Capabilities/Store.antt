-- ===== src/Capabilities/Store.antt =====
-- capabilities.ts, `CapabilityStore`: what the server offers and what is enabled, both bounded.
use mojo_jojo.Base.{
  ℕ, ◌≤◌, Bool, not, ◌&&◌, ◌||◌, List, [], ◌∷◌, Option, arith, Str, length, ltb, leb, if◌then◌else◌,
}
use mojo_jojo.Base.Dict
use mojo_jojo.Base.Dict.{Dict, length-put, length-remove}
use mojo_jojo.Capabilities.{CapToken}

-- A set of names is the map that has them as keys.
abbrev pub Names : Type 0
Names = Dict Unit

pub record CapabilityStore : Type 0 where
  pub available : Dict (Option Str)
  pub enabled : Names

abbrev pub empty_store : CapabilityStore
empty_store = record { available = []; enabled = [] }

-- `MAX_TRACKED_CAPS`
abbrev pub max_tracked_caps : ℕ
max_tracked_caps = 1024

unfoldable pub add_one : Dict (Option Str) → CapToken → Dict (Option Str)
add_one m token =
    if not (Dict.has m token.name) && leb max_tracked_caps (length m)
    then m
    else Dict.put m token.name token.value

unfoldable pub add_loop : Dict (Option Str) → List CapToken → Dict (Option Str)
add_loop m [] = m
add_loop m (token ∷ tokens) = add_loop (add_one m token) tokens

-- `addAvailable(tokens)`
unfoldable pub add_available : CapabilityStore → List CapToken → CapabilityStore
unfolding add_loop add_one
add_available s tokens = record s { available = add_loop s.available tokens }

-- `removeAvailable(tokens)`
unfoldable pub remove_available : CapabilityStore → List CapToken → CapabilityStore
remove_available s [] = s
remove_available s (token ∷ tokens) =
    remove_available
      (record {
        available = Dict.remove s.available token.name;
        enabled = Dict.remove s.enabled token.name;
      })
      tokens

unfoldable pub ack_one : Names → CapToken → Names
ack_one m token =
    if token.disabled
    then Dict.remove m token.name
    else (if Dict.has m token.name || ltb (length m) max_tracked_caps
        then Dict.put m token.name tt
        else m)

unfoldable pub ack_loop : Names → List CapToken → Names
ack_loop m [] = m
ack_loop m (token ∷ tokens) = ack_loop (ack_one m token) tokens

-- `applyAck(tokens)`
unfoldable pub apply_ack : CapabilityStore → List CapToken → CapabilityStore
unfolding ack_loop ack_one
apply_ack s tokens = record s { enabled = ack_loop s.enabled tokens }

unfoldable pub is_enabled : CapabilityStore → Str → Bool
is_enabled s name = Dict.has s.enabled name

-- No more names than the ceiling are tracked.
abbrev pub IsBounded : CapabilityStore → Type 0
IsBounded s = (length s.available ≤ 1024) × (length s.enabled ≤ 1024)

add_one-length :
    (m : Dict (Option Str)) (t : CapToken) → length m ≤ 1024 → length (add_one m t) ≤ 1024
unfolding add_one
add_one-length m t h = ground (arith, h, length-put m t.name t.value)

add_loop-length :
    (m : Dict (Option Str)) (ts : List CapToken) → length m ≤ 1024 → length (add_loop m ts) ≤ 1024
unfolding add_loop
add_loop-length m [] h = h
add_loop-length m (t ∷ ts) h = add_loop-length (add_one m t) ts (add_one-length m t h)

ack_one-length : (m : Names) (t : CapToken) → length m ≤ 1024 → length (ack_one m t) ≤ 1024
unfolding ack_one
ack_one-length m t h = ground (arith, h, length-put m t.name tt, length-remove m t.name)

ack_loop-length : (m : Names) (ts : List CapToken) → length m ≤ 1024 → length (ack_loop m ts) ≤ 1024
unfolding ack_loop
ack_loop-length m [] h = h
ack_loop-length m (t ∷ ts) h = ack_loop-length (ack_one m t) ts (ack_one-length m t h)

remove_available-IsBounded :
    (s : CapabilityStore) (ts : List CapToken) → IsBounded s → IsBounded (remove_available s ts)
unfolding remove_available
remove_available-IsBounded s [] h = h
remove_available-IsBounded s (t ∷ ts) h =
    remove_available-IsBounded
      (record {
        available = Dict.remove s.available t.name;
        enabled = Dict.remove s.enabled t.name;
      })
      ts
      (let a = length-remove s.available t.name in
        let e = length-remove s.enabled t.name in (omega (arith, a, h.0), omega (arith, e, h.1)))

-- Whatever tokens the server sends, each operation on a store whose tables are within the ceiling of
-- 1024 leaves both within it.
pub store-IsBounded :
    (s : CapabilityStore) (tokens : List CapToken)
    → IsBounded s
    → IsBounded (add_available s tokens)
      × IsBounded (remove_available s tokens)
      × IsBounded (apply_ack s tokens)
unfolding add_available apply_ack
store-IsBounded s tokens h = (
  (add_loop-length s.available tokens h.0, h.1),
  remove_available-IsBounded s tokens h,
  (h.0, ack_loop-length s.enabled tokens h.1),
)
