-- ===== src/Bot/Storage.antt =====
-- packages/bot/src/module/storage.ts: `MemoryStorage`. A value is what `structuredClone` gives of it.
use mojo_jojo.Base.{
  ℕ, ◌≤◌, suc, Bool, not, ◌&&◌, [], ◌∷◌, Option, none, some, ◌≡◌, refl, ap, ◌∙◌, if_lem, ◌-◌, arith,
  max, Str, length, str_eq_iff, leb, if◌then◌else◌,
}
use mojo_jojo.Base.Dict
use mojo_jojo.Base.Dict.{Dict, Distinct, length-put, length-remove, get-put}

pub record MemoryStorage (V : Type 0) : Type 0 where
  pub map : Dict V
  pub max_entries : ℕ

abbrev pub default_max_entries : ℕ
default_max_entries = 10000

module _ {V : Type 0} where
  unfoldable pub new_storage : Option ℕ → MemoryStorage V
  new_storage none = record { map = []; max_entries = max 1 default_max_entries }
  new_storage (some n) = record { map = []; max_entries = max 1 n }

  unfoldable pub get : MemoryStorage V → Str → Option V
  get s key = Dict.get s.map key

  unfoldable pub has : MemoryStorage V → Str → Bool
  has s key = Dict.has s.map key

  -- `map.delete(map.keys().next().value)`
  unfoldable pub drop_oldest : Dict V → Dict V
  drop_oldest [] = []
  drop_oldest ((k, v) ∷ m) = Dict.remove ((k, v) ∷ m) k

  unfoldable pub set : MemoryStorage V → Str → V → MemoryStorage V
  unfolding drop_oldest
  set s key value =
      if not (Dict.has s.map key) && leb s.max_entries (length s.map)
      then record s { map = Dict.put (drop_oldest s.map) key value }
      else record s { map = Dict.put s.map key value }

  unfoldable pub delete : MemoryStorage V → Str → MemoryStorage V
  delete s key = record s { map = Dict.remove s.map key }

drop_oldest-length :
    {V : Type 0} (m : Dict V) (n : ℕ) → length m ≤ suc n → length (drop_oldest m) ≤ n
unfolding drop_oldest Dict.has
drop_oldest-length [] n h = omega arith
drop_oldest-length ((k, v) ∷ m) n h =
    ground (arith, h, length-remove ((k, v) ∷ m) k, str_eq_iff k k)

get-put-key :
    {V : Type 0} (m : Dict V) (key : Str) (value : V)
    → Dict.get (Dict.put m key value) key ≡ some value
get-put-key m key value =
    get-put m key key value
    ∙ ap (λ b. if b then some value else Dict.get m key) ((str_eq_iff key key).1 refl)

-- A storage within its bound stays so when a value is set, and the value is found under its key.
pub set-get :
    {V : Type 0} (s : MemoryStorage V) (key : Str) (value : V)
    → 1 ≤ s.max_entries
    → length s.map ≤ s.max_entries
    → (length (set s key value).map ≤ s.max_entries) × (get (set s key value) key ≡ some value)
unfolding set get
set-get {V} s key value one h =
    let full = not (Dict.has s.map key) && leb s.max_entries (length s.map) in
    let fewer = drop_oldest-length s.map (s.max_entries - 1) (omega (arith, one, h)) in
    if_lem (λ (r : MemoryStorage V). (length r.map ≤ s.max_entries) × (get r key ≡ some value)) full
      _ _
      (λ e. (
        ground (arith, one, fewer, length-put (drop_oldest s.map) key value),
        get-put-key (drop_oldest s.map) key value,
      ))
      (λ e. (ground (arith, e, h, length-put s.map key value), get-put-key s.map key value))
