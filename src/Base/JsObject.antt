-- ===== src/Base/JsObject.antt =====
-- A JavaScript object as a table: `obj[key] = value`, and the order of `Object.keys`. Keys that are
-- array indices come first, in ascending order; the others follow in the order of their creation.
use Prim.Native.Nat.{ℕ, ◌+◌, ◌-◌, ◌*◌}
use mathlib.Core.Path.{◌≡◌}
use mathlib.Core.Bool.{Bool, true, false}
use mathlib.Core.Option.{Option, none, some}
use mathlib.Core.List.{[], ◌∷◌, ◌++◌}
use mojo_jojo.Base.Tests.{ltb, ◌==◌, if◌then◌else◌}
use mojo_jojo.Base.Text.{Str}
use mojo_jojo.Base.Chars.{is_digit}
use mojo_jojo.Base.Dict.{Dict, has, put}

unfoldable pub decimal : ℕ → Str → Option ℕ
unfolding is_digit
decimal n [] = some n
decimal n (c ∷ s) = let rest = decimal (n * 10 + (c - b'0')) s in if is_digit c then rest else none

-- The array index that a key spells: canonical decimal, below 2 ^ 32 - 1.
unfoldable pub array_index : Str → Option ℕ
unfolding decimal
array_index [] = none
array_index (c ∷ []) = decimal 0 (c ∷ [])
array_index (c ∷ d ∷ s) = if c == b'0' then none else elim (decimal 0 (c ∷ d ∷ s)) [
  | none ↦ none
  | some n ↦ if ltb n 4294967295 then some n else none
]

-- Does index `i` go before the key with index `o`?
unfoldable pub goes_before : ℕ → Option ℕ → Bool
goes_before i none = true
goes_before i (some j) = ltb i j

module _ {V : Type 0} where
  unfoldable pub insert_index : Dict V → ℕ → Str → V → Dict V
  unfolding goes_before
  insert_index [] i k v = (k, v) ∷ []
  insert_index ((j, w) ∷ m) i k v =
      let rest = insert_index m i k v in
      if goes_before i (array_index j) then (k, v) ∷ (j, w) ∷ m else (j, w) ∷ rest

  unfoldable pub insert_new : Dict V → Option ℕ → Str → V → Dict V
  unfolding insert_index
  insert_new m none k v = m ++ (k, v) ∷ []
  insert_new m (some i) k v = insert_index m i k v

  -- `obj[k] = v`
  unfoldable pub assign : Dict V → Str → V → Dict V
  unfolding insert_new
  assign m k v = if has m k then put m k v else insert_new m (array_index k) k v

  -- Every key of `m` is an array index below `i`.
  abbrev pub AllBelow : ℕ → Dict V → Type 0
  AllBelow i [] = Unit
  AllBelow i ((j, w) ∷ m) = (goes_before i (array_index j) ≡ false) × AllBelow i m

  abbrev pub Follows : Option ℕ → Dict V → Type 0
  Follows none m = Unit
  Follows (some i) m = AllBelow i m

  -- `rest` follows `m` in the order of `Object.keys`, with no key twice.
  abbrev pub IsObjectFrom : Dict V → Dict V → Type 0
  IsObjectFrom m [] = Unit
  IsObjectFrom m ((k, v) ∷ rest) =
      (has m k ≡ false) × Follows (array_index k) m × IsObjectFrom (m ++ (k, v) ∷ []) rest
