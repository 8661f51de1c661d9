-- ===== src/Base/Dict.antt =====
-- A JavaScript `Map` with string keys: the entries in insertion order. `set` on a key that is there
-- keeps its slot, and a new key goes to the end.
use mathlib.Core.Path.{◌≡◌, refl, subst}
use mathlib.Core.Bool.{Bool, true, false}
use mathlib.Core.Option.{Option, none, some, none-ne-some, some-injective}
use mathlib.Core.List.{List, [], ◌∷◌}
use Prim.Native.Nat.{suc, ◌+◌}
use native.Mathlib.Omega.{arith}
use mojo_jojo.Base.Tests.{if◌then◌else◌, if_lem}
use mojo_jojo.Base.Lists.{length, All}
use mojo_jojo.Base.Text.{Str, str_eq, str_eq_iff}

abbrev pub Dict {ℓ} : Type ℓ → Type ℓ
Dict V = List (Str × V)

module _ {ℓ} {V : Type ℓ} where
  -- m.get(k)
  unfoldable pub get : Dict V → Str → Option V
  get [] k = none
  get ((j, v) ∷ m) k = if str_eq j k then some v else get m k

  -- m.has(k)
  unfoldable pub has : Dict V → Str → Bool
  has [] k = false
  has ((j, v) ∷ m) k = if str_eq j k then true else has m k

  -- m.set(k, v)
  unfoldable pub put : Dict V → Str → V → Dict V
  put [] k v = (k, v) ∷ []
  put ((j, w) ∷ m) k v = if str_eq j k then (j, v) ∷ m else (j, w) ∷ put m k v

  -- m.delete(k)
  unfoldable pub remove : Dict V → Str → Dict V
  remove [] k = []
  remove ((j, v) ∷ m) k = if str_eq j k then m else (j, v) ∷ remove m k

module _ {ℓ} {V : Type ℓ} where
  pub get-put :
      (m : Dict V) (k j : Str) (v : V)
      → get (put m k v) j ≡ (if str_eq k j then some v else get m j)
  unfolding get put
  get-put [] k j v = refl
  get-put ((i, w) ∷ m) k j v =
      ground (arith, str_eq_iff i k, str_eq_iff i j, str_eq_iff k j, get-put m k j v)

  pub get-put_same : (m : Dict V) (k : Str) (v : V) → get (put m k v) k ≡ some v
  get-put_same m k v = rw (get-put m k k v, (str_eq_iff k k).1 refl) refl

  -- Another key finds what it found before.
  pub get-put_other :
      (m : Dict V) (k j : Str) (v : V) → str_eq k j ≡ false → get (put m k v) j ≡ get m j
  get-put_other m k j v h = rw (get-put m k j v, h) refl

  pub has-put :
      (m : Dict V) (k j : Str) (v : V) → has (put m k v) j ≡ (if str_eq k j then true else has m j)
  unfolding has put
  has-put [] k j v = refl
  has-put ((i, w) ∷ m) k j v =
      ground (arith, str_eq_iff i k, str_eq_iff i j, str_eq_iff k j, has-put m k j v)

  pub length-put :
      (m : Dict V) (k : Str) (v : V)
      → length (put m k v) ≡ (if has m k then length m else suc (length m))
  unfolding has put
  length-put [] k v = refl
  length-put ((i, w) ∷ m) k v = ground (arith, length-put m k v)

  pub length-remove :
      (m : Dict V) (k : Str) → length (remove m k) + (if has m k then 1 else 0) ≡ length m
  unfolding has remove
  length-remove [] k = omega arith
  length-remove ((i, w) ∷ m) k = ground (arith, length-remove m k)

module _ {ℓ} {V : Type ℓ} where
  -- No key stands twice.
  abbrev pub Distinct : Dict V → Type 0
  Distinct [] = Unit
  Distinct ((k, v) ∷ m) = (has m k ≡ false) × Distinct m

  pub Distinct-put : (m : Dict V) (k : Str) (v : V) → Distinct m → Distinct (put m k v)
  unfolding has put
  Distinct-put [] k v d = (refl, tt)
  Distinct-put ((i, w) ∷ m) k v d =
      ground (arith, Distinct-put m k v, has-put m k i v, str_eq_iff i k, str_eq_iff k i)

  has-remove-false : (m : Dict V) (k j : Str) → has m j ≡ false → has (remove m k) j ≡ false
  unfolding has remove
  has-remove-false [] k j h = refl
  has-remove-false ((i, w) ∷ m) k j h = ground (arith, has-remove-false m k j)

  pub Distinct-remove : (m : Dict V) (k : Str) → Distinct m → Distinct (remove m k)
  unfolding has remove
  Distinct-remove [] k d = tt
  Distinct-remove ((i, w) ∷ m) k d = ground (arith, Distinct-remove m k, has-remove-false m k i)

  -- Behind a removal the key is gone, and the others stay.
  pub get-remove :
      (m : Dict V) (k j : Str)
      → Distinct m
      → get (remove m k) j ≡ (if str_eq k j then none else get m j)
  unfolding get remove has
  get-remove [] k j d = ground arith
  get-remove ((i, w) ∷ m) k j d =
      ground
        (arith, str_eq_iff i k, str_eq_iff i j, str_eq_iff k j, get-remove m k j, get-none m i d.0)
    where
      get-none : (m : Dict V) (i : Str) → has m i ≡ false → get m i ≡ none
      get-none [] i h = refl
      get-none ((l, w) ∷ m) i h = ground (arith, get-none m i)

-- The entries that a test of their values does not discard.
module _ {ℓ} {V : Type ℓ} where
  unfoldable pub discard : (V → Bool) → Dict V → Dict V
  discard p [] = []
  discard p ((k, v) ∷ m) = let rest = discard p m in if p v then rest else (k, v) ∷ rest

  has-discard :
      (p : V → Bool) (m : Dict V) (k : Str) → has m k ≡ false → has (discard p m) k ≡ false
  unfolding has discard
  has-discard p [] k h = refl
  has-discard p ((j, v) ∷ m) k h = ground (arith, has-discard p m k, h)

  pub Distinct-discard : (p : V → Bool) (m : Dict V) → Distinct m → Distinct (discard p m)
  unfolding discard
  Distinct-discard p [] d = tt
  Distinct-discard p ((k, v) ∷ m) d =
      if_lem Distinct (p v) _ _ (λ e. Distinct-discard p m d.1)
        (λ e. (has-discard p m k d.0, Distinct-discard p m d.1))

  pub has-none : (m : Dict V) (k : Str) → get m k ≡ none → has m k ≡ false
  unfolding get has
  has-none [] k h = refl
  has-none ((j, v) ∷ m) k h = ground (arith, has-none m k, h)

  unfoldable pub unless : (V → Bool) → Option V → Option V
  unless p none = none
  unless p (some v) = if p v then none else some v

  pub get-absent : (m : Dict V) (k : Str) → has m k ≡ false → get m k ≡ none
  unfolding get has
  get-absent [] k h = refl
  get-absent ((j, v) ∷ m) k h = ground (arith, get-absent m k, h)

  -- Where no key stands twice, a lookup finds what it found before, unless that was discarded.
  pub get-discard :
      (p : V → Bool) (m : Dict V) (k : Str) → Distinct m → get (discard p m) k ≡ unless p (get m k)
  unfolding get has discard unless
  get-discard p [] k d = refl
  get-discard p ((j, v) ∷ m) k d = ground (
    arith,
    get-discard p m k d.1,
    str_eq_iff j k,
    get-absent (discard p m) j (has-discard p m j d.0),
  )

-- A predicate of every value of the map.
module _ {ℓ κ} {V : Type ℓ} where
  abbrev pub AllValues : (V → Type κ) → Dict V → Type κ
  AllValues P m = All (λ s. P s.1) m

  pub AllValues-put :
      (P : V → Type κ) (m : Dict V) (k : Str) (v : V)
      → P v
      → AllValues P m
      → AllValues P (put m k v)
  unfolding put
  AllValues-put P [] k v h a = (h, tt)
  AllValues-put P ((j, w) ∷ m) k v h a =
      if_lem (AllValues P) (str_eq j k) _ _ (λ e. (h, a.1))
        (λ e. (a.0, AllValues-put P m k v h a.1))

  pub AllValues-remove :
      (P : V → Type κ) (m : Dict V) (k : Str) → AllValues P m → AllValues P (remove m k)
  unfolding remove
  AllValues-remove P [] k a = tt
  AllValues-remove P ((j, w) ∷ m) k a =
      if_lem (AllValues P) (str_eq j k) _ _ (λ e. a.1) (λ e. (a.0, AllValues-remove P m k a.1))

  -- What a lookup finds, if anything, has the predicate.
  pub AllValues-get :
      (P : V → Type κ) (m : Dict V) (k : Str) (v : V) → AllValues P m → get m k ≡ some v → P v
  unfolding get
  AllValues-get P [] k v a e = absurd (none-ne-some v e)
  AllValues-get P ((j, w) ∷ m) k v a e =
      if_lem (λ o. o ≡ some v → P v) (str_eq j k) _ _ (λ t f. subst P (some-injective w v f) a.0)
        (λ t f. AllValues-get P m k v a.1 f) e
