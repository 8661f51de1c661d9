-- ===== src/CaseMapping/MapLaws.antt =====
-- IrcMap.ts: lookups follow the casemapping, and re-keying loses no entry.
use mojo_jojo.Base.{
  ℕ, ◌+◌, ◌≤◌, ◌++◌, Bool, true, List, [], ◌∷◌, Option, none, some, ◌≡◌, refl, inl, inr, arith, Str,
  All, length, str_eq, str_eq_iff, Bool-cases, if◌then◌else◌,
}
use mojo_jojo.Base.Dict
use mojo_jojo.Base.Dict.{
  Dict, Distinct, Distinct-put, Distinct-remove, has-put, length-put, get-put, get-remove,
}
use mojo_jojo.CaseMapping.{CaseMapping, normalize, equals}
use mojo_jojo.CaseMapping.IrcMap.{
  Entry, IrcMap, get, set, delete, size, place, values, values_of, rekey_step, rekey_loop, rekey,
}

module _ {V : Type 0} where
  -- Every slot is that of its display name, and no slot stands twice.
  abbrev pub KeyedBy : CaseMapping → Dict (Entry V) → Type 0
  KeyedBy m t = Distinct t × All (λ s. s.0 ≡ normalize m s.1.key) t

  abbrev pub IsKeyed : IrcMap V → Type 0
  IsKeyed m = KeyedBy m.mapper m.entries

  -- How many values pass a test.
  unfoldable pub tally : (V → Bool) → List V → ℕ
  tally q [] = 0
  tally q (v ∷ l) = (if q v then 1 else 0) + tally q l

  keys-put :
      (m : CaseMapping) (t : Dict (Entry V)) (e : Entry V)
      → All (λ s. s.0 ≡ normalize m s.1.key) t
      → All (λ s. s.0 ≡ normalize m s.1.key) (Dict.put t (normalize m e.key) e)
  unfolding Dict.put
  keys-put m [] e h = (refl, tt)
  keys-put m ((k, f) ∷ t) e h = ground (arith, str_eq_iff k (normalize m e.key), keys-put m t e)

  keys-remove :
      (m : CaseMapping) (t : Dict (Entry V)) (k : Str)
      → All (λ s. s.0 ≡ normalize m s.1.key) t
      → All (λ s. s.0 ≡ normalize m s.1.key) (Dict.remove t k)
  unfolding Dict.remove
  keys-remove m [] k h = tt
  keys-remove m ((j, f) ∷ t) k h = ground (arith, keys-remove m t k)

  KeyedBy-put :
      (m : CaseMapping) (t : Dict (Entry V)) (e : Entry V)
      → KeyedBy m t
      → KeyedBy m (Dict.put t (normalize m e.key) e)
  KeyedBy-put m t e h = (Distinct-put t _ e h.0, keys-put m t e h.1)

  pub delete-IsKeyed : (m : IrcMap V) (name : Str) → IsKeyed m → IsKeyed (delete m name)
  unfolding delete
  delete-IsKeyed m name h = (Distinct-remove m.entries _ h.0, keys-remove m.mapper m.entries _ h.1)

  -- Setting and deleting keep every entry in the slot of its display name.
  pub set-delete-IsKeyed :
      (m : IrcMap V) (name : Str) (v : V)
      → IsKeyed m
      → IsKeyed (set m name v) × IsKeyed (delete m name)
  unfolding set
  set-delete-IsKeyed m name v h = (KeyedBy-put m.mapper m.entries _ h, delete-IsKeyed m name h)

  pub get-delete :
      (m : IrcMap V) (name other : Str)
      → IsKeyed m
      → get (delete m name) other ≡ (if equals m.mapper name other then none else get m other)
  unfolding get delete equals
  get-delete m name other h =
      elim (Bool-cases (str_eq (normalize m.mapper name) (normalize m.mapper other))) [
        | inl e ↦ rw (get-remove m.entries _ _ h.0, e) refl
        | inr e ↦ rw (get-remove m.entries _ _ h.0, e) refl
      ]

  -- In a map whose entries are in the slots of their display names, none twice, a lookup behind a set
  -- finds the new value exactly under the names that the casemapping equates, and the old one under
  -- the others; behind a delete it finds nothing under those names.
  pub get-set-delete :
      (m : IrcMap V) (name other : Str) (v : V)
      → IsKeyed m
      → (get (set m name v) other ≡ (if equals m.mapper name other then some v else get m other))
        × (get (delete m name) other ≡ (if equals m.mapper name other then none else get m other))
  unfolding get set equals
  get-set-delete m name other v h =
      elim (Bool-cases (str_eq (normalize m.mapper name) (normalize m.mapper other))) [
        | inl e ↦ (rw (get-put, e), get-delete m name other h)
        | inr e ↦ (rw (get-put, e), get-delete m name other h)
      ]

  module _ (m : CaseMapping) (prefer : V → V → Bool) where
    place-KeyedBy :
        (t : Dict (Entry V)) (l : List V) (e : Entry V) (found : Option (Entry V))
        → KeyedBy m t
        → KeyedBy m (place prefer (normalize m e.key) t l e found).0
    unfolding place
    place-KeyedBy t l e none h = KeyedBy-put m t e h
    place-KeyedBy t l e (some f) h = elim (Bool-cases (prefer e.value f.value)) [
      | inl q ↦ rw q (KeyedBy-put m t e h)
      | inr q ↦ rw q h
    ]

    rekey_loop-KeyedBy :
        (t : Dict (Entry V)) (l : List V) (es : Dict (Entry V))
        → KeyedBy m t
        → KeyedBy m (rekey_loop m prefer t l es).0
    unfolding rekey_loop rekey_step
    rekey_loop-KeyedBy t l [] h = h
    rekey_loop-KeyedBy t l ((k, e) ∷ es) h =
        rekey_loop-KeyedBy (rekey_step m prefer t l e).0 (rekey_step m prefer t l e).1 es
          (place-KeyedBy t l e (Dict.get t (normalize m e.key)) h)

    -- A new slot adds the entry, and a slot that is taken trades one for the other.
    tally-put :
        (q : V → Bool) (t : Dict (Entry V)) (k : Str) (e : Entry V)
        → tally q (values_of (Dict.put t k e))
            + elim (Dict.get t k) [ none ↦ 0 | some f ↦ if q f.value then 1 else 0 ]
          ≡ tally q (values_of t) + (if q e.value then 1 else 0)
    unfolding Dict.put Dict.get tally
    tally-put q [] k e = omega arith
    tally-put q ((j, f) ∷ t) k e = ground (arith, tally-put q t k e)

    tally-concat :
        (q : V → Bool) (l : List V) (v : V)
        → tally q (l ++ v ∷ []) ≡ tally q l + (if q v then 1 else 0)
    unfolding tally
    tally-concat q [] v = omega arith
    tally-concat q (x ∷ l) v = omega (arith, tally-concat q l v)

    -- The table and the displaced values gain the value of the entry, whoever wins the slot.
    place-tally :
        (q : V → Bool) (t : Dict (Entry V)) (l : List V) (e : Entry V) (found : Option (Entry V))
        (k : Str)
        → Dict.get t k ≡ found
        → tally q (values_of (place prefer k t l e found).0)
            + tally q (place prefer k t l e found).1
          ≡ tally q (values_of t) + tally q l + (if q e.value then 1 else 0)
    unfolding place
    place-tally q t l e none k h =
        let put : tally q (values_of (Dict.put t k e)) + 0
            ≡ tally q (values_of t) + (if q e.value then 1 else 0) =
          rw h at (tally-put q t k e) in
        omega (arith, put)
    place-tally q t l e (some f) k h =
        let put : tally q (values_of (Dict.put t k e)) + (if q f.value then 1 else 0)
            ≡ tally q (values_of t) + (if q e.value then 1 else 0) =
          rw h at (tally-put q t k e) in
        elim (Bool-cases (prefer e.value f.value)) [
          | inl p ↦ rw p (omega (arith, put, tally-concat q l f.value))
          | inr p ↦ rw p (omega (arith, tally-concat q l e.value))
        ]

    rekey_loop-tally :
        (q : V → Bool) (t : Dict (Entry V)) (l : List V) (es : Dict (Entry V))
        → tally q (values_of (rekey_loop m prefer t l es).0)
            + tally q (rekey_loop m prefer t l es).1
          ≡ tally q (values_of t) + tally q l + tally q (values_of es)
    unfolding rekey_loop rekey_step tally
    rekey_loop-tally q t l [] = omega arith
    rekey_loop-tally q t l ((k, e) ∷ es) = omega (
      arith,
      rekey_loop-tally q (rekey_step m prefer t l e).0 (rekey_step m prefer t l e).1 es,
      place-tally q t l e (Dict.get t (normalize m e.key)) (normalize m e.key) refl,
    )

  -- Re-keying, whatever the map was and whichever entry a collision prefers, gives a map whose slots
  -- are those of the new casemapping, and each value is kept or handed back among the displaced, as
  -- often as it was there: as many values pass any test q in the two together as in the old map.
  pub rekey-IsKeyed :
      (m : IrcMap V) (mapper : CaseMapping) (prefer : V → V → Bool) (q : V → Bool)
      → ((rekey m mapper prefer).0.mapper ≡ mapper)
        × IsKeyed (rekey m mapper prefer).0
        × (tally q (values (rekey m mapper prefer).0) + tally q (rekey m mapper prefer).1
            ≡ tally q (values m))
  unfolding rekey values tally
  rekey-IsKeyed m mapper prefer q = (
    refl,
    rekey_loop-KeyedBy mapper prefer [] [] m.entries (tt, tt),
    omega (arith, rekey_loop-tally mapper prefer q [] [] m.entries),
  )

  tally-size : (t : Dict (Entry V)) → tally (λ v. true) (values_of t) ≡ length t
  unfolding tally
  tally-size [] = refl
  tally-size ((k, e) ∷ t) = omega (arith, tally-size t)

  -- No map grows by its re-keying.
  pub size-rekey :
      (m : IrcMap V) (mapper : CaseMapping) (prefer : V → V → Bool)
      → size (rekey m mapper prefer).0 ≤ size m
  unfolding size values
  size-rekey m mapper prefer =
      let r = (rekey-IsKeyed m mapper prefer (λ v. true)).2 in
      let after = tally-size (rekey m mapper prefer).0.entries in
      let before = tally-size m.entries in omega (arith, r, after, before)
