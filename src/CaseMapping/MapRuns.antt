-- ===== src/CaseMapping/MapRuns.antt =====
-- IrcMap.ts: what any sequence of calls between two re-keyings leaves, as a function on names.
use mojo_jojo.Base.{
  Bool, true, false, List, [], ◌∷◌, Option, none, some, ◌≡◌, refl, ◌∙◌, arith, Str, if◌then◌else◌,
}
use mojo_jojo.Base.Dict
use mojo_jojo.Base.Dict.{Dict}
use mojo_jojo.CaseMapping.{CaseMapping, equals}
use mojo_jojo.CaseMapping.IrcMap.{Entry, IrcMap, new_map, get, has, set, delete, clear, value_of}
use mojo_jojo.CaseMapping.MapLaws.{
  IsKeyed, delete-IsKeyed, get-delete, get-set-delete, set-delete-IsKeyed,
}

-- A call that changes the map.
pub data Call (V : Type 0) : Type 0 where
  set_to : Str → V → Call V
  deleted : Str → Call V
  cleared : Call V

module _ {V : Type 0} where
  unfoldable pub apply : IrcMap V → Call V → IrcMap V
  apply m (set_to name v) = set m name v
  apply m (deleted name) = delete m name
  apply m cleared = clear m

  unfoldable pub apply_all : IrcMap V → List (Call V) → IrcMap V
  apply_all m [] = m
  apply_all m (c ∷ cs) = apply_all (apply m c) cs

  -- The same call on a function from names to values, which only the casemapping tells apart.
  unfoldable pub update : CaseMapping → (Str → Option V) → Call V → Str → Option V
  update m f (set_to name v) other = if equals m name other then some v else f other
  update m f (deleted name) other = if equals m name other then none else f other
  update m f cleared other = none

  unfoldable pub replay : CaseMapping → (Str → Option V) → List (Call V) → Str → Option V
  replay m f [] = f
  replay m f (c ∷ cs) = replay m (update m f c) cs

  unfoldable pub is_value : Option V → Bool
  is_value none = false
  is_value (some v) = true

  -- The abstract view of a map.
  abbrev Views : CaseMapping → IrcMap V → (Str → Option V) → Type 0
  Views mapper m f = (m.mapper ≡ mapper) × IsKeyed m × ((name : Str) → get m name ≡ f name)

  get-clear : (m : IrcMap V) (name : Str) → get (clear m) name ≡ none
  unfolding get clear Dict.get
  get-clear m name = refl

  apply-Views :
      (mapper : CaseMapping) (m : IrcMap V) (f : Str → Option V) (c : Call V)
      → Views mapper m f
      → Views mapper (apply m c) (update mapper f c)
  unfolding apply update set delete clear
  apply-Views mapper m f (set_to name v) h = (
    h.0,
    (set-delete-IsKeyed m name v h.1).0,
    λ other. (get-set-delete m name other v h.1).0 ∙ rw (h.2 other, h.0) refl,
  )
  apply-Views mapper m f (deleted name) h = (
    h.0,
    delete-IsKeyed m name h.1,
    λ other. get-delete m name other h.1 ∙ rw (h.2 other, h.0) refl,
  )
  apply-Views mapper m f cleared h = (h.0, (tt, tt), get-clear m)

  apply_all-Views :
      (mapper : CaseMapping) (m : IrcMap V) (f : Str → Option V) (cs : List (Call V))
      → Views mapper m f
      → Views mapper (apply_all m cs) (replay mapper f cs)
  unfolding apply_all replay
  apply_all-Views mapper m f [] h = h
  apply_all-Views mapper m f (c ∷ cs) h =
      apply_all-Views mapper (apply m c) (update mapper f c) cs (apply-Views mapper m f c h)

  has-entries : (t : Dict (Entry V)) (k : Str) → Dict.has t k ≡ is_value (value_of (Dict.get t k))
  unfolding Dict.has Dict.get is_value
  has-entries [] k = refl
  has-entries ((j, e) ∷ t) k = ground (arith, has-entries t k)

  has-get : (m : IrcMap V) (name : Str) → has m name ≡ is_value (get m name)
  unfolding has get
  has-get m name = has-entries m.entries _

  -- A new map behind any calls of set, delete and clear refines the function that those calls give
  -- when names are told apart by the casemapping only: get and has answer as it does.
  pub apply_all-replay :
      (mapper : CaseMapping) (cs : List (Call V)) (name : Str)
      → (get (apply_all (new_map mapper) cs) name ≡ replay mapper (λ _. none) cs name)
        × (has (apply_all (new_map mapper) cs) name ≡ is_value (replay mapper (λ _. none) cs name))
  unfolding new_map get Dict.get
  apply_all-replay mapper cs name =
      let h = apply_all-Views mapper (new_map mapper) (λ _. none) cs (refl, (tt, tt), λ _. refl) in
      (h.2 name, has-get (apply_all (new_map mapper) cs) name ∙ rw (h.2 name) refl)
