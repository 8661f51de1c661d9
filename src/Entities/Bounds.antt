-- ===== src/Entities/Bounds.antt =====
-- The lists of masks of a channel stay bounded, and a casemapping change makes no channel.
use mojo_jojo.Base.{
  ℕ, ◌≤◌, Bool, true, false, List, [], ◌∷◌, Option, none, some, ◌≡◌, refl, arith, Str, length,
  if_lem,
}
use mojo_jojo.Base.Dict
use mojo_jojo.Base.Dict.{Dict, AllValues, AllValues-put, AllValues-get, length-put, length-remove}
use mojo_jojo.CaseMapping.{CaseMapping, normalize}
use mojo_jojo.CaseMapping.IrcMap
use mojo_jojo.CaseMapping.IrcMap.{Entry, IrcMap, place, rekey_step, rekey_loop}
use mojo_jojo.CaseMapping.MapLaws.{IsKeyed, rekey-IsKeyed, size-rekey}
use mojo_jojo.Capabilities.Store.{Names}
use mojo_jojo.Modes.{ModeKind, ModeChange}
use mojo_jojo.Entities.Channel.{
  Channel, max_list_entries, add_mask, list_added, list_removed, apply_list_mode, apply_kind,
  apply_channel_mode,
}

-- No list of the channel has more masks than its bound.
abbrev pub ListsBounded : Channel → Type 0
ListsBounded channel = AllValues (λ masks. length masks ≤ max_list_entries) channel.lists

abbrev Bounded : Names → Type 0
Bounded masks = length masks ≤ max_list_entries

add_mask-Bounded : (masks : Names) (param : Str) → Bounded masks → Bounded (add_mask masks param)
unfolding add_mask
add_mask-Bounded masks param h = ground (arith, h, length-put masks param tt)

list_added-Bounded :
    (lists : Dict Names) (mode param : Str) (o : Option Names)
    → ((masks : Names) → o ≡ some masks → Bounded masks)
    → AllValues Bounded lists
    → AllValues Bounded (list_added lists mode param o)
unfolding list_added
list_added-Bounded lists mode param none h a =
    AllValues-put Bounded lists mode _ (add_mask-Bounded [] param (omega arith)) a
list_added-Bounded lists mode param (some masks) h a =
    AllValues-put Bounded lists mode _ (add_mask-Bounded masks param (h masks refl)) a

list_removed-Bounded :
    (lists : Dict Names) (mode param : Str) (o : Option Names)
    → ((masks : Names) → o ≡ some masks → Bounded masks)
    → AllValues Bounded lists
    → AllValues Bounded (list_removed lists mode param o)
unfolding list_removed
list_removed-Bounded lists mode param none h a = a
list_removed-Bounded lists mode param (some masks) h a =
    AllValues-put Bounded lists mode _ (omega (arith, length-remove masks param, h masks refl)) a

apply_list_mode-Bounded :
    (added : Bool) (mode : Str) (param : Option Str) (lists : Dict Names)
    → AllValues Bounded lists
    → AllValues Bounded (apply_list_mode added mode param lists)
unfolding apply_list_mode
apply_list_mode-Bounded added mode none lists a = a
apply_list_mode-Bounded true mode (some param) lists a =
    list_added-Bounded lists mode param (Dict.get lists mode)
      (λ masks. AllValues-get Bounded lists mode masks a) a
apply_list_mode-Bounded false mode (some param) lists a =
    list_removed-Bounded lists mode param (Dict.get lists mode)
      (λ masks. AllValues-get Bounded lists mode masks a) a

apply_kind-ListsBounded :
    (kind : ModeKind) (change : ModeChange) (channel : Channel)
    → ListsBounded channel
    → ListsBounded (apply_kind kind change channel)
unfolding apply_kind
apply_kind-ListsBounded ModeKind.group_a change channel a =
    apply_list_mode-Bounded change.added change.mode change.param channel.lists a
apply_kind-ListsBounded ModeKind.unknown change channel a = a
apply_kind-ListsBounded ModeKind.status_prefix change channel a = a
apply_kind-ListsBounded ModeKind.group_b change channel a = a
apply_kind-ListsBounded ModeKind.group_c change channel a = a
apply_kind-ListsBounded ModeKind.group_d change channel a = a

pub apply_channel_mode-ListsBounded :
    (change : ModeChange) (channel : Channel)
    → ListsBounded channel
    → ListsBounded (apply_channel_mode change channel)
unfolding apply_channel_mode
apply_channel_mode-ListsBounded change = apply_kind-ListsBounded change.kind change

module _ {V : Type 0} (P : V → Type 0) (m : CaseMapping) (prefer : V → V → Bool) where
  -- A predicate of every value that an IrcMap holds.
  abbrev Holds : Dict (Entry V) → Type 0
  Holds t = AllValues (λ e. P e.value) t

  place-Holds :
      (t : Dict (Entry V)) (l : List V) (k : Str) (e : Entry V) (found : Option (Entry V))
      → P e.value
      → Holds t
      → Holds (place prefer k t l e found).0
  unfolding place
  place-Holds t l k e none p h = AllValues-put (λ e. P e.value) t k e p h
  place-Holds t l k e (some f) p h =
      if_lem (λ (r : Dict (Entry V) × List V). Holds r.0) (prefer e.value f.value) _ _
        (λ q. AllValues-put (λ e. P e.value) t k e p h) (λ q. h)

  rekey_loop-Holds :
      (t : Dict (Entry V)) (l : List V) (es : Dict (Entry V))
      → Holds es
      → Holds t
      → Holds (rekey_loop m prefer t l es).0
  unfolding rekey_loop rekey_step
  rekey_loop-Holds t l [] a h = h
  rekey_loop-Holds t l ((k, e) ∷ es) a h =
      rekey_loop-Holds (rekey_step m prefer t l e).0 (rekey_step m prefer t l e).1 es a.1
        (place-Holds t l (normalize m e.key) e (Dict.get t (normalize m e.key)) a.0 h)

module _ {V : Type 0} (P : V → Type 0) where
  -- At most `n` values, all with the predicate, and each in the slot of its display name.
  abbrev pub AtMost : ℕ → IrcMap V → Type 0
  AtMost n m = (IrcMap.size m ≤ n) × AllValues (λ e. P e.value) m.entries × IsKeyed m

  pub rekey-AtMost :
      (m : IrcMap V) (mapper : CaseMapping) (prefer : V → V → Bool) (n : ℕ)
      → AtMost n m
      → AtMost n (IrcMap.rekey m mapper prefer).0
  unfolding IrcMap.rekey
  rekey-AtMost m mapper prefer n h = (
    omega (arith, h.0, size-rekey m mapper prefer),
    rekey_loop-Holds P mapper prefer [] [] m.entries h.1 tt,
    (rekey-IsKeyed m mapper prefer (λ v. true)).1,
  )
