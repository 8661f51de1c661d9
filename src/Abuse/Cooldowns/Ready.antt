-- ===== src/Abuse/Cooldowns/Ready.antt =====
-- cooldown.ts: when a key is let through again, with requests of other keys in between.
use mojo_jojo.Base.{
  ℕ, ◌+◌, ◌≤◌, Bool, true, false, not, ◌&&◌, List, [], ◌∷◌, Option, none, some, ◌≡◌, refl, sym, ◌∙◌,
  ◌⊎◌, subst, inl, inr, arith, Str, All, length, ltb, leb, str_eq, Bool-cases, if_lem,
}
use mathlib.Core.Option.{some-injective, none-ne-some}
use mojo_jojo.Base.Dict
use mojo_jojo.Base.Dict.{
  Dict, Distinct, Distinct-put, Distinct-discard, Distinct-remove, discard, get-discard,
  get-put_same, get-put_other, unless,
}
use mojo_jojo.Abuse.Cooldowns.{
  Cooldowns, or_zero, prune_expired, make_room, soonest, drop_soonest, arm, check,
}

-- A key, the time of its request, and the cooldown it asks for.
abbrev pub Request : Type 0
Request = Str × ℕ × ℕ

unfoldable pub check_all : Cooldowns → List Request → Cooldowns
check_all c [] = c
check_all c ((key, now, ms) ∷ requests) = check_all (check c now key ms).0 requests

-- Whether the request finds the table full of cooldowns that are not over.
unfoldable pub is_crowded : Cooldowns → ℕ → Str → Bool
is_crowded c now key =
    not (Dict.has c.until key)
    && leb c.max_entries (length c.until)
    && leb c.max_entries (length (prune_expired now c.until))

unfoldable pub never_crowded : Cooldowns → List Request → Bool
never_crowded c [] = true
never_crowded c ((key, now, ms) ∷ requests) =
    not (is_crowded c now key) && never_crowded (check c now key ms).0 requests

prune-discard : (now : ℕ) (m : Dict ℕ) → prune_expired now m ≡ discard (λ u. leb u now) m
unfolding prune_expired discard
prune-discard now [] = refl
prune-discard now ((k, u) ∷ m) = rw (prune-discard now m) refl

check-answer :
    (c : Cooldowns) (now : ℕ) (key : Str) (ms : ℕ)
    → (check c now key ms).1 ≡ not (ltb now (or_zero (Dict.get c.until key)))
unfolding check
check-answer c now key ms = elim (Bool-cases (ltb now (or_zero (Dict.get c.until key)))) [
  | inl e ↦ rw e refl
  | inr e ↦ rw e refl
]

module _ (key : Str) (until later : ℕ) where
  -- The cooldown stands, or it is over at the later time.
  abbrev Standing : Option ℕ → Type 0
  Standing o = (o ≡ some until) ⊎ ((o ≡ none) × (until ≤ later))

  abbrev Stands : Dict ℕ → Type 0
  Stands m = Distinct m × Standing (Dict.get m key)

  Standing-unless :
      (now : ℕ) (o : Option ℕ) → now ≤ later → Standing o → Standing (unless (λ u. leb u now) o)
  unfolding unless
  Standing-unless now none h s = s
  Standing-unless now (some u) h (inl e) =
      if_lem Standing (leb u now) _ _
        (λ t. inr (refl, ground (arith, t, h, some-injective u until e))) (λ t. inl e)
  Standing-unless now (some u) h (inr e) = absurd (none-ne-some u (sym e.0))

  prune-Stands : (now : ℕ) (m : Dict ℕ) → now ≤ later → Stands m → Stands (prune_expired now m)
  prune-Stands now m h s = rw (prune-discard now m) (
    Distinct-discard _ m s.0,
    subst Standing (sym (get-discard (λ u. leb u now) m key s.0))
        (Standing-unless now (Dict.get m key) h s.1),
  )

  put-Stands :
      (m : Dict ℕ) (k : Str) (u : ℕ) → str_eq k key ≡ false → Stands m → Stands (Dict.put m k u)
  put-Stands m k u n s =
      (Distinct-put m k u s.0, subst Standing (sym (get-put_other m k key u n)) s.1)

  check-Stands :
      (c : Cooldowns) (now : ℕ) (k : Str) (ms : ℕ)
      → str_eq k key ≡ false
      → now ≤ later
      → is_crowded c now k ≡ false
      → Stands c.until
      → Stands (check c now k ms).0.until
  unfolding check arm make_room is_crowded
  check-Stands c now k ms n h free s =
      if_lem (λ (r : Cooldowns × Bool). Stands r.0.until) (ltb now (or_zero (Dict.get c.until k))) _
        _ (λ e. s)
        (λ e. put-Stands _ k (now + ms) n (
          if_lem Stands (not (Dict.has c.until k) && leb c.max_entries (length c.until)) _ _
            (λ f.
              if_lem Stands (leb c.max_entries (length (prune_expired now c.until))) _ _
                (λ g. absurd (ground (arith, free, f, g))) (λ g. prune-Stands now c.until h s))
            (λ f. s)))

  check_all-Stands :
      (c : Cooldowns) (between : List Request)
      → All (λ r. (str_eq r.0 key ≡ false) × (r.1 ≤ later)) between
      → never_crowded c between ≡ true
      → Stands c.until
      → Stands (check_all c between).until
  unfolding check_all never_crowded
  check_all-Stands c [] h free s = s
  check_all-Stands c ((k, now, ms) ∷ between) h free s =
      check_all-Stands (check c now k ms).0 between h.1 (ground (arith, free))
        (check-Stands c now k ms h.0.0 h.0.1 (ground (arith, free)) s)

  Standing-ready : (o : Option ℕ) → Standing o → not (ltb later (or_zero o)) ≡ not (ltb later until)
  Standing-ready o (inl e) = rw e refl
  Standing-ready o (inr e) = rw e.0 (ground (arith, e.1))

drop_soonest-Distinct :
    (best : Option (Str × ℕ)) (m : Dict ℕ) → Distinct m → Distinct (drop_soonest best m)
unfolding drop_soonest
drop_soonest-Distinct none m d = d
drop_soonest-Distinct (some (k, u)) m d = Distinct-remove m k d

make_room-Distinct : (now n : ℕ) (m : Dict ℕ) → Distinct m → Distinct (make_room now n m)
unfolding make_room
make_room-Distinct now n m d =
    let p : Distinct (prune_expired now m) =
      subst Distinct (sym (prune-discard now m)) (Distinct-discard (λ u. leb u now) m d) in
    if_lem Distinct (leb n (length (prune_expired now m))) _ _
      (λ e. drop_soonest-Distinct (soonest none (prune_expired now m)) (prune_expired now m) p)
      (λ e. p)

-- What was let through has its new time in the table.
check-armed :
    (c : Cooldowns) (now : ℕ) (key : Str) (ms : ℕ)
    → Distinct c.until
    → (check c now key ms).1 ≡ true
    → Distinct (check c now key ms).0.until
      × (Dict.get (check c now key ms).0.until key ≡ some (now + ms))
unfolding check arm
check-armed c now key ms d =
    if_lem
      (λ (r : Cooldowns × Bool).
        r.1 ≡ true → Distinct r.0.until × (Dict.get r.0.until key ≡ some (now + ms)))
      (ltb now (or_zero (Dict.get c.until key))) _ _ (λ e h. absurd (ground (arith, h)))
      (λ e h. (
        Distinct-put _ key (now + ms) (
            if_lem Distinct (not (Dict.has c.until key) && leb c.max_entries (length c.until)) _ _
              (λ f. make_room-Distinct now c.max_entries c.until d) (λ f. d)),
        get-put_same _ key (now + ms),
      ))

-- In a table where no key stands twice, a key that was let through is refused until its time is over
-- and let through from then on, whatever requests of other keys come in between, as long as none of
-- them finds the table full of cooldowns that are not over and none is later than the second request.
pub check-check :
    (c : Cooldowns) (key : Str) (now ms later ms' : ℕ) (between : List Request)
    → Distinct c.until
    → (check c now key ms).1 ≡ true
    → All (λ r. (str_eq r.0 key ≡ false) × (r.1 ≤ later)) between
    → never_crowded (check c now key ms).0 between ≡ true
    → (check (check_all (check c now key ms).0 between) later key ms').1
      ≡ not (ltb later (now + ms))
check-check c key now ms later ms' between d passed others free =
    let armed = check-armed c now key ms d passed in
    let s =
      check_all-Stands key (now + ms) later (check c now key ms).0 between others free
        (armed.0, inl armed.1) in
    check-answer (check_all (check c now key ms).0 between) later key ms'
    ∙ Standing-ready key (now + ms) later _ s.1
