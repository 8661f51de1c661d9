-- ===== src/Abuse/Cooldowns.antt =====
-- packages/bot/src/abuse/cooldown.ts. Times are milliseconds, read once per call from the clock.
pub mod Ready
use mojo_jojo.Base.{
  ℕ, suc, ◌+◌, ◌≤◌, max, Bool, true, false, not, ◌&&◌, [], ◌∷◌, Option, none, some, ◌≡◌, refl, inl,
  inr, arith, Str, All, length, ltb, leb, if◌then◌else◌, Bool-cases, str_eq_iff,
}
use mojo_jojo.Base.Dict
use mojo_jojo.Base.Dict.{Dict, length-put, length-remove, get-put}

pub record Cooldowns : Type 0 where
  pub until : Dict ℕ
  pub max_entries : ℕ

abbrev pub or_zero : Option ℕ → ℕ
or_zero none = 0
or_zero (some n) = n

-- `#pruneExpired`
unfoldable pub prune_expired : ℕ → Dict ℕ → Dict ℕ
prune_expired now [] = []
prune_expired now ((key, until) ∷ m) =
    let rest = prune_expired now m in if leb until now then rest else (key, until) ∷ rest

-- The scan for the entry that expires soonest; `none` is the start, with `Infinity`.
unfoldable pub soonest : Option (Str × ℕ) → Dict ℕ → Option (Str × ℕ)
soonest best [] = best
soonest none ((k, u) ∷ m) = soonest (some (k, u)) m
soonest (some (bk, bu)) ((k, u) ∷ m) = soonest (some (if ltb u bu then (k, u) else (bk, bu))) m

unfoldable pub drop_soonest : Option (Str × ℕ) → Dict ℕ → Dict ℕ
drop_soonest none m = m
drop_soonest (some (k, u)) m = Dict.remove m k

-- The table before a new key goes in.
unfoldable pub make_room : ℕ → ℕ → Dict ℕ → Dict ℕ
unfolding prune_expired soonest drop_soonest
make_room now max_entries m =
    let pruned = prune_expired now m in
    if leb max_entries (length pruned) then drop_soonest (soonest none pruned) pruned else pruned

-- The table once a key that is ready got its new time.
unfoldable pub arm : Cooldowns → ℕ → Str → ℕ → Cooldowns
unfolding make_room
arm c now key ms =
    let m =
      if not (Dict.has c.until key) && leb c.max_entries (length c.until)
      then make_room now c.max_entries c.until
      else c.until in
    record c { until = Dict.put m key (now + ms) }

-- `check(key, ms)` at time `now`
unfoldable pub check : Cooldowns → ℕ → Str → ℕ → Cooldowns × Bool
unfolding arm
check c now key ms =
    if ltb now (or_zero (Dict.get c.until key)) then (c, false) else (arm c now key ms, true)

-- `clear(key?)`
unfoldable pub clear : Cooldowns → Option Str → Cooldowns
clear c none = record c { until = [] }
clear c (some key) = record c { until = Dict.remove c.until key }

length-prune : (now : ℕ) (m : Dict ℕ) → length (prune_expired now m) ≤ length m
unfolding prune_expired
length-prune now [] = omega arith
length-prune now ((k, u) ∷ m) = ground (arith, length-prune now m)

has-weaken :
    (t m : Dict ℕ) (k : Str) (u : ℕ)
    → All (λ s. Dict.has t s.0 ≡ true) m
    → All (λ s. Dict.has ((k, u) ∷ t) s.0 ≡ true) m
unfolding Dict.has
has-weaken t [] k u h = tt
has-weaken t ((j, w) ∷ m) k u h = (ground (arith, h.0), has-weaken t m k u h.1)

has-All : (m : Dict ℕ) → All (λ s. Dict.has m s.0 ≡ true) m
unfolding Dict.has
has-All [] = tt
has-All ((k, u) ∷ m) = (ground (arith, str_eq_iff k k), has-weaken m m k u (has-All m))

-- The scan ends at a key of the table.
soonest-has :
    (t : Dict ℕ) (bk : Str) (bu : ℕ) (m : Dict ℕ)
    → All (λ s. Dict.has t s.0 ≡ true) m
    → Dict.has t bk ≡ true
    → (k : Str) × (u : ℕ) × (soonest (some (bk, bu)) m ≡ some (k, u)) × (Dict.has t k ≡ true)
unfolding soonest
soonest-has t bk bu [] h b = (bk, bu, refl, b)
soonest-has t bk bu ((j, w) ∷ m) h b = elim (Bool-cases (ltb w bu)) [
  | inl e ↦ rw e (soonest-has t j w m h.1 h.0)
  | inr e ↦ rw e (soonest-has t bk bu m h.1 b)
]

drop_soonest-length :
    (m : Dict ℕ) → suc (length (drop_soonest (soonest none m) m)) ≤ max 1 (length m)
unfolding drop_soonest soonest
drop_soonest-length [] = omega arith
drop_soonest-length ((k, u) ∷ m) =
    let all = has-All ((k, u) ∷ m) in
    let r = soonest-has ((k, u) ∷ m) k u m all.1 all.0 in
    rw r.2 (ground (arith, r.3, length-remove ((k, u) ∷ m) r.0))

make_room-length :
    (now n : ℕ) (m : Dict ℕ) → length m ≤ max 1 n → suc (length (make_room now n m)) ≤ max 1 n
unfolding make_room
make_room-length now n m h =
    let p = length-prune now m in
    let q = drop_soonest-length (prune_expired now m) in
    elim (Bool-cases (leb n (length (prune_expired now m)))) [
      | inl e ↦ rw e (ground (arith, p, q, h))
      | inr e ↦ rw e (ground (arith, p, e, h))
    ]

length-put_le : (m : Dict ℕ) (k : Str) (v : ℕ) → length (Dict.put m k v) ≤ suc (length m)
length-put_le m k v = ground (arith, length-put m k v)

arm-length :
    (c : Cooldowns) (now : ℕ) (key : Str) (ms : ℕ)
    → length c.until ≤ max 1 c.max_entries
    → length (arm c now key ms).until ≤ max 1 c.max_entries
unfolding arm
arm-length c now key ms h = elim (Bool-cases (Dict.has c.until key)) [
  | inl q ↦ rw q (ground (arith, h, q, length-put c.until key (now + ms)))
  | inr q ↦ rw q (elim (Bool-cases (leb c.max_entries (length c.until))) [
    | inl e ↦ rw e (
        let r = make_room-length now c.max_entries c.until h in
        let t = length-put_le (make_room now c.max_entries c.until) key (now + ms) in
        omega (arith, r, t))
    | inr e ↦ rw e (let t = length-put_le c.until key (now + ms) in ground (arith, e, t))
  ])
]

-- A table with at most `max_entries` keys, or one key where that is 0, stays so, whatever key comes.
pub check-length :
    (c : Cooldowns) (now : ℕ) (key : Str) (ms : ℕ)
    → length c.until ≤ max 1 c.max_entries
    → length (check c now key ms).0.until ≤ max 1 c.max_entries
unfolding check
check-length c now key ms h = elim (Bool-cases (ltb now (or_zero (Dict.get c.until key)))) [
  | inl e ↦ rw e h
  | inr e ↦ rw e (arm-length c now key ms h)
]
