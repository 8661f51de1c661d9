-- ===== src/Abuse/RateLimiter/Rate.antt =====
-- rateLimiter.ts: how many requests of one key a stretch of time lets through.
use mojo_jojo.Base.{
  ℕ, ◌+◌, ◌-◌, ◌/◌, ◌≤◌, ◌<◌, Bool, true, false, not, ◌&&◌, List, [], ◌∷◌, none, ◌≡◌, refl, sym, ap,
  subst, inl, inr, arith, Str, length, leb, if◌then◌else◌, Bool-cases, Option-cases, str_eq,
  str_eq_iff,
}
use mojo_jojo.Base.Dict
use mojo_jojo.Base.Dict.{
  Dict, Distinct, Distinct-put, Distinct-discard, discard, get-discard, get-put_same, get-put_other,
  unless, has-none,
}
use mojo_jojo.Abuse.RateLimiter.{RateLimiter, drop_full, refilled, consume_at, try_consume}
use mojo_jojo.Abuse.RateLimiter.Credit.{
  refilled-worth, room, room-Distinct, credit, Timely, credit-same, credit-later, Timely-later,
  credit-room, Good, spend-own, spend-other,
}

-- A key and the time of its request.
abbrev pub Request : Type 0
Request = Str × ℕ

-- How many of the requests of a key are let through, among those of every key.
unfoldable pub allowed : RateLimiter → Str → List Request → ℕ
allowed l key [] = 0
allowed l key ((k, now) ∷ requests) =
    (if str_eq k key && (try_consume l now k).1 then 1 else 0)
    + allowed (try_consume l now k).0 key requests

-- Whether the request is of a new key and finds the table full of buckets that are not full again.
unfoldable pub is_crowded : RateLimiter → ℕ → Str → Bool
is_crowded l now key =
    not (Dict.has l.buckets key)
    && leb l.max_keys (length l.buckets)
    && leb l.max_keys (length (drop_full l now l.buckets))

unfoldable pub never_crowded : RateLimiter → List Request → Bool
never_crowded l [] = true
never_crowded l ((key, now) ∷ requests) =
    not (is_crowded l now key) && never_crowded (try_consume l now key).0 requests

-- The clock does not run back, and reads no more than `end`.
abbrev pub Ordered : ℕ → ℕ → List Request → Type 0
Ordered from end [] = Unit
Ordered from end ((key, now) ∷ requests) = (from ≤ now) × (now ≤ end) × Ordered now end requests

module _ (key : Str) (end : ℕ) where
  -- What one request takes of the credit of the key.
  abbrev Paid : RateLimiter → ℕ → Bool → RateLimiter × Bool → Type 0
  Paid l now same r =
      Good key end l now r.0
      × ((if same && r.1 then 1 else 0) + credit key end l now (Dict.get r.0.buckets key)
          ≤ credit key end l now (Dict.get l.buckets key))

  own-Paid :
      (l : RateLimiter) (now : ℕ)
      → 0 < l.refill_ms
      → now ≤ end
      → Good key end l now l
      → Paid l now true (try_consume l now key)
  unfolding try_consume consume_at
  own-Paid l now p h g = elim (Option-cases (Dict.get l.buckets key)) [
    | inl e ↦ rw e (
        spend-own key end l (room l now) (record { tokens = l.capacity; updated = now }) now
          (room-Distinct l now g.0) (omega arith))
    | inr (b, e) ↦
        let t : b.updated ≤ now = subst (Timely key end now) e g.3 in
        let w = refilled-worth l now end b p h (omega (arith, t, h)) in
        let u = (refilled-worth l now now b p (omega arith) t).1 in
        let r = spend-own key end l l.buckets (refilled l now b) now g.0 u in
        rw e (r.0, omega (arith, r.1, w.0))
  ]

  other-Paid :
      (l : RateLimiter) (now : ℕ) (k : Str)
      → 0 < l.refill_ms
      → now ≤ end
      → str_eq k key ≡ false
      → is_crowded l now k ≡ false
      → Good key end l now l
      → Paid l now false (try_consume l now k)
  unfolding try_consume consume_at is_crowded
  other-Paid l now k p h n free g = elim (Option-cases (Dict.get l.buckets k)) [
    | inl e ↦
        let c =
          credit-room key end l now p h g.0 (ground (arith, free, has-none l.buckets k e)) g.3 in
        let r =
          spend-other key end l (room l now) k (record { tokens = l.capacity; updated = now }) now n
            (room-Distinct l now g.0) c.1 in
        let kept =
          subst (λ o. credit key end l now o ≤ credit key end l now (Dict.get l.buckets key))
            (sym r.1) c.0 in
        rw e (r.0, omega (arith, kept))
    | inr (b, e) ↦
        let r = spend-other key end l l.buckets k (refilled l now b) now n g.0 g.3 in
        rw e (r.0, omega (arith, ap (credit key end l now) r.1))
  ]

  Good-of :
      (l : RateLimiter) (from now : ℕ)
      → from ≤ now
      → Distinct l.buckets
      → Timely key end from (Dict.get l.buckets key)
      → Good key end l now l
  Good-of l from now h d t =
      (d, refl, refl, Timely-later key end from now (Dict.get l.buckets key) h t)

  step-Paid :
      (l : RateLimiter) (now : ℕ) (k : Str)
      → 0 < l.refill_ms
      → now ≤ end
      → is_crowded l now k ≡ false
      → Good key end l now l
      → Paid l now (str_eq k key) (try_consume l now k)
  step-Paid l now k p h free g =
      elim (Bool-cases (str_eq k key)) as (λ _. Paid l now (str_eq k key) (try_consume l now k)) [
        | inl e ↦ rw e (
            subst (λ k. Paid l now true (try_consume l now k)) (sym ((str_eq_iff k key).0 e))
              (own-Paid l now p h g))
        | inr e ↦ rw e (other-Paid l now k p h e free g)
      ]

  allowed-credit :
      (requests : List Request) (l : RateLimiter) (from : ℕ)
      → 0 < l.refill_ms
      → Ordered from end requests
      → never_crowded l requests ≡ true
      → Distinct l.buckets
      → Timely key end from (Dict.get l.buckets key)
      → allowed l key requests ≤ credit key end l from (Dict.get l.buckets key)
  unfolding allowed never_crowded
  allowed-credit [] l from p h free d t = omega arith
  allowed-credit ((k, now) ∷ requests) l from p h free d t =
      let r = step-Paid l now k p h.1 (ground (arith, free)) (Good-of l from now h.0 d t) in
      let l' = (try_consume l now k).0 in
      let later = credit-later key end l from now (Dict.get l.buckets key) p h.0 in
      let same : credit key end l' now (Dict.get l'.buckets key)
          ≡ credit key end l now (Dict.get l'.buckets key) =
        credit-same key end l l' now (Dict.get l'.buckets key) r.0.1 r.0.2 in
      let rest =
        allowed-credit requests l' now (rw r.0.2 p) h.2 (ground (arith, free)) r.0.0 r.0.3 in
      omega (arith, r.1, later, same, rest)

-- In a limiter whose table has no key twice and whose refill period is above 0, a key that has no
-- bucket is let through at most `capacity` times, and once more for each whole period of a stretch of
-- time, whatever requests of any keys come in it, in the order of the clock, as long as no new key
-- finds the table full of buckets that are not full again.
pub allowed-rate :
    (l : RateLimiter) (key : Str) (requests : List Request) (first end : ℕ)
    → 0 < l.refill_ms
    → Distinct l.buckets
    → Dict.get l.buckets key ≡ none
    → Ordered first end requests
    → never_crowded l requests ≡ true
    → allowed l key requests ≤ l.capacity + (end - first) / l.refill_ms
allowed-rate l key requests first end p d none_yet h free =
    let t : Timely key end first (Dict.get l.buckets key) = rw none_yet tt in
    let r = allowed-credit key end requests l first p h free d t in
    subst (λ o. allowed l key requests ≤ credit key end l first o) none_yet r
