-- ===== src/Abuse/RateLimiter/Credit.antt =====
-- rateLimiter.ts: what a key may still get through, by its bucket, and what one request takes of it.
use native.Mathlib.Nat.{add-mul-div_right, div-mul-le_self, le-div_iff_mul-le}
use mojo_jojo.Base.{
  ℕ, ◌+◌, ◌-◌, ◌*◌, ◌/◌, ◌≤◌, ◌<◌, false, ◌&&◌, [], ◌∷◌, Option, none, some, ◌≡◌, refl, sym, ap,
  subst, ◌∙◌, inl, inr, arith, Str, length, ltb, leb, if◌then◌else◌, Bool-cases, if_lem, str_eq,
}
use mojo_jojo.Base.Dict
use mojo_jojo.Base.Dict.{
  Dict, Distinct, Distinct-put, Distinct-discard, discard, get-discard, get-put_same, get-put_other,
  unless, has-none,
}
use mojo_jojo.Abuse.RateLimiter.{
  Bucket, RateLimiter, drop_full, drop_oldest, refilled, spend, prune,
}

-- What a bucket may still give up to a time.
abbrev pub worth : ℕ → ℕ → Bucket → ℕ
worth ms end b = b.tokens + (end - b.updated) / ms

pub refilled-worth :
    (l : RateLimiter) (now end : ℕ) (b : Bucket)
    → 0 < l.refill_ms
    → now ≤ end
    → b.updated ≤ end
    → (worth l.refill_ms end (refilled l now b) ≤ worth l.refill_ms end b)
      × ((refilled l now b).updated ≤ end)
unfolding refilled
refilled-worth l now end b p h k =
    let r = (now - b.updated) / l.refill_ms in
    let d = div-mul-le_self (now - b.updated) l.refill_ms in
    let below : b.updated + r * l.refill_ms ≤ end = omega (arith, d, h, k) in
    let rest = end - (b.updated + r * l.refill_ms) in
    let whole : rest + r * l.refill_ms ≡ end - b.updated = omega (arith, below) in
    let split : (end - b.updated) / l.refill_ms ≡ rest / l.refill_ms + r =
      ap (λ x. x / l.refill_ms) (sym whole) ∙ add-mul-div_right rest r p in
    elim (Bool-cases (ltb 0 ((now - b.updated) / l.refill_ms))) [
      | inl e ↦ rw e (omega (arith, split), below)
      | inr e ↦ rw e (omega arith, k)
    ]

drop_full-discard :
    (l : RateLimiter) (now : ℕ) (m : Dict Bucket)
    → drop_full l now m
      ≡ discard (λ b. leb l.capacity (b.tokens + (now - b.updated) / l.refill_ms)) m
unfolding drop_full discard
drop_full-discard l now [] = refl
drop_full-discard l now ((k, b) ∷ m) = rw (drop_full-discard l now m) refl

drop_oldest-Distinct : (m : Dict Bucket) → Distinct m → Distinct (drop_oldest m)
unfolding drop_oldest
drop_oldest-Distinct [] d = d
drop_oldest-Distinct ((k, b) ∷ m) d = d.1

drop_full-Distinct :
    (l : RateLimiter) (now : ℕ) → Distinct l.buckets → Distinct (drop_full l now l.buckets)
drop_full-Distinct l now d =
    subst Distinct (sym (drop_full-discard l now l.buckets)) (Distinct-discard _ l.buckets d)

-- The table that a new key goes into.
abbrev pub room : RateLimiter → ℕ → Dict Bucket
room l now = if leb l.max_keys (length l.buckets) then prune l now else l.buckets

pub room-Distinct : (l : RateLimiter) (now : ℕ) → Distinct l.buckets → Distinct (room l now)
unfolding prune
room-Distinct l now d =
    if_lem Distinct (leb l.max_keys (length l.buckets)) _ _
      (λ e.
        if_lem Distinct (leb l.max_keys (length (drop_full l now l.buckets))) _ _
          (λ f. drop_oldest-Distinct _ (drop_full-Distinct l now d))
          (λ f. drop_full-Distinct l now d))
      (λ e. d)

div_mono : (a b n : ℕ) → 0 < n → a ≤ b → a / n ≤ b / n
div_mono a b n p h =
    let d = div-mul-le_self a n in
    let below : (a / n) * n ≤ b = omega (arith, d, h) in (le-div_iff_mul-le p).1 below

module _ (key : Str) (end : ℕ) where
  -- How many requests a key may still get through from a time on, with its bucket or with none.
  abbrev pub credit : RateLimiter → ℕ → Option Bucket → ℕ
  credit l now none = l.capacity + (end - now) / l.refill_ms
  credit l now (some b) = worth l.refill_ms end b

  abbrev pub Timely : ℕ → Option Bucket → Type 0
  Timely now none = Unit
  Timely now (some b) = b.updated ≤ now

  pub credit-same :
      (l l' : RateLimiter) (now : ℕ) (o : Option Bucket)
      → l'.capacity ≡ l.capacity
      → l'.refill_ms ≡ l.refill_ms
      → credit l' now o ≡ credit l now o
  credit-same l l' now none e f = rw (e, f) refl
  credit-same l l' now (some b) e f = rw f refl

  pub credit-later :
      (l : RateLimiter) (from now : ℕ) (o : Option Bucket)
      → 0 < l.refill_ms
      → from ≤ now
      → credit l now o ≤ credit l from o
  credit-later l from now none p h =
      let d = div_mono (end - now) (end - from) l.refill_ms p (omega (arith, h)) in omega (arith, d)
  credit-later l from now (some b) p h = omega arith

  pub Timely-later : (from now : ℕ) (o : Option Bucket) → from ≤ now → Timely from o → Timely now o
  Timely-later from now none h t = tt
  Timely-later from now (some b) h t = omega (arith, h, t)

  -- A bucket that is dropped as full gives no more than a new one.
  credit-unless :
      (l : RateLimiter) (now : ℕ) (o : Option Bucket)
      → 0 < l.refill_ms
      → now ≤ end
      → Timely now o
      → (credit l now (unless (λ b. leb l.capacity (b.tokens + (now - b.updated) / l.refill_ms)) o)
          ≤ credit l now o)
        × Timely now (unless (λ b. leb l.capacity (b.tokens + (now - b.updated) / l.refill_ms)) o)
  unfolding unless
  credit-unless l now none p h t = (omega arith, tt)
  credit-unless l now (some b) p h t =
      let r = (now - b.updated) / l.refill_ms in
      let d = div-mul-le_self (now - b.updated) l.refill_ms in
      let m =
        div_mono (end - now + r * l.refill_ms) (end - b.updated) l.refill_ms p
          (omega (arith, d, h, t)) in
      let split = add-mul-div_right (end - now) r p in
      if_lem (λ o. (credit l now o ≤ worth l.refill_ms end b) × Timely now o)
        (leb l.capacity (b.tokens + r)) _ _ (λ e. (ground (arith, e, m, split), tt))
        (λ e. (omega arith, t))

  pub credit-room :
      (l : RateLimiter) (now : ℕ)
      → 0 < l.refill_ms
      → now ≤ end
      → Distinct l.buckets
      → (leb l.max_keys (length l.buckets) && leb l.max_keys (length (drop_full l now l.buckets)))
        ≡ false
      → Timely now (Dict.get l.buckets key)
      → (credit l now (Dict.get (room l now) key) ≤ credit l now (Dict.get l.buckets key))
        × Timely now (Dict.get (room l now) key)
  unfolding prune
  credit-room l now p h d free t =
      let Q = λ (m : Dict Bucket).
        (credit l now (Dict.get m key) ≤ credit l now (Dict.get l.buckets key))
        × Timely now (Dict.get m key) in
      if_lem Q (leb l.max_keys (length l.buckets)) _ _
        (λ e.
          if_lem Q (leb l.max_keys (length (drop_full l now l.buckets))) _ _
            (λ f. absurd (ground (arith, free, e, f)))
            (λ f.
              rw (drop_full-discard l now l.buckets, get-discard _ l.buckets key d)
                (credit-unless l now (Dict.get l.buckets key) p h t)))
        (λ e. (omega arith, t))

  -- What a limiter keeps between two requests.
  abbrev pub Good : RateLimiter → ℕ → RateLimiter → Type 0
  Good l now l' =
      Distinct l'.buckets
      × (l'.capacity ≡ l.capacity)
      × (l'.refill_ms ≡ l.refill_ms)
      × Timely now (Dict.get l'.buckets key)

  pub spend-own :
      (l : RateLimiter) (m : Dict Bucket) (b : Bucket) (now : ℕ)
      → Distinct m
      → b.updated ≤ now
      → Good l now (spend l m key b).0
        × ((if (spend l m key b).1 then 1 else 0)
              + credit l now (Dict.get (spend l m key b).0.buckets key)
            ≤ worth l.refill_ms end b)
  unfolding spend
  spend-own l m b now d t = elim (Bool-cases (leb b.tokens 0)) [
    | inl e ↦ rw (e, get-put_same m key b) ((Distinct-put m key b d, refl, refl, t), omega arith)
    | inr e ↦
        let b' : Bucket = record b { tokens = b.tokens - 1 } in
        rw (e, get-put_same m key b') ((Distinct-put m key b' d, refl, refl, t), ground (arith, e))
  ]

  pub spend-other :
      (l : RateLimiter) (m : Dict Bucket) (k : Str) (b : Bucket) (now : ℕ)
      → str_eq k key ≡ false
      → Distinct m
      → Timely now (Dict.get m key)
      → Good l now (spend l m k b).0 × (Dict.get (spend l m k b).0.buckets key ≡ Dict.get m key)
  unfolding spend
  spend-other l m k b now n d t = elim (Bool-cases (leb b.tokens 0)) [
    | inl e ↦ rw (e, get-put_other m k key b n) ((Distinct-put m k b d, refl, refl, t), refl)
    | inr e ↦
        let b' : Bucket = record b { tokens = b.tokens - 1 } in
        rw (e, get-put_other m k key b' n) ((Distinct-put m k b' d, refl, refl, t), refl)
  ]
