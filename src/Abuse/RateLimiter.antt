-- ===== src/Abuse/RateLimiter.antt =====
-- packages/bot/src/abuse/rateLimiter.ts: a token bucket per key. Times are milliseconds, read once per
-- call from the clock, which does not run back: `now - updated` is at least 0.
pub mod Credit
pub mod Rate
use mojo_jojo.Base.{
  ℕ, suc, ◌+◌, ◌-◌, ◌*◌, ◌/◌, ◌≤◌, ◌<◌, min, max, Bool, true, false, List, [], ◌∷◌, Option, none,
  some, ◌≡◌, refl, inl, inr, arith, Str, All, length, ltb, leb, if◌then◌else◌, Bool-cases,
}
use mojo_jojo.Base.Dict
use mojo_jojo.Base.Dict.{Dict}

pub record Bucket : Type 0 where
  pub tokens : ℕ
  pub updated : ℕ

pub record RateLimiter : Type 0 where
  pub buckets : Dict Bucket
  pub capacity : ℕ
  pub refill_ms : ℕ
  pub max_keys : ℕ

-- The constructor, with `maxKeys` given or 4096.
unfoldable pub new_limiter : ℕ → ℕ → Option ℕ → RateLimiter
new_limiter capacity refill_ms none = record {
  buckets = [];
  capacity = max 1 capacity;
  refill_ms = max 1 refill_ms;
  max_keys = 4096;
}
new_limiter capacity refill_ms (some n) = record {
  buckets = [];
  capacity = max 1 capacity;
  refill_ms = max 1 refill_ms;
  max_keys = n;
}

-- The loop of `#prune`.
unfoldable pub drop_full : RateLimiter → ℕ → Dict Bucket → Dict Bucket
drop_full l now [] = []
drop_full l now ((key, bucket) ∷ m) =
    let rest = drop_full l now m in
    if leb l.capacity (bucket.tokens + (now - bucket.updated) / l.refill_ms)
    then rest
    else (key, bucket) ∷ rest

-- `keys().next()`, deleted.
unfoldable pub drop_oldest : Dict Bucket → Dict Bucket
drop_oldest [] = []
drop_oldest ((key, bucket) ∷ m) = m

unfoldable pub prune : RateLimiter → ℕ → Dict Bucket
unfolding drop_full drop_oldest
prune l now =
    let m = drop_full l now l.buckets in if leb l.max_keys (length m) then drop_oldest m else m

-- The credit for the whole periods that went by.
unfoldable pub refilled : RateLimiter → ℕ → Bucket → Bucket
refilled l now bucket =
    let refill = (now - bucket.updated) / l.refill_ms in
    if ltb 0 refill
    then record {
      tokens = min l.capacity (bucket.tokens + refill);
      updated = bucket.updated + refill * l.refill_ms;
    }
    else bucket

-- Takes a token, with the bucket stored in the table.
unfoldable pub spend : RateLimiter → Dict Bucket → Str → Bucket → RateLimiter × Bool
spend l m key bucket =
    if leb bucket.tokens 0 then (record l { buckets = Dict.put m key bucket }, false) else (
      record l { buckets = Dict.put m key (record bucket { tokens = bucket.tokens - 1 }) },
      true,
    )

unfoldable pub consume_at : RateLimiter → ℕ → Str → Option Bucket → RateLimiter × Bool
unfolding prune refilled spend
consume_at l now key none =
    let m = if leb l.max_keys (length l.buckets) then prune l now else l.buckets in
    spend l m key (record { tokens = l.capacity; updated = now })
consume_at l now key (some bucket) = spend l l.buckets key (refilled l now bucket)

-- `tryConsume(key)` at time `now`
unfoldable pub try_consume : RateLimiter → ℕ → Str → RateLimiter × Bool
unfolding consume_at
try_consume l now key = consume_at l now key (Dict.get l.buckets key)
