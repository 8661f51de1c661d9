-- ===== src/Abuse.antt =====
-- packages/bot/src/abuse: the tables that bound what one key may ask for.
pub mod Cooldowns
pub mod RateLimiter
