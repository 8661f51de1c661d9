-- ===== src/Tests/Guards.antt =====
-- The guards against abuse, the modes and the line decoder at concrete inputs.
use mojo_jojo.Base.{
  ℕ, ◌+◌, ◌-◌, ◌/◌, ◌≤◌, max, not, ltb, true, false, List, [], ◌∷◌, ◌≡◌, refl, arith, Str, Bytes,
  All, codes, str_eq, length,
}
use mojo_jojo.Base.Dict
use mojo_jojo.Lines.{Decoder, on_chunk}
use mojo_jojo.Lines.Framing.{IsLine, NoLf, on_chunk-IsLine}
use mojo_jojo.Isupport.{ISupport, empty_isupport}
use mojo_jojo.Modes.{characters, parse_mode_changes}
use mojo_jojo.Modes.Params.{letters, params_of, shares, signed, parse_mode_changes-shares}
use mojo_jojo.Abuse.Cooldowns
use mojo_jojo.Abuse.RateLimiter.{
  RateLimiter, try_consume, consume_at, prune, drop_full, refilled, spend,
}
use mojo_jojo.Abuse.RateLimiter.Rate
use mojo_jojo.Abuse.RateLimiter.Rate.{allowed, allowed-rate}
use mojo_jojo.Abuse.Cooldowns.Ready
use mojo_jojo.Abuse.Cooldowns.Ready.{check-check, check_all, never_crowded, is_crowded}
use mojo_jojo.Abuse.Cooldowns.{Cooldowns, arm, make_room, prune_expired, check-length}

abbrev cooldowns : Cooldowns
cooldowns = record { until = (codes "old", 5) ∷ []; max_entries = 1 }

-- Two keys come in between, the second when the first of them is over.
abbrev between : List Ready.Request
between = (codes "a", 20, 5) ∷ (codes "b", 30, 5) ∷ []

abbrev roomy : Cooldowns
roomy = record { until = (codes "old", 5) ∷ []; max_entries = 2 }

check-check_example :
    (Cooldowns.check
      (check_all (Cooldowns.check roomy 10 (codes "k") 100).0 between)
      50
      (codes "k")
      7).1
    ≡ not (ltb 50 (10 + 100))
unfolding never_crowded is_crowded Cooldowns.check arm make_room prune_expired Dict.get Dict.put
    Dict.has str_eq
check-check_example =
    check-check roomy (codes "k") 10 100 50 7 between (refl, tt) refl
      ((refl, omega arith), ((refl, omega arith), tt)) refl

check-length_example :
    length (Cooldowns.check cooldowns 10 (codes "k") 100).0.until ≤ max 1 cooldowns.max_entries
check-length_example = check-length cooldowns 10 (codes "k") 100 (omega arith)

abbrev limiter : RateLimiter
limiter = record { buckets = []; capacity = 3; refill_ms = 1000; max_keys = 2 }

-- The third key finds the table full, and one of its buckets full again.
abbrev requests : List Rate.Request
requests =
    (codes "a", 0) ∷ (codes "k", 10) ∷ (codes "k", 20) ∷ (codes "b", 1100) ∷ (codes "k", 1500) ∷ []

allowed-rate_example : allowed limiter (codes "k") requests ≤ 3 + (2000 - 0) / 1000
unfolding Rate.never_crowded Rate.is_crowded try_consume consume_at prune drop_full refilled spend
    Dict.get Dict.put Dict.has str_eq
allowed-rate_example =
    allowed-rate limiter (codes "k") requests 0 2000 (omega arith) tt refl
      (
        omega arith,
        omega arith,
        (
          omega arith,
          omega arith,
          (omega arith, omega arith, (omega arith, omega arith, (omega arith, omega arith, tt))),
        ),
      )
      refl

abbrev support : ISupport
support = record empty_isupport {
  prefixes = record { mode = codes "o"; prefix = codes "@" } ∷ [];
  chan_modes = record { a = codes "b"; b = codes "k"; c = codes "l"; d = codes "imnpst" };
}

parse_mode_changes-shares_example :
    (letters (parse_mode_changes (codes "+om-l") (codes "nick" ∷ []) support)
      ≡ signed true (characters (codes "+om-l")))
    × (params_of (parse_mode_changes (codes "+om-l") (codes "nick" ∷ []) support)
        ≡ shares support (codes "nick" ∷ []) (signed true (characters (codes "+om-l"))))
parse_mode_changes-shares_example =
    parse_mode_changes-shares (codes "+om-l") (codes "nick" ∷ []) support

-- A decoder of ASCII, which has nothing to remember.
abbrev ascii_stream : ℕ → Bytes → Str × ℕ
ascii_stream d chunk = (chunk, d)

abbrev held : Decoder ℕ
held = record { decoder = 0; buffer = codes "PI"; resyncing = false }

on_chunk-IsLine_example :
    All IsLine (on_chunk ascii_stream held (codes "NG x\r\n\nPO")).0
    × NoLf (on_chunk ascii_stream held (codes "NG x\r\n\nPO")).1.buffer
    × (length (on_chunk ascii_stream held (codes "NG x\r\n\nPO")).1.buffer ≤ 65536)
on_chunk-IsLine_example = on_chunk-IsLine ascii_stream held (codes "NG x\r\n\nPO")
