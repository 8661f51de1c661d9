-- ===== src/Lexer/Flow.antt =====
-- packages/irc-message/src/tokenizer/errors.ts, and the control flow of a scan: a block of the source
-- either goes on at a position before the end, or returns or throws.
-- A position `pos` comes with the bytes from it up to the end, so `pos >= end` is an empty rest.
use mojo_jojo.Base.{ℕ, ◌+◌, Bool, [], ◌∷◌, Option, Bytes, if◌then◌else◌}

-- The `limitName` of a `LimitExceededError`.
pub data LimitName : Type 0 where
  tag_data_limit tag_count_limit rfc1459_data_limit param_count_limit : LimitName

-- The errors with the fields of the source; `lastToken.type` is the enum's number.
pub data LexerError : Type 0 where
  limit_exceeded : LimitName → ℕ → ℕ → Option ℕ → LexerError
  unexpected_char : ℕ → ℕ → Option ℕ → LexerError

-- `TokenizerOptions` as the constructor stores them; each is below 2 ^ 32 by the source's `>>> 0`.
pub record Limits : Type 0 where
  pub tag_data : ℕ
  pub tag_count : ℕ
  pub rfc1459_data : ℕ
  pub param_count : ℕ

abbrev pub default_limits : Limits
default_limits = record { tag_data = 8191; tag_count = 1000; rfc1459_data = 510; param_count = 200 }

-- How a call ends. `out_of_fuel` is no result of the source: theorems rule it out.
pub data Outcome (T : Type 0) : Type 0 where
  returned : T → Outcome T
  thrown : LexerError → Outcome T
  out_of_fuel : Outcome T

pub data Flow (T A : Type 0) : Type 0 where
  go : A → Flow T A
  halt : Outcome T → Flow T A

infixl 5 ◌>>=◌
abbrev pub ◌>>=◌ : {T A B : Type 0} → Flow T A → (A → Flow T B) → Flow T B
go a >>= f = f a
halt o >>= f = halt o

-- A block whose last part always returns or throws.
abbrev pub through : {T A : Type 0} → Flow T A → (A → Outcome T) → Outcome T
through (go a) f = f a
through (halt o) f = o

-- The scan before the end: `buffer[pos]` is `head`, and `tail` holds the bytes behind it.
pub record Cursor (T : Type 0) : Type 0 where
  pub pos : ℕ
  pub head : ℕ
  pub tail : Bytes
  pub tokens : T

-- `while (pos < end && test(buffer[pos])) pos++`
unfoldable pub skip_while : (ℕ → Bool) → ℕ → Bytes → ℕ × Bytes
skip_while test pos [] = (pos, [])
skip_while test pos (c ∷ rest) =
    let further = skip_while test (pos + 1) rest in if test c then further else (pos, c ∷ rest)
