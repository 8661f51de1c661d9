-- ===== src/Parse.antt =====
-- packages/irc-message/src/parse.ts: `parseMessage`. The UTF-8 coders of the platform are parameters.
pub mod Backends
use mojo_jojo.Base.{
  ℕ, ◌%◌, ◌^◌, Bool, ◌||◌, true, false, List, Option, none, some, Str, Bytes, if◌then◌else◌,
}
use mojo_jojo.Message.{Message}
use mojo_jojo.Lexer.Flow.{
  LexerError, Limits, default_limits, Outcome, returned, thrown, out_of_fuel,
}
use mojo_jojo.Tokenizer.{Tokens, tokenize}
use mojo_jojo.FastTokenizer.{Scratch, tokenize_into}
use mojo_jojo.Parser.{parse, parse_flat}

pub data Backend : Type 0 where
  reference js_fast : Backend

-- `ParseOptions`; a limit that is absent is `none`.
pub record ParseOptions : Type 0 where
  pub tag_data_limit : Option ℕ
  pub tag_count_limit : Option ℕ
  pub rfc1459_data_limit : Option ℕ
  pub param_count_limit : Option ℕ
  pub backend : Backend

abbrev is_defined : Option ℕ → Bool
is_defined none = false
is_defined (some n) = true

unfoldable pub has_limits : ParseOptions → Bool
has_limits o =
    is_defined o.tag_data_limit
    || is_defined o.tag_count_limit
    || is_defined o.rfc1459_data_limit
    || is_defined o.param_count_limit

-- One limit of the constructor: `n >>> 0`, or the class's default.
unfoldable pub limit_or : Option ℕ → ℕ → ℕ
limit_or none default = default
limit_or (some n) default = n % 2 ^ 32

unfoldable pub set_options : ParseOptions → Limits
unfolding limit_or
set_options o = record {
  tag_data = limit_or o.tag_data_limit 8191;
  tag_count = limit_or o.tag_count_limit 1000;
  rfc1459_data = limit_or o.rfc1459_data_limit 510;
  param_count = limit_or o.param_count_limit 200;
}

-- The limits of the tokenizer that a call uses: one of its own, or the shared one.
unfoldable pub limits_for : ParseOptions → Limits
limits_for o = if has_limits o then set_options o else default_limits

-- `string | Uint8Array`
pub data Input : Type 0 where
  text : Str → Input
  raw : Bytes → Input

-- A message, or what is thrown. `no_fuel` is ruled out by a theorem.
pub data Parsed : Type 0 where
  message : Message → Parsed
  lexer_error : LexerError → Parsed
  type_error : Parsed
  no_fuel : Parsed

abbrev pub parsed : Option Message → Parsed
parsed none = type_error
parsed (some m) = message m

unfoldable pub after_tokens : (Tokens → Option Message) → Outcome Tokens → Parsed
after_tokens parse (returned ts) = parsed (parse ts)
after_tokens parse (thrown e) = lexer_error e
after_tokens parse out_of_fuel = no_fuel

unfoldable pub after_triples : (Scratch → Option Message) → Outcome Scratch → Parsed
after_triples parse (returned r) = parsed (parse r)
after_triples parse (thrown e) = lexer_error e
after_triples parse out_of_fuel = no_fuel

unfoldable pub bytes_of : (Str → Bytes) → Input → Bytes
bytes_of encode (text s) = encode s
bytes_of encode (raw b) = b

module _ (decode : Bytes → Str) where
  unfoldable pub parse_reference : Limits → Bytes → Parsed
  parse_reference limits buffer = after_tokens (parse decode buffer) (tokenize limits buffer)

  -- `scratch` is what the tokenizer's array holds from earlier calls.
  unfoldable pub parse_fast : Limits → List ℕ → Bytes → Parsed
  parse_fast limits scratch buffer =
      after_triples (λ r. parse_flat decode buffer r.scratch r.count)
        (tokenize_into limits scratch buffer)

  unfoldable pub parse_with : Backend → Limits → List ℕ → Bytes → Parsed
  parse_with reference limits scratch buffer = parse_reference limits buffer
  parse_with js_fast limits scratch buffer = parse_fast limits scratch buffer

  unfoldable pub parse_message : (Str → Bytes) → ParseOptions → List ℕ → Input → Parsed
  unfolding limits_for bytes_of
  parse_message encode options scratch input =
      parse_with options.backend (limits_for options) scratch (bytes_of encode input)
