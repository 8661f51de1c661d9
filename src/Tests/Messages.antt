-- ===== src/Tests/Messages.antt =====
-- Messages of the wire at concrete inputs.
use mojo_jojo.Base.{
  ℕ, min, true, List, [], ◌∷◌, none, ◌≡◌, refl, arith, Str, Bytes, All, codes, length, take, drop,
}
use mojo_jojo.Message.{Message}
use mojo_jojo.Lexer.Token.{TokenType, type_code}
use mojo_jojo.Lexer.Flow.{default_limits, skip_while}
use mojo_jojo.Lexer.Chars.{is_space}
use mojo_jojo.Tokenizer
use mojo_jojo.FastTokenizer
use mojo_jojo.Parser.{parse, parse_flat}
use mojo_jojo.Parse.{parse_fast, parse_reference}
use mojo_jojo.Parse.Backends.{backends_agree}
use mojo_jojo.Build.{build_message, is_forbidden, source_part}
use mojo_jojo.Build.Safe.{Safe, build_message-Safe}
use mojo_jojo.Parity.Sim.{Agrees, flatten}
use mojo_jojo.Parity.Whole.{tokenizers_agree}
use mojo_jojo.Parity.Parsers.{parsers_agree}
use mojo_jojo.Tiling.Cover.{Ends}
use mojo_jojo.Tiling.Whole.{tokenize_range-Ends}
use mojo_jojo.Escape.{escape_tag_value, unescape_tag_value}
use mojo_jojo.Escape.RoundTrip.{IsFramed, escape-IsFramed, unescape-escape}

-- A coder that leaves ASCII as it is.
abbrev plain_text : Bytes → Str
plain_text b = b

abbrev line : Bytes
line = codes "@a=1;+b :n!u@h PRIVMSG #c :hi you"

backends_agree_example :
    parse_fast plain_text default_limits [] line ≡ parse_reference plain_text default_limits line
backends_agree_example = backends_agree plain_text default_limits [] line

abbrev tagged : Message
tagged = record {
  tags = (codes "+a", codes "x;y") ∷ [];
  source = none;
  command = codes "PRIVMSG";
  params = codes "#c" ∷ codes "hi you" ∷ [];
}

build_message-Safe_example : Safe (build_message tagged true)
unfolding source_part is_forbidden
build_message-Safe_example = build_message-Safe tagged (refl, tt) refl

abbrev short_line : Bytes
short_line = codes ":n PING x"

tokenizers_agree_example :
    Agrees
      (Tokenizer.tokenize_range default_limits short_line 0 9)
      (FastTokenizer.tokenize_range default_limits [] short_line 0 9)
tokenizers_agree_example = tokenizers_agree default_limits [] short_line 0 9 (omega arith)

tokenize_range-Ends_example :
    Ends
      (skip_while is_space 0 (drop 0 (take (min (length short_line) 9) short_line))).0
      (min (length short_line) 9)
      (Tokenizer.tokenize_range default_limits short_line 0 9)
tokenize_range-Ends_example = tokenize_range-Ends default_limits short_line 0 9 (omega arith)

abbrev ping_tokens : Tokenizer.Tokens
ping_tokens =
    record { type = TokenType.command; start = 0; end = 4 }
    ∷ record { type = TokenType.separator; start = 4; end = 5 }
    ∷ record { type = TokenType.middle_parameter; start = 5; end = 6 }
    ∷ []

abbrev ping_triples : List ℕ
ping_triples = 14 ∷ 0 ∷ 4 ∷ 13 ∷ 4 ∷ 5 ∷ 15 ∷ 5 ∷ 6 ∷ 0 ∷ []

parsers_agree_example :
    parse_flat plain_text (codes "PING x") ping_triples 3
    ≡ parse plain_text (codes "PING x") ping_tokens
unfolding flatten type_code
parsers_agree_example = parsers_agree plain_text (codes "PING x") ping_triples ping_tokens refl

unescape-escape_example : unescape_tag_value (escape_tag_value (codes "a; b\\")) ≡ codes "a; b\\"
unescape-escape_example = unescape-escape (codes "a; b\\")

escape-IsFramed_example : All IsFramed (escape_tag_value (codes "a; b\\"))
escape-IsFramed_example = escape-IsFramed (codes "a; b\\")
