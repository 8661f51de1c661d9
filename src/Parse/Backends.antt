-- ===== src/Parse/Backends.antt =====
-- parse.ts: the choice of the backend does not show.
use mojo_jojo.Base.{ℕ, List, ◌≡◌, refl, ap, sym, arith, length, Str, Bytes}
use mojo_jojo.Lexer.Flow.{Limits, Outcome, returned, thrown, out_of_fuel}
use mojo_jojo.Tokenizer.{Tokens, tokenize}
use mojo_jojo.FastTokenizer.{Scratch, tokenize_into}
use mojo_jojo.Parser.{parse, parse_flat}
use mojo_jojo.Parity.Sim.{Agrees}
use mojo_jojo.Parity.Whole.{tokenizers_agree}
use mojo_jojo.Parity.Parsers.{parsers_agree}
use mojo_jojo.Parse.{lexer_error, parsed, after_tokens, after_triples, parse_reference, parse_fast}

module _ (decode : Bytes → Str) (buffer : Bytes) where
  after-Agrees :
      (o : Outcome Tokens) (o' : Outcome Scratch)
      → Agrees o o'
      → after_triples (λ r. parse_flat decode buffer r.scratch r.count) o'
        ≡ after_tokens (parse decode buffer) o
  unfolding after_tokens after_triples
  after-Agrees (returned ts) (returned r) h =
      ap parsed (rw h.count_is (parsers_agree decode buffer r.scratch ts h.holds))
  after-Agrees (thrown e) (thrown e') h = ap lexer_error (sym h)
  after-Agrees out_of_fuel out_of_fuel h = refl
  after-Agrees (returned ts) (thrown e) h = elim h [ ]
  after-Agrees (returned ts) out_of_fuel h = elim h [ ]
  after-Agrees (thrown e) (returned r) h = elim h [ ]
  after-Agrees (thrown e) out_of_fuel h = elim h [ ]
  after-Agrees out_of_fuel (returned r) h = elim h [ ]
  after-Agrees out_of_fuel (thrown e) h = elim h [ ]

-- On every buffer, with any limits and any contents of the reused array, the fast backend gives the
-- message of the reference backend, or throws the same error.
pub backends_agree :
    (decode : Bytes → Str) (limits : Limits) (scratch : List ℕ) (buffer : Bytes)
    → parse_fast decode limits scratch buffer ≡ parse_reference decode limits buffer
unfolding parse_fast parse_reference
backends_agree decode limits scratch buffer =
    after-Agrees decode buffer (tokenize limits buffer) (tokenize_into limits scratch buffer)
      (tokenizers_agree limits scratch buffer 0 (length buffer) (omega arith))
