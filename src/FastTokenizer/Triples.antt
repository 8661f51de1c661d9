-- ===== src/FastTokenizer/Triples.antt =====
-- JsFastTokenizer.ts and flat.ts: the triple buffer and the closures that write to it.
use mojo_jojo.Base.{
  ℕ, ◌+◌, ◌-◌, ◌*◌, ◌/◌, List, Option, none, ltb, if◌then◌else◌, length, get_elem?, set, replicate,
}
use mojo_jojo.Lexer.Token.{TokenType, type_code}
use mojo_jojo.Lexer.Flow.{Outcome, returned}

-- `out` (the `Int32Array` `scratch`) and the index `j` of the next free slot.
pub record Buffer : Type 0 where
  pub out : List ℕ
  pub j : ℕ

-- What a call leaves: `this.scratch` and `this.count`.
pub record Scratch : Type 0 where
  pub scratch : List ℕ
  pub count : ℕ

-- flat.ts `tripleCapacity(end - start)`, where the difference may be negative; a capacity below zero
-- asks for no room, as zero does.
unfoldable pub triple_capacity : ℕ → ℕ → ℕ
triple_capacity start end = (end * 2 + 16 - start * 2) * 3

-- `if (this.scratch.length < cap) this.scratch = new Int32Array(cap)`
unfoldable pub reserve : ℕ → List ℕ → Buffer
reserve cap scratch = record {
  out = if ltb (length scratch) cap then replicate cap 0 else scratch;
  j = 0;
}

-- `emit(type, s, e)`: a write past the end of a typed array does nothing.
unfoldable pub emit : Buffer → TokenType → ℕ → ℕ → Buffer
emit b type s e = record {
  out = set (set (set b.out b.j (type_code type)) (b.j + 1) s) (b.j + 2) e;
  j = b.j + 3;
}

-- `finish(p)`: the triple of the end is written, and the count is left behind.
unfoldable pub finish : Buffer → ℕ → Outcome Scratch
unfolding emit
finish b p =
    let b' = emit b TokenType.eof p p in returned (record { scratch = b'.out; count = b'.j / 3 })

-- `lastTok()`
unfoldable pub last_tok : Buffer → Option ℕ
last_tok b = if ltb 0 b.j then get_elem? b.out (b.j - 3) else none
