-- ===== src/Tiling/Cover.antt =====
-- The tokens of a line cover it with no gap and no overlap, and the fuel of the loops suffices.
use mathlib.Core.Path.{subst}
use mojo_jojo.Base.{ℕ, suc, ◌+◌, ◌≤◌, [], ◌∷◌, ◌≡◌, arith, length, Bytes}
use mojo_jojo.Lexer.Token.{TokenType}
use mojo_jojo.Lexer.Flow.{
  Outcome, returned, thrown, out_of_fuel, Flow, go, halt, ◌>>=◌, through, Cursor,
}
use mojo_jojo.Tokenizer.{Tokens, push, eof, resume}

-- The spans go from `p` to `q`, each where the one before it ends.
abbrev pub Tiles : ℕ → ℕ → Tokens → Type 0
Tiles p q [] = p ≡ q
Tiles p q (t ∷ ts) = (t.start ≡ p) × (p ≤ t.end) × Tiles t.end q ts

pub Tiles-push :
    (p : ℕ) {q : ℕ} (r : ℕ) (ts : Tokens) (type : TokenType)
    → q ≤ r
    → Tiles p q ts
    → Tiles p r (push ts type q r)
Tiles-push p r [] type le h = omega arith
Tiles-push p r (t ∷ ts) type le h = (h.0, h.1, Tiles-push t.end r ts type le h.2)

module _ (start total : ℕ) where
  -- Before the end, at `low` or behind it, with the tokens up to the position.
  pub record At (low : ℕ) (k : Cursor Tokens) : Type 0 where
    pub tiles : Tiles start k.pos k.tokens
    pub left : k.pos + suc (length k.tail) ≡ total
    pub later : low ≤ k.pos

  abbrev pub Ends : Outcome Tokens → Type 0
  Ends (returned ts) = Tiles start total ts
  Ends (thrown e) = Unit
  Ends out_of_fuel = ⊥

  pub data Post {A : Type 0} (P : A → Type 0) : Flow Tokens A → Type 0 where
    going : {a : A} → P a → Post P (go a)
    halting : {o : Outcome Tokens} → Ends o → Post P (halt o)

  pub Post-bind :
      {A B : Type 0} {P : A → Type 0} {Q : B → Type 0} {m : Flow Tokens A} (f : A → Flow Tokens B)
      → Post P m
      → ((a : A) → P a → Post Q (f a))
      → Post Q (m >>= f)
  Post-bind f (going {a} h) g = g a h
  Post-bind f (halting h) g = halting h

  pub Post-through :
      {A : Type 0} {P : A → Type 0} {m : Flow Tokens A} (f : A → Outcome Tokens)
      → Post P m
      → ((a : A) → P a → Ends (f a))
      → Ends (through m f)
  Post-through f (going {a} h) g = g a h
  Post-through f (halting h) g = h

  pub At-weaken : {low low' : ℕ} {k : Cursor Tokens} → low' ≤ low → At low k → At low' k
  At-weaken le h = record {
    tiles = h.tiles;
    left = h.left;
    later = (let l = h.later in omega arith);
  }

  pub Post-weaken :
      {low low' : ℕ} {m : Flow Tokens (Cursor Tokens)}
      → low' ≤ low
      → Post (At low) m
      → Post (At low') m
  Post-weaken le (going h) = going (At-weaken le h)
  Post-weaken le (halting h) = halting h

  pub eof-Ends : (ts : Tokens) (pos : ℕ) → pos ≡ total → Tiles start pos ts → Ends (eof ts pos)
  eof-Ends ts pos e h =
      subst (λ q. Tiles start q (push ts TokenType.eof pos pos)) e
        (Tiles-push start pos ts TokenType.eof (omega arith) h)

  pub resume-Post :
      (low : ℕ) (ts : Tokens) (pos : ℕ) (rest : Bytes)
      → Tiles start pos ts
      → pos + length rest ≡ total
      → low ≤ pos
      → Post (At low) (resume ts pos rest)
  unfolding resume
  resume-Post low ts pos [] h e le = halting (eof-Ends ts pos (omega arith) h)
  resume-Post low ts pos (c ∷ rest) h e le = going (record { tiles = h; left = e; later = le })
