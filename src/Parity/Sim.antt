-- ===== src/Parity/Sim.antt =====
-- What relates the token objects of Tokenizer.ts to the triple buffer of JsFastTokenizer.ts.
use native.Mathlib.Numerals.{towards_suc}
use mojo_jojo.Base.{
  ℕ, zero, suc, ◌+◌, ◌-◌, ◌*◌, ◌≤◌, List, [], ◌∷◌, ◌++◌, some, ◌≡◌, refl, sym, ap, ◌∙◌, arith,
  length, take, set, get_elem?, length-concat, length-set, get_last?-concat, lt→ltb,
}
use mojo_jojo.Lexer.Token.{Token, TokenType, type_code}
use mojo_jojo.Lexer.Flow.{
  Outcome, returned, thrown, out_of_fuel, Flow, go, halt, ◌>>=◌, through, Cursor,
}
use mojo_jojo.Tokenizer.{Tokens, push, last, type_of, eof}
use mojo_jojo.FastTokenizer.{Buffer, Scratch, emit, finish, last_tok}

-- The triples of a token list, as the flat array holds them.
unfoldable pub flatten : Tokens → List ℕ
flatten [] = []
flatten (t ∷ ts) = type_code t.type ∷ t.start ∷ t.end ∷ flatten ts

pub flatten-concat :
    (ts : Tokens) (t : Token)
    → flatten (ts ++ t ∷ []) ≡ flatten ts ++ (type_code t.type ∷ t.start ∷ t.end ∷ [])
unfolding flatten
flatten-concat [] t = refl
flatten-concat (u ∷ ts) t = ground (arith, flatten-concat ts t)

-- The first slots of the array are the triples of `ts`.
abbrev pub Holds : List ℕ → Tokens → Type 0
Holds out ts = take (3 * length ts) out ≡ flatten ts

-- The buffer holds the tokens, and there is room for `room` more.
pub record Sim (room : ℕ) (ts : Tokens) (b : Buffer) : Type 0 where
  pub index : b.j ≡ 3 * length ts
  pub fits : 3 * (length ts + room) ≤ length b.out
  pub written : Holds b.out ts
  pub same_last : last_tok b ≡ last ts

take-write :
    (xs : List ℕ) (n x y z : ℕ)
    → suc (suc (suc n)) ≤ length xs
    → take (suc (suc (suc n))) (set (set (set xs n x) (suc n) y) (suc (suc n)) z)
      ≡ take n xs ++ (x ∷ y ∷ z ∷ [])
take-write [] n x y z h = absurd (omega arith)
take-write (u ∷ []) n x y z h = absurd (omega arith)
take-write (u ∷ v ∷ []) n x y z h = absurd (omega arith)
take-write (u ∷ v ∷ w ∷ xs) zero x y z h = refl
take-write (u ∷ v ∷ w ∷ xs) (suc n) x y z h =
    ap (◌∷◌ u) (take-write (v ∷ w ∷ xs) n x y z (omega arith))

read-write :
    (xs : List ℕ) (n x y z : ℕ)
    → suc (suc (suc n)) ≤ length xs
    → get_elem? (set (set (set xs n x) (suc n) y) (suc (suc n)) z) n ≡ some x
read-write [] n x y z h = absurd (omega arith)
read-write (u ∷ []) n x y z h = absurd (omega arith)
read-write (u ∷ v ∷ []) n x y z h = absurd (omega arith)
read-write (u ∷ v ∷ w ∷ xs) zero x y z h = refl
read-write (u ∷ v ∷ w ∷ xs) (suc n) x y z h = read-write (v ∷ w ∷ xs) n x y z (omega arith)

-- The array after `emit`, with the indices in successor form.
emit-out :
    (b : Buffer) (type : TokenType) (s e : ℕ)
    → (emit b type s e).out
      ≡ set (set (set b.out b.j (type_code type)) (suc b.j) s) (suc (suc b.j)) e
unfolding emit
emit-out b type s e = simp towards_suc

emit-j : (b : Buffer) (type : TokenType) (s e : ℕ) → (emit b type s e).j ≡ suc (suc (suc b.j))
unfolding emit
emit-j b type s e = simp towards_suc

last_tok-suc : (b : Buffer) (n : ℕ) → b.j ≡ suc (suc (suc n)) → last_tok b ≡ get_elem? b.out n
unfolding last_tok
last_tok-suc b n e = let d : b.j - 3 ≡ n = omega arith in rw (lt→ltb 0 b.j (omega arith), d)

last-push :
    (ts : Tokens) (type : TokenType) (s e : ℕ) → last (push ts type s e) ≡ some (type_code type)
last-push ts type s e =
    ap type_of (get_last?-concat ts (record { type = type; start = s; end = e }))

module _ {room : ℕ} {ts : Tokens} {b : Buffer} (h : Sim (suc room) ts b) (type : TokenType)
    (s e : ℕ) where
  has_room : suc (suc (suc b.j)) ≤ length b.out
  has_room = let i = h.index in let f = h.fits in omega arith

  index_emit : (emit b type s e).j ≡ 3 * length (push ts type s e)
  index_emit =
      let i = h.index in
      omega
        (arith, emit-j b type s e, length-concat ts (record { type = type; start = s; end = e }))

  fits_emit : 3 * (length (push ts type s e) + room) ≤ length (emit b type s e).out
  fits_emit =
      let f = h.fits in
      rw (emit-out, length-set, length-set, length-set)
        (omega (arith, length-concat ts (record { type = type; start = s; end = e })))

  written_emit : Holds (emit b type s e).out (push ts type s e)
  written_emit =
      let t : Token = record { type = type; start = s; end = e } in
      let n : 3 * length (push ts type s e) ≡ suc (suc (suc b.j)) =
        (sym index_emit ∙ emit-j b type s e) in
      rw (n, emit-out)
        (take-write b.out b.j (type_code type) s e has_room
          ∙ ap (λ l. l ++ (type_code type ∷ s ∷ e ∷ [])) (rw h.index h.written)
          ∙ sym (flatten-concat ts t))

  last-emit : last_tok (emit b type s e) ≡ last (push ts type s e)
  last-emit =
      last_tok-suc (emit b type s e) b.j (emit-j b type s e)
      ∙ rw (emit-out) (read-write b.out b.j (type_code type) s e has_room)
      ∙ sym (last-push ts type s e)

  pub Sim-emit : Sim room (push ts type s e) (emit b type s e)
  Sim-emit = record {
    index = index_emit;
    fits = fits_emit;
    written = written_emit;
    same_last = last-emit;
  }

pub Sim-weaken :
    {room less : ℕ} {ts : Tokens} {b : Buffer} → less ≤ room → Sim room ts b → Sim less ts b
Sim-weaken le h = record {
  index = h.index;
  fits = (let f = h.fits in omega arith);
  written = h.written;
  same_last = h.same_last;
}

-- The result of the fast tokenizer holds the tokens, and counts them.
pub record IsFlat (ts : Tokens) (r : Scratch) : Type 0 where
  pub count_is : r.count ≡ length ts
  pub holds : Holds r.scratch ts
  pub within : 3 * length ts ≤ length r.scratch

-- Two results agree: the same tokens, or the same error.
abbrev pub Agrees : Outcome Tokens → Outcome Scratch → Type 0
Agrees (returned ts) (returned r) = IsFlat ts r
Agrees (thrown e) (thrown e') = e ≡ e'
Agrees out_of_fuel out_of_fuel = Unit
Agrees _ _ = ⊥

pub Agrees-finish :
    {room : ℕ} {ts : Tokens} {b : Buffer} (p : ℕ)
    → Sim (suc room) ts b
    → Agrees (eof ts p) (finish b p)
unfolding finish
Agrees-finish {ts = ts} {b = b} p h =
    let m = Sim-emit h TokenType.eof p p in
    let i = m.index in
    let f = m.fits in record { count_is = omega arith; holds = m.written; within = omega arith }

-- Two blocks agree: both go on, at values that `R` relates, or both end in the same way.
pub data SimFlow {A B : Type 0} (R : A → B → Type 0) : Flow Tokens A → Flow Scratch B → Type 0 where
  going : {a : A} {b : B} → R a b → SimFlow R (go a) (go b)
  halting : {o : Outcome Tokens} {o' : Outcome Scratch} → Agrees o o' → SimFlow R (halt o) (halt o')

-- The same position, with room for two tokens for each byte left and `slack` more.
abbrev pub twin : Cursor Tokens → Buffer → Cursor Buffer
twin k b = record { pos = k.pos; head = k.head; tail = k.tail; tokens = b }

abbrev pub SimCursor : ℕ → Cursor Tokens → Cursor Buffer → Type 0
SimCursor slack k k' =
    (k' ≡ twin k k'.tokens) × Sim (2 * length k.tail + 2 + slack) k.tokens k'.tokens

module _ {A B : Type 0} {R : A → B → Type 0} where
  pub SimFlow-bind :
      {C D : Type 0} {S : C → D → Type 0} {m : Flow Tokens A} {m' : Flow Scratch B}
      (f : A → Flow Tokens C) (f' : B → Flow Scratch D)
      → SimFlow R m m'
      → ((a : A) (b : B) → R a b → SimFlow S (f a) (f' b))
      → SimFlow S (m >>= f) (m' >>= f')
  SimFlow-bind f f' (going {a} {b} h) k = k a b h
  SimFlow-bind f f' (halting h) k = halting h

  pub SimFlow-through :
      {m : Flow Tokens A} {m' : Flow Scratch B} (f : A → Outcome Tokens) (f' : B → Outcome Scratch)
      → SimFlow R m m'
      → ((a : A) (b : B) → R a b → Agrees (f a) (f' b))
      → Agrees (through m f) (through m' f')
  SimFlow-through f f' (going {a} {b} h) k = k a b h
  SimFlow-through f f' (halting h) k = h

-- What holds at every twin holds at every related pair.
pub from_twin :
    (slack : ℕ) (k : Cursor Tokens) {k' : Cursor Buffer} (P : Cursor Buffer → Type 0)
    → SimCursor slack k k'
    → ((b : Buffer) → Sim (2 * length k.tail + 2 + slack) k.tokens b → P (twin k b))
    → P k'
from_twin slack k {k' = k'} P h g = rw h.0 (g k'.tokens h.1)

-- A block that starts at a cursor is compared at twins.
module _ (slack : ℕ) where
  abbrev AtTwins : (Cursor Tokens → Cursor Buffer → Type 0) → Type 0
  AtTwins P =
      (k : Cursor Tokens) (b : Buffer)
      → Sim (2 * length k.tail + 2 + slack) k.tokens b
      → P k (twin k b)

  pub SimFlow-next :
      {C D : Type 0} {S : C → D → Type 0} {m : Flow Tokens (Cursor Tokens)}
      {m' : Flow Scratch (Cursor Buffer)} (f : Cursor Tokens → Flow Tokens C)
      (f' : Cursor Buffer → Flow Scratch D)
      → SimFlow (SimCursor slack) m m'
      → AtTwins (λ k k'. SimFlow S (f k) (f' k'))
      → SimFlow S (m >>= f) (m' >>= f')
  SimFlow-next {S = S} f f' h g =
      SimFlow-bind f f' h λ k k' r. from_twin slack k (λ x. SimFlow S (f k) (f' x)) r (g k)

  pub SimFlow-last :
      {m : Flow Tokens (Cursor Tokens)} {m' : Flow Scratch (Cursor Buffer)}
      (f : Cursor Tokens → Outcome Tokens) (f' : Cursor Buffer → Outcome Scratch)
      → SimFlow (SimCursor slack) m m'
      → AtTwins (λ k k'. Agrees (f k) (f' k'))
      → Agrees (through m f) (through m' f')
  SimFlow-last f f' h g =
      SimFlow-through f f' h λ k k' r. from_twin slack k (λ x. Agrees (f k) (f' x)) r (g k)
