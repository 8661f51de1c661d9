-- ===== src/Parity/Parsers.antt =====
-- FlatParser.ts on the triples of a token list does what Parser.ts does on the list, and
-- `parseMessage` of parse.ts gives the same with either backend.
use native.Mathlib.Numerals.{towards_suc}
use mathlib.Core.Path.{fun_ext}
use mojo_jojo.Base.{
  ℕ, zero, suc, ◌+◌, ◌*◌, List, [], ◌∷◌, ◌++◌, some, ◌≡◌, refl, sym, ap, ◌∙◌, arith, length, take,
  drop, Str, Bytes,
}
use mojo_jojo.Lexer.Token.{Token, TokenType, type_code}
use mojo_jojo.Tokenizer.{Tokens}
use mojo_jojo.Parser.{
  ParseState, initial, finish, on_token, on_type, step, run, parse, slot, flat_step, flat_run,
  and_then, parse_flat,
}
use mojo_jojo.Parity.Sim.{flatten, Holds}

-- The switch of FlatParser.ts on a number does what that of Parser.ts does on the kind.
on_type-type_code :
    (type : TokenType) (text : Str) (s : ParseState)
    → on_type (type_code type) text s ≡ on_token type text s
unfolding on_type on_token
on_type-type_code TokenType.tag_key text s = refl
on_type-type_code _ text s = refl

take-append-drop : (n : ℕ) (xs : List ℕ) → take n xs ++ drop n xs ≡ xs
take-append-drop zero xs = refl
take-append-drop (suc n) [] = refl
take-append-drop (suc n) (x ∷ xs) = ap (◌∷◌ x) (take-append-drop n xs)

-- What the slots from `i` on hold, where the array goes on with a triple there.
slots_at :
    (out : List ℕ) (i x y z : ℕ) (rest : List ℕ)
    → drop i out ≡ x ∷ y ∷ z ∷ rest
    → (slot out i ≡ x)
      × (slot out (suc i) ≡ y)
      × (slot out (suc (suc i)) ≡ z)
      × (drop (suc (suc (suc i))) out ≡ rest)
unfolding slot
slots_at [] zero x y z rest e = cc
slots_at [] (suc i) x y z rest e = cc
slots_at (a ∷ []) zero x y z rest e = cc
slots_at (a ∷ b ∷ []) zero x y z rest e = cc
slots_at (a ∷ b ∷ c ∷ out) zero x y z rest e = ground arith
slots_at (a ∷ out) (suc i) x y z rest e = slots_at out i x y z rest e

module _ (decode : Bytes → Str) (buffer : Bytes) (out : List ℕ) where
  flat_step-eq :
      (t : Token) (i : ℕ) (rest : List ℕ) (s : ParseState)
      → drop i out ≡ type_code t.type ∷ t.start ∷ t.end ∷ rest
      → flat_step decode buffer out i s ≡ step decode buffer t s
  unfolding step flat_step
  flat_step-eq t i rest s e =
      let a = slots_at out i (type_code t.type) t.start t.end rest e in
      simp towards_suc (rw (a.0, a.1, a.2) (on_type-type_code t.type _ s))

  flat_run-run :
      (ts : Tokens) (i : ℕ) (rest : List ℕ) (s : ParseState)
      → drop i out ≡ flatten ts ++ rest
      → flat_run decode buffer out (length ts) i s ≡ run decode buffer ts s
  unfolding flat_run run flatten
  flat_run-run [] i rest s e = refl
  flat_run-run (t ∷ ts) i rest s e =
      let a = slots_at out i (type_code t.type) t.start t.end (flatten ts ++ rest) e in
      rw (flat_step-eq t i (flatten ts ++ rest) s e) (
        ap (and_then (step decode buffer t s))
          (fun_ext λ s'. flat_run-run ts (i + 3) rest s' (simp towards_suc a.3)))

  -- FlatParser.ts on the triples of a token list, wherever in the array they end, does what Parser.ts
  -- does on the list: the same message, or both throw.
  pub parsers_agree :
      (ts : Tokens)
      → Holds out ts
      → parse_flat decode buffer out (length ts) ≡ parse decode buffer ts
  unfolding parse_flat parse
  parsers_agree ts h =
      ap (λ r. and_then r (λ s. some (finish s)))
        (flat_run-run ts 0 (drop (3 * length ts) out) initial
          (sym (take-append-drop (3 * length ts) out) ∙ ap (λ l. l ++ drop (3 * length ts) out) h))
