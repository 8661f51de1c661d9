-- ===== src/Escape/RoundTrip.antt =====
-- escape.ts: what is escaped is read back, and stays inside the framing of a tag list.
use mojo_jojo.Base.{
  ℕ, false, inl, inr, [], ◌∷◌, ◌++◌, ◌≡◌, refl, ap, arith, Str, All, any, includes, Bool-cases,
  ◌==◌,
}
use mojo_jojo.Escape.{
  unescape_loop, unescape_tag_value, escape_char, escape_loop, needs_escape, escape_tag_value,
}

unescape_loop-escape_char :
    (c : ℕ) (s : Str) → unescape_loop (escape_char c ++ s) ≡ c ∷ unescape_loop s
unfolding unescape_loop escape_char
unescape_loop-escape_char c [] = ground arith
unescape_loop-escape_char c (d ∷ s) = ground arith

escape_loop-cons : (c : ℕ) (s : Str) → escape_loop (c ∷ s) ≡ escape_char c ++ escape_loop s
unfolding escape_loop
escape_loop-cons c s = refl

unescape_loop-nil : unescape_loop (escape_loop []) ≡ []
unfolding unescape_loop escape_loop
unescape_loop-nil = refl

unescape_loop-escape_loop : (s : Str) → unescape_loop (escape_loop s) ≡ s
unescape_loop-escape_loop [] = unescape_loop-nil
unescape_loop-escape_loop (c ∷ s) =
    rw (escape_loop-cons, unescape_loop-escape_char c (escape_loop s))
      (ap (◌∷◌ c) (unescape_loop-escape_loop s))

-- Without a backslash the loop changes nothing, so the early return is sound.
pub unescape_loop_plain : (s : Str) → includes s b'\\' ≡ false → unescape_loop s ≡ s
unfolding unescape_loop
unescape_loop_plain [] h = refl
unescape_loop_plain (c ∷ []) h = ground arith
unescape_loop_plain (c ∷ d ∷ s) h = ground (arith, unescape_loop_plain (d ∷ s))

pub escape_loop_plain : (s : Str) → any needs_escape s ≡ false → escape_loop s ≡ s
unfolding escape_loop needs_escape
escape_loop_plain [] h = refl
escape_loop_plain (c ∷ s) h = ground (arith, escape_loop_plain s)

-- The early returns of both functions do not show.
pub unescape-eq-loop : (s : Str) → unescape_tag_value s ≡ unescape_loop s
unescape-eq-loop s = elim (Bool-cases (includes s b'\\')) [
  | inl e ↦ unfold unescape_tag_value in rw e
  | inr e ↦ unfold unescape_tag_value in rw (e, unescape_loop_plain s e)
]

pub escape-eq-loop : (s : Str) → escape_tag_value s ≡ escape_loop s
escape-eq-loop s = elim (Bool-cases (any needs_escape s)) [
  | inl e ↦ unfold escape_tag_value in rw e
  | inr e ↦ unfold escape_tag_value in rw (e, escape_loop_plain s e)
]

-- Unescaping an escaped tag value gives the value back, whatever characters it holds.
pub unescape-escape : (value : Str) → unescape_tag_value (escape_tag_value value) ≡ value
unescape-escape s = rw (escape-eq-loop, unescape-eq-loop) (unescape_loop-escape_loop s)

-- A character that may stand inside a tag value on the wire.
abbrev pub IsFramed : ℕ → Type 0
IsFramed c =
    ((c == b';') ≡ false) × ((c == b' ') ≡ false) × ((c == b'\r') ≡ false) × ((c == b'\n') ≡ false)

escape_loop-IsFramed : (s : Str) → All IsFramed (escape_loop s)
unfolding escape_loop
escape_loop-IsFramed [] = tt
escape_loop-IsFramed (c ∷ s) = ground (arith, escape_loop-IsFramed s)

-- An escaped tag value holds no semicolon, space, CR or LF, so it cannot end its tag or the line.
pub escape-IsFramed : (value : Str) → All IsFramed (escape_tag_value value)
escape-IsFramed s = rw escape-eq-loop (escape_loop-IsFramed s)
