-- ===== src/Lines.antt =====
-- packages/irc-client/src/pipeline/lineDecoder.ts: chunks of bytes into lines. The streaming
-- `TextDecoder` is a parameter: its state, and what it makes of a chunk.
pub mod Framing
use mojo_jojo.Base.{
  ℕ, zero, suc, Bool, true, false, List, [], ◌∷◌, ◌++◌, Option, none, some, Str, Bytes, length, ltb,
  ◌==◌, if◌then◌else◌,
}

-- The variables of a subscription.
pub record Decoder (D : Type 0) : Type 0 where
  pub decoder : D
  pub buffer : Str
  pub resyncing : Bool

-- `buffer.indexOf("\n")`, and the two slices around it.
unfoldable pub split_line : Str → Option (Str × Str)
split_line [] = none
split_line (c ∷ s) =
    if c == b'\n'
    then some ([], s)
    else elim (split_line s) [ none ↦ none | some (a, b) ↦ some (c ∷ a, b) ]

-- `if (line.endsWith("\r")) line = line.slice(0, -1)`
unfoldable pub strip_cr : Str → Str
strip_cr [] = []
strip_cr (c ∷ []) = if c == b'\r' then [] else c ∷ []
strip_cr (c ∷ d ∷ s) = c ∷ strip_cr (d ∷ s)

-- `if (line.length > 0) subscriber.next(line)`
unfoldable pub emit_line : Str → List Str → List Str
emit_line [] lines = lines
emit_line (c ∷ s) lines = (c ∷ s) ∷ lines

-- The loop, on fuel: the lines that go out, `resyncing` and `buffer`.
unfoldable pub drain : ℕ → Bool → Str → List Str × Bool × Str
unfolding emit_line
drain zero resyncing buffer = ([], resyncing, buffer)
drain (suc n) resyncing buffer = elim (split_line buffer) [
  | none ↦ ([], resyncing, buffer)
  | some (text, rest) ↦
      (let d = drain n false rest in
        ((if resyncing then d.0 else emit_line (strip_cr text) d.0), d.1, d.2))
]

-- The handler of `next`. Each round of the loop takes a character at least.
unfoldable pub on_chunk :
    {D : Type 0} → (D → Bytes → Str × D) → Decoder D → Bytes → List Str × Decoder D
unfolding drain
on_chunk decode s chunk =
    let r = decode s.decoder chunk in
    let buffer = s.buffer ++ r.0 in
    let d = drain (length buffer) s.resyncing buffer in
    if ltb 65536 (length d.2)
    then (d.0, record { decoder = r.1; buffer = []; resyncing = true })
    else (d.0, record { decoder = r.1; buffer = d.2; resyncing = d.1 })
