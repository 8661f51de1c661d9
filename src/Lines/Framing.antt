-- ===== src/Lines/Framing.antt =====
-- lineDecoder.ts: what goes out is a line, and what is kept is bounded.
use mojo_jojo.Base.{
  ℕ, zero, suc, ◌+◌, ◌≤◌, ◌<◌, Bool, true, false, List, [], ◌∷◌, ◌++◌, Option, none, some, ◌≡◌,
  refl, inl, inr, arith, Str, Bytes, All, length, ltb, ◌==◌, if◌then◌else◌, includes, Bool-cases,
}
use mojo_jojo.Lines.{Decoder, split_line, strip_cr, emit_line, drain, on_chunk}

abbrev pub NoLf : Str → Type 0
NoLf s = includes s b'\n' ≡ false

-- A line that goes out: no LF in it, and not empty.
abbrev pub IsLine : Str → Type 0
IsLine s = NoLf s × (0 < length s)

abbrev Split : Str → Option (Str × Str) → Type 0
Split s none = NoLf s
Split s (some r) = NoLf r.0 × (length r.0 + suc (length r.1) ≡ length s)

split_line-Split : (s : Str) → Split s (split_line s)
unfolding split_line
split_line-Split [] = refl
split_line-Split (c ∷ s) = elim (Bool-cases (c == b'\n')) [
  | inl e ↦ rw e (refl, omega arith)
  | inr e ↦ rw e (
      (elim (split_line s)
          as (λ o.
            Split s o → Split (c ∷ s) (elim o [ none ↦ none | some (a, b) ↦ some (c ∷ a, b) ])) [
              | none ↦ λ h. ground (arith, e, h)
              | some (a, b) ↦ λ h. (ground (arith, e, h.0), omega (arith, h.1))
            ])
        (split_line-Split s))
]

strip_cr-NoLf : (s : Str) → NoLf s → NoLf (strip_cr s)
unfolding strip_cr
strip_cr-NoLf [] h = refl
strip_cr-NoLf (c ∷ []) h = ground (arith, h)
strip_cr-NoLf (c ∷ d ∷ s) h = ground (arith, h, strip_cr-NoLf (d ∷ s))

emit_line-IsLine :
    (s : Str) (lines : List Str) → NoLf s → All IsLine lines → All IsLine (emit_line s lines)
unfolding emit_line
emit_line-IsLine [] lines h k = k
emit_line-IsLine (c ∷ s) lines h k = ((h, omega arith), k)

All-if : (b : Bool) (x y : List Str) → All IsLine x → All IsLine y → All IsLine (if b then x else y)
All-if true x y h k = h
All-if false x y h k = k

drain-IsLine :
    (n : ℕ) (resyncing : Bool) (buffer : Str)
    → length buffer ≤ n
    → All IsLine (drain n resyncing buffer).0 × NoLf (drain n resyncing buffer).2
unfolding drain
drain-IsLine zero resyncing [] h = (tt, refl)
drain-IsLine zero resyncing (c ∷ s) h = absurd (omega (arith, h))
drain-IsLine (suc n) resyncing buffer h =
    (elim (split_line buffer)
        as (λ o.
          Split buffer o
          → All IsLine
              (elim o as (λ x. List Str × Bool × Str) [
                | none ↦ ([], resyncing, buffer)
                | some (text, rest) ↦
                    (let d = drain n false rest in
                      ((if resyncing then d.0 else emit_line (strip_cr text) d.0), d.1, d.2))
              ]).0
            × NoLf
                (elim o as (λ x. List Str × Bool × Str) [
                  | none ↦ ([], resyncing, buffer)
                  | some (text, rest) ↦
                      (let d = drain n false rest in
                        ((if resyncing then d.0 else emit_line (strip_cr text) d.0), d.1, d.2))
                ]).2) [
                  | none ↦ λ k. (tt, k)
                  | some (text, rest) ↦ λ k.
                      let r = drain-IsLine n false rest (omega (arith, h, k.1)) in
                      (
                        All-if resyncing _ _ r.0
                            (emit_line-IsLine (strip_cr text) _ (strip_cr-NoLf text k.0) r.0),
                        r.1,
                      )
                ])
      (split_line-Split buffer)

-- Whatever the chunk and whatever was held, each line that goes out holds no LF and is not empty; what
-- is held behind the chunk has no LF, so the loop did not stop early, and at most 65536 characters.
pub on_chunk-IsLine :
    {D : Type 0} (decode : D → Bytes → Str × D) (s : Decoder D) (chunk : Bytes)
    → All IsLine (on_chunk decode s chunk).0
      × NoLf (on_chunk decode s chunk).1.buffer
      × (length (on_chunk decode s chunk).1.buffer ≤ 65536)
unfolding on_chunk
on_chunk-IsLine decode s chunk =
    let text = s.buffer ++ (decode s.decoder chunk).0 in
    let r = drain-IsLine (length text) s.resyncing text (omega arith) in
    elim (Bool-cases (ltb 65536 (length (drain (length text) s.resyncing text).2))) [
      | inl e ↦ rw e (r.0, refl, omega arith)
      | inr e ↦ rw e (r.0, r.1, ground (arith, e))
    ]
