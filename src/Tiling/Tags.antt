-- ===== src/Tiling/Tags.antt =====
-- The message-tags part of Tokenizer.ts covers what it reads, and moves on with every tag.
use mojo_jojo.Base.{
  ℕ, zero, suc, ◌+◌, ◌≤◌, ◌<◌, Bool, true, false, [], ◌∷◌, ◌≡◌, arith, length, Bytes, ltb, leb,
  ◌==◌, Bool-cases, inl, inr,
}
use mojo_jojo.Lexer.Chars.{
  char_plus, char_equals, char_semicolon, char_space, is_tag_key_char, is_tag_value_char,
}
use mojo_jojo.Lexer.Flow.{Limits, Flow, go, Cursor}
use mojo_jojo.Tokenizer.{
  Tokens, client_key, key_loop, key_name, value_loop, tag_value, tag_value_at, tag_value_start,
  space_loop, next_tag, tag_end, tag, tag_loop, tag_section,
}
use mojo_jojo.Tiling.Cover.{
  Tiles, Tiles-push, At, At-weaken, Post, going, halting, Post-bind, eof-Ends, resume-Post,
}

module _ (start total : ℕ) where
  abbrev pub Sure : ℕ → Flow Tokens (Cursor Tokens) → Type 0
  Sure low = Post start total (At start total low)

  client_key_post :
      (limit limit_pos low : ℕ) (k : Cursor Tokens)
      → At start total low k
      → Sure low (client_key limit limit_pos k)
  unfolding client_key
  client_key_post limit limit_pos low k h =
      let l = h.left in
      let g = h.later in
      elim (Bool-cases (k.head == char_plus)) [
        | inl e ↦ rw e (elim (Bool-cases (ltb limit_pos (k.pos + 1))) [
          | inl e' ↦ rw e' (halting tt)
          | inr e' ↦ rw e' (
              resume-Post start total low _ (k.pos + 1) k.tail
                (Tiles-push start _ k.tokens _ (omega arith) h.tiles) (omega arith) (omega arith))
        ])
        | inr e ↦ rw e (going h)
      ]

  key_loop_post :
      (limit limit_pos low from : ℕ) (ts : Tokens) (pos : ℕ) (rest : Bytes)
      → Tiles start from ts
      → from ≤ pos
      → pos + length rest ≡ total
      → low ≤ pos
      → Sure low (key_loop limit limit_pos from ts pos rest)
  unfolding key_loop
  key_loop_post limit limit_pos low from ts pos [] h le e lo =
      elim (Bool-cases (ltb limit_pos pos)) [
        | inl x ↦ rw x (halting tt)
        | inr x ↦
            rw x
              (halting (eof-Ends start total _ pos (omega arith) (Tiles-push start pos ts _ le h)))
      ]
  key_loop_post limit limit_pos low from ts pos (c ∷ rest) h le e lo =
      let ih =
        key_loop_post limit limit_pos low from ts (pos + 1) rest h (omega arith) (omega arith)
          (omega arith) in
      elim (Bool-cases (ltb limit_pos pos)) [
        | inl x ↦ rw x (halting tt)
        | inr x ↦ rw x (elim (Bool-cases (is_tag_key_char c)) [
          | inl y ↦ rw y ih
          | inr y ↦
              rw y (going (record { tiles = Tiles-push start pos ts _ le h; left = e; later = lo }))
        ])
      ]

  key_name_post :
      (limit limit_pos low : ℕ) (k : Cursor Tokens)
      → At start total low k
      → Sure low (key_name limit limit_pos k)
  unfolding key_name
  key_name_post limit limit_pos low k h =
      let l = h.left in
      let g = h.later in
      elim (Bool-cases (is_tag_key_char k.head)) [
        | inl e ↦ rw e (
            key_loop_post limit limit_pos low k.pos k.tokens (k.pos + 1) k.tail h.tiles
              (omega arith) (omega arith) (omega arith))
        | inr e ↦ rw e (going h)
      ]

  value_loop_post :
      (limit limit_pos low from : ℕ) (ts : Tokens) (pos : ℕ) (rest : Bytes)
      → Tiles start from ts
      → from ≤ pos
      → pos + length rest ≡ total
      → low ≤ pos
      → Sure low (value_loop limit limit_pos from ts pos rest)
  unfolding value_loop
  value_loop_post limit limit_pos low from ts pos [] h le e lo =
      elim (Bool-cases (ltb limit_pos pos)) [
        | inl x ↦ rw x (halting tt)
        | inr x ↦
            rw x
              (halting (eof-Ends start total _ pos (omega arith) (Tiles-push start pos ts _ le h)))
      ]
  value_loop_post limit limit_pos low from ts pos (c ∷ rest) h le e lo =
      let ih =
        value_loop_post limit limit_pos low from ts (pos + 1) rest h (omega arith) (omega arith)
          (omega arith) in
      elim (Bool-cases (ltb limit_pos pos)) [
        | inl x ↦ rw x (halting tt)
        | inr x ↦ rw x (elim (Bool-cases (is_tag_value_char c)) [
          | inl y ↦ rw y ih
          | inr y ↦
              rw y (going (record { tiles = Tiles-push start pos ts _ le h; left = e; later = lo }))
        ])
      ]

  tag_value_at_post :
      (limit limit_pos low : ℕ) (ts : Tokens) (pos : ℕ) (rest : Bytes)
      → Tiles start pos ts
      → pos + length rest ≡ total
      → low ≤ pos
      → Sure low (tag_value_at limit limit_pos ts pos rest)
  unfolding tag_value_at tag_value
  tag_value_at_post limit limit_pos low ts pos [] h e lo =
      halting (eof-Ends start total _ pos (omega arith) (Tiles-push start pos ts _ (omega arith) h))
  tag_value_at_post limit limit_pos low ts pos (c ∷ rest) h e lo =
      elim (Bool-cases (is_tag_value_char c)) [
        | inl x ↦ rw x (
            value_loop_post limit limit_pos low pos ts (pos + 1) rest h (omega arith) (omega arith)
              (omega arith))
        | inr x ↦ rw x (
            going
              (record { tiles = Tiles-push start pos ts _ (omega arith) h; left = e; later = lo }))
      ]

  tag_value_start_post :
      (limit limit_pos low : ℕ) (k : Cursor Tokens)
      → At start total low k
      → Sure low (tag_value_start limit limit_pos k)
  unfolding tag_value_start
  tag_value_start_post limit limit_pos low k h =
      let l = h.left in
      let g = h.later in
      elim (Bool-cases (k.head == char_equals)) [
        | inl e ↦ rw e (elim (Bool-cases (ltb limit_pos (k.pos + 1))) [
          | inl e' ↦ rw e' (halting tt)
          | inr e' ↦ rw e' (
              tag_value_at_post limit limit_pos low _ (k.pos + 1) k.tail
                (Tiles-push start _ k.tokens _ (omega arith) h.tiles) (omega arith) (omega arith))
        ])
        | inr e ↦ rw e (going h)
      ]

  space_loop_post :
      (limit limit_pos low from : ℕ) (ts : Tokens) (pos : ℕ) (rest : Bytes)
      → Tiles start from ts
      → from ≤ pos
      → pos + length rest ≡ total
      → low ≤ pos
      → Sure low (space_loop limit limit_pos from ts pos rest)
  unfolding space_loop
  space_loop_post limit limit_pos low from ts pos [] h le e lo =
      halting (eof-Ends start total _ pos (omega arith) (Tiles-push start pos ts _ le h))
  space_loop_post limit limit_pos low from ts pos (c ∷ rest) h le e lo =
      let ih =
        space_loop_post limit limit_pos low from ts (pos + 1) rest h (omega arith) (omega arith)
          (omega arith) in
      elim (Bool-cases (ltb limit_pos pos)) [
        | inl x ↦ rw x (halting tt)
        | inr x ↦ rw x (elim (Bool-cases (c == char_space)) [
          | inl y ↦ rw y ih
          | inr y ↦
              rw y (going (record { tiles = Tiles-push start pos ts _ le h; left = e; later = lo }))
        ])
      ]

  next_tag_post :
      (limit limit_pos low : ℕ) (ts : Tokens) (pos : ℕ) (rest : Bytes)
      → Tiles start pos ts
      → pos + length rest ≡ total
      → low ≤ pos
      → Sure low (next_tag limit limit_pos ts pos rest)
  unfolding next_tag
  next_tag_post limit limit_pos low ts pos [] h e lo =
      halting (eof-Ends start total ts pos (omega arith) h)
  next_tag_post limit limit_pos low ts pos (c ∷ rest) h e lo =
      elim (Bool-cases (ltb limit_pos pos)) [
        | inl x ↦ rw x (halting tt)
        | inr x ↦ rw x (going (record { tiles = h; left = e; later = lo }))
      ]

  abbrev SureTag : ℕ → Flow Tokens (Bool × Cursor Tokens) → Type 0
  SureTag low = Post start total (λ r. At start total low r.1)

  -- What ends a tag is at least one byte.
  tag_end_post :
      (limit limit_pos low : ℕ) (k : Cursor Tokens)
      → At start total low k
      → SureTag (low + 1) (tag_end limit limit_pos k)
  unfolding tag_end
  tag_end_post limit limit_pos low k h =
      let l = h.left in
      let g = h.later in
      elim (Bool-cases (k.head == char_semicolon)) [
        | inl e ↦ rw e (
            Post-bind start total _
              (next_tag_post limit limit_pos (low + 1) _ (k.pos + 1) k.tail
                (Tiles-push start _ k.tokens _ (omega arith) h.tiles) (omega arith) (omega arith))
              (λ k₁ h₁. going h₁))
        | inr e ↦ rw e (elim (Bool-cases (k.head == char_space)) [
          | inl e' ↦ rw e' (
              Post-bind start total _
                (space_loop_post limit limit_pos (low + 1) k.pos k.tokens (k.pos + 1) k.tail h.tiles
                  (omega arith) (omega arith) (omega arith))
                (λ k₁ h₁. going h₁))
          | inr e' ↦ rw e' (halting tt)
        ])
      ]

  tag_post :
      (limit limit_pos low : ℕ) (k : Cursor Tokens)
      → At start total low k
      → SureTag (low + 1) (tag limit limit_pos k)
  unfolding tag
  tag_post limit limit_pos low k h =
      Post-bind start total _ (client_key_post limit limit_pos low k h) λ k₁ h₁.
        Post-bind start total _ (key_name_post limit limit_pos low k₁ h₁) λ k₂ h₂.
          Post-bind start total _ (tag_value_start_post limit limit_pos low k₂ h₂)
            λ k₃ h₃. tag_end_post limit limit_pos low k₃ h₃

  continue_post :
      (low : ℕ) (more : Bool) (k : Cursor Tokens) (f : Cursor Tokens → Flow Tokens (Cursor Tokens))
      → At start total low k
      → Sure low (f k)
      → Sure low (elim more [ true ↦ f k | false ↦ go k ])
  continue_post low true k f h g = g
  continue_post low false k f h g = going h

  -- With more fuel than bytes left the loop over tags ends.
  tag_loop_post :
      (fuel : ℕ) (limits : Limits) (limit_pos tag_count base low : ℕ) (k : Cursor Tokens)
      → base ≤ low
      → total < fuel + low
      → At start total low k
      → Sure base (tag_loop fuel limits limit_pos tag_count k)
  unfolding tag_loop
  tag_loop_post zero limits limit_pos tag_count base low k b le h =
      let l = h.left in let g = h.later in absurd (omega arith)
  tag_loop_post (suc fuel) limits limit_pos tag_count base low k b le h =
      elim (Bool-cases (leb limits.tag_count tag_count)) [
        | inl e ↦ rw e (halting tt)
        | inr e ↦ rw e (
            Post-bind start total _ (tag_post limits.tag_data limit_pos low k h) λ r h₁.
              continue_post base r.0 r.1 (tag_loop fuel limits limit_pos (tag_count + 1))
                (At-weaken start total (omega arith) h₁)
                (tag_loop_post fuel limits limit_pos (tag_count + 1) base (low + 1) r.1
                  (omega arith) (omega arith) h₁))
      ]

  pub tag_section_post :
      (fuel : ℕ) (limits : Limits) (low : ℕ) (k : Cursor Tokens)
      → total < fuel + low
      → At start total low k
      → Sure low (tag_section fuel limits k)
  unfolding tag_section
  tag_section_post fuel limits low k le h =
      let l = h.left in
      let g = h.later in
      elim (Bool-cases (limits.tag_data == 0)) [
        | inl e ↦ rw e (halting tt)
        | inr e ↦ rw e (
            Post-bind start total _
              (next_tag_post limits.tag_data (k.pos + limits.tag_data) low _ (k.pos + 1) k.tail
                (Tiles-push start _ k.tokens _ (omega arith) h.tiles) (omega arith) (omega arith))
              λ k₁ h₁.
                tag_loop_post fuel limits (k.pos + limits.tag_data) 0 low low k₁ (omega arith) le
                  h₁)
      ]
