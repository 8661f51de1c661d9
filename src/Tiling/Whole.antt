-- ===== src/Tiling/Whole.antt =====
-- The RFC 1459 part of Tokenizer.ts, and `tokenize` as a whole.
use mojo_jojo.Base.{
  ℕ, zero, suc, ◌+◌, ◌≤◌, ◌<◌, Bool, true, false, [], ◌∷◌, ◌≡◌, refl, ◌∙◌, arith, length, take,
  drop, min, Bytes, ltb, leb, ◌==◌, if◌then◌else◌, Bool-cases, inl, inr,
}
use mojo_jojo.Lexer.Chars.{
  char_at, char_colon, char_excl, char_space, is_prefix_name_char, is_prefix_user_char,
  is_not_space, is_space,
}
use mojo_jojo.Lexer.Token.{TokenType}
use mojo_jojo.Lexer.Flow.{Limits, go, ◌>>=◌, Cursor, skip_while}
use mojo_jojo.Tokenizer.{
  Tokens, resume, advance, rfc_length, content, run_token, prefix_name, prefix_user, prefix_host,
  prefix_end, prefix, command_word, separators, middle, param_loop, tokenize_line, tokenize_range,
  tag_section,
}
use mojo_jojo.Tiling.Cover.{
  Tiles-push, At, Post-weaken, Ends, Post, going, halting, Post-bind, Post-through, eof-Ends,
  resume-Post,
}
use mojo_jojo.Tiling.Tags.{Sure, tag_section_post}

-- A scan moves on by the bytes that it takes.
pub skip_while_moves :
    (test : ℕ → Bool) (pos : ℕ) (rest : Bytes)
    → (pos ≤ (skip_while test pos rest).0)
      × ((skip_while test pos rest).0 + length (skip_while test pos rest).1 ≡ pos + length rest)
unfolding skip_while
skip_while_moves test pos [] = omega arith
skip_while_moves test pos (c ∷ rest) = ground (arith, skip_while_moves test (pos + 1) rest)

skip_while_strict :
    (test : ℕ → Bool) (pos c : ℕ) (rest : Bytes)
    → test c ≡ true
    → pos + 1 ≤ (skip_while test pos (c ∷ rest)).0
unfolding skip_while
skip_while_strict test pos c rest h = rw h ((skip_while_moves test (pos + 1) rest).0)

space_of_not : (c : ℕ) → is_not_space c ≡ false → is_space c ≡ true
unfolding is_not_space is_space
space_of_not c h = ground arith

module _ (start total : ℕ) where
  advance_post :
      (low : ℕ) (k : Cursor Tokens) (type : TokenType)
      → At start total low k
      → Sure start total low (advance k type)
  unfolding advance
  advance_post low k type h =
      let l = h.left in
      let g = h.later in
      resume-Post start total low _ (k.pos + 1) k.tail
        (Tiles-push start _ k.tokens type (omega arith) h.tiles) (omega arith) (omega arith)

  content_post :
      (low : ℕ) (type : TokenType) (test : ℕ → Bool) (k : Cursor Tokens)
      → At start total low k
      → Sure start total low (content type test k)
  unfolding content
  content_post low type test k h =
      let l = h.left in
      let g = h.later in
      let m = skip_while_moves test k.pos (k.head ∷ k.tail) in
      let r : ℕ × Bytes = skip_while test k.pos (k.head ∷ k.tail) in
      elim (Bool-cases (ltb k.pos (skip_while test k.pos (k.head ∷ k.tail)).0)) [
        | inl e ↦ rw e (
            resume-Post start total low _ r.0 r.1
              (Tiles-push start r.0 k.tokens type (omega arith) h.tiles) (omega arith)
              (omega arith))
        | inr e ↦
            let same : k.pos ≡ r.0 = ground arith in
            rw e (
              resume-Post start total low _ r.0 r.1 (rw same at h.tiles) (omega arith)
                (omega arith))
      ]

  run_token_post :
      (low gain : ℕ) (type : TokenType) (test : ℕ → Bool) (k : Cursor Tokens)
      → At start total low k
      → k.pos + gain ≤ (skip_while test k.pos (k.head ∷ k.tail)).0
      → Sure start total (low + gain) (run_token type test k)
  unfolding run_token
  run_token_post low gain type test k h moved =
      let l = h.left in
      let g = h.later in
      let m = skip_while_moves test k.pos (k.head ∷ k.tail) in
      resume-Post start total (low + gain) _ _ (skip_while test k.pos (k.head ∷ k.tail)).1
        (Tiles-push start _ k.tokens type (omega arith) h.tiles) (omega arith) (omega arith)

  run_token_kept :
      (low : ℕ) (type : TokenType) (test : ℕ → Bool) (k : Cursor Tokens)
      → At start total low k
      → test k.head ≡ false
      → Post start total (λ k₁. At start total low k₁ × (k₁.head ≡ k.head)) (run_token type test k)
  unfolding run_token skip_while resume
  run_token_kept low type test k h e = rw e (
      going (
        record {
          tiles = Tiles-push start k.pos k.tokens type (omega arith) h.tiles;
          left = h.left;
          later = h.later;
        },
        refl,
      ))

  run_any :
      (low : ℕ) (type : TokenType) (test : ℕ → Bool) (k : Cursor Tokens)
      → At start total low k
      → Sure start total (low + 0) (run_token type test k)
  run_any low type test k h =
      let m = skip_while_moves test k.pos (k.head ∷ k.tail) in
      run_token_post low 0 type test k h (omega arith)

  prefix_user_post :
      (low : ℕ) (k : Cursor Tokens) → At start total low k → Sure start total low (prefix_user k)
  unfolding prefix_user
  prefix_user_post low k h = elim (Bool-cases (k.head == char_excl)) [
    | inl e ↦ rw e (
        Post-bind start total _ (advance_post low k TokenType.prefix_user_start h)
          (content_post low TokenType.prefix_user is_prefix_user_char))
    | inr e ↦ rw e (going h)
  ]

  prefix_host_post :
      (low : ℕ) (k : Cursor Tokens) → At start total low k → Sure start total low (prefix_host k)
  unfolding prefix_host
  prefix_host_post low k h = elim (Bool-cases (k.head == char_at)) [
    | inl e ↦ rw e (
        Post-bind start total _ (advance_post low k TokenType.prefix_host_start h)
          (content_post low TokenType.prefix_host is_not_space))
    | inr e ↦ rw e (going h)
  ]

  prefix_end_post :
      (low : ℕ) (k : Cursor Tokens)
      → At start total low k
      → Sure start total (low + 0) (prefix_end k)
  unfolding prefix_end
  prefix_end_post low k h = elim (Bool-cases (k.head == char_space)) [
    | inl e ↦ rw e (run_any low TokenType.separator is_space k h)
    | inr e ↦ rw e (halting tt)
  ]

  prefix_post :
      (low : ℕ) (k : Cursor Tokens) → At start total low k → Sure start total low (prefix k)
  unfolding prefix prefix_name
  prefix_post low k h = elim (Bool-cases (k.head == char_colon)) [
    | inl e ↦ rw e (
        Post-bind start total _ (advance_post low k TokenType.prefix_start h) λ k₁ h₁.
          Post-bind start total _ (content_post low TokenType.prefix_name is_prefix_name_char k₁ h₁)
            λ k₂ h₂. Post-bind start total _ (prefix_user_post low k₂ h₂) λ k₃ h₃.
              Post-bind start total _ (prefix_host_post low k₃ h₃)
                λ k₄ h₄. Post-weaken start total (omega arith) (prefix_end_post low k₄ h₄))
    | inr e ↦ rw e (going h)
  ]

  -- A middle parameter and the spaces behind it take at least one byte.
  parameter_post :
      (low : ℕ) (k : Cursor Tokens)
      → At start total low k
      → Sure start total (low + 1) (middle k >>= separators)
  unfolding middle separators
  parameter_post low k h = elim (Bool-cases (is_not_space k.head)) [
    | inl e ↦
        Post-bind start total _
          (run_token_post low 1 TokenType.middle_parameter is_not_space k h
            (skip_while_strict is_not_space k.pos k.head k.tail e))
          λ k₁ h₁.
            Post-weaken start total (omega arith)
              (run_any (low + 1) TokenType.separator is_space k₁ h₁)
    | inr e ↦
        Post-bind start total _ (run_token_kept low TokenType.middle_parameter is_not_space k h e)
          λ k₁ h₁.
            run_token_post low 1 TokenType.separator is_space k₁ h₁.0
              (skip_while_strict is_space k₁.pos k₁.head k₁.tail (rw h₁.1 (space_of_not k.head e)))
  ]

  param_loop-Ends :
      (fuel : ℕ) (limits : Limits) (param_count low : ℕ) (k : Cursor Tokens)
      → total < fuel + low
      → At start total low k
      → Ends start total (param_loop fuel limits param_count k)
  unfolding param_loop
  param_loop-Ends zero limits param_count low k le h =
      let l = h.left in let g = h.later in absurd (omega arith)
  param_loop-Ends (suc fuel) limits param_count low k le h =
      let l = h.left in
      elim (Bool-cases (leb limits.param_count param_count)) [
        | inl e ↦ rw e tt
        | inr e ↦ rw e (elim (Bool-cases (k.head == char_colon)) [
          | inl e' ↦ rw e' (
              eof-Ends start total _ _ l (
                Tiles-push start _ _ TokenType.trailing_parameter (omega arith) (
                  Tiles-push start _ k.tokens TokenType.trailing_parameter_start (omega arith)
                    h.tiles)))
          | inr e' ↦ rw e' (
              Post-through start total _ (parameter_post low k h) λ k₁ h₁.
                param_loop-Ends fuel limits (param_count + 1) (low + 1) k₁ (omega arith) h₁)
        ])
      ]

  rfc_length_post :
      (limits : Limits) (low : ℕ) (k : Cursor Tokens)
      → At start total low k
      → Sure start total low (rfc_length limits k)
  unfolding rfc_length
  rfc_length_post limits low k h =
      elim (Bool-cases (ltb limits.rfc1459_data (suc (length k.tail)))) [
        | inl e ↦ rw e (halting tt)
        | inr e ↦ rw e (going h)
      ]

  section_post :
      (fuel : ℕ) (limits : Limits) (low : ℕ) (k : Cursor Tokens) (c : Bool)
      → total < fuel + low
      → At start total low k
      → Sure start total low (if c then tag_section fuel limits k else go k)
  section_post fuel limits low k true le h = tag_section_post start total fuel limits low k le h
  section_post fuel limits low k false le h = going h

  tokenize_line-Ends :
      (fuel : ℕ) (limits : Limits) (low : ℕ) (k : Cursor Tokens)
      → total < fuel + low
      → At start total low k
      → Ends start total (tokenize_line fuel limits k)
  unfolding tokenize_line command_word separators
  tokenize_line-Ends fuel limits low k le h =
      Post-through start total _
        (Post-bind start total _ (section_post fuel limits low k (k.head == char_at) le h) λ k₁ h₁.
          Post-bind start total _ (rfc_length_post limits low k₁ h₁) λ k₂ h₂.
            Post-bind start total _ (prefix_post low k₂ h₂) λ k₃ h₃.
              Post-bind start total _ (run_any low TokenType.command is_not_space k₃ h₃)
                λ k₄ h₄. run_any (low + 0) TokenType.separator is_space k₄ h₄)
        λ k₅ h₅. param_loop-Ends fuel limits 0 (low + 0 + 0) k₅ (omega arith) h₅

length-take_le : (n : ℕ) (xs : Bytes) → n ≤ length xs → length (take n xs) ≡ n
length-take_le zero xs h = refl
length-take_le (suc n) [] h = absurd (omega arith)
length-take_le (suc n) (x ∷ xs) h = omega (arith, length-take_le n xs)

length-drop : (n : ℕ) (xs : Bytes) → n ≤ length xs → n + length (drop n xs) ≡ length xs
length-drop zero xs h = omega arith
length-drop (suc n) [] h = absurd (omega arith)
length-drop (suc n) (x ∷ xs) h = omega (arith, length-drop n xs)

-- With any limits, every range of every buffer whose start is not behind its end is tokenized or
-- refused with an error, and never runs out of fuel. If it is tokenized, the spans of the tokens run
-- from the first byte that is no space to the end of the range, each starting where the one before
-- it ends: no byte is lost or read twice.
pub tokenize_range-Ends :
    (limits : Limits) (buffer : Bytes) (start end : ℕ)
    → start ≤ min (length buffer) end
    → Ends
        (skip_while is_space start (drop start (take (min (length buffer) end) buffer))).0
        (min (length buffer) end)
        (tokenize_range limits buffer start end)
unfolding tokenize_range
tokenize_range-Ends limits buffer start end h =
    Post-through from total _
      (resume-Post from total start [] from scan.1 refl (omega (arith, moves, whole)) (moves.0))
      λ k h₁.
        tokenize_line-Ends from total (suc (length range)) limits start k (omega (arith, whole)) h₁
  where
    total : ℕ
    total = min (length buffer) end

    range : Bytes
    range = drop start (take total buffer)

    scan : ℕ × Bytes
    scan = skip_while is_space start range

    from : ℕ
    from = scan.0

    moves : (start ≤ from) × (from + length scan.1 ≡ start + length range)
    moves = skip_while_moves is_space start range

    taken : length (take total buffer) ≡ total
    taken = length-take_le total buffer (omega arith)

    whole : start + length range ≡ total
    whole = length-drop start (take total buffer) (omega (arith, taken)) ∙ taken
