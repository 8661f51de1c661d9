-- ===== src/Parity/Rfc.antt =====
-- Block by block, the RFC 1459 parts of the two tokenizers agree.
use mojo_jojo.Base.{
  ℕ, zero, suc, ◌+◌, ◌*◌, ◌≤◌, Bool, true, false, [], ◌∷◌, ◌≡◌, refl, sym, ap, inl, inr, arith,
  length, Bytes, ltb, leb, ◌==◌, if◌then◌else◌, Bool-cases,
}
use mojo_jojo.Lexer.Chars.{
  char_at, char_colon, char_excl, char_space, is_prefix_name_char, is_prefix_user_char,
  is_not_space, is_space,
}
use mojo_jojo.Lexer.Token.{TokenType}
use mojo_jojo.Lexer.Flow.{
  param_count_limit, limit_exceeded, unexpected_char, Limits, go, ◌>>=◌, Cursor, skip_while,
}
use mojo_jojo.Tokenizer.{
  Tokens, push, rfc_length, content, run_token, prefix_name, prefix_user, prefix_host, prefix_end,
  prefix, command_word, separators, middle, param_loop, tokenize_line, tag_section,
}
use mojo_jojo.FastTokenizer
use mojo_jojo.Tokenizer
use mojo_jojo.FastTokenizer.{Buffer, Scratch, emit}
use mojo_jojo.Parity.Sim.{
  Sim, Sim-weaken, Agrees, Agrees-finish, SimFlow, going, halting, twin, SimFlow-bind, SimFlow-next,
  SimFlow-last, from_twin,
}
use mojo_jojo.Parity.Tags.{throw-Sim, emitted, Same, resume-Sim, advance-Sim, tag_section-Sim}

-- A scan leaves no more than it found, and less if its test passes at once.
pub length-skip_while :
    (test : ℕ → Bool) (pos : ℕ) (rest : Bytes) → length (skip_while test pos rest).1 ≤ length rest
unfolding skip_while
length-skip_while test pos [] = omega arith
length-skip_while test pos (c ∷ rest) = ground (arith, length-skip_while test (pos + 1) rest)

skip_while-advances :
    (test : ℕ → Bool) (pos c : ℕ) (rest : Bytes)
    → test c ≡ true
    → length (skip_while test pos (c ∷ rest)).1 ≤ length rest
unfolding skip_while
skip_while-advances test pos c rest h = rw h (length-skip_while test (pos + 1) rest)

skip_while-moved :
    (test : ℕ → Bool) (pos c : ℕ) (rest : Bytes)
    → ltb pos (skip_while test pos (c ∷ rest)).0 ≡ true
    → test c ≡ true
unfolding skip_while
skip_while-moved test pos c rest h = ground arith

module _ (s : ℕ) where
  rfc_length-Sim :
      (limits : Limits) (k : Cursor Tokens) (b : Buffer)
      → Sim (2 * length k.tail + 2 + suc s) k.tokens b
      → SimFlow (Same s) (rfc_length limits k) (FastTokenizer.rfc_length limits (twin k b))
  unfolding rfc_length FastTokenizer.rfc_length
  rfc_length-Sim limits k b h = elim (Bool-cases (ltb limits.rfc1459_data (suc (length k.tail)))) [
    | inl e ↦ rw e (throw-Sim _ _ _ h)
    | inr e ↦ rw e (going (refl, h))
  ]

  content-Sim :
      (type : TokenType) (test : ℕ → Bool) (k : Cursor Tokens) (b : Buffer)
      → Sim (2 * length k.tail + 2 + suc s) k.tokens b
      → SimFlow (Same s) (content type test k) (FastTokenizer.content type test (twin k b))
  unfolding content FastTokenizer.content
  content-Sim type test k b h =
      let r : ℕ × Bytes = skip_while test k.pos (k.head ∷ k.tail) in
      let shorter = length-skip_while test k.pos (k.head ∷ k.tail) in
      elim (Bool-cases (ltb k.pos (skip_while test k.pos (k.head ∷ k.tail)).0)) [
        | inl e ↦
            let less =
              skip_while-advances test k.pos k.head k.tail
                (skip_while-moved test k.pos k.head k.tail e) in
            rw e (resume-Sim s r.0 r.1 (emitted _ type k.pos r.0 (omega arith) h))
        | inr e ↦ rw e (resume-Sim s r.0 r.1 (Sim-weaken (omega arith) h))
      ]

  -- A run that may be empty costs the room of one token.
  run_token-Sim :
      (type : TokenType) (test : ℕ → Bool) (k : Cursor Tokens) (b : Buffer)
      → Sim (2 * length k.tail + 2 + suc (suc s)) k.tokens b
      → SimFlow (Same s) (run_token type test k) (FastTokenizer.run_token type test (twin k b))
  unfolding run_token FastTokenizer.run_token
  run_token-Sim type test k b h =
      let r : ℕ × Bytes = skip_while test k.pos (k.head ∷ k.tail) in
      let shorter = length-skip_while test k.pos (k.head ∷ k.tail) in
      resume-Sim s r.0 r.1 (emitted _ type k.pos r.0 (omega arith) h)

  -- A run that is not empty gains the room of one.
  run_token_gain :
      (type : TokenType) (test : ℕ → Bool) (k : Cursor Tokens) (b : Buffer)
      → test k.head ≡ true
      → Sim (2 * length k.tail + 2 + s) k.tokens b
      → SimFlow (Same s) (run_token type test k) (FastTokenizer.run_token type test (twin k b))
  unfolding run_token FastTokenizer.run_token
  run_token_gain type test k b e h =
      let r : ℕ × Bytes = skip_while test k.pos (k.head ∷ k.tail) in
      let shorter = skip_while-advances test k.pos k.head k.tail e in
      resume-Sim s r.0 r.1 (emitted _ type k.pos r.0 (omega arith) h)

  -- One that is empty goes on where it started.
  run_token_empty :
      (type : TokenType) (test : ℕ → Bool) (k : Cursor Tokens) (b : Buffer)
      → test k.head ≡ false
      → Sim (2 * length k.tail + 2 + suc (suc s)) k.tokens b
      → SimFlow
          (λ k₁ k₁'. Same s k₁ k₁' × (k₁.head ≡ k.head))
          (run_token type test k)
          (FastTokenizer.run_token type test (twin k b))
  unfolding run_token FastTokenizer.run_token skip_while Tokenizer.resume FastTokenizer.resume
  run_token_empty type test k b e h =
      rw e (going ((refl, emitted _ type k.pos k.pos (omega arith) h), refl))

  prefix_user-Sim :
      (k : Cursor Tokens) (b : Buffer)
      → Sim (2 * length k.tail + 2 + suc s) k.tokens b
      → SimFlow (Same s) (prefix_user k) (FastTokenizer.prefix_user (twin k b))
  unfolding prefix_user FastTokenizer.prefix_user
  prefix_user-Sim k b h = elim (Bool-cases (k.head == char_excl)) [
    | inl e ↦ rw e (
        SimFlow-next (suc s) _ _ (advance-Sim s k b TokenType.prefix_user_start h)
          λ k₁ b₁ h₁. content-Sim TokenType.prefix_user is_prefix_user_char k₁ b₁ h₁)
    | inr e ↦ rw e (going (refl, h))
  ]

  prefix_host-Sim :
      (k : Cursor Tokens) (b : Buffer)
      → Sim (2 * length k.tail + 2 + suc s) k.tokens b
      → SimFlow (Same s) (prefix_host k) (FastTokenizer.prefix_host (twin k b))
  unfolding prefix_host FastTokenizer.prefix_host
  prefix_host-Sim k b h = elim (Bool-cases (k.head == char_at)) [
    | inl e ↦ rw e (
        SimFlow-next (suc s) _ _ (advance-Sim s k b TokenType.prefix_host_start h)
          λ k₁ b₁ h₁. content-Sim TokenType.prefix_host is_not_space k₁ b₁ h₁)
    | inr e ↦ rw e (going (refl, h))
  ]

  prefix_end-Sim :
      (k : Cursor Tokens) (b : Buffer)
      → Sim (2 * length k.tail + 2 + suc s) k.tokens b
      → SimFlow (Same s) (prefix_end k) (FastTokenizer.prefix_end (twin k b))
  unfolding prefix_end FastTokenizer.prefix_end
  prefix_end-Sim k b h = elim (Bool-cases (k.head == char_space)) [
    | inl e ↦ rw e (
        run_token_gain TokenType.separator is_space k b (unfold is_space in e)
          (Sim-weaken (omega arith) h))
    | inr e ↦ rw e (halting (ap (unexpected_char k.pos k.head) (sym h.same_last)))
  ]

  prefix-Sim :
      (k : Cursor Tokens) (b : Buffer)
      → Sim (2 * length k.tail + 2 + suc s) k.tokens b
      → SimFlow (Same s) (prefix k) (FastTokenizer.prefix (twin k b))
  unfolding prefix FastTokenizer.prefix prefix_name FastTokenizer.prefix_name
  prefix-Sim k b h = elim (Bool-cases (k.head == char_colon)) [
    | inl e ↦ rw e (
        SimFlow-next (suc s) _ _ (advance-Sim s k b TokenType.prefix_start h) λ k₁ b₁ h₁.
          SimFlow-next (suc s) _ _ (content-Sim TokenType.prefix_name is_prefix_name_char k₁ b₁ h₁)
            λ k₂ b₂ h₂. SimFlow-next (suc s) _ _ (prefix_user-Sim k₂ b₂ h₂) λ k₃ b₃ h₃.
              SimFlow-next (suc s) _ _ (prefix_host-Sim k₃ b₃ h₃)
                λ k₄ b₄ h₄. prefix_end-Sim k₄ b₄ h₄)
    | inr e ↦ rw e (going (refl, h))
  ]

space_of_not : (c : ℕ) → is_not_space c ≡ false → is_space c ≡ true
unfolding is_not_space is_space
space_of_not c h = ground arith

-- A middle parameter and the spaces behind it: one of the two is not empty, so two tokens are paid
-- for by one byte.
parameter-Sim :
    (s : ℕ) (k : Cursor Tokens) (b : Buffer)
    → Sim (2 * length k.tail + 2 + suc (suc s)) k.tokens b
    → SimFlow
        (Same (suc s))
        (middle k >>= separators)
        (FastTokenizer.middle (twin k b) >>= FastTokenizer.separators)
unfolding middle FastTokenizer.middle separators FastTokenizer.separators
parameter-Sim s k b h = elim (Bool-cases (is_not_space k.head)) [
  | inl e ↦
      SimFlow-next (suc (suc (suc s))) _ _
        (run_token_gain (suc (suc s)) TokenType.middle_parameter is_not_space k b e h)
        λ k₁ b₁ h₁. run_token-Sim (suc s) TokenType.separator is_space k₁ b₁ h₁
  | inr e ↦
      SimFlow-bind _ _ (run_token_empty s TokenType.middle_parameter is_not_space k b e h)
        λ k₁ k₁' r.
          from_twin (suc s) k₁
            (λ x. SimFlow (Same (suc s)) (separators k₁) (FastTokenizer.separators x)) r.0
            λ b₁ h₁.
              run_token_gain (suc s) TokenType.separator is_space k₁ b₁
                (rw r.1 (space_of_not k.head e)) h₁
]

param_loop-Sim :
    (s fuel : ℕ) (limits : Limits) (param_count : ℕ) (k : Cursor Tokens) (b : Buffer)
    → Sim (2 * length k.tail + 2 + suc (suc s)) k.tokens b
    → Agrees
        (param_loop fuel limits param_count k)
        (FastTokenizer.param_loop fuel limits param_count (twin k b))
unfolding param_loop FastTokenizer.param_loop
param_loop-Sim s zero limits param_count k b h = tt
param_loop-Sim s (suc fuel) limits param_count k b h =
    elim (Bool-cases (leb limits.param_count param_count)) [
      | inl e ↦
          rw e (ap (limit_exceeded param_count_limit limits.param_count k.pos) (sym h.same_last))
      | inr e ↦ rw e (elim (Bool-cases (k.head == char_colon)) [
        | inl e' ↦ rw e' (
            Agrees-finish _ (
              emitted (suc s) TokenType.trailing_parameter _ _ (omega arith)
                (emitted (suc (suc s)) TokenType.trailing_parameter_start _ _ (omega arith) h)))
        | inr e' ↦ rw e' (
            SimFlow-last (suc (suc s)) _ _ (parameter-Sim s k b h)
              (param_loop-Sim s fuel limits (param_count + 1)))
      ])
    ]

-- The whole of a line, with room for four tokens besides the two for each byte.
pub tokenize_line-Sim :
    (s fuel : ℕ) (limits : Limits) (k : Cursor Tokens) (b : Buffer)
    → Sim (2 * length k.tail + 2 + suc (suc (suc (suc s)))) k.tokens b
    → Agrees (tokenize_line fuel limits k) (FastTokenizer.tokenize_line fuel limits (twin k b))
unfolding tokenize_line FastTokenizer.tokenize_line command_word FastTokenizer.command_word
    separators FastTokenizer.separators
tokenize_line-Sim s fuel limits k b h =
    SimFlow-last (suc (suc s)) _ _
      (SimFlow-next t _ _ (tags (k.head == char_at)) λ k₁ b₁ h₁.
        SimFlow-next t _ _ (rfc_length-Sim (suc (suc (suc s))) limits k₁ b₁ h₁) λ k₂ b₂ h₂.
          SimFlow-next t _ _ (prefix-Sim (suc (suc (suc s))) k₂ b₂ h₂) λ k₃ b₃ h₃.
            SimFlow-next (suc (suc (suc s))) _ _
              (run_token-Sim (suc (suc s)) TokenType.command is_not_space k₃ b₃ h₃)
              λ k₄ b₄ h₄. run_token-Sim (suc s) TokenType.separator is_space k₄ b₄ h₄)
      (param_loop-Sim s fuel limits 0)
  where
    t : ℕ
    t = suc (suc (suc (suc s)))

    tags :
        (c : Bool)
        → SimFlow
            (Same (suc (suc (suc s))))
            (if c then tag_section fuel limits k else go k)
            (if c then FastTokenizer.tag_section fuel limits (twin k b) else go (twin k b))
    tags true = tag_section-Sim (suc (suc (suc s))) fuel limits k b h
    tags false = going (refl, h)
