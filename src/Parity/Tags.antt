-- ===== src/Parity/Tags.antt =====
-- Block by block, the message-tags parts of the two tokenizers agree.
use mojo_jojo.Base.{
  ℕ, zero, suc, ◌+◌, ◌*◌, ◌≤◌, Bool, true, false, [], ◌∷◌, ◌≡◌, refl, sym, ap, arith, length, Bytes,
  ltb, leb, ◌==◌, inl, inr, Bool-cases,
}
use mojo_jojo.Lexer.Chars.{
  char_plus, char_equals, char_semicolon, char_space, is_tag_key_char, is_tag_value_char,
}
use mojo_jojo.Lexer.Token.{TokenType}
use mojo_jojo.Lexer.Flow.{LimitName, limit_exceeded, unexpected_char, Limits, Flow, go, Cursor}
use mojo_jojo.Tokenizer.{
  Tokens, push, throw_limit, resume, advance, client_key, key_loop, key_name, value_loop, tag_value,
  tag_value_at, tag_value_start, space_loop, next_tag, tag_end, tag, tag_loop, tag_section,
}
use mojo_jojo.FastTokenizer
use mojo_jojo.FastTokenizer.{Buffer, Scratch, emit, last_tok}
use mojo_jojo.Parity.Sim.{
  Sim, Sim-emit, Sim-weaken, Agrees-finish, SimFlow, going, halting, twin, SimCursor, SimFlow-bind,
  SimFlow-next,
}

pub throw-Sim :
    {A B : Type 0} {R : A → B → Type 0} {room : ℕ} {ts : Tokens} {b : Buffer} (name : LimitName)
    (limit pos : ℕ)
    → Sim room ts b
    → SimFlow R (throw_limit name limit pos ts) (FastTokenizer.throw_limit name limit pos b)
unfolding throw_limit FastTokenizer.throw_limit
throw-Sim name limit pos h = halting (ap (limit_exceeded name limit pos) (sym h.same_last))

-- Behind one more token, the room is one less.
pub emitted :
    {room : ℕ} {ts : Tokens} {b : Buffer} (less : ℕ) (type : TokenType) (s e : ℕ)
    → suc less ≤ room
    → Sim room ts b
    → Sim less (push ts type s e) (emit b type s e)
emitted less type s e le h = Sim-emit (Sim-weaken le h) type s e

module _ (s : ℕ) where
  abbrev pub Same : Cursor Tokens → Cursor Buffer → Type 0
  Same = SimCursor (suc s)

  pub resume-Sim :
      {ts : Tokens} {b : Buffer} (pos : ℕ) (rest : Bytes)
      → Sim (2 * length rest + suc s) ts b
      → SimFlow Same (resume ts pos rest) (FastTokenizer.resume b pos rest)
  unfolding resume FastTokenizer.resume
  resume-Sim pos [] h = halting (Agrees-finish pos (Sim-weaken {less = suc s} (omega arith) h))
  resume-Sim pos (c ∷ rest) h = going (refl, Sim-weaken (omega arith) h)

  pub advance-Sim :
      (k : Cursor Tokens) (b : Buffer) (type : TokenType)
      → Sim (2 * length k.tail + 2 + suc s) k.tokens b
      → SimFlow Same (advance k type) (FastTokenizer.advance (twin k b) type)
  unfolding advance FastTokenizer.advance
  advance-Sim k b type h = resume-Sim (k.pos + 1) k.tail (emitted _ type _ _ (omega arith) h)

  client_key-Sim :
      (limit limit_pos : ℕ) (k : Cursor Tokens) (b : Buffer)
      → Sim (2 * length k.tail + 2 + suc s) k.tokens b
      → SimFlow Same
          (client_key limit limit_pos k)
          (FastTokenizer.client_key limit limit_pos (twin k b))
  unfolding client_key FastTokenizer.client_key
  client_key-Sim limit limit_pos k b h =
      let h' =
        emitted (2 * length k.tail + suc s) TokenType.tag_client_key_start k.pos (k.pos + 1)
          (omega arith) h in
      elim (Bool-cases (k.head == char_plus)) [
        | inl e ↦ rw e (elim (Bool-cases (ltb limit_pos (k.pos + 1))) [
          | inl e' ↦ rw e' (throw-Sim _ _ _ h')
          | inr e' ↦ rw e' (resume-Sim (k.pos + 1) k.tail h')
        ])
        | inr e ↦ rw e (going (refl, h))
      ]

  key_loop-Sim :
      (limit limit_pos start : ℕ) {ts : Tokens} {b : Buffer} (pos : ℕ) (rest : Bytes)
      → Sim (2 * length rest + 2 + suc s) ts b
      → SimFlow Same
          (key_loop limit limit_pos start ts pos rest)
          (FastTokenizer.key_loop limit limit_pos start b pos rest)
  unfolding key_loop FastTokenizer.key_loop
  key_loop-Sim limit limit_pos start pos [] h = elim (Bool-cases (ltb limit_pos pos)) [
    | inl e ↦ rw e (throw-Sim _ _ _ h)
    | inr e ↦
        rw e (
          halting (Agrees-finish pos (emitted (suc s) TokenType.tag_key start pos (omega arith) h)))
  ]
  key_loop-Sim limit limit_pos start {ts} {b} pos (c ∷ rest) h =
      let ih = key_loop-Sim limit limit_pos start (pos + 1) rest (Sim-weaken (omega arith) h) in
      elim (Bool-cases (ltb limit_pos pos)) [
        | inl e ↦ rw e (throw-Sim _ _ _ h)
        | inr e ↦ rw e (elim (Bool-cases (is_tag_key_char c)) [
          | inl e' ↦ rw e' ih
          | inr e' ↦ rw e' (going (refl, emitted _ TokenType.tag_key start pos (omega arith) h))
        ])
      ]

  key_name-Sim :
      (limit limit_pos : ℕ) (k : Cursor Tokens) (b : Buffer)
      → Sim (2 * length k.tail + 2 + suc s) k.tokens b
      → SimFlow Same
          (key_name limit limit_pos k)
          (FastTokenizer.key_name limit limit_pos (twin k b))
  unfolding key_name FastTokenizer.key_name
  key_name-Sim limit limit_pos k b h = elim (Bool-cases (is_tag_key_char k.head)) [
    | inl e ↦ rw e (key_loop-Sim limit limit_pos k.pos (k.pos + 1) k.tail h)
    | inr e ↦ rw e (going (refl, h))
  ]

  value_loop-Sim :
      (limit limit_pos start : ℕ) {ts : Tokens} {b : Buffer} (pos : ℕ) (rest : Bytes)
      → Sim (2 * length rest + 2 + suc s) ts b
      → SimFlow Same
          (value_loop limit limit_pos start ts pos rest)
          (FastTokenizer.value_loop limit limit_pos start b pos rest)
  unfolding value_loop FastTokenizer.value_loop
  value_loop-Sim limit limit_pos start pos [] h = elim (Bool-cases (ltb limit_pos pos)) [
    | inl e ↦ rw e (throw-Sim _ _ _ h)
    | inr e ↦ rw e (
        halting (Agrees-finish pos (emitted (suc s) TokenType.tag_value start pos (omega arith) h)))
  ]
  value_loop-Sim limit limit_pos start {ts} {b} pos (c ∷ rest) h =
      let ih = value_loop-Sim limit limit_pos start (pos + 1) rest (Sim-weaken (omega arith) h) in
      elim (Bool-cases (ltb limit_pos pos)) [
        | inl e ↦ rw e (throw-Sim _ _ _ h)
        | inr e ↦ rw e (elim (Bool-cases (is_tag_value_char c)) [
          | inl e' ↦ rw e' ih
          | inr e' ↦ rw e' (going (refl, emitted _ TokenType.tag_value start pos (omega arith) h))
        ])
      ]

  -- The `=` before a value leaves room for the value's own token.
  tag_value-Sim :
      (limit limit_pos : ℕ) (k : Cursor Tokens) (b : Buffer)
      → Sim (2 * length k.tail + 3 + suc s) k.tokens b
      → SimFlow Same
          (tag_value limit limit_pos k)
          (FastTokenizer.tag_value limit limit_pos (twin k b))
  unfolding tag_value FastTokenizer.tag_value
  tag_value-Sim limit limit_pos k b h = elim (Bool-cases (is_tag_value_char k.head)) [
    | inl e ↦
        rw e (value_loop-Sim limit limit_pos k.pos (k.pos + 1) k.tail (Sim-weaken (omega arith) h))
    | inr e ↦ rw e (going (refl, emitted _ TokenType.tag_value k.pos k.pos (omega arith) h))
  ]

  tag_value_at-Sim :
      (limit limit_pos : ℕ) {ts : Tokens} {b : Buffer} (pos : ℕ) (rest : Bytes)
      → Sim (2 * length rest + 1 + suc s) ts b
      → SimFlow Same
          (tag_value_at limit limit_pos ts pos rest)
          (FastTokenizer.tag_value_at limit limit_pos b pos rest)
  unfolding tag_value_at FastTokenizer.tag_value_at
  tag_value_at-Sim limit limit_pos pos [] h =
      halting (Agrees-finish pos (emitted (suc s) TokenType.tag_value pos pos (omega arith) h))
  tag_value_at-Sim limit limit_pos {ts} {b} pos (c ∷ rest) h =
      tag_value-Sim limit limit_pos (record { pos = pos; head = c; tail = rest; tokens = ts }) b
        (Sim-weaken (omega arith) h)

  tag_value_start-Sim :
      (limit limit_pos : ℕ) (k : Cursor Tokens) (b : Buffer)
      → Sim (2 * length k.tail + 2 + suc s) k.tokens b
      → SimFlow Same
          (tag_value_start limit limit_pos k)
          (FastTokenizer.tag_value_start limit limit_pos (twin k b))
  unfolding tag_value_start FastTokenizer.tag_value_start
  tag_value_start-Sim limit limit_pos k b h =
      let h' =
        emitted (2 * length k.tail + 1 + suc s) TokenType.tag_value_start k.pos (k.pos + 1)
          (omega arith) h in
      elim (Bool-cases (k.head == char_equals)) [
        | inl e ↦ rw e (elim (Bool-cases (ltb limit_pos (k.pos + 1))) [
          | inl e' ↦ rw e' (throw-Sim _ _ _ h')
          | inr e' ↦ rw e' (tag_value_at-Sim limit limit_pos (k.pos + 1) k.tail h')
        ])
        | inr e ↦ rw e (going (refl, h))
      ]

  space_loop-Sim :
      (limit limit_pos start : ℕ) {ts : Tokens} {b : Buffer} (pos : ℕ) (rest : Bytes)
      → Sim (2 * length rest + 2 + suc s) ts b
      → SimFlow Same
          (space_loop limit limit_pos start ts pos rest)
          (FastTokenizer.space_loop limit limit_pos start b pos rest)
  unfolding space_loop FastTokenizer.space_loop
  space_loop-Sim limit limit_pos start pos [] h =
      halting (Agrees-finish pos (emitted (suc s) TokenType.separator start pos (omega arith) h))
  space_loop-Sim limit limit_pos start {ts} {b} pos (c ∷ rest) h =
      let ih = space_loop-Sim limit limit_pos start (pos + 1) rest (Sim-weaken (omega arith) h) in
      let h' =
        emitted (2 * length (c ∷ rest) + suc s) TokenType.separator start pos (omega arith) h in
      elim (Bool-cases (ltb limit_pos pos)) [
        | inl e ↦ rw e (throw-Sim _ _ _ h')
        | inr e ↦ rw e (elim (Bool-cases (c == char_space)) [
          | inl e' ↦ rw e' ih
          | inr e' ↦ rw e' (going (refl, Sim-weaken (omega arith) h'))
        ])
      ]

  next_tag-Sim :
      (limit limit_pos : ℕ) {ts : Tokens} {b : Buffer} (pos : ℕ) (rest : Bytes)
      → Sim (2 * length rest + suc s) ts b
      → SimFlow Same
          (next_tag limit limit_pos ts pos rest)
          (FastTokenizer.next_tag limit limit_pos b pos rest)
  unfolding next_tag FastTokenizer.next_tag
  next_tag-Sim limit limit_pos pos [] h =
      halting (Agrees-finish pos (Sim-weaken {less = suc s} (omega arith) h))
  next_tag-Sim limit limit_pos pos (c ∷ rest) h = elim (Bool-cases (ltb limit_pos pos)) [
    | inl e ↦ rw e (throw-Sim _ _ _ h)
    | inr e ↦ rw e (going (refl, Sim-weaken (omega arith) h))
  ]

  abbrev SameTag : Bool × Cursor Tokens → Bool × Cursor Buffer → Type 0
  SameTag r r' = (r'.0 ≡ r.0) × Same r.1 r'.1

  tag_end-Sim :
      (limit limit_pos : ℕ) (k : Cursor Tokens) (b : Buffer)
      → Sim (2 * length k.tail + 2 + suc s) k.tokens b
      → SimFlow SameTag
          (tag_end limit limit_pos k)
          (FastTokenizer.tag_end limit limit_pos (twin k b))
  unfolding tag_end FastTokenizer.tag_end
  tag_end-Sim limit limit_pos k b h = elim (Bool-cases (k.head == char_semicolon)) [
    | inl e ↦ rw e (
        SimFlow-bind _ _
          (next_tag-Sim limit limit_pos (k.pos + 1) k.tail
            (emitted _ TokenType.tag_separator k.pos (k.pos + 1) (omega arith) h))
          (λ k₁ k₁' r. going (refl, r)))
    | inr e ↦ rw e (elim (Bool-cases (k.head == char_space)) [
      | inl e' ↦ rw e' (
          SimFlow-bind _ _ (space_loop-Sim limit limit_pos k.pos (k.pos + 1) k.tail h)
            (λ k₁ k₁' r. going (refl, r)))
      | inr e' ↦ rw e' (halting (ap (unexpected_char k.pos k.head) (sym h.same_last)))
    ])
  ]

  tag-Sim :
      (limit limit_pos : ℕ) (k : Cursor Tokens) (b : Buffer)
      → Sim (2 * length k.tail + 2 + suc s) k.tokens b
      → SimFlow SameTag (tag limit limit_pos k) (FastTokenizer.tag limit limit_pos (twin k b))
  unfolding tag FastTokenizer.tag
  tag-Sim limit limit_pos k b h =
      SimFlow-next (suc s) _ _ (client_key-Sim limit limit_pos k b h) λ k₁ b₁ h₁.
        SimFlow-next (suc s) _ _ (key_name-Sim limit limit_pos k₁ b₁ h₁) λ k₂ b₂ h₂.
          SimFlow-next (suc s) _ _ (tag_value_start-Sim limit limit_pos k₂ b₂ h₂)
            λ k₃ b₃ h₃. tag_end-Sim limit limit_pos k₃ b₃ h₃

  -- `continue` on the one side is `continue` on the other.
  continue-Sim :
      (more more' : Bool) (k : Cursor Tokens) (k' : Cursor Buffer)
      (f : Cursor Tokens → Flow Tokens (Cursor Tokens))
      (f' : Cursor Buffer → Flow Scratch (Cursor Buffer))
      → more' ≡ more
      → Same k k'
      → ((b : Buffer)
          → Sim (2 * length k.tail + 2 + suc s) k.tokens b
          → SimFlow Same (f k) (f' (twin k b)))
      → SimFlow Same
          (elim more [ true ↦ f k | false ↦ go k ])
          (elim more' [ true ↦ f' k' | false ↦ go k' ])
  continue-Sim true true k k' f f' e r g = rw r.0 (g k'.tokens r.1)
  continue-Sim true false k k' f f' e r g = cc
  continue-Sim false true k k' f f' e r g = cc
  continue-Sim false false k k' f f' e r g = going r

  tag_loop-Sim :
      (fuel : ℕ) (limits : Limits) (limit_pos tag_count : ℕ) (k : Cursor Tokens) (b : Buffer)
      → Sim (2 * length k.tail + 2 + suc s) k.tokens b
      → SimFlow Same
          (tag_loop fuel limits limit_pos tag_count k)
          (FastTokenizer.tag_loop fuel limits limit_pos tag_count (twin k b))
  unfolding tag_loop FastTokenizer.tag_loop
  tag_loop-Sim zero limits limit_pos tag_count k b h = halting tt
  tag_loop-Sim (suc fuel) limits limit_pos tag_count k b h =
      elim (Bool-cases (leb limits.tag_count tag_count)) [
        | inl e ↦ rw e (throw-Sim _ _ _ h)
        | inr e ↦ rw e (
            SimFlow-bind _ _ (tag-Sim limits.tag_data limit_pos k b h) λ r r' same.
              continue-Sim r.0 r'.0 r.1 r'.1 (tag_loop fuel limits limit_pos (tag_count + 1))
                (FastTokenizer.tag_loop fuel limits limit_pos (tag_count + 1)) same.0 same.1
                (tag_loop-Sim fuel limits limit_pos (tag_count + 1) r.1))
      ]

  pub tag_section-Sim :
      (fuel : ℕ) (limits : Limits) (k : Cursor Tokens) (b : Buffer)
      → Sim (2 * length k.tail + 2 + suc s) k.tokens b
      → SimFlow Same (tag_section fuel limits k) (FastTokenizer.tag_section fuel limits (twin k b))
  unfolding tag_section FastTokenizer.tag_section
  tag_section-Sim fuel limits k b h = elim (Bool-cases (limits.tag_data == 0)) [
    | inl e ↦ rw e (throw-Sim _ _ _ h)
    | inr e ↦ rw e (
        SimFlow-next (suc s) _ _
          (next_tag-Sim limits.tag_data (k.pos + limits.tag_data) (k.pos + 1) k.tail
            (emitted _ TokenType.tags_start k.pos (k.pos + 1) (omega arith) h))
          λ k₁ b₁ h₁. tag_loop-Sim fuel limits (k.pos + limits.tag_data) 0 k₁ b₁ h₁)
  ]
