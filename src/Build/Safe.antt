-- ===== src/Build/Safe.antt =====
-- build.ts: a line that `buildMessage` returns does not break the framing of the connection.
use mojo_jojo.Base.{
  ℕ, ◌+◌, Bool, true, false, not, ◌&&◌, ◌||◌, List, [], ◌∷◌, ◌++◌, Option, none, some, ◌≡◌, refl,
  ◌∙◌, inl, inr, arith, Str, All, any, any-append, is_digit, is_alphanumeric, is_whitespace, ◌==◌,
  if◌then◌else◌, Bool-cases,
}
use mojo_jojo.Message.{Tags, Message}
use mojo_jojo.Escape.{escape_char, escape_loop, escape_tag_value}
use mojo_jojo.Escape.RoundTrip.{escape-eq-loop}
use mojo_jojo.Build.{
  is_forbidden, is_empty, all, is_key_char, is_vendor_char, split_slash, is_key_body,
  is_valid_tag_key, Built, line, throws, before, tag_text, build_tags, tag_part, source_part,
  is_bad_command, needs_trailing, build_params, command_part, build_message,
}

-- No CR, LF or NUL.
abbrev pub Clean : Str → Type 0
Clean s = any is_forbidden s ≡ false

-- A line that is built is clean.
abbrev pub Safe : Built → Type 0
Safe (line s) = Clean s
Safe (throws e) = Unit

Clean-append : (a b : Str) → Clean a → Clean b → Clean (a ++ b)
Clean-append a b h k = any-append is_forbidden a b ∙ rw (h, k) refl

Safe-before : (a : Str) (b : Built) → Clean a → Safe b → Safe (before a b)
Safe-before a (line s) h k = Clean-append a s h k
Safe-before a (throws e) h k = tt

key_char_clean : (c : ℕ) → is_key_char c ≡ true → is_forbidden c ≡ false
unfolding is_key_char is_alphanumeric is_digit is_forbidden
key_char_clean c h = ground (arith, h)

vendor_char_clean : (c : ℕ) → is_vendor_char c ≡ true → is_forbidden c ≡ false
unfolding is_vendor_char is_alphanumeric is_digit is_forbidden
vendor_char_clean c h = ground (arith, h)

all-Clean :
    (p : ℕ → Bool)
    → ((c : ℕ) → p c ≡ true → is_forbidden c ≡ false)
    → (s : Str) → all p s ≡ true
    → Clean s
all-Clean p f [] h = refl
all-Clean p f (c ∷ s) h = ground (arith, f c, all-Clean p f s, h)

-- Where the two sides of a split are clean, the whole is.
abbrev Joins : Str → Option (Str × Str) → Type 0
Joins s none = Unit
Joins s (some r) = Clean r.0 → Clean r.1 → Clean s

split_slash-Joins : (s : Str) → Joins s (split_slash s)
unfolding split_slash is_forbidden
split_slash-Joins [] = tt
split_slash-Joins (c ∷ s) = elim (Bool-cases (c == b'/')) [
  | inl e ↦ rw e (λ h k. ground (arith, e, k))
  | inr e ↦ rw e (
      (elim (split_slash s)
          as (λ o.
            Joins s o → Joins (c ∷ s) (elim o [ none ↦ none | some (a, b) ↦ some (c ∷ a, b) ])) [
              | none ↦ λ h. tt
              | some (a, b) ↦ λ h k l. ground (arith, h, k, l)
            ])
        (split_slash-Joins s))
]

is_key_body-Clean : (s : Str) → is_key_body s ≡ true → Clean s
unfolding is_key_body
is_key_body-Clean s =
    (elim (split_slash s)
        as (λ o.
          Joins s o
          → (elim o [
            | none ↦ not (is_empty s) && all is_key_char s
            | some (vendor, body) ↦
                not (is_empty vendor)
                && all is_vendor_char vendor
                && not (is_empty body)
                && all is_key_char body
          ])
            ≡ true
          → Clean s) [
            | none ↦ λ h k. all-Clean is_key_char key_char_clean s (ground (arith, k))
            | some (vendor, body) ↦ λ h k.
                h (all-Clean is_vendor_char vendor_char_clean vendor (ground (arith, k)))
                  (all-Clean is_key_char key_char_clean body (ground (arith, k)))
          ])
      (split_slash-Joins s)

is_valid_tag_key-Clean : (s : Str) → is_valid_tag_key s ≡ true → Clean s
unfolding is_valid_tag_key is_forbidden
is_valid_tag_key-Clean [] h = refl
is_valid_tag_key-Clean (c ∷ s) h = ground (arith, is_key_body-Clean s, is_key_body-Clean (c ∷ s), h)

escape_loop-Clean : (s : Str) → any (λ c. c == 0) s ≡ false → Clean (escape_loop s)
unfolding escape_loop escape_char is_forbidden
escape_loop-Clean [] h = refl
escape_loop-Clean (c ∷ s) h = ground (arith, escape_loop-Clean s, h)

escape-Clean : (s : Str) → any (λ c. c == 0) s ≡ false → Clean (escape_tag_value s)
escape-Clean s h = rw escape-eq-loop (escape_loop-Clean s h)

-- A test that throws, or goes on where it fails.
Safe-unless : (b : Bool) (x y : Built) → Safe x → (b ≡ false → Safe y) → Safe (if b then x else y)
Safe-unless true x y h k = h
Safe-unless false x y h k = k refl

Clean-if : (b : Bool) (x y : Str) → Clean x → Clean y → Clean (if b then x else y)
Clean-if true x y h k = h
Clean-if false x y h k = k

build_params-Safe : (i : ℕ) (params : List Str) → Safe (build_params true i params)
unfolding build_params is_forbidden
build_params-Safe i [] = refl
build_params-Safe i (p ∷ []) = Safe-unless (any is_forbidden p) _ _ tt (λ e.
    Clean-append (if needs_trailing p then b' ' ∷ b':' ∷ [] else b' ' ∷ []) p
      (Clean-if (needs_trailing p) (b' ' ∷ b':' ∷ []) (b' ' ∷ []) refl refl) e)
build_params-Safe i (p ∷ q ∷ params) = Safe-unless (any is_forbidden p) _ _ tt (λ e.
    Safe-unless (needs_trailing p) _ _ tt (λ f.
      Safe-before (b' ' ∷ p) (build_params true (i + 1) (q ∷ params)) e
        (build_params-Safe (i + 1) (q ∷ params))))

command_part-Safe : (command : Str) (params : List Str) → Safe (command_part true command params)
unfolding command_part is_bad_command
command_part-Safe command params =
    Safe-unless (is_empty command || any is_whitespace command || any is_forbidden command) _ _ tt
      (λ e.
        Safe-before command (build_params true 0 params) (ground (arith, e))
          (build_params-Safe 0 params))

-- Values with no NUL, which the escaping leaves as it is.
abbrev pub NoNul : Tags → Type 0
NoNul tags = All (λ t. any (λ c. c == 0) t.1 ≡ false) tags

tag_text-Clean :
    (key value : Str) → Clean key → any (λ c. c == 0) value ≡ false → Clean (tag_text key value)
unfolding tag_text is_forbidden
tag_text-Clean key value h k =
    Clean-if (is_empty value) key (key ++ (b'=' ∷ escape_tag_value value)) h
      (Clean-append key (b'=' ∷ escape_tag_value value) h (escape-Clean value k))

build_tags-Safe :
    (first : Bool) (tags : Tags) (rest : Built)
    → NoNul tags
    → Safe rest
    → Safe (build_tags true first tags rest)
unfolding build_tags is_forbidden
build_tags-Safe first [] rest h k = k
build_tags-Safe first ((key, value) ∷ tags) rest h k =
    Safe-unless (not (is_valid_tag_key key)) _ _ tt (λ e.
      Safe-before ((if first then [] else b';' ∷ []) ++ tag_text key value)
        (build_tags true false tags rest)
        (Clean-append (if first then [] else b';' ∷ []) (tag_text key value)
          (Clean-if first [] (b';' ∷ []) refl refl)
          (tag_text-Clean key value (is_valid_tag_key-Clean key (ground (arith, e))) h.0))
        (build_tags-Safe false tags rest h.1 k))

tag_part-Safe :
    (tags : Tags) (rest : Built) → NoNul tags → Safe rest → Safe (tag_part true tags rest)
unfolding tag_part is_forbidden
tag_part-Safe [] rest h k = k
tag_part-Safe (t ∷ tags) rest h k = Safe-before (b'@' ∷ []) _ refl (
    build_tags-Safe true (t ∷ tags) (before (b' ' ∷ []) rest) h
      (Safe-before (b' ' ∷ []) rest refl k))

-- A validated message whose tag values hold no NUL and whose source, as it is written, holds no CR, LF
-- or NUL is refused, or gives a line with no CR, LF or NUL: it cannot become two lines.
pub build_message-Safe :
    (message : Message)
    → NoNul message.tags
    → Clean (source_part message.source)
    → Safe (build_message message true)
unfolding build_message
build_message-Safe message h k = tag_part-Safe message.tags _ h (
    Safe-before (source_part message.source) (command_part true message.command message.params) k
      (command_part-Safe message.command message.params))
