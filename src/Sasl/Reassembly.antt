-- ===== src/Sasl/Reassembly.antt =====
-- sasl.ts: a session puts together what `chunkSaslResponse` took apart.
use mojo_jojo.Base.{
  ℕ, zero, suc, ◌+◌, ◌≤◌, ◌<◌, ◌%◌, false, List, [], ◌∷◌, ◌++◌, append-nil, append_assoc, Option,
  none, some, ◌≡◌, ◌≢◌, refl, sym, ap, ◌∙◌, inl, inr, arith, Str, codes, str_eq, length,
  length-append, leb, ltb, ◌==◌, if◌then◌else◌, take, drop, Bool-cases,
}
use mojo_jojo.Message.{Message}
use mojo_jojo.Commands.{authenticate}
use mojo_jojo.Sasl.{
  Runtime, Session, SaslMechanism, SaslStep, respond_to, is_empty, decode_base64, chunk_lines,
  chunk_sasl_response, answer, on_challenge, handle,
}

-- A session that is fed messages one by one, and its last step.
unfoldable pub feed : Runtime → Session → List Message → SaslStep → Session × SaslStep
feed rt s [] last = (s, last)
feed rt s (m ∷ ms) last = let r = handle rt s m in feed rt r.0 ms r.1

length-take : (n : ℕ) (x : Str) → n ≤ length x → length (take n x) ≡ n
length-take zero x h = refl
length-take (suc n) [] h = omega (arith, h)
length-take (suc n) (c ∷ x) h = ap suc (length-take n x (omega (arith, h)))

length-drop : (n : ℕ) (x : Str) → n ≤ length x → length (drop n x) + n ≡ length x
length-drop zero x h = omega arith
length-drop (suc n) [] h = omega (arith, h)
length-drop (suc n) (c ∷ x) h = omega (arith, h, length-drop n x)

take-drop : (n : ℕ) (x : Str) → take n x ++ drop n x ≡ x
take-drop zero x = refl
take-drop (suc n) [] = refl
take-drop (suc n) (c ∷ x) = ap (λ y. c ∷ y) (take-drop n x)

take-short : (n : ℕ) (x : Str) → length x ≤ n → take n x ≡ x
take-short zero [] h = refl
take-short zero (c ∷ x) h = absurd (omega (arith, h))
take-short (suc n) [] h = refl
take-short (suc n) (c ∷ x) h = ap (λ y. c ∷ y) (take-short n x (omega (arith, h)))

drop-short : (n : ℕ) (x : Str) → length x ≤ n → drop n x ≡ []
drop-short zero [] h = refl
drop-short zero (c ∷ x) h = absurd (omega (arith, h))
drop-short (suc n) [] h = refl
drop-short (suc n) (c ∷ x) h = drop-short n x (omega (arith, h))

not_plus : (p : Str) → length p ≢ 1 → str_eq p (codes "+") ≡ false
unfolding str_eq
not_plus [] h = refl
not_plus (c ∷ []) h = absurd (h (omega arith))
not_plus (c ∷ d ∷ p) h = ground arith

module _ (rt : Runtime) (mechanism : SaslMechanism) (account : Option Str) where
  -- A session that is not finished, with what it holds of the challenge.
  abbrev holding : Str → Session
  holding text = record {
    mechanism = mechanism;
    challenge = text;
    account = account;
    finished = false;
  }

  handle-holding :
      (text p : Str) → handle rt (holding text) (authenticate p) ≡ on_challenge rt (holding text) p
  unfolding handle authenticate str_eq
  handle-holding text p = refl

  respond_to-holding :
      (text : Str) (o : Option Str) → respond_to rt (holding text) o ≡ respond_to rt (holding []) o
  unfolding respond_to
  respond_to-holding text none = refl
  respond_to-holding text (some d) = refl

  answer-holding : (text full : Str) → answer rt (holding text) full ≡ answer rt (holding []) full
  unfolding answer
  answer-holding text full =
      respond_to-holding text (if is_empty full then some [] else decode_base64 rt full)

  challenge_full :
      (text p : Str)
      → length p ≡ 400
      → length text < 65536
      → on_challenge rt (holding text) p ≡ (holding (text ++ p), SaslStep.continue)
  unfolding on_challenge
  challenge_full text p h k =
      let plus = not_plus p (λ q. omega (arith, h, q)) in
      let small : leb 65536 (length text) ≡ false = ground (arith, k) in rw (plus, h, small) refl

  challenge_plus :
      (text : Str) → on_challenge rt (holding text) (codes "+") ≡ answer rt (holding []) text
  unfolding on_challenge str_eq
  challenge_plus text = answer-holding text text

  challenge_last :
      (text p : Str)
      → length p < 400
      → length p ≢ 1
      → on_challenge rt (holding text) p ≡ answer rt (holding []) (text ++ p)
  unfolding on_challenge
  challenge_last text p h k =
      let plus = not_plus p k in
      let short : (length p == 400) ≡ false = ground (arith, h) in
      rw (plus, short) (answer-holding text (text ++ p))

  feed-full :
      (text p : Str) (ms : List Message) (last : SaslStep)
      → length p ≡ 400
      → length text < 65536
      → feed rt (holding text) (authenticate p ∷ ms) last
        ≡ feed rt (holding (text ++ p)) ms SaslStep.continue
  unfolding feed
  feed-full text p ms last h k = rw (handle-holding text p, challenge_full text p h k) refl

  feed-last :
      (text p : Str) (last : SaslStep)
      → length p < 400
      → length p ≢ 1
      → feed rt (holding text) (authenticate p ∷ []) last ≡ answer rt (holding []) (text ++ p)
  unfolding feed
  feed-last text p last h k = rw (handle-holding text p, challenge_last text p h k) refl

  feed-plus :
      (text : Str) (last : SaslStep)
      → feed rt (holding text) (authenticate (codes "+") ∷ []) last ≡ answer rt (holding []) text
  unfolding feed
  feed-plus text last = rw (handle-holding text (codes "+"), challenge_plus text) refl

  -- The line that ends a response of whole chunks.
  unfoldable closing : Str → List Message
  closing x = if length x % 400 == 0 then authenticate (codes "+") ∷ [] else []

  closing-drop : (x : Str) → 400 ≤ length x → closing (drop 400 x) ≡ closing x
  unfolding closing
  closing-drop x h =
      let d = length-drop 400 x h in
      let e : length (drop 400 x) % 400 ≡ length x % 400 = omega (arith, d) in rw e refl

  closing-short : (x : Str) → 0 < length x → length x < 400 → closing x ≡ []
  unfolding closing
  closing-short x h k = let e : (length x % 400 == 0) ≡ false = ground (arith, h, k) in rw e refl

  chunk_lines-nil : (n : ℕ) → chunk_lines n [] ≡ []
  unfolding chunk_lines
  chunk_lines-nil zero = refl
  chunk_lines-nil (suc n) = refl

  feed-chunk_lines :
      (n : ℕ) (x text : Str) (last : SaslStep)
      → length x ≤ n
      → length text + length x ≤ 65536
      → length x % 4 ≡ 0
      → feed rt (holding text) (chunk_lines n x ++ closing x) last
        ≡ answer rt (holding []) (text ++ x)
  unfolding chunk_lines closing
  feed-chunk_lines n [] text last h k q =
      rw (chunk_lines-nil n, append-nil text) (feed-plus text last)
  feed-chunk_lines zero (c ∷ x) text last h k q = absurd (omega (arith, h))
  feed-chunk_lines (suc n) (c ∷ x) text last h k q = elim (Bool-cases (ltb (length (c ∷ x)) 400)) [
    | inl e ↦
        let short : length (c ∷ x) < 400 = ground (arith, e) in
        rw
          (
            take-short 400 (c ∷ x) (omega (arith, short)),
            drop-short 400 (c ∷ x) (omega (arith, short)),
            chunk_lines-nil n,
            closing-short (c ∷ x) (omega arith) short,
          )
          (feed-last text (c ∷ x) last short (λ one. omega (arith, one, q)))
    | inr e ↦
        let long : 400 ≤ length (c ∷ x) = ground (arith, e) in
        let d = length-drop 400 (c ∷ x) long in
        let t = length-take 400 (c ∷ x) long in
        feed-full text (take 400 (c ∷ x)) (chunk_lines n (drop 400 (c ∷ x)) ++ closing (c ∷ x)) last
          t (omega (arith, k, long))
        ∙ ap
            (λ l.
              feed rt (holding (text ++ take 400 (c ∷ x))) (chunk_lines n (drop 400 (c ∷ x)) ++ l)
                SaslStep.continue)
            (sym (closing-drop (c ∷ x) long))
        ∙ feed-chunk_lines n (drop 400 (c ∷ x)) (text ++ take 400 (c ∷ x)) SaslStep.continue
            (omega (arith, d, h)) (omega (arith, d, k, t, length-append text (take 400 (c ∷ x))))
            (omega (arith, d, q))
        ∙ ap (answer rt (holding [])) (
            append_assoc text (take 400 (c ∷ x)) (drop 400 (c ∷ x))
            ∙ ap (λ y. text ++ y) (take-drop 400 (c ∷ x)))
  ]

  chunk_sasl_response-closing :
      (x : Str) → chunk_sasl_response x ≡ chunk_lines (length x) x ++ closing x
  unfolding chunk_sasl_response closing
  chunk_sasl_response-closing [] = refl
  chunk_sasl_response-closing (c ∷ x) = elim (Bool-cases (length (c ∷ x) % 400 == 0)) [
    | inl e ↦ rw e refl
    | inr e ↦ rw e (sym (append-nil (chunk_lines (length (c ∷ x)) (c ∷ x))))
  ]

-- A text of base64 length (a multiple of 4) of at most 65536 characters, sent in the lines of
-- `chunkSaslResponse` to a session that runs and holds nothing, is put together there: the session
-- and its last step are those of answering exactly that text.
pub feed-chunk_sasl_response :
    (rt : Runtime) (mechanism : SaslMechanism) (account : Option Str) (x : Str)
    → length x % 4 ≡ 0
    → length x ≤ 65536
    → feed rt
        (record { mechanism = mechanism; challenge = []; account = account; finished = false })
        (chunk_sasl_response x)
        SaslStep.continue
      ≡ answer rt
          (record { mechanism = mechanism; challenge = []; account = account; finished = false })
          x
feed-chunk_sasl_response rt mechanism account x h k =
    rw (chunk_sasl_response-closing rt mechanism account x) (
      feed-chunk_lines rt mechanism account (length x) x [] SaslStep.continue (omega arith)
        (omega (arith, k)) h)
