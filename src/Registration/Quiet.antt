-- ===== src/Registration/Quiet.antt =====
-- The lines of sasl.ts and capabilities.ts that `register` passes on, as its safety sees them.
use mojo_jojo.Base.{
  ℕ, zero, suc, Bool, true, false, not, ◌&&◌, ◌||◌, List, [], ◌∷◌, ◌++◌, Option, none, some, ◌≡◌,
  refl, inl, inr, Str, All, codes, str_eq, get_elem?, drop, length, leb, ◌%◌, ◌==◌, if◌then◌else◌,
  Bool-cases,
}
use mojo_jojo.Message.{Message}
use mojo_jojo.Commands.{authenticate, cap_ls, cap_req, nick, pass, user}
use mojo_jojo.Sasl.{
  Runtime, SaslOptions, SaslStep, Session, answer, chunk_lines, chunk_sasl_response, decode_base64,
  encode_base64, is_empty, is_terminal, on_challenge, or_else, respond_to,
}
use mojo_jojo.Sasl
use mojo_jojo.Registration.{requests}

unfoldable pub is_end : Option Str → Bool
is_end none = false
is_end (some p) = str_eq p (codes "END")

-- 903 and 907, which end the exchange well.
unfoldable pub is_sasl_success : Message → Bool
is_sasl_success m = str_eq m.command (codes "903") || str_eq m.command (codes "907")

unfoldable pub is_cap_end : Message → Bool
is_cap_end m = str_eq m.command (codes "CAP") && is_end (get_elem? m.params 0)

-- What is not `CAP END`.
abbrev pub Quiet : Message → Type 0
Quiet m = is_cap_end m ≡ false

Quiet-chunk_lines : (n : ℕ) (x : Str) → All Quiet (chunk_lines n x)
unfolding chunk_lines is_cap_end authenticate str_eq
Quiet-chunk_lines zero x = tt
Quiet-chunk_lines (suc n) [] = tt
Quiet-chunk_lines (suc n) (c ∷ x) = (refl, Quiet-chunk_lines n (drop 400 (c ∷ x)))

Quiet-concat : (l : List Message) (m : Message) → All Quiet l → Quiet m → All Quiet (l ++ m ∷ [])
Quiet-concat [] m h k = (k, tt)
Quiet-concat (x ∷ l) m h k = (h.0, Quiet-concat l m h.1 k)

pub Quiet-authenticate : (p : Str) → Quiet (authenticate p)
unfolding is_cap_end authenticate str_eq
Quiet-authenticate p = refl

pub Quiet-pass : (password : Str) → Quiet (pass password)
unfolding is_cap_end pass str_eq
Quiet-pass password = refl

pub Quiet-user : (username real_name : Str) → Quiet (user username real_name)
unfolding is_cap_end user str_eq
Quiet-user username real_name = refl

pub Quiet-cap_ls : Quiet cap_ls
unfolding is_cap_end cap_ls str_eq is_end
Quiet-cap_ls = refl

pub Quiet-nick : (name : Str) → Quiet (nick name)
unfolding is_cap_end nick str_eq
Quiet-nick name = refl

Quiet-chunk_sasl_response : (x : Str) → All Quiet (chunk_sasl_response x)
unfolding chunk_sasl_response
Quiet-chunk_sasl_response [] = (Quiet-authenticate (codes "+"), tt)
Quiet-chunk_sasl_response (c ∷ x) = elim (Bool-cases (length (c ∷ x) % 400 == 0)) [
  | inl e ↦ rw e (
      Quiet-concat (chunk_lines (length (c ∷ x)) (c ∷ x)) (authenticate (codes "+"))
        (Quiet-chunk_lines (length (c ∷ x)) (c ∷ x)) (Quiet-authenticate (codes "+")))
  | inr e ↦ rw e (Quiet-chunk_lines (length (c ∷ x)) (c ∷ x))
]

pub Quiet-requests : (chunks : List (List Str)) → All Quiet (requests chunks)
unfolding requests is_cap_end cap_req str_eq is_end
Quiet-requests [] = tt
Quiet-requests (c ∷ chunks) = (refl, Quiet-requests chunks)

-- What the session answers to a message: quiet lines, and success at 903 and 907 alone.
abbrev pub Sound : Message → SaslStep → Type 0
Sound m (SaslStep.send ms) = All Quiet ms
Sound m (SaslStep.success a) = is_sasl_success m ≡ true
Sound m _ = Unit

module _ (rt : Runtime) (m : Message) where
  Sound-respond_to : (s : Session) (o : Option Str) → Sound m (respond_to rt s o).1
  unfolding respond_to
  Sound-respond_to s none = tt
  Sound-respond_to s (some d) = Quiet-chunk_sasl_response (encode_base64 rt (s.mechanism.respond d))

  Sound-answer : (s : Session) (full : Str) → Sound m (answer rt s full).1
  unfolding answer
  Sound-answer s full =
      Sound-respond_to s (if is_empty full then some [] else decode_base64 rt full)

  Sound-on_challenge : (s : Session) (p : Str) → Sound m (on_challenge rt s p).1
  unfolding on_challenge
  Sound-on_challenge s p = elim (Bool-cases (not (str_eq p (codes "+")) && (length p == 400))) [
    | inl e ↦
        rw e
          (elim (Bool-cases (leb 65536 (length s.challenge))) [ inl q ↦ rw q tt | inr q ↦ rw q tt ])
    | inr e ↦ rw e (Sound-answer s (if str_eq p (codes "+") then s.challenge else s.challenge ++ p))
  ]

  -- A test whose two sides are sound, the second where the test fails.
  Sound-if :
      (b : Bool) (x y : Session × SaslStep)
      → (b ≡ true → Sound m x.1)
      → Sound m y.1
      → Sound m (if b then x else y).1
  Sound-if true x y h k = h refl
  Sound-if false x y h k = k

  Sound-handle_live : (s : Session) → Sound m (Sasl.handle_live rt s m).1
  unfolding Sasl.handle_live is_sasl_success
  Sound-handle_live s =
      Sound-if (str_eq m.command (codes "AUTHENTICATE")) _ _
        (λ e. Sound-on_challenge s (or_else (get_elem? m.params 0) []))
        (Sound-if (str_eq m.command (codes "900")) _ _ (λ e. tt)
          (Sound-if (str_eq m.command (codes "903") || str_eq m.command (codes "907")) _ _ (λ e. e)
            (Sound-if (str_eq m.command (codes "908")) _ _ (λ e. tt)
              (Sound-if (is_terminal m.command) _ _ (λ e. tt) tt))))

  pub Sound-handle : (s : Session) → Sound m (Sasl.handle rt s m).1
  unfolding Sasl.handle
  Sound-handle s =
      Sound-if s.finished (s, SaslStep.continue) (Sasl.handle_live rt s m) (λ e. tt)
        (Sound-handle_live s)
