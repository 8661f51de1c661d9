-- ===== src/Modes/Params.antt =====
-- modeParser.ts: which changes a MODE string makes, and which parameters they get.
use mojo_jojo.Base.{
  ℕ, zero, suc, ◌+◌, Bool, true, false, ◌&&◌, ◌||◌, List, [], ◌∷◌, Option, none, some, ◌≡◌, refl,
  ap, ◌∙◌, inl, inr, arith, Str, codes, str_eq, get_elem?, drop, any, if◌then◌else◌, Bool-cases,
}
use mojo_jojo.Isupport.{ISupport}
use mojo_jojo.Modes.{
  ModeChange, classify_mode, takes_param, next_index, characters, includes_text, mode_loop,
  parse_mode_changes,
}

-- Whether a mode takes a parameter: one of a status, of the groups A and B, and of the group C where it
-- is set.
unfoldable pub wants : ISupport → Bool → Str → Bool
wants isupport added mode =
    any (λ p. str_eq p.mode mode) isupport.prefixes
    || includes_text isupport.chan_modes.a mode
    || includes_text isupport.chan_modes.b mode
    || includes_text isupport.chan_modes.c mode && added

-- The sign and the letter of each change.
unfoldable pub signed : Bool → List Str → List (Bool × Str)
signed added [] = []
signed added (char ∷ chars) =
    let set = signed true chars in
    let unset = signed false chars in
    let later = signed added chars in
    if str_eq char (codes "+")
    then set
    else if str_eq char (codes "-")
    then unset
    else (added, char) ∷ later

-- What changes with these signs and letters get of the parameters: each that wants one the next, while
-- there is one.
unfoldable pub shares : ISupport → List Str → List (Bool × Str) → List (Option Str)
shares isupport params [] = []
shares isupport params ((added, mode) ∷ changes) =
    let taking = shares isupport (drop 1 params) changes in
    let leaving = shares isupport params changes in
    if wants isupport added mode then get_elem? params 0 ∷ taking else none ∷ leaving

unfoldable pub letters : List ModeChange → List (Bool × Str)
letters [] = []
letters (m ∷ ms) = (m.added, m.mode) ∷ letters ms

unfoldable pub params_of : List ModeChange → List (Option Str)
params_of [] = []
params_of (m ∷ ms) = m.param ∷ params_of ms

takes_param-wants :
    (isupport : ISupport) (added : Bool) (mode : Str)
    → takes_param (classify_mode mode isupport) added ≡ wants isupport added mode
unfolding takes_param classify_mode wants
takes_param-wants isupport added mode = ground arith

first-drop : (params : List Str) (i : ℕ) → get_elem? params i ≡ get_elem? (drop i params) 0
first-drop [] zero = refl
first-drop [] (suc i) = refl
first-drop (x ∷ params) zero = refl
first-drop (x ∷ params) (suc i) = first-drop params i

next-drop :
    (x : Str) (params : List Str) (i : ℕ) (o : Option Str)
    → drop (next_index (suc i) o) (x ∷ params) ≡ drop (next_index i o) params
unfolding next_index
next-drop x params i none = refl
next-drop x params i (some p) =
    let next : suc i + 1 ≡ suc (i + 1) = omega arith in ap (λ n. drop n (x ∷ params)) next

-- Behind what is taken at an index stands the rest.
rest-drop :
    (params : List Str) (i : ℕ)
    → drop (next_index i (get_elem? params i)) params ≡ drop 1 (drop i params)
unfolding next_index
rest-drop [] zero = refl
rest-drop [] (suc i) = refl
rest-drop (x ∷ params) zero = refl
rest-drop (x ∷ params) (suc i) = next-drop x params i (get_elem? params i) ∙ rest-drop params i

module _ (params : List Str) (isupport : ISupport) where
  -- The changes of a run from a sign and an index.
  abbrev Reads : Bool → ℕ → List Str → Type 0
  Reads added index chars =
      (letters (mode_loop params isupport added index chars) ≡ signed added chars)
      × (params_of (mode_loop params isupport added index chars)
          ≡ shares isupport (drop index params) (signed added chars))

  change-params :
      (wanted : Bool) (index : ℕ) (changes : List (Bool × Str)) (later : ℕ → List (Option Str))
      → ((i : ℕ) → later i ≡ shares isupport (drop i params) changes)
      → (if wanted then get_elem? params index else none)
          ∷ later (next_index index (if wanted then get_elem? params index else none))
        ≡ (if wanted
            then get_elem? (drop index params) 0
              ∷ shares isupport (drop 1 (drop index params)) changes
            else none ∷ shares isupport (drop index params) changes)
  unfolding next_index
  change-params false index changes later h = ap (λ l. none ∷ l) (h index)
  change-params true index changes later h =
      rw (h, rest-drop params index, first-drop params index) refl

  mode_loop-Reads : (chars : List Str) (added : Bool) (index : ℕ) → Reads added index chars
  unfolding mode_loop letters params_of shares signed
  mode_loop-Reads [] added index = (refl, refl)
  mode_loop-Reads (char ∷ chars) added index = elim (Bool-cases (str_eq char (codes "+"))) [
    | inl e ↦ rw e (mode_loop-Reads chars true index)
    | inr e ↦ rw e (elim (Bool-cases (str_eq char (codes "-"))) [
      | inl f ↦ rw f (mode_loop-Reads chars false index)
      | inr f ↦
          rw (f, takes_param-wants isupport added char)
            (
              ap (λ l. (added, char) ∷ l) (mode_loop-Reads chars added _).0,
              change-params (wants isupport added char) index (signed added chars)
                  (λ i. params_of (mode_loop params isupport added i chars))
                  (λ i. (mode_loop-Reads chars added i).1),
            )
    ])
  ]

-- The changes are the letters of the MODE string with the last sign before them, or a plus, and each
-- gets the next parameter, while there is one, exactly where its mode wants one: a mode of a status, of
-- the groups A and B of CHANMODES, and of the group C where it is set.
pub parse_mode_changes-shares :
    (mode_string : Str) (params : List Str) (isupport : ISupport)
    → (letters (parse_mode_changes mode_string params isupport)
        ≡ signed true (characters mode_string))
      × (params_of (parse_mode_changes mode_string params isupport)
          ≡ shares isupport params (signed true (characters mode_string)))
unfolding parse_mode_changes
parse_mode_changes-shares mode_string params isupport =
    mode_loop-Reads params isupport (characters mode_string) true 0
