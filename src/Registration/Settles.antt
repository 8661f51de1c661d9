-- ===== src/Registration/Settles.antt =====
-- registration.ts: the events behind which `register` is settled, and what follows them.
use mojo_jojo.Base.{
  ℕ, Bool, true, false, not, ◌&&◌, ◌||◌, List, [], ◌∷◌, ◌++◌, some, ◌≡◌, refl, sym, inl, inr, Str,
  codes, str_eq, str_eq_iff, if◌then◌else◌, Bool-cases, if_lem,
}
use mojo_jojo.Message.{Message}
use mojo_jojo.Sasl.{Runtime}
use mojo_jojo.Registration.{
  RegistrationOptions, Outcome, State, Event, settle, on_welcome, handle, deliver, step, run, begin,
  is_some, is_one_of, fatal_numerics,
}

-- The welcome, a numeric that refuses the client, the end or failure of the stream, or the timer.
unfoldable pub is_ending : Event → Bool
unfolding is_one_of
is_ending (Event.received m) = is_one_of (codes "001" ∷ fatal_numerics) m.command
is_ending _ = true

abbrev pub Settled : State → Type 0
Settled s = is_some s.outcome ≡ true

settle-Settled : (s : State) (o : Outcome) → Settled (settle s o)
unfolding settle is_some
settle-Settled s o =
    if_lem Settled (is_some s.outcome) s (record s { outcome = some o }) (λ e. e) (λ e. refl)

on_welcome-Settled :
    (options : RegistrationOptions) (s : State) (m : Message) → Settled (on_welcome options s m)
unfolding on_welcome
on_welcome-Settled options s m =
    if_lem Settled (is_some options.sasl && not s.sasl_succeeded) _ _ (λ e. settle-Settled s _)
      (λ e. settle-Settled s _)

differs :
    (k c : Str)
    → is_one_of fatal_numerics k ≡ false
    → is_one_of fatal_numerics c ≡ true
    → str_eq c k ≡ false
differs k c n h = elim (Bool-cases (str_eq c k)) [
  | inl e ↦ absurd (cc (h, n, (str_eq_iff c k).0 e))
  | inr e ↦ e
]

-- A fatal numeric is none of the two that ask for another nick.
fatal-not_taken :
    (c : Str)
    → is_one_of fatal_numerics c ≡ true
    → (str_eq c (codes "433") || str_eq c (codes "436")) ≡ false
unfolding is_one_of str_eq
fatal-not_taken c h = rw (differs (codes "433") c refl h, differs (codes "436") c refl h) refl

-- What is not the welcome is one of the others.
not_welcome :
    (c : Str)
    → is_one_of (codes "001" ∷ fatal_numerics) c ≡ true
    → str_eq c (codes "001") ≡ false
    → is_one_of fatal_numerics c ≡ true
unfolding is_one_of
not_welcome c h n = elim (Bool-cases (str_eq (codes "001") c)) [
  | inl e ↦ absurd (cc (n, (str_eq_iff c (codes "001")).1 (sym ((str_eq_iff (codes "001") c).0 e))))
  | inr e ↦ cc (h, e)
]

-- The test of the welcome, the taken nicks and the fatal numerics, in the order of `handle`.
ending-cases :
    (c : Str) (x y z w : State)
    → is_one_of (codes "001" ∷ fatal_numerics) c ≡ true
    → Settled x
    → Settled z
    → Settled (
        if str_eq c (codes "001")
        then x
        else if str_eq c (codes "433") || str_eq c (codes "436")
        then y
        else if is_one_of fatal_numerics c
        then z
        else w)
ending-cases c x y z w h hx hz = elim (Bool-cases (str_eq c (codes "001"))) [
  | inl e ↦ rw e hx
  | inr e ↦
      let fatal : is_one_of fatal_numerics c ≡ true = not_welcome c h e in
      rw (e, fatal-not_taken c fatal, fatal) hz
]

module _ (rt : Runtime) (print : ℕ → Str) (options : RegistrationOptions) where
  deliver-Settled :
      (s : State) (e : Event) → is_ending e ≡ true → Settled (deliver rt print options s e)
  unfolding deliver handle is_ending
  deliver-Settled s (Event.received m) h =
      ending-cases m.command _ _ _ _ h (on_welcome-Settled options s m) (settle-Settled s _)
  deliver-Settled s Event.failed h = settle-Settled s _
  deliver-Settled s Event.closed h = settle-Settled s _
  deliver-Settled s Event.timer_fired h = settle-Settled s _

  step-Settled : (s : State) (e : Event) → is_ending e ≡ true → Settled (step rt print options s e)
  unfolding step
  step-Settled s e h = if_lem Settled (is_some s.outcome) s _ (λ t. t) (λ f. deliver-Settled s e h)

  run-idle : (s : State) (es : List Event) → Settled s → run rt print options s es ≡ s
  unfolding run step
  run-idle s [] h = refl
  run-idle s (e ∷ es) h = rw h (run-idle s es h)

  run-from :
      (s : State) (before after : List Event) (e : Event)
      → is_ending e ≡ true
      → Settled (run rt print options s (before ++ e ∷ []))
        × (run rt print options s (before ++ e ∷ after) ≡ run rt print options s (before ++ e ∷ []))
  unfolding run
  run-from s [] after e h =
      (step-Settled s e h, run-idle (step rt print options s e) after (step-Settled s e h))
  run-from s (b ∷ before) after e h = run-from (step rt print options s b) before after e h

-- Behind the welcome, a fatal numeric, the end or failure of the stream, or the timer, whatever
-- came before, the promise of `register` is settled, and no later event changes the state.
pub run-settles :
    (rt : Runtime) (print : ℕ → Str) (options : RegistrationOptions) (before after : List Event)
    (e : Event)
    → is_ending e ≡ true
    → (is_some (run rt print options (begin options) (before ++ e ∷ [])).outcome ≡ true)
      × (run rt print options (begin options) (before ++ e ∷ after)
          ≡ run rt print options (begin options) (before ++ e ∷ []))
run-settles rt print options before after e h =
    run-from rt print options (begin options) before after e h
