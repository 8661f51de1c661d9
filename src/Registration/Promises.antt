-- ===== src/Registration/Promises.antt =====
-- registration.ts: what `register` promises, whatever the server sends.
use mojo_jojo.Base.{
  ℕ, suc, ◌+◌, ◌≤◌, Bool, true, false, List, [], ◌∷◌, ◌++◌, Option, some, ◌≡◌, refl, sym, subst,
  ◌∙◌, arith, Str, All, str_eq, if◌then◌else◌,
}
use mojo_jojo.Message.{Message}
use mojo_jojo.Commands.{cap_end}
use mojo_jojo.Sasl.{Runtime, SaslOptions}
use mojo_jojo.Registration.{RegistrationOptions, Outcome, Event, run, begin, is_some}
use mojo_jojo.Registration.Quiet.{is_cap_end, is_end, is_sasl_success, Quiet}
use mojo_jojo.Registration.Safety.{Kept, OkEvent, run-begin}

unfoldable pub is_resolved : Option Outcome → Bool
is_resolved (some (Outcome.resolved r)) = true
is_resolved _ = false

abbrev Waits : Bool → Bool → Option Outcome → List Message → Type 0
Waits c u o l = (u ≡ false) × (is_resolved o ≡ false)

Waits-Kept : (sasl : SaslOptions) → Kept Waits (some sasl) (λ m. is_sasl_success m ≡ false)
unfolding is_resolved is_some
Waits-Kept sasl = record {
  rejects = λ c u o l r h. (h.0, refl);
  resolves = λ c u o l r n h. absurd (cc (n, h.0));
  sends = λ c u o l m q h. h;
  concludes = λ u o l h. h;
  gives_up = λ c u o l h. h;
  logs_in = λ c u o l m k e h. absurd (cc (k, e));
}

-- Counts the `CAP END` lines.
unfoldable pub cap_ends : List Message → ℕ
cap_ends [] = 0
cap_ends (m ∷ l) = (if is_cap_end m then 1 else 0) + cap_ends l

cap_ends-concat :
    (l : List Message) (m : Message)
    → cap_ends (l ++ m ∷ []) ≡ cap_ends l + (if is_cap_end m then 1 else 0)
unfolding cap_ends
cap_ends-concat [] m = omega arith
cap_ends-concat (x ∷ l) m = omega (arith, cap_ends-concat l m)

cap_ends-Quiet : (l : List Message) (m : Message) → Quiet m → cap_ends (l ++ m ∷ []) ≡ cap_ends l
cap_ends-Quiet l m q = cap_ends-concat l m ∙ rw q (omega arith)

cap_ends-cap_end : (l : List Message) → cap_ends (l ++ cap_end ∷ []) ≡ suc (cap_ends l)
unfolding is_cap_end cap_end is_end str_eq
cap_ends-cap_end l = cap_ends-concat l cap_end ∙ omega arith

abbrev Ends : Bool → Bool → Option Outcome → List Message → Type 0
Ends c u o l = cap_ends l ≤ (if c then 1 else 0)

Ends-true : (c : Bool) (n : ℕ) → n ≤ (if c then 1 else 0) → n ≤ 1
Ends-true true n h = h
Ends-true false n h = omega (arith, h)

Ends-Kept : (sasl : Option SaslOptions) → Kept Ends sasl (λ m. Unit)
Ends-Kept sasl = record {
  rejects = λ c u o l r h. h;
  resolves = λ c u o l r n h. h;
  sends = λ c u o l m q h. rw (cap_ends-Quiet l m q) h;
  concludes = λ u o l h. rw (cap_ends-cap_end l) (omega (arith, h));
  gives_up = λ c u o l h. Ends-true c (cap_ends l) h;
  logs_in = λ c u o l m k e h. h;
}

any_event : (es : List Event) → All (OkEvent (λ m. Unit)) es
any_event [] = tt
any_event (Event.received m ∷ es) = (tt, any_event es)
any_event (Event.failed ∷ es) = (tt, any_event es)
any_event (Event.closed ∷ es) = (tt, any_event es)
any_event (Event.timer_fired ∷ es) = (tt, any_event es)

-- With SASL credentials, and whatever else the server sends or the connection does, a handshake in
-- which the server never confirms the login (903 or 907) is not resolved.
pub run-sasl_required :
    (rt : Runtime) (print : ℕ → Str) (options : RegistrationOptions) (sasl : SaslOptions)
    (events : List Event)
    → options.sasl ≡ some sasl
    → All (OkEvent (λ m. is_sasl_success m ≡ false)) events
    → is_resolved (run rt print options (begin options) events).outcome ≡ false
unfolding is_resolved
run-sasl_required rt print options sasl events e h =
    let kept =
      subst (λ o. Kept Waits o (λ m. is_sasl_success m ≡ false)) (sym e) (Waits-Kept sasl) in
    (run-begin Waits options (λ m. is_sasl_success m ≡ false) kept rt print events h (refl, refl)).1

-- Whatever the server sends or the connection does, `CAP END` is sent once at most.
pub run-cap_ends :
    (rt : Runtime) (print : ℕ → Str) (options : RegistrationOptions) (events : List Event)
    → cap_ends (run rt print options (begin options) events).sent ≤ 1
unfolding cap_ends
run-cap_ends rt print options events =
    let r =
      run-begin Ends options (λ m. Unit) (Ends-Kept options.sasl) rt print events (any_event events)
        (omega arith) in
    Ends-true (run rt print options (begin options) events).caps_concluded
      (cap_ends (run rt print options (begin options) events).sent) r
