-- ===== src/Registration/Safety.antt =====
-- registration.ts: what every primitive of the handshake keeps, the whole run keeps.
use mojo_jojo.Base.{
  ℕ, Bool, true, false, not, ◌&&◌, ◌||◌, List, [], ◌∷◌, ◌++◌, Option, none, some, ◌≡◌, refl, subst,
  Str, All, codes, str_eq, get_elem?, length, ◌==◌, if◌then◌else◌,
}
use mojo_jojo.Message.{Message}
use mojo_jojo.Commands.{cap_end, cap_ls, nick, pass, user}
use mojo_jojo.Capabilities.{CapMessage, CapSubcommand, parse_cap_message}
use mojo_jojo.Capabilities.Store.{is_enabled}
use mojo_jojo.Capabilities.Requests.{chunk_caps}
use mojo_jojo.Sasl.{Runtime, SaslOptions, SaslStep, Session, mechanism_for, new_session}
use mojo_jojo.Sasl
use mojo_jojo.Registration.{
  RegistrationOptions, Rejection, Outcome, State, Event, send, send_all, settle, conclude_caps,
  begin_sasl_or_conclude, next_nick, requests, request, if_drained, handle_cap, on_step, on_welcome,
  on_unknown_cap, on_other, on_sasl, handle, deliver, step, run, begin, initial, send_pass, is_some,
  is_one_of, is_cap, fatal_numerics, sasl_numerics,
}
use mojo_jojo.Registration.Quiet.{
  is_sasl_success, Quiet, Sound, Quiet-authenticate, Quiet-cap_ls, Quiet-nick, Quiet-pass,
  Quiet-requests, Quiet-user, Sound-handle,
}

-- A condition on the messages, of the event that brings one.
abbrev pub OkEvent : (Message → Type 0) → Event → Type 0
OkEvent Ok (Event.received m) = Ok m
OkEvent Ok _ = Unit

-- What an invariant of the machine may speak of: whether negotiation is concluded and the login was
-- good, the outcome, and what was sent. The laws say that each primitive keeps it.
pub record Kept (Q : Bool → Bool → Option Outcome → List Message → Type 0)
    (sasl : Option SaslOptions) (Ok : Message → Type 0) : Type 0 where
  pub rejects :
      (c u : Bool) (o : Option Outcome) (l : List Message) (r : Rejection)
      → Q c u o l
      → Q c u (some (Outcome.rejected r)) l
  pub resolves :
      (c u : Bool) (o : Option Outcome) (l : List Message) (r : Outcome)
      → (is_some sasl && not u) ≡ false
      → Q c u o l
      → Q c u (some r) l
  pub sends :
      (c u : Bool) (o : Option Outcome) (l : List Message) (m : Message)
      → Quiet m
      → Q c u o l
      → Q c u o (l ++ m ∷ [])
  pub concludes :
      (u : Bool) (o : Option Outcome) (l : List Message)
      → Q false u o l
      → Q true u o (l ++ cap_end ∷ [])
  pub gives_up : (c u : Bool) (o : Option Outcome) (l : List Message) → Q c u o l → Q true u o l
  pub logs_in :
      (c u : Bool) (o : Option Outcome) (l : List Message) (m : Message)
      → Ok m
      → is_sasl_success m ≡ true
      → Q c u o l
      → Q c true o l

module _ (Q : Bool → Bool → Option Outcome → List Message → Type 0) (options : RegistrationOptions)
    (Ok : Message → Type 0) (kept : Kept Q options.sasl Ok) (rt : Runtime) (print : ℕ → Str) where
  abbrev pub Good : State → Type 0
  Good s = Q s.caps_concluded s.sasl_succeeded s.outcome s.sent

  Good-if :
      (b : Bool) (x y : State)
      → (b ≡ true → Good x)
      → (b ≡ false → Good y)
      → Good (if b then x else y)
  Good-if true x y h k = h refl
  Good-if false x y h k = k refl

  settle_rejected : (s : State) (r : Rejection) → Good s → Good (settle s (Outcome.rejected r))
  unfolding settle
  settle_rejected s r h =
      Good-if (is_some s.outcome) s (record s { outcome = some (Outcome.rejected r) }) (λ e. h)
        (λ e. kept.rejects s.caps_concluded s.sasl_succeeded s.outcome s.sent r h)

  settle_resolved :
      (s : State) (o : Outcome)
      → (is_some options.sasl && not s.sasl_succeeded) ≡ false
      → Good s
      → Good (settle s o)
  unfolding settle
  settle_resolved s o n h =
      Good-if (is_some s.outcome) s (record s { outcome = some o }) (λ e. h)
        (λ e. kept.resolves s.caps_concluded s.sasl_succeeded s.outcome s.sent o n h)

  send-Good : (s : State) (m : Message) → Quiet m → Good s → Good (send s m)
  unfolding send
  send-Good s m q h = kept.sends s.caps_concluded s.sasl_succeeded s.outcome s.sent m q h

  send_all-Good : (s : State) (ms : List Message) → All Quiet ms → Good s → Good (send_all s ms)
  unfolding send_all
  send_all-Good s [] q h = h
  send_all-Good s (m ∷ ms) q h = send_all-Good (send s m) ms q.1 (send-Good s m q.0 h)

  conclude-Good : (s : State) → Good s → Good (conclude_caps s)
  unfolding conclude_caps send
  conclude-Good s h =
      Good-if s.caps_concluded s (send (record s { caps_concluded = true }) cap_end) (λ e. h)
        (λ e.
          kept.concludes s.sasl_succeeded s.outcome s.sent
            (subst (λ c. Q c s.sasl_succeeded s.outcome s.sent) e h))

  begin_sasl-Good :
      (sasl : Option SaslOptions) (s : State) → Good s → Good (begin_sasl_or_conclude sasl s)
  unfolding begin_sasl_or_conclude Sasl.start
  begin_sasl-Good none s h = conclude-Good s h
  begin_sasl-Good (some o) s h =
      Good-if s.sasl_started _ _ (λ e. h)
        (λ e.
          Good-if (not (is_enabled s.caps (codes "sasl"))) _ _
            (λ f. settle_rejected s Rejection.sasl_not_enabled h)
            (λ f.
              send-Good
                (record s {
                  sasl_started = true;
                  sasl_session = some (new_session (mechanism_for o));
                })
                (Sasl.start (new_session (mechanism_for o)))
                (Quiet-authenticate (new_session (mechanism_for o)).mechanism.name) h))

  if_drained-Good : (sasl : Option SaslOptions) (s : State) → Good s → Good (if_drained sasl s)
  unfolding if_drained
  if_drained-Good sasl s h =
      Good-if (length s.pending == 0) _ _ (λ e. begin_sasl-Good sasl s h) (λ e. h)

  request-Good :
      (sasl : Option SaslOptions) (s : State) (names : List Str)
      → Good s
      → Good (request sasl s names)
  unfolding request
  request-Good sasl s [] h = begin_sasl-Good sasl s h
  request-Good sasl s (name ∷ names) h =
      send_all-Good _ (requests (chunk_caps (name ∷ names)))
        (Quiet-requests (chunk_caps (name ∷ names))) h

  handle_cap-Good : (s : State) (line : CapMessage) → Good s → Good (handle_cap options s line)
  unfolding handle_cap
  handle_cap-Good s line h =
      elim line.subcommand as (λ c. Good (handle_cap options s (record line { subcommand = c }))) [
        | CapSubcommand.ls ↦
            Good-if (not line.final) _ _ (λ e. h) (λ e. request-Good options.sasl _ _ h)
        | CapSubcommand.ack ↦ if_drained-Good options.sasl _ h
        | CapSubcommand.nak ↦ if_drained-Good options.sasl _ h
        | CapSubcommand.new ↦ h
        | CapSubcommand.del ↦ h
        | CapSubcommand.list ↦ h
      ]

  next_nick-Good : (s : State) → Good s → Good (next_nick print options s)
  unfolding next_nick send
  next_nick-Good s h =
      kept.sends s.caps_concluded s.sasl_succeeded s.outcome s.sent (nick _) (Quiet-nick _) h

  on_step-Good :
      (s : State) (m : Message) (r : SaslStep) → Ok m → Sound m r → Good s → Good (on_step s r)
  unfolding on_step
  on_step-Good s m (SaslStep.send ms) k q h = send_all-Good s ms q h
  on_step-Good s m (SaslStep.success a) k q h =
      conclude-Good (record s { sasl_succeeded = true; sasl_account = a; sasl_session = none })
        (kept.logs_in s.caps_concluded s.sasl_succeeded s.outcome s.sent m k q h)
  on_step-Good s m (SaslStep.failure code reason) k q h =
      settle_rejected (record s { sasl_session = none }) (Rejection.sasl_failed code reason) h
  on_step-Good s m SaslStep.continue k q h = h

  on_welcome-Good : (s : State) (m : Message) → Good s → Good (on_welcome options s m)
  unfolding on_welcome
  on_welcome-Good s m h =
      Good-if (is_some options.sasl && not s.sasl_succeeded) _ _
        (λ e. settle_rejected s Rejection.welcome_before_sasl h)
        (λ e. settle_resolved s (Outcome.resolved _) e h)

  on_unknown_cap-Good : (s : State) → Good s → Good (on_unknown_cap options s)
  unfolding on_unknown_cap
  on_unknown_cap-Good s h =
      Good-if (is_some options.sasl) _ _ (λ e. settle_rejected s Rejection.no_capability_support h)
        (λ e. kept.gives_up s.caps_concluded s.sasl_succeeded s.outcome s.sent h)

  on_other-Good : (s : State) (m : Message) → Good s → Good (on_other options s m)
  unfolding on_other
  on_other-Good s m h =
      elim (parse_cap_message m)
        as (λ c. Good (elim c [ none ↦ s | some line ↦ handle_cap options s line ])) [
          | none ↦ h
          | some line ↦ handle_cap-Good s line h
        ]

  on_sasl-Good :
      (s : State) (m : Message) (session : Option Session)
      → Ok m
      → Good s
      → Good (on_sasl rt options s m session)
  unfolding on_sasl
  on_sasl-Good s m none k h = on_other-Good s m h
  on_sasl-Good s m (some session) k h =
      Good-if (str_eq m.command (codes "AUTHENTICATE") || is_one_of sasl_numerics m.command) _ _
        (λ e.
          on_step-Good (record s { sasl_session = some (Sasl.handle rt session m).0 }) m
            (Sasl.handle rt session m).1 k (Sound-handle rt m session) h)
        (λ e. on_other-Good s m h)

  handle-Good : (s : State) (m : Message) → Ok m → Good s → Good (handle rt print options s m)
  unfolding handle
  handle-Good s m k h =
      Good-if (str_eq m.command (codes "001")) _ _ (λ e. on_welcome-Good s m h)
        (λ e.
          Good-if (str_eq m.command (codes "433") || str_eq m.command (codes "436")) _ _
            (λ f. next_nick-Good s h)
            (λ f.
              Good-if (is_one_of fatal_numerics m.command) _ _
                (λ g. settle_rejected s (Rejection.rejected_by_server m.command m.params) h)
                (λ g.
                  Good-if (str_eq m.command (codes "421") && is_cap (get_elem? m.params 1)) _ _
                    (λ i. on_unknown_cap-Good s h) (λ i. on_sasl-Good s m s.sasl_session k h))))

  deliver-Good :
      (s : State) (e : Event) → OkEvent Ok e → Good s → Good (deliver rt print options s e)
  unfolding deliver
  deliver-Good s (Event.received m) k h = handle-Good s m k h
  deliver-Good s Event.failed k h = settle_rejected s Rejection.connection_error h
  deliver-Good s Event.closed k h = settle_rejected s Rejection.connection_closed h
  deliver-Good s Event.timer_fired k h = settle_rejected s Rejection.timed_out h

  step-Good : (s : State) (e : Event) → OkEvent Ok e → Good s → Good (step rt print options s e)
  unfolding step
  step-Good s e k h = Good-if (is_some s.outcome) _ _ (λ q. h) (λ q. deliver-Good s e k h)

  pub run-Good :
      (s : State) (es : List Event)
      → All (OkEvent Ok) es
      → Good s
      → Good (run rt print options s es)
  unfolding run
  run-Good s [] k h = h
  run-Good s (e ∷ es) k h = run-Good (step rt print options s e) es k.1 (step-Good s e k.0 h)

  send_pass-Good : (password : Option Str) (s : State) → Good s → Good (send_pass password s)
  unfolding send_pass
  send_pass-Good none s h = h
  send_pass-Good (some password) s h = send-Good s (pass password) (Quiet-pass password) h

  begin-Good : Q false false none [] → Good (begin options)
  unfolding begin initial
  begin-Good h =
      let s = send_pass options.password (initial options) in
      let t = send s cap_ls in
      let u = send t (nick options.nick) in
      send-Good u (user options.username options.real_name)
        (Quiet-user options.username options.real_name)
        (send-Good t (nick options.nick) (Quiet-nick options.nick)
          (send-Good s cap_ls Quiet-cap_ls (send_pass-Good options.password (initial options) h)))

  -- What holds of the fresh closure holds behind every run from the start.
  pub run-begin :
      (es : List Event)
      → All (OkEvent Ok) es
      → Q false false none []
      → Good (run rt print options (begin options) es)
  run-begin es k h = run-Good (begin options) es k (begin-Good h)
