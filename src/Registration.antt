-- ===== src/Registration.antt =====
-- packages/irc-client/src/protocol/registration.ts: `register` as a machine. Its closure variables are
-- a state, `send` adds to what was sent, and an event is a message, the end or error of the stream, or
-- the timer. Messages of the stream stop once the promise is settled.
pub mod Quiet
pub mod Safety
pub mod Promises
pub mod Settles
use mojo_jojo.Base.{
  ℕ, zero, suc, ◌+◌, ◌-◌, Bool, true, false, not, ◌&&◌, ◌||◌, List, [], ◌∷◌, ◌++◌, Option, none,
  some, Str, codes, str_eq, get_elem?, length, ◌==◌, if◌then◌else◌,
}
use mojo_jojo.Base.Dict
use mojo_jojo.Base.Dict.{Dict}
use mojo_jojo.Message.{Message}
use mojo_jojo.Commands.{nick, pass, user, cap_ls, cap_req, cap_end}
use mojo_jojo.Capabilities.{CapToken, CapMessage, CapSubcommand, parse_cap_message}
use mojo_jojo.Capabilities.Store.{
  CapabilityStore, Names, empty_store, add_available, apply_ack, is_enabled,
}
use mojo_jojo.Capabilities.Requests.{Desired, reconcile_caps, chunk_caps}
use mojo_jojo.Sasl.{Runtime, SaslOptions, SaslStep, Session, mechanism_for, new_session, or_else}
use mojo_jojo.Sasl

pub record RegistrationOptions : Type 0 where
  pub nick : Str
  pub username : Str
  pub real_name : Str
  pub password : Option Str
  pub desired_caps : Desired
  pub alt_nicks : List Str
  pub sasl : Option SaslOptions
  pub sasl_requested : Bool

-- The reasons of a rejection, with what their text names.
pub data Rejection : Type 0 where
  sasl_not_enabled : Rejection
  welcome_before_sasl : Rejection
  rejected_by_server : Str → List Str → Rejection
  no_capability_support : Rejection
  sasl_failed : Str → Str → Rejection
  timed_out : Rejection
  connection_error : Rejection
  connection_closed : Rejection

pub record RegistrationResult : Type 0 where
  pub nick : Str
  pub welcome : Message
  pub capabilities : CapabilityStore
  pub account : Option Str

pub data Outcome : Type 0 where
  resolved : RegistrationResult → Outcome
  rejected : Rejection → Outcome

-- `outcome` is `none` while the promise is pending; it stands for `finished`.
pub record State : Type 0 where
  pub caps : CapabilityStore
  pub pending : Names
  pub nick_index : ℕ
  pub current_nick : Str
  pub caps_concluded : Bool
  pub sasl_started : Bool
  pub sasl_session : Option Session
  pub sasl_succeeded : Bool
  pub sasl_account : Option Str
  pub outcome : Option Outcome
  pub sent : List Message

unfoldable pub send : State → Message → State
send s message = record s { sent = s.sent ++ message ∷ [] }

-- `for (const line of messages) send(line)`
unfoldable pub send_all : State → List Message → State
send_all s [] = s
send_all s (m ∷ ms) = send_all (send s m) ms

unfoldable pub is_some : {A : Type 0} → Option A → Bool
is_some none = false
is_some (some a) = true

unfoldable pub settle : State → Outcome → State
unfolding is_some
settle s o = if is_some s.outcome then s else record s { outcome = some o }

unfoldable pub conclude_caps : State → State
unfolding send
conclude_caps s = if s.caps_concluded then s else send (record s { caps_concluded = true }) cap_end

-- `beginSaslOrConclude`, at `options.sasl`
unfoldable pub begin_sasl_or_conclude : Option SaslOptions → State → State
unfolding conclude_caps settle send
begin_sasl_or_conclude none s = conclude_caps s
begin_sasl_or_conclude (some sasl) s =
    if s.sasl_started
    then s
    else if not (is_enabled s.caps (codes "sasl"))
    then settle s (Outcome.rejected Rejection.sasl_not_enabled)
    else (let session = new_session (mechanism_for sasl) in
        send (record s { sasl_started = true; sasl_session = some session }) (Sasl.start session))

-- `${n}` for a number in its decimal digits is a parameter.
unfoldable pub next_nick : (ℕ → Str) → RegistrationOptions → State → State
unfolding send
next_nick print options s =
    let index = s.nick_index + 1 in
    let name = or_else (get_elem? options.alt_nicks (index - 1)) (options.nick ++ print index) in
    send (record s { nick_index = index; current_nick = name }) (nick name)

unfoldable pub add_pending : Names → List Str → Names
add_pending pending [] = pending
add_pending pending (name ∷ names) = add_pending (Dict.put pending name tt) names

unfoldable pub drop_pending : Names → List CapToken → Names
drop_pending pending [] = pending
drop_pending pending (token ∷ tokens) = drop_pending (Dict.remove pending token.name) tokens

unfoldable pub requests : List (List Str) → List Message
requests [] = []
requests (chunk ∷ chunks) = cap_req chunk ∷ requests chunks

-- What follows the set to request.
unfoldable pub request : Option SaslOptions → State → List Str → State
unfolding add_pending requests send_all
request sasl s [] = begin_sasl_or_conclude sasl s
request sasl s (name ∷ names) =
    send_all (record s { pending = add_pending s.pending (name ∷ names) })
      (requests (chunk_caps (name ∷ names)))

-- `pending.size === 0`
unfoldable pub if_drained : Option SaslOptions → State → State
if_drained sasl s = if length s.pending == 0 then begin_sasl_or_conclude sasl s else s

unfoldable pub handle_cap : RegistrationOptions → State → CapMessage → State
unfolding request if_drained drop_pending is_some
handle_cap options s cap = elim cap.subcommand [
  | CapSubcommand.ls ↦
      (let s = record s { caps = add_available s.caps cap.tokens } in
        if not cap.final
        then s
        else request options.sasl s (
            reconcile_caps options.desired_caps s.caps.available
              (is_some options.sasl || options.sasl_requested)))
  | CapSubcommand.ack ↦
      if_drained options.sasl (record s {
        caps = apply_ack s.caps cap.tokens;
        pending = drop_pending s.pending cap.tokens;
      })
  | CapSubcommand.nak ↦
      if_drained options.sasl (record s { pending = drop_pending s.pending cap.tokens })
  | _ ↦ s
]

-- The `switch` on the step of the session, which the state already holds.
unfoldable pub on_step : State → SaslStep → State
unfolding send_all conclude_caps settle
on_step s (SaslStep.send messages) = send_all s messages
on_step s (SaslStep.success account) =
    conclude_caps (record s { sasl_succeeded = true; sasl_account = account; sasl_session = none })
on_step s (SaslStep.failure code reason) =
    settle (record s { sasl_session = none }) (Outcome.rejected (Rejection.sasl_failed code reason))
on_step s SaslStep.continue = s

unfoldable pub is_one_of : List Str → Str → Bool
is_one_of [] c = false
is_one_of (x ∷ l) c = str_eq x c || is_one_of l c

-- `REGISTRATION_FATAL_NUMERICS` and `SASL_NUMERICS`
abbrev pub fatal_numerics : List Str
fatal_numerics = codes "432" ∷ codes "431" ∷ codes "464" ∷ codes "465" ∷ []

abbrev pub sasl_numerics : List Str
sasl_numerics =
    codes "900"
    ∷ codes "901"
    ∷ codes "902"
    ∷ codes "903"
    ∷ codes "904"
    ∷ codes "905"
    ∷ codes "906"
    ∷ codes "907"
    ∷ codes "908"
    ∷ []

unfoldable pub is_cap : Option Str → Bool
is_cap none = false
is_cap (some p) = str_eq p (codes "CAP")

unfoldable pub on_welcome : RegistrationOptions → State → Message → State
unfolding settle is_some
on_welcome options s message =
    if is_some options.sasl && not s.sasl_succeeded
    then settle s (Outcome.rejected Rejection.welcome_before_sasl)
    else settle s (
        Outcome.resolved (record {
          nick = or_else (get_elem? message.params 0) s.current_nick;
          welcome = message;
          capabilities = s.caps;
          account = s.sasl_account;
        }))

unfoldable pub on_unknown_cap : RegistrationOptions → State → State
unfolding settle is_some
on_unknown_cap options s =
    if is_some options.sasl
    then settle s (Outcome.rejected Rejection.no_capability_support)
    else record s { caps_concluded = true }

-- A `CAP` line, or nothing.
unfoldable pub on_other : RegistrationOptions → State → Message → State
unfolding handle_cap
on_other options s message = elim (parse_cap_message message) [
  | none ↦ s
  | some cap ↦ handle_cap options s cap
]

-- The exchange, while a session lives.
unfoldable pub on_sasl : Runtime → RegistrationOptions → State → Message → Option Session → State
unfolding on_step on_other is_one_of
on_sasl rt options s message none = on_other options s message
on_sasl rt options s message (some session) =
    if str_eq message.command (codes "AUTHENTICATE") || is_one_of sasl_numerics message.command
    then (let r = Sasl.handle rt session message in
        on_step (record s { sasl_session = some r.0 }) r.1)
    else on_other options s message

-- `handle(message)`
unfoldable pub handle : Runtime → (ℕ → Str) → RegistrationOptions → State → Message → State
unfolding on_sasl on_welcome on_unknown_cap next_nick is_one_of is_cap
handle rt print options s message =
    let c = message.command in
    if str_eq c (codes "001")
    then on_welcome options s message
    else if str_eq c (codes "433") || str_eq c (codes "436")
    then next_nick print options s
    else if is_one_of fatal_numerics c
    then settle s (Outcome.rejected (Rejection.rejected_by_server c message.params))
    else if str_eq c (codes "421") && is_cap (get_elem? message.params 1)
    then on_unknown_cap options s
    else on_sasl rt options s message s.sasl_session

pub data Event : Type 0 where
  received : Message → Event
  failed : Event
  closed : Event
  timer_fired : Event

-- `takeUntil(done$)` ends every subscription once the promise is settled.
unfoldable pub deliver : Runtime → (ℕ → Str) → RegistrationOptions → State → Event → State
unfolding handle settle
deliver rt print options s (Event.received message) = handle rt print options s message
deliver rt print options s Event.failed = settle s (Outcome.rejected Rejection.connection_error)
deliver rt print options s Event.closed = settle s (Outcome.rejected Rejection.connection_closed)
deliver rt print options s Event.timer_fired = settle s (Outcome.rejected Rejection.timed_out)

-- `takeUntil(done$)` ends every subscription once the promise is settled.
unfoldable pub step : Runtime → (ℕ → Str) → RegistrationOptions → State → Event → State
unfolding deliver is_some
step rt print options s event = if is_some s.outcome then s else deliver rt print options s event

unfoldable pub run : Runtime → (ℕ → Str) → RegistrationOptions → State → List Event → State
run rt print options s [] = s
run rt print options s (event ∷ events) =
    run rt print options (step rt print options s event) events

unfoldable pub send_pass : Option Str → State → State
unfolding send
send_pass none s = s
send_pass (some password) s = send s (pass password)

-- The variables as `register` declares them.
unfoldable pub initial : RegistrationOptions → State
initial options = record {
  caps = empty_store;
  pending = [];
  nick_index = 0;
  current_nick = options.nick;
  caps_concluded = false;
  sasl_started = false;
  sasl_session = none;
  sasl_succeeded = false;
  sasl_account = none;
  outcome = none;
  sent = [];
}

-- The state behind the first lines.
unfoldable pub begin : RegistrationOptions → State
unfolding send_pass send initial
begin options =
    let s = send (send_pass options.password (initial options)) cap_ls in
    send (send s (nick options.nick)) (user options.username options.real_name)
