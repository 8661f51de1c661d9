-- ===== src/Tests/Handshake.antt =====
-- Capabilities, SASL and the registration at concrete inputs.
use mojo_jojo.Base.{
  ℕ, ◌≤◌, true, false, List, [], ◌∷◌, ◌++◌, Option, none, some, ◌≡◌, refl, arith, Str, All, codes,
  str_eq,
}
use mojo_jojo.Base.Dict
use mojo_jojo.Capabilities.{CapToken}
use mojo_jojo.Capabilities.Store.{
  IsBounded, add_available, apply_ack, empty_store, remove_available, store-IsBounded,
}
use mojo_jojo.Capabilities.Requests.{
  Desired, Fits, chunk_caps, chunk_caps-Fits, flatten_chunks, reconcile_caps,
  reconcile_caps-Offered,
}
use mojo_jojo.Sasl.{
  Runtime, SaslMechanism, SaslOptions, SaslStep, Session, answer, chunk_sasl_response,
}
use mojo_jojo.Sasl.Reassembly.{feed, feed-chunk_sasl_response}
use mojo_jojo.Registration.{Event, RegistrationOptions, begin, is_one_of, is_some, run}
use mojo_jojo.Registration.Quiet.{is_sasl_success}
use mojo_jojo.Registration.Promises.{cap_ends, is_resolved, run-cap_ends, run-sasl_required}
use mojo_jojo.Registration.Settles.{is_ending, run-settles}

abbrev tokens : List CapToken
tokens =
    record { name = codes "sasl"; value = some (codes "PLAIN"); disabled = false }
    ∷ record { name = codes "batch"; value = none; disabled = false }
    ∷ []

store-IsBounded_example :
    IsBounded (add_available empty_store tokens)
    × IsBounded (remove_available empty_store tokens)
    × IsBounded (apply_ack empty_store tokens)
store-IsBounded_example = store-IsBounded empty_store tokens (omega arith, omega arith)

abbrev offered : Dict.Dict (Option Str)
offered =
    (codes "labeled-response", none)
    ∷ (codes "batch", none)
    ∷ (codes "sasl", some (codes "PLAIN"))
    ∷ []

reconcile_caps-Offered_example :
    All
      (λ cap. Dict.has offered cap ≡ true)
      (reconcile_caps (Desired.only (codes "labeled-response" ∷ codes "chghost" ∷ [])) offered true)
reconcile_caps-Offered_example =
    reconcile_caps-Offered (Desired.only (codes "labeled-response" ∷ codes "chghost" ∷ [])) offered
      true

chunk_caps-Fits_example :
    (flatten_chunks (chunk_caps (codes "batch" ∷ codes "sasl" ∷ []))
      ≡ codes "batch" ∷ codes "sasl" ∷ [])
    × All Fits (chunk_caps (codes "batch" ∷ codes "sasl" ∷ []))
chunk_caps-Fits_example = chunk_caps-Fits (codes "batch" ∷ codes "sasl" ∷ [])

-- Stand-ins for the runtime that keep text as it is.
abbrev runtime : Runtime
runtime = record { btoa = λ s. s; atob = λ s. some s; encode = λ s. s; decode = λ b. b }

abbrev mechanism : SaslMechanism
mechanism = record { name = codes "EXTERNAL"; respond = λ challenge. challenge }

abbrev session : Session
session = record { mechanism = mechanism; challenge = []; account = none; finished = false }

feed-chunk_sasl_response_example :
    feed runtime session (chunk_sasl_response (codes "YWJj")) SaslStep.continue
    ≡ answer runtime session (codes "YWJj")
feed-chunk_sasl_response_example =
    feed-chunk_sasl_response runtime mechanism none (codes "YWJj") refl (omega arith)

abbrev options : RegistrationOptions
options = record {
  nick = codes "mojo";
  username = codes "mojo";
  real_name = codes "Mojo";
  password = none;
  desired_caps = Desired.only [];
  alt_nicks = [];
  sasl = some SaslOptions.external_login;
  sasl_requested = false;
}

-- The welcome comes behind the offer of SASL; the stream closes behind it.
abbrev cap_offer : List Event
cap_offer =
    Event.received (record {
      tags = [];
      source = none;
      command = codes "CAP";
      params = codes "*" ∷ codes "LS" ∷ codes "sasl" ∷ [];
    })
    ∷ []

abbrev welcomed : Event
welcomed =
    Event.received
      (record { tags = []; source = none; command = codes "001"; params = codes "mojo" ∷ [] })

-- The server offers SASL, then welcomes the client with no login.
abbrev events : List Event
events = cap_offer ++ welcomed ∷ Event.closed ∷ []

abbrev print_one : ℕ → Str
print_one n = codes "1"

run-sasl_required_example :
    is_resolved (run runtime print_one options (begin options) events).outcome ≡ false
unfolding is_sasl_success str_eq
run-sasl_required_example =
    run-sasl_required runtime print_one options SaslOptions.external_login events refl
      (refl, (refl, (tt, tt)))

run-cap_ends_example : cap_ends (run runtime print_one options (begin options) events).sent ≤ 1
run-cap_ends_example = run-cap_ends runtime print_one options events

run-settles_example :
    (is_some (run runtime print_one options (begin options) (cap_offer ++ welcomed ∷ [])).outcome
      ≡ true)
    × (run runtime print_one options (begin options) (cap_offer ++ welcomed ∷ Event.closed ∷ [])
        ≡ run runtime print_one options (begin options) (cap_offer ++ welcomed ∷ []))
unfolding is_ending is_one_of str_eq
run-settles_example =
    run-settles runtime print_one options cap_offer (Event.closed ∷ []) welcomed refl
