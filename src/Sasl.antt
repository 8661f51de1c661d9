-- ===== src/Sasl.antt =====
-- packages/irc-client/src/protocol/sasl.ts: mechanisms, base64, chunking and the session. `btoa`, `atob`
-- and the codec of the runtime are parameters, in one record.
pub mod Reassembly
use mojo_jojo.Base.{
  ℕ, zero, suc, ◌+◌, ◌%◌, ◌^◌, Bool, true, false, not, ◌&&◌, ◌||◌, List, [], ◌∷◌, ◌++◌, Option,
  none, some, Str, Bytes, codes, str_eq, get_elem?, get_last?, length, leb, ◌==◌, if◌then◌else◌,
  take, drop,
}
use mojo_jojo.Message.{Message}
use mojo_jojo.Commands.{authenticate}

-- The functions of the runtime: `atob` throws on text that is no base64.
pub record Runtime : Type 0 where
  pub btoa : Str → Str
  pub atob : Str → Option Str
  pub encode : Str → Bytes
  pub decode : Bytes → Str

-- `SaslOptions`
pub data SaslOptions : Type 0 where
  plain_login : Str → Str → SaslOptions
  external_login : SaslOptions

pub record SaslMechanism : Type 0 where
  pub name : Str
  pub respond : Str → Str

unfoldable pub plain : Str → Str → Str → SaslMechanism
plain username password authzid = record {
  name = codes "PLAIN";
  respond = λ challenge. authzid ++ 0 ∷ username ++ 0 ∷ password;
}

unfoldable pub external : Str → SaslMechanism
external authzid = record { name = codes "EXTERNAL"; respond = λ challenge. authzid }

unfoldable pub mechanism_for : SaslOptions → SaslMechanism
unfolding plain external
mechanism_for (SaslOptions.plain_login username password) = plain username password []
mechanism_for SaslOptions.external_login = external []

-- The bytes of the encoder are the code units of the binary string.
unfoldable pub encode_base64 : Runtime → Str → Str
encode_base64 rt text = rt.btoa (rt.encode text)

-- A write to a `Uint8Array` keeps the low byte.
unfoldable pub to_bytes : Str → Bytes
to_bytes [] = []
to_bytes (c ∷ s) = c % 2 ^ 8 ∷ to_bytes s

unfoldable pub decode_base64 : Runtime → Str → Option Str
unfolding to_bytes
decode_base64 rt b64 = elim (rt.atob b64) [
  | none ↦ none
  | some binary ↦ some (rt.decode (to_bytes binary))
]

-- `SASL_CHUNK_SIZE`
abbrev pub sasl_chunk_size : ℕ
sasl_chunk_size = 400

-- The loop of `chunkSaslResponse`, on fuel: each round takes a chunk.
unfoldable pub chunk_lines : ℕ → Str → List Message
chunk_lines zero encoded = []
chunk_lines (suc n) [] = []
chunk_lines (suc n) (c ∷ encoded) =
    authenticate (take sasl_chunk_size (c ∷ encoded))
    ∷ chunk_lines n (drop sasl_chunk_size (c ∷ encoded))

unfoldable pub chunk_sasl_response : Str → List Message
unfolding chunk_lines
chunk_sasl_response [] = authenticate (codes "+") ∷ []
chunk_sasl_response (c ∷ encoded) =
    let lines = chunk_lines (length (c ∷ encoded)) (c ∷ encoded) in
    if length (c ∷ encoded) % sasl_chunk_size == 0
    then lines ++ authenticate (codes "+") ∷ []
    else lines

pub data SaslStep : Type 0 where
  send : List Message → SaslStep
  continue : SaslStep
  success : Option Str → SaslStep
  failure : Str → Str → SaslStep

pub record Session : Type 0 where
  pub mechanism : SaslMechanism
  pub challenge : Str
  pub account : Option Str
  pub finished : Bool

-- `new SaslSession(mechanism)`
unfoldable pub new_session : SaslMechanism → Session
new_session mechanism = record {
  mechanism = mechanism;
  challenge = [];
  account = none;
  finished = false;
}

unfoldable pub start : Session → Message
start s = authenticate s.mechanism.name

unfoldable pub is_empty : Str → Bool
is_empty [] = true
is_empty (c ∷ s) = false

-- The reply to what the full challenge decodes to; `none` is what the `catch` sees.
unfoldable pub respond_to : Runtime → Session → Option Str → Session × SaslStep
unfolding chunk_sasl_response encode_base64
respond_to rt s none = (
  record s { challenge = []; finished = true },
  SaslStep.failure (codes "PARSE") (codes "malformed base64 challenge"),
)
respond_to rt s (some decoded) = (
  record s { challenge = [] },
  SaslStep.send (chunk_sasl_response (encode_base64 rt (s.mechanism.respond decoded))),
)

unfoldable pub answer : Runtime → Session → Str → Session × SaslStep
unfolding respond_to decode_base64 is_empty
answer rt s full = respond_to rt s (if is_empty full then some [] else decode_base64 rt full)

-- `#onChallenge(param)`
unfoldable pub on_challenge : Runtime → Session → Str → Session × SaslStep
unfolding answer
on_challenge rt s param =
    if not (str_eq param (codes "+")) && (length param == sasl_chunk_size)
    then (if leb 65536 (length s.challenge)
        then (
          record s { challenge = []; finished = true },
          SaslStep.failure (codes "TOOLONG") (codes "SASL challenge exceeded the size limit"),
        )
        else (record s { challenge = s.challenge ++ param }, SaslStep.continue))
    else answer rt s (if str_eq param (codes "+") then s.challenge else s.challenge ++ param)

-- `a ?? b`
abbrev pub or_else : {A : Type 0} → Option A → A → A
or_else none b = b
or_else (some a) b = a

abbrev pub first_some : {A : Type 0} → Option A → Option A → Option A
first_some none b = b
first_some (some a) b = some a

-- `TERMINAL_FAILURES`
unfoldable pub is_terminal : Str → Bool
is_terminal c =
    str_eq c (codes "902")
    || str_eq c (codes "904")
    || str_eq c (codes "905")
    || str_eq c (codes "906")

-- `handle(message)` while the session is not finished.
unfoldable pub handle_live : Runtime → Session → Message → Session × SaslStep
unfolding on_challenge is_terminal
handle_live rt s message =
    let c = message.command in
    if str_eq c (codes "AUTHENTICATE")
    then on_challenge rt s (or_else (get_elem? message.params 0) [])
    else if str_eq c (codes "900")
    then (
      record s { account = first_some (get_elem? message.params 2) s.account },
      SaslStep.continue,
    )
    else if str_eq c (codes "903") || str_eq c (codes "907")
    then (record s { finished = true }, SaslStep.success s.account)
    else if str_eq c (codes "908")
    then (s, SaslStep.continue)
    else if is_terminal c
    then (record s { finished = true }, SaslStep.failure c (or_else (get_last? message.params) c))
    else (s, SaslStep.continue)

-- `handle(message)`
unfoldable pub handle : Runtime → Session → Message → Session × SaslStep
unfolding handle_live
handle rt s message = if s.finished then (s, SaslStep.continue) else handle_live rt s message
