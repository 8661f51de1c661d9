-- ===== src/Bot/Router.antt =====
-- packages/bot/src/command/CommandRouter.ts: the table of commands, and the gates between a message and
-- a handler: parse, look up, ignore list, permission, overload, rate limit and cooldown. The handler
-- itself, its timer and its context are not part of the model; `release` is the end or timeout of one.
pub mod Admission
use mojo_jojo.Base.{
  ℕ, ◌+◌, ◌-◌, suc, Bool, true, false, not, ◌&&◌, ◌||◌, List, [], ◌∷◌, ◌++◌, Option, none, some,
  Str, codes, str_eq, length, any, leb, ltb, is_whitespace, ◌==◌, if◌then◌else◌, when_some,
}
use mojo_jojo.Base.Dict
use mojo_jojo.Base.Dict.{Dict}
use mojo_jojo.CaseMapping.{CaseMapping}
use mojo_jojo.Capabilities.{contains}
use mojo_jojo.Abuse.Cooldowns
use mojo_jojo.Abuse.Cooldowns.{Cooldowns}
use mojo_jojo.Abuse.RateLimiter.{RateLimiter, try_consume}
use mojo_jojo.Bot.Identity.{Privmsg, ignores, sender_key}
use mojo_jojo.Bot.Permissions.{Permission, check_permission}
use mojo_jojo.Bot.CommandLine.{ParsedCommand, parse_command_line}

-- `cooldown_ms` is 0 for a command with none.
pub record Command : Type 0 where
  pub name : Str
  pub aliases : List Str
  pub permission : Permission
  pub cooldown_ms : ℕ

pub record CommandEntry : Type 0 where
  pub command : Command
  pub module_name : Str

pub data DenialReason : Type 0 where
  ignored permission overloaded ratelimited cooldown : DenialReason

pub data BotEvent : Type 0 where
  command_denied : Str → DenialReason → Privmsg → BotEvent
  command_error : Str → Privmsg → BotEvent
  command_invoked : Str → Privmsg → BotEvent

-- What the router reads and does not change; `lower` is `s.toLowerCase()`.
pub record RouterDeps : Type 0 where
  pub lower : Str → Str
  pub case_mapper : Option CaseMapping
  pub owners : List Str
  pub ignore : List Str
  pub prefix : Str
  pub allow_prefixless_in_pm : Bool
  pub max_concurrency : ℕ

-- The table, the handlers in flight, the two limits, and the events emitted.
pub record Router : Type 0 where
  pub by_name : Dict CommandEntry
  pub in_flight : ℕ
  pub cooldowns : Cooldowns
  pub rate_limiter : Option RateLimiter
  pub emitted : List BotEvent

abbrev pub default_concurrency : ℕ
default_concurrency = 8

abbrev pub log_throttle_ms : ℕ
log_throttle_ms = 5000

unfoldable pub map_lower : (Str → Str) → List Str → List Str
map_lower lower [] = []
map_lower lower (name ∷ names) = lower name ∷ map_lower lower names

unfoldable pub is_invalid_name : Str → Bool
is_invalid_name name = length name == 0 || any is_whitespace name

-- Whether the loop over the names throws, with the names seen so far.
unfoldable pub names_throw : Dict CommandEntry → List Str → List Str → Bool
unfolding is_invalid_name
names_throw by_name seen [] = false
names_throw by_name seen (name ∷ names) =
    is_invalid_name name
    || contains seen name
    || Dict.has by_name name
    || names_throw by_name (name ∷ seen) names

unfoldable pub enter_names : CommandEntry → List Str → Dict CommandEntry → Dict CommandEntry
enter_names entry [] by_name = by_name
enter_names entry (name ∷ names) by_name = enter_names entry names (Dict.put by_name name entry)

-- The router with the command under all its names, or none where `add` throws.
unfoldable pub add : (Str → Str) → Command → Str → Router → Option Router
unfolding map_lower names_throw enter_names
add lower command module_name router =
    let names = map_lower lower (command.name ∷ command.aliases) in
    let entry : CommandEntry = record { command = command; module_name = module_name } in
    if names_throw router.by_name [] names
    then none
    else some (record router { by_name = enter_names entry names router.by_name })

unfoldable pub emit : BotEvent → Router → Router
emit event router = record router { emitted = router.emitted ++ event ∷ [] }

unfoldable pub deny : Str → DenialReason → Privmsg → Router → Router
unfolding emit
deny name reason event router = emit (BotEvent.command_denied name reason event) router

-- What the permission gate answers; a predicate that throws is told as an error.
unfoldable pub permitted : Option Bool → Privmsg → Command → Router → Router × Option Command
unfolding emit deny
permitted none event command router =
    (emit (BotEvent.command_error command.name event) router, none)
permitted (some true) event command router = (router, some command)
permitted (some false) event command router =
    (deny command.name DenialReason.permission event router, none)

-- The gates that take no slot: the router, and the command where it may go on.
unfoldable pub gate : RouterDeps → Privmsg → Command → Router → Router × Option Command
unfolding permitted deny
gate deps event command router =
    if ignores deps.lower deps.ignore event deps.case_mapper
    then (deny command.name DenialReason.ignored event router, none)
    else permitted
        (check_permission deps.lower deps.owners deps.case_mapper command.permission event) event
        command router

unfoldable pub prepare : RouterDeps → Privmsg → Router → Router × Option Command
unfolding gate
prepare deps event router =
    let require_prefix = not event.is_private || not deps.allow_prefixless_in_pm in
    when_some (parse_command_line deps.lower deps.prefix event.text require_prefix) (router, none)
      λ parsed.
        when_some (Dict.get router.by_name parsed.name) (router, none)
          λ entry. gate deps event entry.command router

-- The limiter with the answer; no limiter admits everything.
unfoldable pub consume : Option RateLimiter → ℕ → Str → Option RateLimiter × Bool
consume none now key = (none, true)
consume (some limiter) now key = let r = try_consume limiter now key in (some r.0, r.1)

-- The cooldown of the command for the user, where it has one.
unfoldable pub cool : Cooldowns → ℕ → Command → Str → Cooldowns × Bool
cool cooldowns now command user_key =
    if command.cooldown_ms == 0
    then (cooldowns, true)
    else Cooldowns.check cooldowns now (codes "cmd:" ++ command.name ++ b':' ∷ user_key)
        command.cooldown_ms

-- The gates of a command that found a free slot.
unfoldable pub admit_slot : ℕ → Privmsg → Str → Command → Router → Router × Bool
unfolding consume cool deny
admit_slot now event user_key command router =
    let r = consume router.rate_limiter now user_key in
    let limited : Router = record router { rate_limiter = r.0 } in
    let c = cool router.cooldowns now command user_key in
    let cooled : Router = record limited { cooldowns = c.0 } in
    if not r.1
    then (deny command.name DenialReason.ratelimited event limited, false)
    else if not c.1
    then (deny command.name DenialReason.cooldown event cooled, false)
    else (
      emit (BotEvent.command_invoked command.name event)
          (record cooled { in_flight = suc cooled.in_flight }),
      true,
    )

-- Overload is told before a cooldown is armed; the warning of it is throttled.
unfoldable pub admit_command : RouterDeps → ℕ → Privmsg → Command → Router → Router × Bool
unfolding admit_slot deny
admit_command deps now event command router =
    let warned : Router = record router {
      cooldowns = (Cooldowns.check router.cooldowns now (codes "log:overloaded") log_throttle_ms).0;
    } in
    if leb deps.max_concurrency router.in_flight
    then (deny command.name DenialReason.overloaded event warned, false)
    else admit_slot now event (sender_key deps.lower event deps.case_mapper) command router

-- Whether a handler starts on the message.
unfoldable pub admit : RouterDeps → ℕ → Privmsg → Router → Router × Bool
unfolding prepare admit_command
admit deps now event router =
    let r = prepare deps event router in
    when_some r.1 (r.0, false) λ command. admit_command deps now event command r.0

-- `finalize(() => { this.#inFlight--; })`
unfoldable pub release : Router → Router
release router = record router { in_flight = router.in_flight - 1 }

-- A PRIVMSG at a time, or the end or timeout of a handler, which gives its slot back.
pub data RouterStep : Type 0 where
  received : ℕ → Privmsg → RouterStep
  finished : RouterStep

unfoldable pub route : RouterDeps → List RouterStep → Router → Router
unfolding admit release
route deps [] router = router
route deps (RouterStep.received now event ∷ steps) router =
    route deps steps (admit deps now event router).0
route deps (RouterStep.finished ∷ steps) router = route deps steps (release router)
