-- ===== src/Bot/Router/Admission.antt =====
-- CommandRouter.ts: a handler starts only behind every gate, and the slots that handlers hold.
use mojo_jojo.Base.{
  ℕ, zero, suc, ◌≤◌, ◌<◌, ◌∙◌, if◌then◌else◌, Bool, true, false, not, ◌||◌, List, [], ◌∷◌, Option,
  none, some, ◌≡◌, refl, sym, subst, arith, leb, inl, inr, Bool-cases, Str, if_lem, when_some-cases,
}
use mathlib.Core.Option.{none-ne-some, some-injective}
use mojo_jojo.Base.Dict
use mojo_jojo.Bot.Identity.{Privmsg, ignores, sender_key}
use mojo_jojo.Bot.Permissions.{check_permission}
use mojo_jojo.Bot.CommandLine.{ParsedCommand, parse_command_line}
use mojo_jojo.Bot.Router.{
  Command, CommandEntry, RouterDeps, Router, emit, deny, permitted, gate, prepare, consume, cool,
  admit_slot, admit_command, admit, release, RouterStep, route,
}

module _ (deps : RouterDeps) (now : ℕ) (event : Privmsg) (router : Router) where
  -- The sender is not ignored and may run the command.
  abbrev Permitted : Command → Type 0
  Permitted command =
      (ignores deps.lower deps.ignore event deps.case_mapper ≡ false)
      × (check_permission deps.lower deps.owners deps.case_mapper command.permission event
          ≡ some true)

  -- There is a slot, a token and no cooldown.
  abbrev Unlimited : Command → Type 0
  Unlimited command =
      let key = sender_key deps.lower event deps.case_mapper in
      (router.in_flight < deps.max_concurrency)
      × ((consume router.rate_limiter now key).1 ≡ true)
      × ((cool router.cooldowns now command key).1 ≡ true)

  abbrev requires_prefix : Bool
  requires_prefix = not event.is_private || not deps.allow_prefixless_in_pm

  -- The message is the command of an entry of the table, and every gate lets it through.
  abbrev pub Passes : ParsedCommand → CommandEntry → Type 0
  Passes parsed entry =
      (parse_command_line deps.lower deps.prefix event.text requires_prefix ≡ some parsed)
      × (Dict.get router.by_name parsed.name ≡ some entry)
      × Permitted entry.command
      × Unlimited entry.command

  -- What is known of the command that goes on, if one does.
  abbrev GoesOn : Command → Router × Option Command → Type 0
  GoesOn command r =
      (passed : Command)
      → r.1 ≡ some passed
      → Permitted command × (passed ≡ command) × (r.0 ≡ router)

  permitted-GoesOn :
      (answer : Option Bool) (command : Command)
      → ignores deps.lower deps.ignore event deps.case_mapper ≡ false
      → check_permission deps.lower deps.owners deps.case_mapper command.permission event ≡ answer
      → GoesOn command (permitted answer event command router)
  unfolding permitted
  permitted-GoesOn none command i e passed h = absurd (none-ne-some passed h)
  permitted-GoesOn (some false) command i e passed h = absurd (none-ne-some passed h)
  permitted-GoesOn (some true) command i e passed h =
      ((i, e), sym (some-injective command passed h), refl)

  gate-GoesOn : (command : Command) → GoesOn command (gate deps event command router)
  unfolding gate
  gate-GoesOn command =
      if_lem (GoesOn command) (ignores deps.lower deps.ignore event deps.case_mapper) _ _
        (λ e passed h. absurd (none-ne-some passed h)) (λ e. permitted-GoesOn _ command e refl)

  -- A handler that starts found a slot, a token and no cooldown.
  admit_command-Unlimited :
      (command : Command)
      → (admit_command deps now event command router).1 ≡ true
      → Unlimited command
  unfolding admit_command admit_slot
  admit_command-Unlimited command =
      let key = sender_key deps.lower event deps.case_mapper in
      let Q = λ (r : Router × Bool). r.1 ≡ true → Unlimited command in
      if_lem Q (leb deps.max_concurrency router.in_flight) _ _ (λ e h. absurd (ground (arith, h)))
        (λ e.
          if_lem Q (not (consume router.rate_limiter now key).1) _ _
            (λ f h. absurd (ground (arith, h)))
            (λ f.
              if_lem Q (not (cool router.cooldowns now command key).1) _ _
                (λ g h. absurd (ground (arith, h)))
                (λ g h. (ground (arith, e), ground (arith, f), ground (arith, g)))))

  abbrev Prepared : Router × Option Command → Type 0
  Prepared r =
      (passed : Command)
      → r.1 ≡ some passed
      → (parsed : ParsedCommand) × (entry : CommandEntry) × (parse_command_line deps.lower
            deps.prefix event.text requires_prefix
          ≡ some parsed)
        × (Dict.get router.by_name parsed.name ≡ some entry)
        × Permitted entry.command
        × (passed ≡ entry.command)
        × (r.0 ≡ router)

  prepare-Prepared : Prepared (prepare deps event router)
  unfolding prepare
  prepare-Prepared =
      when_some-cases Prepared
        (parse_command_line deps.lower deps.prefix event.text requires_prefix) _ _
        (λ e passed h. absurd (none-ne-some passed h))
        (λ parsed e.
          when_some-cases Prepared (Dict.get router.by_name parsed.name) _ _
            (λ f passed h. absurd (none-ne-some passed h))
            (λ entry f passed h.
              let g = gate-GoesOn entry.command passed h in (parsed, entry, e, f, g.0, g.1, g.2)))

  -- A handler starts only on a message that is a command of the table, from a sender who is not ignored
  -- and may run it, and only while a slot is free, the sender has a token and no cooldown holds.
  pub admit-Passes :
      (admit deps now event router).1 ≡ true
      → (parsed : ParsedCommand) × (entry : CommandEntry) × Passes parsed entry
  unfolding admit
  admit-Passes =
      when_some-cases
        (λ (r : Router × Bool).
          r.1 ≡ true → (parsed : ParsedCommand) × (entry : CommandEntry) × Passes parsed entry)
        (prepare deps event router).1 _ _ (λ e h. absurd (ground (arith, h)))
        (λ command e h.
          let p = prepare-Prepared command e in
          let started : (admit_command deps now event command router).1 ≡ true =
            subst (λ r. (admit_command deps now event command r).1 ≡ true) p.6 h in
          (
            p.0,
            p.1,
            (p.2, p.3, p.4, subst Unlimited p.5 (admit_command-Unlimited command started)),
          ))

module _ (deps : RouterDeps) (now : ℕ) (event : Privmsg) where
  permitted-in_flight :
      (answer : Option Bool) (command : Command) (router : Router)
      → (permitted answer event command router).0.in_flight ≡ router.in_flight
  unfolding permitted emit deny
  permitted-in_flight none command router = refl
  permitted-in_flight (some true) command router = refl
  permitted-in_flight (some false) command router = refl

  prepare-in_flight : (router : Router) → (prepare deps event router).0.in_flight ≡ router.in_flight
  unfolding prepare gate emit deny
  prepare-in_flight router =
      let Q = λ (r : Router × Option Command). r.0.in_flight ≡ router.in_flight in
      when_some-cases Q
        (parse_command_line deps.lower deps.prefix event.text
          (not event.is_private || not deps.allow_prefixless_in_pm))
        _ _ (λ e. refl)
        (λ parsed e.
          when_some-cases Q (Dict.get router.by_name parsed.name) _ _ (λ f. refl)
            (λ entry f.
              if_lem Q (ignores deps.lower deps.ignore event deps.case_mapper) _ _ (λ g. refl)
                (λ g. permitted-in_flight _ entry.command router)))

  -- A handler that starts takes a slot that was free, and what starts none takes none.
  abbrev Counts : ℕ → Router × Bool → Type 0
  Counts n r =
      (r.0.in_flight ≡ (if r.1 then suc n else n)) × (r.1 ≡ true → n < deps.max_concurrency)

  idle : (n : ℕ) → false ≡ true → n < deps.max_concurrency
  idle n t = absurd (ground (arith, t))

  admit_slot-Counts :
      (key : Str) (command : Command) (router : Router)
      → router.in_flight < deps.max_concurrency
      → Counts router.in_flight (admit_slot now event key command router)
  unfolding admit_slot emit deny
  admit_slot-Counts key command router h =
      elim (Bool-cases (consume router.rate_limiter now key).1) [
        | inr e ↦ rw e (refl, idle router.in_flight)
        | inl e ↦ elim (Bool-cases (cool router.cooldowns now command key).1) [
          | inr f ↦ rw (e, f) (refl, idle router.in_flight)
          | inl f ↦ rw (e, f) (refl, λ t. h)
        ]
      ]

  admit_command-Counts :
      (command : Command) (router : Router)
      → Counts router.in_flight (admit_command deps now event command router)
  unfolding admit_command emit deny
  admit_command-Counts command router =
      if_lem (Counts router.in_flight) (leb deps.max_concurrency router.in_flight) _ _
        (λ e. (refl, idle router.in_flight))
        (λ e.
          admit_slot-Counts (sender_key deps.lower event deps.case_mapper) command router
            (ground (arith, e)))

  admit-Counts : (router : Router) → Counts router.in_flight (admit deps now event router)
  unfolding admit
  admit-Counts router =
      let same = prepare-in_flight router in
      when_some-cases (Counts router.in_flight) (prepare deps event router).1 _ _
        (λ e. (same, idle router.in_flight))
        (λ command e.
          subst (λ n. Counts n (admit_command deps now event command (prepare deps event router).0))
            same (admit_command-Counts command (prepare deps event router).0))

-- How many handlers hold a slot behind the steps, of which n do at first, counted by the handlers that
-- start and those that end, or none where more end than hold one.
unfoldable pub slots_held : RouterDeps → List RouterStep → Router → ℕ → Option ℕ
slots_held deps [] router n = some n
slots_held deps (RouterStep.received now event ∷ steps) router n =
    let r = admit deps now event router in slots_held deps steps r.0 (if r.1 then suc n else n)
slots_held deps (RouterStep.finished ∷ steps) router zero = none
slots_held deps (RouterStep.finished ∷ steps) router (suc n) =
    slots_held deps steps (release router) n

started-bound :
    (started : Bool) (n bound : ℕ)
    → n ≤ bound
    → (started ≡ true → n < bound)
    → (if started then suc n else n) ≤ bound
started-bound true n bound b t = omega (arith, t refl)
started-bound false n bound b t = b

route-counted :
    (deps : RouterDeps) (steps : List RouterStep) (router : Router) (n held : ℕ)
    → router.in_flight ≡ n
    → n ≤ deps.max_concurrency
    → slots_held deps steps router n ≡ some held
    → ((route deps steps router).in_flight ≡ held) × (held ≤ deps.max_concurrency)
unfolding route slots_held release
route-counted deps [] router n held e b h =
    let same = some-injective n held h in (e ∙ same, omega (arith, b, same))
route-counted deps (RouterStep.received now event ∷ steps) router n held e b h =
    let r = admit deps now event router in
    let c = subst (λ n. Counts deps now event n r) e (admit-Counts deps now event router) in
    route-counted deps steps r.0 (if r.1 then suc n else n) held c.0
      (started-bound r.1 n deps.max_concurrency b c.1) h
route-counted deps (RouterStep.finished ∷ steps) router zero held e b h =
    absurd (none-ne-some held h)
route-counted deps (RouterStep.finished ∷ steps) router (suc n) held e b h =
    route-counted deps steps (release router) n held (omega (arith, e)) (omega (arith, b)) h

-- Whatever messages come and whenever handlers that hold a slot give it back, by their end or by their
-- timeout, `in_flight` is the number of the handlers that hold one, and these are at most the bound.
pub route-in_flight :
    (deps : RouterDeps) (steps : List RouterStep) (router : Router) (held : ℕ)
    → router.in_flight ≤ deps.max_concurrency
    → slots_held deps steps router router.in_flight ≡ some held
    → ((route deps steps router).in_flight ≡ held) × (held ≤ deps.max_concurrency)
route-in_flight deps steps router held b h =
    route-counted deps steps router router.in_flight held refl b h
