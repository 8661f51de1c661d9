-- ===== src/Tests/Bots.antt =====
-- The properties of the bot at concrete inputs.
use mojo_jojo.Base.{
  ℕ, ◌≤◌, ◌||◌, true, false, List, [], ◌∷◌, none, some, ◌≡◌, refl, arith, Str, codes, length,
  is_whitespace, starts_with, str_eq,
}
use mojo_jojo.Base.Dict
use mojo_jojo.CaseMapping.{ascii}
use mojo_jojo.Entities.User.{new_user}
use mojo_jojo.Bot.Glob.{glob_match}
use mojo_jojo.Bot.Glob.Spec.{glob_match-star}
use mojo_jojo.Bot.Glob.Matches.{matches, glob_match-matches}
use mojo_jojo.Bot.Identity.{Privmsg, ignores}
use mojo_jojo.Bot.Permissions.{StatusLevel, Permission, match_owner, check_permission}
use mojo_jojo.Bot.Permissions.Ranks.{passing_modes, has_any_mode, check_permission-gates}
use mojo_jojo.Bot.CommandLine.{
  ParsedCommand, parse_command_line, parsed_command, skip_space, take_word,
}
use mojo_jojo.Bot.Storage.{MemoryStorage, set, get, set-get}
use mojo_jojo.Bot.Router.{
  Command, CommandEntry, RouterDeps, Router, RouterStep, route, admit, prepare, gate, permitted,
  admit_command, admit_slot, consume, cool, release, emit,
}
use mojo_jojo.Bot.Router.Admission.{Passes, admit-Passes, slots_held, route-in_flight}

glob_match-star_example : glob_match (codes "*") (codes "*ab") ≡ false
glob_match-star_example = glob_match-star b'a' (codes "b")

glob_match-matches_example :
    glob_match (codes "a*c?*") (codes "abcbcdd") ≡ matches (codes "a*c?*") (codes "abcbcdd")
glob_match-matches_example =
    glob_match-matches (codes "a*c?*") (codes "abcbcdd")
      (refl, (refl, (refl, (refl, (refl, (refl, (refl, tt)))))))

abbrev same_text : Str → Str
same_text s = s

abbrev message : Privmsg
message = record {
  user = new_user (codes "bob") false;
  account = none;
  member = none;
  is_private = true;
  text = codes "!ping now";
}

abbrev owners : List Str
owners = codes "nick:bob" ∷ []

-- Bob in a channel, as an operator.
abbrev in_channel : Privmsg
in_channel = record message {
  member = some (record { user = 0; modes = (codes "o", tt) ∷ [] });
  is_private = false;
}

check_permission-gates_example :
    (check_permission same_text [] (some ascii) (Permission.level StatusLevel.halfop) in_channel
      ≡ some (
          match_owner same_text [] (some ascii) in_channel
          || has_any_mode in_channel.member (passing_modes StatusLevel.halfop)))
    × (check_permission same_text [] (some ascii) Permission.owner in_channel
        ≡ some (match_owner same_text [] (some ascii) in_channel))
check_permission-gates_example =
    check_permission-gates same_text [] (some ascii) StatusLevel.halfop in_channel

abbrev ping : Command
ping = record { name = codes "ping"; aliases = []; permission = Permission.anyone; cooldown_ms = 0 }

abbrev ping_entry : CommandEntry
ping_entry = record { command = ping; module_name = codes "ping" }

abbrev deps : RouterDeps
deps = record {
  lower = same_text;
  case_mapper = some ascii;
  owners = owners;
  ignore = [];
  prefix = codes "!";
  allow_prefixless_in_pm = true;
  max_concurrency = 8;
}

abbrev router : Router
router = record {
  by_name = (codes "ping", ping_entry) ∷ [];
  in_flight = 0;
  cooldowns = record { until = []; max_entries = 10 };
  rate_limiter = none;
  emitted = [];
}

ping_starts : (admit deps 5 message router).1 ≡ true
unfolding admit prepare parse_command_line parsed_command skip_space take_word gate permitted
    ignores check_permission admit_command admit_slot consume cool is_whitespace starts_with str_eq
    Dict.get new_user
ping_starts = refl

admit-Passes_example :
    (parsed : ParsedCommand) × (entry : CommandEntry) × Passes deps 5 message router parsed entry
admit-Passes_example = admit-Passes deps 5 message router ping_starts

abbrev steps : List RouterStep
steps = RouterStep.received 5 message ∷ RouterStep.finished ∷ RouterStep.received 9 message ∷ []

route-in_flight_example : ((route deps steps router).in_flight ≡ 1) × (1 ≤ 8)
unfolding slots_held release emit admit prepare parse_command_line parsed_command skip_space
    take_word gate permitted ignores check_permission admit_command admit_slot consume cool
    is_whitespace starts_with str_eq Dict.get new_user
route-in_flight_example = route-in_flight deps steps router 1 (omega arith) refl

abbrev storage : MemoryStorage ℕ
storage = record { map = (codes "a", 1) ∷ (codes "b", 2) ∷ []; max_entries = 2 }

set-get_example :
    (length (set storage (codes "c") 3).map ≤ 2)
    × (get (set storage (codes "c") 3) (codes "c") ≡ some 3)
set-get_example = set-get storage (codes "c") 3 (omega arith) (omega arith)
