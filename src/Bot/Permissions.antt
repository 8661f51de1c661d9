-- ===== src/Bot/Permissions.antt =====
-- packages/bot/src/command/permissions.ts: who may run a command.
pub mod Ranks
use mojo_jojo.Base.{ℕ, Bool, true, false, List, Option, none, some, Str, leb, if◌then◌else◌}
use mojo_jojo.CaseMapping.{CaseMapping}
use mojo_jojo.Entities.Member.{Member, is_owner, is_admin, is_op, is_half_op, is_voice}
use mojo_jojo.Bot.Identity.{Privmsg, matches_any}

pub data StatusLevel : Type 0 where
  voice halfop op admin : StatusLevel

-- A predicate is given by what it answers, or none where it throws.
pub data Permission : Type 0 where
  anyone : Permission
  level : StatusLevel → Permission
  owner : Permission
  predicate : (Privmsg → Option Bool) → Permission

unfoldable pub level_rank : StatusLevel → ℕ
level_rank StatusLevel.voice = 1
level_rank StatusLevel.halfop = 2
level_rank StatusLevel.op = 3
level_rank StatusLevel.admin = 4

unfoldable pub member_rank : Member → ℕ
member_rank member =
    if is_owner member
    then 5
    else if is_admin member
    then 4
    else if is_op member
    then 3
    else if is_half_op member
    then 2
    else if is_voice member
    then 1
    else 0

unfoldable pub holds_level : StatusLevel → Option Member → Bool
unfolding member_rank level_rank
holds_level gate none = false
holds_level gate (some member) = leb (level_rank gate) (member_rank member)

module _ (lower : Str → Str) (owners : List Str) (mapper : Option CaseMapping) where
  unfoldable pub match_owner : Privmsg → Bool
  match_owner event = matches_any lower event owners mapper

  -- Whether the command may run, or none where a predicate throws.
  unfoldable pub check_permission : Permission → Privmsg → Option Bool
  unfolding match_owner holds_level
  check_permission Permission.anyone event = some true
  check_permission (Permission.predicate answer) event = answer event
  check_permission Permission.owner event = some (match_owner event)
  check_permission (Permission.level gate) event =
      if match_owner event then some true else some (holds_level gate event.member)
