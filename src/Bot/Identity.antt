-- ===== src/Bot/Identity.antt =====
-- packages/bot/src/identity/match.ts and abuse/ignore.ts: whether a sender is one that a pattern means.
use mojo_jojo.Base.{
  Bool, false, ◌&&◌, ◌||◌, List, [], ◌∷◌, ◌++◌, Option, none, some, Str, codes, str_eq, drop,
  starts_with, if◌then◌else◌,
}
use mojo_jojo.CaseMapping.{CaseMapping, normalize, equals}
use mojo_jojo.Isupport.{cut}
use mojo_jojo.Entities.User.{User}
use mojo_jojo.Entities.Member.{Member}
use mojo_jojo.Bot.Glob.{glob_match}

-- What the bot reads of a PRIVMSG event, with its sender.
pub record Privmsg : Type 0 where
  pub user : User
  pub account : Option Str
  pub member : Option Member
  pub is_private : Bool
  pub text : Str

unfoldable pub is_secure_matcher : Str → Bool
is_secure_matcher pattern =
    starts_with (codes "account:") pattern || starts_with (codes "mask:") pattern

unfoldable pub normalize_account : Option Str → Option Str
normalize_account none = none
normalize_account (some account) =
    if str_eq account [] || str_eq account (codes "*") then none else some account

-- A tag on the message is decisive.
unfoldable pub resolve_account : Privmsg → Option Str
unfolding normalize_account
resolve_account event = elim event.account [
  | none ↦ normalize_account event.user.account
  | some tag ↦ normalize_account (some tag)
]

-- `lower` is `s.toLowerCase()`.
module _ (lower : Str → Str) where
  unfoldable pub equals_ignore_case : Str → Str → Bool
  equals_ignore_case a b = str_eq (lower a) (lower b)

  unfoldable pub fold_nick : Option CaseMapping → Str → Str
  fold_nick none s = lower s
  fold_nick (some mapper) s = normalize mapper s

  -- The mask, with what is behind its first `!` where it has one.
  unfoldable pub mask_parts : Option CaseMapping → Str → Str → Str → Str × Option Str → Bool
  unfolding fold_nick
  mask_parts mapper nick address mask (front, none) =
      glob_match (fold_nick mapper mask) (fold_nick mapper (nick ++ b'!' ∷ address))
  mask_parts mapper nick address mask (front, some back) =
      glob_match (fold_nick mapper front) (fold_nick mapper nick)
      && glob_match (lower back) (lower address)

  -- A sender whose user or host is not known matches no mask.
  unfoldable pub matches_mask_of : Str → Option Str → Option Str → Str → Option CaseMapping → Bool
  unfolding mask_parts
  matches_mask_of nick (some username) (some host) mask mapper =
      mask_parts mapper nick (username ++ b'@' ∷ host) mask (cut b'!' mask)
  matches_mask_of nick username host mask mapper = false

  unfoldable pub matches_mask : Privmsg → Str → Option CaseMapping → Bool
  unfolding matches_mask_of
  matches_mask event mask mapper =
      matches_mask_of event.user.nick event.user.username event.user.host mask mapper

  unfoldable pub matches_account : Option Str → Str → Bool
  unfolding equals_ignore_case
  matches_account tag [] = false
  matches_account none (c ∷ account) = false
  matches_account (some tag) (c ∷ account) = equals_ignore_case tag (c ∷ account)

  unfoldable pub matches_nick : Str → Str → Option CaseMapping → Bool
  unfolding equals_ignore_case
  matches_nick nick wanted none = equals_ignore_case nick wanted
  matches_nick nick wanted (some mapper) = equals mapper nick wanted

  unfoldable pub matches_identity : Privmsg → Str → Option CaseMapping → Bool
  unfolding matches_account matches_mask matches_nick
  matches_identity event pattern mapper =
      if starts_with (codes "account:") pattern
      then matches_account (normalize_account event.account) (drop 8 pattern)
      else if starts_with (codes "mask:") pattern
      then matches_mask event (drop 5 pattern) mapper
      else if starts_with (codes "nick:") pattern
      then matches_nick event.user.nick (drop 5 pattern) mapper
      else matches_nick event.user.nick pattern mapper

  unfoldable pub address_key : Option CaseMapping → User → Str
  unfolding fold_nick
  address_key mapper user = elim user.username [
    | none ↦ codes "nick:" ++ fold_nick mapper user.nick
    | some username ↦ elim user.host [
      | none ↦ codes "nick:" ++ fold_nick mapper user.nick
      | some host ↦ codes "host:" ++ lower username ++ b'@' ∷ lower host
    ]
  ]

  unfoldable pub sender_key : Privmsg → Option CaseMapping → Str
  unfolding address_key
  sender_key event mapper = elim (resolve_account event) [
    | none ↦ address_key mapper event.user
    | some account ↦ codes "account:" ++ lower account
  ]

  unfoldable pub matches_any : Privmsg → List Str → Option CaseMapping → Bool
  unfolding matches_identity
  matches_any event [] mapper = false
  matches_any event (pattern ∷ patterns) mapper =
      matches_identity event pattern mapper || matches_any event patterns mapper

  -- `IgnoreList.has`
  unfoldable pub ignores : List Str → Privmsg → Option CaseMapping → Bool
  unfolding matches_any
  ignores [] event mapper = false
  ignores (pattern ∷ patterns) event mapper = matches_any event (pattern ∷ patterns) mapper
