-- ===== src/Bot/Permissions/Ranks.antt =====
-- permissions.ts: who passes the gate of a status, by the modes of the member.
use mojo_jojo.Base.{
  Bool, false, ◌||◌, List, [], ◌∷◌, Option, none, some, ◌≡◌, refl, arith, ap, Str, codes, inl, inr,
  any, Bool-cases,
}
use mojo_jojo.Base.Dict
use mojo_jojo.CaseMapping.{CaseMapping}
use mojo_jojo.Entities.Member.{Member, is_owner, is_admin, is_op, is_half_op, is_voice}
use mojo_jojo.Bot.Identity.{Privmsg}
use mojo_jojo.Bot.Permissions.{
  StatusLevel, Permission, level_rank, member_rank, holds_level, match_owner, check_permission,
}

-- The modes that pass the gate of a status: its own, and those of the higher ones.
abbrev pub passing_modes : StatusLevel → List Str
passing_modes StatusLevel.admin = codes "a" ∷ codes "q" ∷ []
passing_modes StatusLevel.op = codes "o" ∷ codes "a" ∷ codes "q" ∷ []
passing_modes StatusLevel.halfop = codes "h" ∷ codes "o" ∷ codes "a" ∷ codes "q" ∷ []
passing_modes StatusLevel.voice = codes "v" ∷ codes "h" ∷ codes "o" ∷ codes "a" ∷ codes "q" ∷ []

-- Whether a membership, if there is one, has a mode of the list.
unfoldable pub has_any_mode : Option Member → List Str → Bool
has_any_mode none modes = false
has_any_mode (some member) modes = any (λ mode. Dict.has member.modes mode) modes

holds_level-modes :
    (gate : StatusLevel) (member : Option Member)
    → holds_level gate member ≡ has_any_mode member (passing_modes gate)
unfolding holds_level has_any_mode member_rank level_rank is_owner is_admin is_op is_half_op
    is_voice
holds_level-modes gate none = refl
holds_level-modes StatusLevel.voice (some member) = ground arith
holds_level-modes StatusLevel.halfop (some member) = ground arith
holds_level-modes StatusLevel.op (some member) = ground arith
holds_level-modes StatusLevel.admin (some member) = ground arith

-- The gate of a status passes an owner of the bot, and else exactly a sender whose membership has the
-- mode of that status (v, h, o or a) or of a higher one, up to q; the owner gate passes owners only.
pub check_permission-gates :
    (lower : Str → Str) (owners : List Str) (mapper : Option CaseMapping) (gate : StatusLevel)
    (event : Privmsg)
    → (check_permission lower owners mapper (Permission.level gate) event
        ≡ some (
            match_owner lower owners mapper event
            || has_any_mode event.member (passing_modes gate)))
      × (check_permission lower owners mapper Permission.owner event
          ≡ some (match_owner lower owners mapper event))
unfolding check_permission
check_permission-gates lower owners mapper gate event =
    elim (Bool-cases (match_owner lower owners mapper event)) [
      | inl e ↦ rw e (refl, refl)
      | inr e ↦ rw e (ap some (holds_level-modes gate event.member), refl)
    ]
