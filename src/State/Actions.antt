-- ===== src/State/Actions.antt =====
-- dispatch.ts against commands.ts: a CTCP ACTION that is built is the one that is read.
use mojo_jojo.Base.{
  ℕ, [], ◌∷◌, ◌++◌, none, some, ◌≡◌, refl, ap, ◌∙◌, arith, Str, codes, str_eq, starts_with, length,
  take, get_elem?, get_last?-concat, length-concat, when_some,
}
use mojo_jojo.Commands.{command, action}
use mojo_jojo.State.Dispatch.Messages.{strip_at, strip_frame, parse_action_text}

take-concat : (l : Str) (c : ℕ) → take (length l) (l ++ c ∷ []) ≡ l
take-concat [] c = refl
take-concat (d ∷ l) c = ap (λ r. d ∷ r) (take-concat l c)

strip_frame-concat : (l : Str) → strip_frame (l ++ 0x01 ∷ []) ≡ l
unfolding strip_frame strip_at
strip_frame-concat l =
    ap (λ o. strip_at o (l ++ 0x01 ∷ [])) (get_last?-concat l 0x01)
    ∙ ap (λ n. take n (l ++ 0x01 ∷ [])) (omega (arith, length-concat l 0x01))
    ∙ take-concat l 0x01

-- The text of an action, whatever it is, is read from the message that the client builds for it.
pub parse_action_text-action :
    (target text : Str)
    → when_some (get_elem? (action target text).params 1) none parse_action_text ≡ some text
unfolding action command parse_action_text str_eq starts_with
parse_action_text-action target text = rw (strip_frame-concat (codes "ACTION " ++ text)) refl
