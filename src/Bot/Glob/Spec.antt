-- ===== src/Bot/Glob/Spec.antt =====
-- match.ts: what `globMatch` answers.
use mojo_jojo.Base.{ℕ, false, [], ◌∷◌, ◌≡◌, refl, Str}
use mojo_jojo.Bot.Glob.{glob_match, glob_loop, glob_step, backtrack}

-- A lone star, which should match every text, fails on one of two or more characters that starts with a
-- star: there the star of the pattern is taken as that character.
pub glob_match-star : (c : ℕ) (value : Str) → glob_match (b'*' ∷ []) (b'*' ∷ c ∷ value) ≡ false
unfolding glob_match glob_loop glob_step backtrack
glob_match-star c value = refl
