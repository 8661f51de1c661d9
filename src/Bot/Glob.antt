-- ===== src/Bot/Glob.antt =====
-- packages/bot/src/identity/match.ts: `globMatch`. The indices `p` and `v` are the texts that start
-- there; `star` is the pattern behind the last `*`, and the value from where that star was tried last.
pub mod Spec
pub mod Matches
use mojo_jojo.Base.{
  ℕ, zero, suc, ◌+◌, ◌*◌, Bool, true, false, ◌&&◌, ◌||◌, List, [], ◌∷◌, Option, none, some, Str,
  ◌==◌, length, if◌then◌else◌,
}

pub record GlobState : Type 0 where
  pub pattern : Str
  pub value : Str
  pub star : Option (Str × Str)

-- `while (pattern[p] === "*") p++; return p === pattern.length`
unfoldable pub only_stars : Str → Bool
only_stars [] = true
only_stars (c ∷ p) = c == b'*' && only_stars p

-- The last star takes one more of the value; without one the match fails.
unfoldable pub backtrack : Option (Str × Str) → Option GlobState
backtrack none = none
backtrack (some (p, [])) = none
backtrack (some (p, c ∷ mark)) = some (record { pattern = p; value = mark; star = some (p, mark) })

-- A round of the loop at `value[v] = c`, with `rest` behind it; nothing where it returns false.
unfoldable pub glob_step : Str → ℕ → Str → Option (Str × Str) → Option GlobState
unfolding backtrack
glob_step [] c rest star = backtrack star
glob_step (pc ∷ p) c rest star =
    if pc == b'?' || pc == c
    then some (record { pattern = p; value = rest; star = star })
    else if pc == b'*'
    then some (record { pattern = p; value = c ∷ rest; star = some (p, c ∷ rest) })
    else backtrack star

-- The loop, on fuel.
unfoldable pub glob_loop : ℕ → Str → Str → Option (Str × Str) → Bool
unfolding glob_step only_stars
glob_loop zero p v star = false
glob_loop (suc n) p [] star = only_stars p
glob_loop (suc n) p (c ∷ v) star = elim (glob_step p c v star) [
  | none ↦ false
  | some s ↦ glob_loop n s.pattern s.value s.star
]

-- A star is tried at most once for each place of the value, and each try reads at most the value.
abbrev pub glob_fuel : Str → Str → ℕ
glob_fuel pattern value =
    suc (suc (length pattern + suc (suc (length value)) * suc (suc (length value)) + length value))

unfoldable pub glob_match : Str → Str → Bool
unfolding glob_loop
glob_match pattern value = glob_loop (glob_fuel pattern value) pattern value none
