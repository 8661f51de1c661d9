-- ===== src/CaseMapping.antt =====
-- packages/irc-client/src/casemapping: CaseMapper.ts, and IrcMap.ts in the child IrcMap.
pub mod Laws
pub mod IrcMap
pub mod IrcSet
pub mod MapLaws
pub mod MapRuns
use mojo_jojo.Base.{
  ℕ, ◌+◌, ◌-◌, Bool, true, false, not, ◌&&◌, ◌||◌, List, [], ◌∷◌, ◌++◌, Option, none, some, Str,
  codes, str_eq, within, ◌==◌, if◌then◌else◌,
}

pub data CaseMapping : Type 0 where
  ascii rfc1459 rfc1459_strict : CaseMapping

abbrev pub default_case_mapping : CaseMapping
default_case_mapping = rfc1459

-- `toCaseMapping`
unfoldable pub to_case_mapping : Option Str → CaseMapping
to_case_mapping none = default_case_mapping
to_case_mapping (some value) =
    if str_eq value (codes "ascii")
    then ascii
    else if str_eq value (codes "rfc1459")
    then rfc1459
    else if str_eq value (codes "rfc1459-strict")
    then rfc1459_strict
    else if str_eq value (codes "strict-rfc1459")
    then rfc1459_strict
    else default_case_mapping

abbrev pub is_ascii : CaseMapping → Bool
is_ascii ascii = true
is_ascii _ = false

abbrev pub folds_tilde : CaseMapping → Bool
folds_tilde rfc1459 = true
folds_tilde _ = false

-- The test of the first scan of `normalize`.
unfoldable pub needs_fold : CaseMapping → ℕ → Bool
needs_fold m code =
    within 0x41 0x5a code
    || (not (is_ascii m) && within 0x5b 0x5d code)
    || (folds_tilde m && code == 0x7e)

-- The body of the second loop.
unfoldable pub fold_code : CaseMapping → ℕ → ℕ
fold_code m code =
    if within 0x41 0x5a code
    then code + 0x20
    else if not (is_ascii m) && within 0x5b 0x5d code
    then code + 0x20
    else if folds_tilde m && code == 0x7e
    then code - 0x20
    else code

unfoldable pub fold_loop : CaseMapping → Str → Str
unfolding fold_code
fold_loop m [] = []
fold_loop m (code ∷ name) = fold_code m code ∷ fold_loop m name

-- The name in two: what the first scan passes over, and what is left where it stops.
unfoldable pub scan : CaseMapping → Str → Str × Str
unfolding needs_fold
scan m [] = ([], [])
scan m (code ∷ name) =
    let (clean, rest) = scan m name in
    if needs_fold m code then ([], code ∷ name) else (code ∷ clean, rest)

unfoldable pub after_scan : CaseMapping → Str → Str → Str → Str
unfolding fold_loop
after_scan m name clean [] = name
after_scan m name clean (code ∷ rest) = clean ++ fold_loop m (code ∷ rest)

unfoldable pub normalize : CaseMapping → Str → Str
unfolding scan after_scan
normalize m name = after_scan m name (scan m name).0 (scan m name).1

unfoldable pub equals : CaseMapping → Str → Str → Bool
equals m a b = str_eq (normalize m a) (normalize m b)
