-- ===== src/CaseMapping/Laws.antt =====
-- CaseMapper.ts: folding is a projection, and the rules refine one another.
use mojo_jojo.Base.{
  ℕ, true, false, [], ◌∷◌, ◌++◌, ◌≡◌, refl, sym, ap, ◌∙◌, inl, inr, arith, Str, str_eq_iff,
  Bool-cases,
}
use mojo_jojo.CaseMapping.{
  CaseMapping, ascii, rfc1459, rfc1459_strict, needs_fold, fold_code, fold_loop, scan, after_scan,
  normalize, equals,
}

fold_code_plain : (m : CaseMapping) (c : ℕ) → needs_fold m c ≡ false → fold_code m c ≡ c
unfolding needs_fold fold_code
fold_code_plain ascii c h = ground arith
fold_code_plain _ c h = ground arith

scan-append : (m : CaseMapping) (s : Str) → (scan m s).0 ++ fold_loop m (scan m s).1 ≡ fold_loop m s
unfolding scan fold_loop
scan-append m [] = refl
scan-append m (c ∷ s) = elim (Bool-cases (needs_fold m c)) [
  | inl e ↦ rw e
  | inr e ↦ rw (e, fold_code_plain m c e) (ap (◌∷◌ c) (scan-append m s))
]

scan_whole : (m : CaseMapping) (s : Str) → (scan m s).1 ≡ [] → fold_loop m s ≡ s
unfolding scan fold_loop
scan_whole m [] h = refl
scan_whole m (c ∷ s) h = elim (Bool-cases (needs_fold m c)) [
  | inl e ↦ absurd (cc (rw e at h))
  | inr e ↦ rw (fold_code_plain m c e) (ap (◌∷◌ c) (scan_whole m s (rw e at h)))
]

after_scan-fold_loop :
    (m : CaseMapping) (s clean rest : Str)
    → (rest ≡ [] → fold_loop m s ≡ s)
    → clean ++ fold_loop m rest ≡ fold_loop m s
    → after_scan m s clean rest ≡ fold_loop m s
unfolding after_scan
after_scan-fold_loop m s clean [] h e = sym (h refl)
after_scan-fold_loop m s clean (c ∷ rest) h e = e

-- `normalize` folds every character of the name, whether or not its first scan returns early.
pub normalize-eq-fold_loop : (m : CaseMapping) (name : Str) → normalize m name ≡ fold_loop m name
unfolding normalize
normalize-eq-fold_loop m s =
    after_scan-fold_loop m s (scan m s).0 (scan m s).1 (scan_whole m s) (scan-append m s)

fold_code_twice : (m : CaseMapping) (c : ℕ) → fold_code m (fold_code m c) ≡ fold_code m c
unfolding fold_code
fold_code_twice ascii c = ground arith
fold_code_twice rfc1459 c = ground arith
fold_code_twice rfc1459_strict c = ground arith

fold_loop_twice : (m : CaseMapping) (s : Str) → fold_loop m (fold_loop m s) ≡ fold_loop m s
unfolding fold_loop
fold_loop_twice m [] = refl
fold_loop_twice m (c ∷ s) = ground (arith, fold_code_twice m c, fold_loop_twice m s)

-- A folded name is its own fold, so a canonical key stands for itself.
pub normalize_twice :
    (m : CaseMapping) (name : Str) → normalize m (normalize m name) ≡ normalize m name
normalize_twice m s = rw normalize-eq-fold_loop (rw normalize-eq-fold_loop (fold_loop_twice m s))

-- Folding by a finer rule first changes nothing.
abbrev pub Refines : CaseMapping → CaseMapping → Type 0
Refines fine coarse = (c : ℕ) → fold_code coarse (fold_code fine c) ≡ fold_code coarse c

ascii-Refines : (m : CaseMapping) → Refines ascii m
unfolding fold_code
ascii-Refines ascii c = ground arith
ascii-Refines rfc1459 c = ground arith
ascii-Refines rfc1459_strict c = ground arith

strict-Refines : Refines rfc1459_strict rfc1459
unfolding fold_code
strict-Refines c = ground arith

fold_loop-Refines :
    (fine coarse : CaseMapping)
    → Refines fine coarse
    → (s : Str) → fold_loop coarse (fold_loop fine s) ≡ fold_loop coarse s
unfolding fold_loop
fold_loop-Refines fine coarse r [] = refl
fold_loop-Refines fine coarse r (c ∷ s) = ground (arith, r c, fold_loop-Refines fine coarse r s)

equals-Refines :
    (fine coarse : CaseMapping)
    → Refines fine coarse
    → (a b : Str) → equals fine a b ≡ true
    → equals coarse a b ≡ true
unfolding equals
equals-Refines fine coarse r a b h =
    let same : fold_loop fine a ≡ fold_loop fine b =
      (sym (normalize-eq-fold_loop fine a)
        ∙ (str_eq_iff _ _).0 h
        ∙ normalize-eq-fold_loop fine b) in
    (str_eq_iff (normalize coarse a) (normalize coarse b)).1 (
      normalize-eq-fold_loop coarse a
      ∙ sym (fold_loop-Refines fine coarse r a)
      ∙ ap (fold_loop coarse) same
      ∙ fold_loop-Refines fine coarse r b
      ∙ sym (normalize-eq-fold_loop coarse b))

-- Two names that are one under `ascii` are one under every rule, and two that are one under
-- `rfc1459-strict` are one under `rfc1459`: a change to a coarser rule only joins names.
pub equals_coarser :
    (a b : Str)
    → ((m : CaseMapping) → equals ascii a b ≡ true → equals m a b ≡ true)
      × (equals rfc1459_strict a b ≡ true → equals rfc1459 a b ≡ true)
equals_coarser a b = (
  λ m. equals-Refines ascii m (ascii-Refines m) a b,
  equals-Refines rfc1459_strict rfc1459 strict-Refines a b,
)
