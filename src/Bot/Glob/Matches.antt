-- ===== src/Bot/Glob/Matches.antt =====
-- match.ts: `globMatch` against the meaning of a pattern, on texts with no star.
use mojo_jojo.Base.{
  ℕ, zero, suc, ◌+◌, ◌*◌, ◌≤◌, ◌<◌, Bool, true, false, ◌&&◌, ◌||◌, [], ◌∷◌, Option, none, some, ◌≡◌,
  refl, sym, ap, subst, ◌∙◌, inl, inr, arith, Str, All, length, ◌==◌, if_lem, Bool-cases,
  if◌then◌else◌,
}
use native.Mathlib.Nat.{mul-le-mul_right, suc-mul}
use mojo_jojo.Bot.Glob.{
  GlobState, glob_fuel, glob_match, glob_loop, glob_step, backtrack, only_stars,
}

-- Whether `f` holds of some end of the text, the whole and the empty one among them.
pub some_suffix : (Str → Bool) → Str → Bool
some_suffix f [] = f []
some_suffix f (c ∷ v) = f (c ∷ v) || some_suffix f v

-- A pattern character that is no star, with what the rest of the pattern says.
one : ℕ → (Str → Bool) → Str → Bool
one pc f [] = false
one pc f (c ∷ v) = (pc == b'?' || pc == c) && f v

-- What a pattern means: a star any run of characters, a question mark any one.
pub matches : Str → Str → Bool
unfolding some_suffix one
matches [] [] = true
matches [] (c ∷ v) = false
matches (pc ∷ p) v = if pc == b'*' then some_suffix (matches p) v else one pc (matches p) v

abbrev pub NoStar : Str → Type 0
NoStar v = All (λ c. (c == b'*') ≡ false) v

-- Holding of some end of some end is holding of some end.
suffix_twice :
    (f : Str → Bool) (v : Str) → some_suffix (some_suffix f) v ≡ true → some_suffix f v ≡ true
unfolding some_suffix
suffix_twice f [] h = h
suffix_twice f (c ∷ v) h = ground (arith, h, suffix_twice f v)

suffix_whole : (f : Str → Bool) (v : Str) → f v ≡ true → some_suffix f v ≡ true
unfolding some_suffix
suffix_whole f [] h = h
suffix_whole f (c ∷ v) h = ground (arith, h)

-- What the rest of the pattern meets behind the first character.
suffix_one :
    (pc : ℕ) (f : Str → Bool) (c : ℕ) (v : Str)
    → some_suffix (one pc f) (c ∷ v) ≡ true
    → some_suffix f v ≡ true
unfolding some_suffix one
suffix_one pc f c [] h = ground (arith, h)
suffix_one pc f c (d ∷ v) h = ground (arith, h, suffix_whole f (d ∷ v), suffix_one pc f d v)

matches-nil : (p : Str) → matches p [] ≡ only_stars p
unfolding matches only_stars
matches-nil [] = refl
matches-nil (pc ∷ p) = ground (arith, matches-nil p)

eq_false : (b : Bool) → (b ≡ true → true ≡ false) → b ≡ false
eq_false true h = h refl
eq_false false h = refl

suffix_ext :
    (f g : Str → Bool) (v : Str) → ((w : Str) → f w ≡ g w) → some_suffix f v ≡ some_suffix g v
unfolding some_suffix
suffix_ext f g [] h = h []
suffix_ext f g (c ∷ v) h = ground (arith, h (c ∷ v), suffix_ext f g v h)

-- A pattern that starts with a star, and one that does not.
matches-star :
    (pc : ℕ) (p w : Str) → (pc == b'*') ≡ true → matches (pc ∷ p) w ≡ some_suffix (matches p) w
unfolding matches
matches-star pc p w e = rw e refl

matches-one :
    (pc : ℕ) (p w : Str) → (pc == b'*') ≡ false → matches (pc ∷ p) w ≡ one pc (matches p) w
unfolding matches
matches-one pc p w e = rw e refl

-- What the loop goes on to answer behind a round.
abbrev after : ℕ → Option GlobState → Bool
after n none = false
after n (some s) = glob_loop n s.pattern s.value s.star

-- The places of a star that are open: the pattern matched the text up to here one for one, and a match
-- from a later place is one from here.
abbrev Open : Str → Str → Str → Str → Type 0
Open sp m p v =
    (matches sp m ≡ matches p v)
    × (some_suffix (matches sp) m ≡ true → some_suffix (matches p) v ≡ true)

-- The fuel is enough, where `k` is above the length of the text.
abbrev Enough : ℕ → ℕ → Str → Str → Str → Str → Type 0
Enough k n sp m p v =
    (length sp + length m * k + length v < n)
    × (length p ≤ length sp)
    × (length v ≤ length m)
    × (length m < k)

-- The loop answers what is open at a star.
abbrev Answers : ℕ → Str → Str → Str → Str → Type 0
Answers n sp m p v = glob_loop n p v (some (sp, m)) ≡ some_suffix (matches sp) m

Open-end : (n : ℕ) (sp m p : Str) → Open sp m p [] → Answers (suc n) sp m p []
unfolding glob_loop some_suffix
Open-end n sp m p o = elim (Bool-cases (matches p [])) [
  | inl e ↦ sym (matches-nil p) ∙ e ∙ sym (suffix_whole (matches sp) m (o.0 ∙ e))
  | inr e ↦ sym (matches-nil p) ∙ e ∙ sym (eq_false _ (λ h. sym (o.1 h) ∙ e))
]

-- Where a star cannot go on one for one, it takes one more character.
Open-back :
    (k n : ℕ) (sp m p : Str) (c : ℕ) (v : Str)
    → Enough k (suc n) sp m p (c ∷ v)
    → Open sp m p (c ∷ v)
    → matches p (c ∷ v) ≡ false
    → ((d : ℕ) (rest : Str) → m ≡ d ∷ rest → Enough k n sp rest sp rest → Answers n sp rest sp rest)
    → after n (backtrack (some (sp, m))) ≡ some_suffix (matches sp) m
unfolding backtrack some_suffix
Open-back k n sp [] p c v e o f next = sym (o.0 ∙ f)
Open-back k n sp (d ∷ m) p c v e o f next =
    let fuel = suc-mul (length m) k in
    next d m refl (omega (arith, e.0, e.3, fuel), omega arith, omega arith, omega (arith, e.3))
    ∙ sym (ap (λ b. b || some_suffix (matches sp) m) (o.0 ∙ f))

-- Going on one for one.
Open-match :
    (sp m : Str) (pc : ℕ) (p : Str) (c : ℕ) (v : Str)
    → (pc == b'*') ≡ false
    → (pc == b'?' || pc == c) ≡ true
    → Open sp m (pc ∷ p) (c ∷ v)
    → Open sp m p v
unfolding one
Open-match sp m pc p c v f h o = (
  o.0 ∙ matches-one pc p (c ∷ v) f ∙ ap (λ b. b && matches p v) h,
  (λ t. suffix_one pc (matches p) c v (
      sym (suffix_ext (matches (pc ∷ p)) (one pc (matches p)) (c ∷ v) (λ w. matches-one pc p w f))
      ∙ o.1 t)),
)

-- A later star answers for the earlier one.
Open-star :
    (sp m : Str) (pc : ℕ) (p v : Str)
    → (pc == b'*') ≡ true
    → Open sp m (pc ∷ p) v
    → some_suffix (matches p) v ≡ some_suffix (matches sp) m
Open-star sp m pc p v f o =
    let here = o.0 ∙ matches-star pc p v f in
    elim (Bool-cases (some_suffix (matches p) v)) [
      | inl e ↦ e ∙ sym (suffix_whole (matches sp) m (here ∙ e))
      | inr e ↦
          e
          ∙ sym (
              eq_false _ (λ t.
                sym (
                  suffix_twice (matches p) v (
                    sym (
                      suffix_ext (matches (pc ∷ p)) (some_suffix (matches p)) v
                        (λ w. matches-star pc p w f))
                    ∙ o.1 t))
                ∙ e))
    ]

module _ (k : ℕ) where
  some_loop :
      (n : ℕ) (sp m p v : Str)
      → NoStar v
      → NoStar m
      → Enough k n sp m p v
      → Open sp m p v
      → Answers n sp m p v
  unfolding glob_loop glob_step matches
  some_loop zero sp m p v sv sm e o = absurd (omega (arith, e.0))
  some_loop (suc n) sp m p [] sv sm e o = Open-end n sp m p o
  some_loop (suc n) sp m [] (c ∷ v) sv sm e o = Open-back k n sp m [] c v e o refl (λ d rest q e'.
      let sr = (subst NoStar q sm).1 in some_loop n sp rest sp rest sr sr e' (refl, (λ h. h)))
  some_loop (suc n) sp m (pc ∷ p) (c ∷ v) sv sm e o =
      if_lem (λ s. after n s ≡ some_suffix (matches sp) m) (pc == b'?' || pc == c) _ _
        (λ h.
          some_loop n sp m p v sv.1 sm
            (omega (arith, e.0), omega (arith, e.1), omega (arith, e.2), e.3)
            (Open-match sp m pc p c v (ground (arith, h, sv.0)) h o))
        (λ h.
          if_lem (λ s. after n s ≡ some_suffix (matches sp) m) (pc == b'*') _ _
            (λ f.
              some_loop n p (c ∷ v) p (c ∷ v) sv sv
                (
                  omega (arith, e.0, e.1, mul-le-mul_right k e.2),
                  omega arith,
                  omega arith,
                  omega (arith, e.2, e.3),
                )
                (refl, (λ t. t))
              ∙ Open-star sp m pc p (c ∷ v) f o)
            (λ f.
              Open-back k n sp m (pc ∷ p) c v e o
                (matches-one pc p (c ∷ v) f ∙ ap (λ b. b && matches p v) h)
                (λ d rest q e'.
                  let sr = (subst NoStar q sm).1 in
                  some_loop n sp rest sp rest sr sr e' (refl, (λ t. t)))))

  none_loop :
      (n : ℕ) (p v : Str)
      → NoStar v
      → length v + 1 < k
      → length p + k * k + length v < n
      → glob_loop n p v none ≡ matches p v
  unfolding glob_loop glob_step backtrack matches one
  none_loop zero p v sv b e = absurd (omega (arith, e))
  none_loop (suc n) p [] sv b e = sym (matches-nil p)
  none_loop (suc n) [] (c ∷ v) sv b e = refl
  none_loop (suc n) (pc ∷ p) (c ∷ v) sv b e =
      if_lem (λ s. after n s ≡ matches (pc ∷ p) (c ∷ v)) (pc == b'?' || pc == c) _ _
        (λ h.
          let f : (pc == b'*') ≡ false = ground (arith, h, sv.0) in
          none_loop n p v sv.1 (omega (arith, b)) (omega (arith, e))
          ∙ sym (matches-one pc p (c ∷ v) f ∙ ap (λ b. b && matches p v) h))
        (λ h.
          if_lem (λ s. after n s ≡ matches (pc ∷ p) (c ∷ v)) (pc == b'*') _ _
            (λ f.
              let short : suc (length v) ≤ k = omega (arith, b) in
              some_loop n p (c ∷ v) p (c ∷ v) sv sv
                (
                  omega (arith, e, mul-le-mul_right k short),
                  omega arith,
                  omega arith,
                  omega (arith, b),
                )
                (refl, (λ t. t))
              ∙ sym (matches-star pc p (c ∷ v) f))
            (λ f. sym (matches-one pc p (c ∷ v) f ∙ ap (λ b. b && matches p v) h)))

-- On a text with no star in it, `globMatch` answers what the pattern means, within its fuel.
pub glob_match-matches :
    (pattern value : Str) → NoStar value → glob_match pattern value ≡ matches pattern value
unfolding glob_match
glob_match-matches pattern value sv =
    none_loop (suc (suc (length value))) (glob_fuel pattern value) pattern value sv (omega arith)
      (omega arith)
