-- ===== src/Capabilities/Requests.antt =====
-- capabilities.ts: `reconcileCaps` and `chunkCaps`, the set that is requested and its `CAP REQ` lines.
use mojo_jojo.Base.{
  ℕ, suc, ◌+◌, ◌≤◌, Bool, true, not, ◌&&◌, ◌⊎◌, List, [], ◌∷◌, ◌++◌, append-nil, append_assoc,
  Option, ◌≡◌, refl, sym, ap, ◌∙◌, inl, inr, arith, Str, All, codes, str_eq, length, length-append,
  ltb, if◌then◌else◌, Bool-cases,
}
use mojo_jojo.Base.Dict
use mojo_jojo.Base.Dict.{Dict}
use mojo_jojo.Commands.{join_words}
use mojo_jojo.Capabilities.{contains}

-- `desired`: a list, or "all"
pub data Desired : Type 0 where
  only : List Str → Desired
  everything : Desired

-- `[...available.keys()]`
unfoldable pub keys : Dict (Option Str) → List Str
keys [] = []
keys ((k, v) ∷ m) = k ∷ keys m

unfoldable pub candidates_of : Desired → Dict (Option Str) → List Str
unfolding keys
candidates_of (Desired.only l) available = l
candidates_of Desired.everything available = keys available

-- The first loop.
unfoldable pub select : Dict (Option Str) → Bool → List Str → List Str
select available sasl [] = []
select available sasl (cap ∷ l) =
    let rest = select available sasl l in
    if not (Dict.has available cap)
    then rest
    else if str_eq cap (codes "sasl") && not sasl
    then rest
    else cap ∷ rest

unfoldable pub add_sasl : Dict (Option Str) → Bool → List Str → List Str
unfolding contains
add_sasl available sasl requested =
    if sasl && Dict.has available (codes "sasl") && not (contains requested (codes "sasl"))
    then requested ++ codes "sasl" ∷ []
    else requested

-- `CAP_DEPENDENCIES.get(cap) ?? []`
unfoldable pub dependencies : Str → List Str
dependencies cap = if str_eq cap (codes "labeled-response") then codes "batch" ∷ [] else []

unfoldable pub add_deps : Dict (Option Str) → List Str → List Str → List Str
unfolding contains
add_deps available [] requested = requested
add_deps available (dep ∷ deps) requested = add_deps available deps (
    if Dict.has available dep && not (contains requested dep)
    then requested ++ dep ∷ []
    else requested)

-- The loop over the copy of what is requested.
unfoldable pub dep_loop : Dict (Option Str) → List Str → List Str → List Str
dep_loop available [] requested = requested
dep_loop available (cap ∷ l) requested =
    dep_loop available l (add_deps available (dependencies cap) requested)

unfoldable pub reconcile_caps : Desired → Dict (Option Str) → Bool → List Str
unfolding candidates_of select add_sasl dependencies add_deps dep_loop
reconcile_caps desired available sasl =
    let requested =
      add_sasl available sasl (select available sasl (candidates_of desired available)) in
    dep_loop available requested requested

-- The loop of `chunkCaps`; `size` is its `length`.
unfoldable pub chunk_loop : List (List Str) → List Str → ℕ → List Str → List (List Str)
chunk_loop chunks [] size [] = chunks
chunk_loop chunks (c ∷ current) size [] = chunks ++ (c ∷ current) ∷ []
chunk_loop chunks [] size (cap ∷ caps) = chunk_loop chunks (cap ∷ []) (size + length cap) caps
chunk_loop chunks (c ∷ current) size (cap ∷ caps) =
    let apart = chunk_loop (chunks ++ (c ∷ current) ∷ []) (cap ∷ []) (length cap) caps in
    let joined = chunk_loop chunks ((c ∷ current) ++ cap ∷ []) (size + (1 + length cap)) caps in
    if ltb 400 (size + 1 + length cap) then apart else joined

unfoldable pub chunk_caps : List Str → List (List Str)
unfolding chunk_loop
chunk_caps caps = chunk_loop [] [] 0 caps

module _ (available : Dict (Option Str)) where
  abbrev Offered : Str → Type 0
  Offered cap = Dict.has available cap ≡ true

  All-concat : (l : List Str) (x : Str) → All Offered l → Offered x → All Offered (l ++ x ∷ [])
  All-concat [] x h k = (k, tt)
  All-concat (y ∷ l) x h k = (h.0, All-concat l x h.1 k)

  select-Offered : (sasl : Bool) (l : List Str) → All Offered (select available sasl l)
  unfolding select
  select-Offered sasl [] = tt
  select-Offered sasl (cap ∷ l) = ground (arith, select-Offered sasl l)

  add_deps-Offered :
      (deps requested : List Str)
      → All Offered requested
      → All Offered (add_deps available deps requested)
  unfolding add_deps
  add_deps-Offered [] requested h = h
  add_deps-Offered (dep ∷ deps) requested h =
      elim (Bool-cases (Dict.has available dep && not (contains requested dep))) [
        | inl e ↦ rw e (
            add_deps-Offered deps (requested ++ dep ∷ [])
              (All-concat requested dep h (ground (arith, e))))
        | inr e ↦ rw e (add_deps-Offered deps requested h)
      ]

  dep_loop-Offered :
      (l requested : List Str)
      → All Offered requested
      → All Offered (dep_loop available l requested)
  unfolding dep_loop
  dep_loop-Offered [] requested h = h
  dep_loop-Offered (cap ∷ l) requested h =
      dep_loop-Offered l (add_deps available (dependencies cap) requested)
        (add_deps-Offered (dependencies cap) requested h)

  add_sasl-Offered :
      (sasl : Bool) (l : List Str) → All Offered l → All Offered (add_sasl available sasl l)
  unfolding add_sasl
  add_sasl-Offered sasl l h =
      elim (Bool-cases
        (sasl && Dict.has available (codes "sasl") && not (contains l (codes "sasl")))) [
          | inl e ↦ rw e (All-concat l (codes "sasl") h (ground (arith, e)))
          | inr e ↦ rw e h
        ]

-- Only capabilities that the server offers are requested.
pub reconcile_caps-Offered :
    (desired : Desired) (available : Dict (Option Str)) (sasl : Bool)
    → All (λ cap. Dict.has available cap ≡ true) (reconcile_caps desired available sasl)
unfolding reconcile_caps
reconcile_caps-Offered desired available sasl =
    let requested =
      add_sasl available sasl (select available sasl (candidates_of desired available)) in
    dep_loop-Offered available requested requested (
      add_sasl-Offered available sasl (select available sasl (candidates_of desired available))
        (select-Offered available sasl (candidates_of desired available)))

unfoldable pub flatten_chunks : List (List Str) → List Str
flatten_chunks [] = []
flatten_chunks (l ∷ ls) = l ++ flatten_chunks ls

flatten-concat :
    (ls : List (List Str)) (l : List Str) → flatten_chunks (ls ++ l ∷ []) ≡ flatten_chunks ls ++ l
unfolding flatten_chunks
flatten-concat [] l = append-nil l
flatten-concat (k ∷ ls) l = rw (flatten-concat ls l) (sym (append_assoc k (flatten_chunks ls) l))

flatten-chunk_loop :
    (chunks : List (List Str)) (current : List Str) (size : ℕ) (caps : List Str)
    → flatten_chunks (chunk_loop chunks current size caps)
      ≡ flatten_chunks chunks ++ (current ++ caps)
unfolding chunk_loop
flatten-chunk_loop chunks [] size [] = sym (append-nil (flatten_chunks chunks))
flatten-chunk_loop chunks (c ∷ current) size [] =
    rw (append-nil current) (flatten-concat chunks (c ∷ current))
flatten-chunk_loop chunks [] size (w ∷ caps) =
    flatten-chunk_loop chunks (w ∷ []) (size + length w) caps
flatten-chunk_loop chunks (c ∷ current) size (w ∷ caps) =
    elim (Bool-cases (ltb 400 (size + 1 + length w))) [
      | inl e ↦ rw e (
          flatten-chunk_loop (chunks ++ (c ∷ current) ∷ []) (w ∷ []) (length w) caps
          ∙ ap (λ l. l ++ (w ∷ caps)) (flatten-concat chunks (c ∷ current))
          ∙ append_assoc (flatten_chunks chunks) (c ∷ current) (w ∷ caps))
      | inr e ↦ rw e (
          flatten-chunk_loop chunks ((c ∷ current) ++ w ∷ []) (size + (1 + length w)) caps
          ∙ ap (λ l. flatten_chunks chunks ++ l) (append_assoc (c ∷ current) (w ∷ []) caps))
    ]

-- The words of a line fit in 400 characters, or there is one word.
abbrev pub Fits : List Str → Type 0
Fits l = (length (join_words l) ≤ 400) ⊎ (length l ≤ 1)

length-join_words :
    (a : Str) (l : List Str) (w : Str)
    → length (join_words ((a ∷ l) ++ w ∷ [])) ≡ length (join_words (a ∷ l)) + suc (length w)
unfolding join_words
length-join_words a [] w = length-append a (b' ' ∷ w)
length-join_words a (b ∷ l) w = omega (
  arith,
  length-append a (b' ' ∷ join_words ((b ∷ l) ++ w ∷ [])),
  length-append a (b' ' ∷ join_words (b ∷ l)),
  length-join_words b l w,
)

Fits-concat : (ls : List (List Str)) (l : List Str) → All Fits ls → Fits l → All Fits (ls ++ l ∷ [])
Fits-concat [] l h k = (k, tt)
Fits-concat (x ∷ ls) l h k = (h.0, Fits-concat ls l h.1 k)

module _ where
  chunk_loop-Fits :
      (chunks : List (List Str)) (current : List Str) (size : ℕ) (caps : List Str)
      → All Fits chunks
      → Fits current
      → size ≡ length (join_words current)
      → All Fits (chunk_loop chunks current size caps)
  unfolding chunk_loop join_words
  chunk_loop-Fits chunks [] size [] h f e = h
  chunk_loop-Fits chunks (c ∷ current) size [] h f e = Fits-concat chunks (c ∷ current) h f
  chunk_loop-Fits chunks [] size (w ∷ caps) h f e =
      chunk_loop-Fits chunks (w ∷ []) (size + length w) caps h (inr (omega arith))
        (omega (arith, e))
  chunk_loop-Fits chunks (c ∷ current) size (w ∷ caps) h f e =
      elim (Bool-cases (ltb 400 (size + 1 + length w))) [
        | inl q ↦ rw q (
            chunk_loop-Fits (chunks ++ (c ∷ current) ∷ []) (w ∷ []) (length w) caps
              (Fits-concat chunks (c ∷ current) h f) (inr (omega arith)) refl)
        | inr q ↦ rw q (
            let n = length-join_words c current w in
            chunk_loop-Fits chunks ((c ∷ current) ++ w ∷ []) (size + (1 + length w)) caps h
              (inl (ground (arith, n, q, e))) (omega (arith, n, e)))
      ]

-- The `CAP REQ` lines carry the capabilities that were given, each once and in their order, and no
-- line has more than 400 characters of them unless it carries a single one.
pub chunk_caps-Fits :
    (caps : List Str) → (flatten_chunks (chunk_caps caps) ≡ caps) × All Fits (chunk_caps caps)
unfolding chunk_caps flatten_chunks join_words
chunk_caps-Fits caps =
    (flatten-chunk_loop [] [] 0 caps, chunk_loop-Fits [] [] 0 caps tt (inr (omega arith)) refl)
