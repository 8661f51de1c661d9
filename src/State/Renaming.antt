-- ===== src/State/Renaming.antt =====
-- StateStore.ts, `renameUser`: what a NICK changes in the users, the channels and their members.
use mojo_jojo.Base.{
  ℕ, zero, suc, Bool, true, false, ◌==◌, str_eq, str_eq_iff, get_elem?, set, List, [], ◌∷◌, Option,
  none, some, ◌≡◌, refl, sym, ap, ◌∙◌, subst, arith, Str, All, inl, inr, Bool-cases, Option-cases,
  if_lem, when_some, if◌then◌else◌,
}
use mathlib.Core.Option.{none-ne-some, some-injective}
use mojo_jojo.Base.Dict
use mojo_jojo.Base.Dict.{Dict, Distinct, get-absent}
use mojo_jojo.CaseMapping.{CaseMapping, normalize, equals}
use mojo_jojo.CaseMapping.IrcMap
use mojo_jojo.CaseMapping.IrcMap.{Entry, IrcMap}
use mojo_jojo.CaseMapping.MapLaws.{IsKeyed, delete-IsKeyed, get-delete, get-set-delete}
use mojo_jojo.Entities.User.{User, Heap, rename_to, user_at}
use mojo_jojo.Entities.Member.{Member}
use mojo_jojo.Entities.MemberList
use mojo_jojo.Entities.MemberList.{Members}
use mojo_jojo.Entities.Channel.{Channel}
use mojo_jojo.Entities.Server.{set_nick}
use mojo_jojo.State.Store.{
  StateStore, update_slot, modify, with_channels, with_channel, with_members, with_user, with_users,
  is_self, user, channel, channels_listing, channels_with_user, rename_members, move_user,
  rename_found, rename_user,
}
use mojo_jojo.State.Identity.{rename_user-user}

get_elem-set :
    (l : Heap) (id place : ℕ) (u v : User)
    → get_elem? l id ≡ some u
    → get_elem? (set l id v) place ≡ (if place == id then some v else get_elem? l place)
get_elem-set [] id place u v h = absurd (none-ne-some u h)
get_elem-set (x ∷ l) zero zero u v h = refl
get_elem-set (x ∷ l) zero (suc place) u v h = ground arith
get_elem-set (x ∷ l) (suc id) zero u v h = ground arith
get_elem-set (x ∷ l) (suc id) (suc place) u v h = ground (arith, get_elem-set l id place u v h)

unfoldable apply_found {ℓ} : {V : Type ℓ} → (V → V) → Option V → Option V
apply_found f none = none
apply_found f (some v) = some (f v)

module _ {V : Type 0} where
  unfoldable change : (V → V) → Option (Entry V) → Option (Entry V)
  change f none = none
  change f (some e) = some (record e { value = f e.value })

  get-update_slot :
      (m : Dict (Entry V)) (key k : Str) (f : V → V)
      → Dict.get (update_slot m key f) k
        ≡ (if str_eq key k then change f (Dict.get m k) else Dict.get m k)
  unfolding update_slot Dict.get change
  get-update_slot [] key k f = ground arith
  get-update_slot ((j, e) ∷ m) key k f =
      ground (arith, str_eq_iff j k, str_eq_iff j key, str_eq_iff key k, get-update_slot m key k f)

-- Each channel is in the slot of its name.
abbrev pub Named : CaseMapping → Dict (Entry Channel) → Type 0
Named m entries = All (λ s. s.0 ≡ normalize m s.1.value.name) entries

module _ (old_nick new_nick : Str) where
  abbrev move : Channel → Channel
  move = with_members (λ members. MemberList.rename members old_nick new_nick)

  unfoldable move_all : List Str → IrcMap Channel → IrcMap Channel
  move_all [] m = m
  move_all (name ∷ names) m = move_all names (modify m name move)

  rename_members-channels :
      (names : List Str) (store : StateStore)
      → ((rename_members names old_nick new_nick store).server.channels
          ≡ move_all names store.server.channels)
        × ((rename_members names old_nick new_nick store).heap ≡ store.heap)
  unfolding rename_members with_channel with_channels move_all
  rename_members-channels [] store = (refl, refl)
  rename_members-channels (name ∷ names) store = rename_members-channels names _

  move_all-mapper : (names : List Str) (m : IrcMap Channel) → (move_all names m).mapper ≡ m.mapper
  unfolding move_all modify
  move_all-mapper [] m = refl
  move_all-mapper (name ∷ names) m = move_all-mapper names _

  unfoldable listed : Option (Entry Channel) → Bool
  listed none = false
  listed (some e) = IrcMap.has e.value.members old_nick

  move_all-get :
      (entries : Dict (Entry Channel)) (m : IrcMap Channel) (k : Str)
      → Distinct entries
      → Named m.mapper entries
      → Dict.get (move_all (channels_listing old_nick entries) m).entries k ≡ (
          if listed (Dict.get entries k)
          then change move (Dict.get m.entries k)
          else Dict.get m.entries k)
  unfolding move_all channels_listing modify Dict.get listed
  move_all-get [] m k d n = refl
  move_all-get ((j, e) ∷ entries) m k d n =
      let later = move_all-get entries (modify m e.value.name move) k d.1 n.1 in
      let now = get-update_slot m.entries j k move in
      let absent : str_eq j k ≡ true → Dict.get entries k ≡ none = λ t.
        subst (λ k. Dict.get entries k ≡ none) ((str_eq_iff j k).0 t) (get-absent entries j d.0) in
      elim (Bool-cases (IrcMap.has e.value.members old_nick)) [
        | inr q ↦ rw q (
            move_all-get entries m k d.1 n.1 ∙ elim (Bool-cases (str_eq j k)) [
              | inl t ↦ rw (t, absent t, q) refl
              | inr t ↦ rw t refl
            ])
        | inl q ↦ rw q (
            later
            ∙ rw (sym n.0, now)
                (elim (Bool-cases (str_eq j k)) [
                  | inl t ↦ rw (t, absent t, q) refl
                  | inr t ↦ rw t refl
                ]))
      ]

  -- A channel that does not list the nick is as it was.
  move-absent : (c : Channel) → IrcMap.has c.members old_nick ≡ false → move c ≡ c
  unfolding with_members MemberList.rename IrcMap.has IrcMap.get
  move-absent c h =
      ap (λ (members : Members). record c { members = members })
        (rw (get-absent c.members.entries (normalize c.members.mapper old_nick) h) refl)

  change-absent :
      (o : Option (Entry Channel)) → (if listed o then change move o else o) ≡ change move o
  unfolding listed change
  change-absent none = refl
  change-absent (some e) = elim (Bool-cases (IrcMap.has e.value.members old_nick)) [
    | inl q ↦ rw q refl
    | inr q ↦ rw (q, move-absent e.value q) refl
  ]

  -- Every channel has its members moved, and nothing else changed.
  move_all-found :
      (m : IrcMap Channel) (name : Str) (c : Channel)
      → Distinct m.entries
      → Named m.mapper m.entries
      → IrcMap.get m name ≡ some c
      → IrcMap.get (move_all (channels_listing old_nick m.entries) m) name ≡ some (move c)
  unfolding IrcMap.get change
  move_all-found m name c d n h =
      rw
        (
          move_all-mapper (channels_listing old_nick m.entries) m,
          move_all-get m.entries m (normalize m.mapper name) d n,
          change-absent (Dict.get m.entries (normalize m.mapper name)),
        )
        (value (Dict.get m.entries (normalize m.mapper name)) h)
    where
      value :
          (o : Option (Entry Channel))
          → IrcMap.value_of o ≡ some c
          → IrcMap.value_of (change move o) ≡ some (move c)
      value none h = absurd (none-ne-some c h)
      value (some e) h = ap (λ c. some (move c)) (some-injective e.value c h)

  -- What a nick finds among members where one of them moved from the old nick to the new.
  unfoldable pub moved_lookup : Members → Str → Option Member
  moved_lookup members other =
      when_some (IrcMap.get members old_nick) (IrcMap.get members other) λ member.
        if equals members.mapper new_nick other
        then some member
        else if equals members.mapper old_nick other
        then none
        else IrcMap.get members other

  rename-lookup :
      (members : Members) (other : Str)
      → IsKeyed members
      → IrcMap.get (MemberList.rename members old_nick new_nick) other ≡ moved_lookup members other
  unfolding MemberList.rename moved_lookup IrcMap.delete
  rename-lookup members other k = elim (Option-cases (IrcMap.get members old_nick)) [
    | inl e ↦ rw e refl
    | inr (member, e) ↦ rw e (
        (get-set-delete (IrcMap.delete members old_nick) new_nick other member
          (delete-IsKeyed members old_nick k)).0
        ∙ ap (λ o. if equals members.mapper new_nick other then some member else o)
            (get-delete members old_nick other k))
  ]

rename_user-found :
    (old_nick new_nick : Str) (id : ℕ) (store : StateStore)
    → user store old_nick ≡ some id
    → user store new_nick ≡ none
    → (rename_user old_nick new_nick store).0 ≡ (rename_found old_nick new_nick id store).0
unfolding rename_user
rename_user-found old_nick new_nick id store known free = rw (known, free) refl

module _ (old_nick new_nick : Str) (id : ℕ) (store : StateStore) where
  -- The heap and the channels behind the rename proper.
  rename_found-moves :
      (u : User) (place : ℕ) (name : Str) (c : Channel)
      → get_elem? store.heap id ≡ some u
      → Distinct store.server.channels.entries
      → Named store.server.channels.mapper store.server.channels.entries
      → channel store name ≡ some c
      → (get_elem? (rename_found old_nick new_nick id store).0.heap place ≡ (
          if place == id then some (record u { nick = new_nick }) else get_elem? store.heap place))
        × (channel (rename_found old_nick new_nick id store).0 name
            ≡ some (move old_nick new_nick c))
  unfolding rename_found move_user with_users with_user set_nick rename_to channel
      channels_with_user
  rename_found-moves u place name c h d n found =
      let Q = λ (s : StateStore).
        (get_elem? s.heap place ≡ (
          if place == id then some (record u { nick = new_nick }) else get_elem? store.heap place))
        × (channel s name ≡ some (move old_nick new_nick c)) in
      let r = rename_members-channels old_nick new_nick (channels_with_user store old_nick) _ in
      let same : user_at store.heap id ≡ u = rw (h, user_at) refl in
      let moved : Q (move_user old_nick new_nick id store) = (
        ap (λ heap. get_elem? heap place) r.1
            ∙ get_elem-set store.heap id place u (rename_to new_nick (user_at store.heap id)) h
            ∙ ap
                (λ v.
                  if place == id
                  then some (record v { nick = new_nick })
                  else get_elem? store.heap place)
                same,
        ap (λ channels. IrcMap.get channels name) r.0
            ∙ move_all-found old_nick new_nick store.server.channels name c d n found,
      ) in
      if_lem Q (is_self store old_nick) _ _ (λ e. moved) (λ e. moved)

-- Where users are in the slots of their nicks, channels in those of their names, none twice, and the
-- members of a channel in those of theirs, a rename of a known user onto a nick that nobody has
-- succeeds. The new nick then finds that very user, the old one nobody unless the casemapping equates
-- the two, and every other nick whom it found before. The user has the new nick, and no other data of
-- it nor any other user changed. A channel that was there is there with nothing changed but its
-- members: if the old nick was among them, that membership is found under the new nick, nothing under
-- the old unless the casemapping equates the two, and under every other nick what was.
pub rename_user-moves :
    (old_nick new_nick other name : Str) (id place : ℕ) (store : StateStore) (u : User)
    (c : Channel)
    → IsKeyed store.server.users
    → Distinct store.server.channels.entries
    → Named store.server.channels.mapper store.server.channels.entries
    → IsKeyed c.members
    → user store old_nick ≡ some id
    → user store new_nick ≡ none
    → get_elem? store.heap id ≡ some u
    → channel store name ≡ some c
    → ((rename_user old_nick new_nick store).1 ≡ some (id, channels_with_user store old_nick))
      × (user (rename_user old_nick new_nick store).0 other ≡ (
          if equals store.server.users.mapper new_nick other
          then some id
          else if equals store.server.users.mapper old_nick other
          then none
          else user store other))
      × (get_elem? (rename_user old_nick new_nick store).0.heap place ≡ (
          if place == id then some (record u { nick = new_nick }) else get_elem? store.heap place))
      × ((members : Members) × (channel (rename_user old_nick new_nick store).0 name
            ≡ some (record c { members = members }))
          × (IrcMap.get members other ≡ moved_lookup old_nick new_nick c.members other))
unfolding with_members
rename_user-moves old_nick new_nick other name id place store u c k d n kc known free here found =
    let lookups = rename_user-user old_nick new_nick other id store k known free in
    let moves = rename_found-moves old_nick new_nick id store u place name c here d n found in
    let same = rename_user-found old_nick new_nick id store known free in
    (
      lookups.0,
      lookups.1,
      ap (λ (s : StateStore). get_elem? s.heap place) same ∙ moves.0,
      (
        MemberList.rename c.members old_nick new_nick,
        ap (λ (s : StateStore). channel s name) same ∙ moves.1,
        rename-lookup old_nick new_nick c.members other kc,
      ),
    )
