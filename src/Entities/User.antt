-- ===== src/Entities/User.antt =====
-- packages/irc-client/src/entities/User.ts. Users are shared objects: they stand in the list of all
-- users made, and the maps hold their places in it.
use mojo_jojo.Base.{
  ℕ, Bool, false, ◌||◌, List, [], Option, none, some, Str, codes, str_eq, get_elem?, if◌then◌else◌,
}
use mojo_jojo.Message.{Source}

pub record User : Type 0 where
  pub nick : Str
  pub username : Option Str
  pub host : Option Str
  pub real_name : Option Str
  pub account : Option Str
  pub away : Bool
  pub is_self : Bool

unfoldable pub new_user : Str → Bool → User
new_user nick is_self = record {
  nick = nick;
  username = none;
  host = none;
  real_name = none;
  account = none;
  away = false;
  is_self = is_self;
}

unfoldable pub rename_to : Str → User → User
rename_to nick user = record user { nick = nick }

-- `if (value !== undefined) field = value`
abbrev pub overwrite : Option Str → Option Str → Option Str
overwrite none old = old
overwrite (some value) old = some value

unfoldable pub update_from_source : Source → User → User
update_from_source source user = record user {
  username = overwrite source.user user.username;
  host = overwrite source.host user.host;
}

unfoldable pub set_real_name : Option Str → User → User
set_real_name real_name user = record user { real_name = real_name }

unfoldable pub logged_in : Option Str → Option Str
logged_in none = none
logged_in (some account) =
    if str_eq account [] || str_eq account (codes "*") then none else some account

unfoldable pub set_account : Option Str → User → User
unfolding logged_in
set_account account user = record user { account = logged_in account }

unfoldable pub set_away : Bool → User → User
set_away away user = record user { away = away }

-- The users made, by their places.
abbrev pub Heap : Type 0
Heap = List User

-- The user at a place; every place that the state holds is taken.
abbrev pub user_at : Heap → ℕ → User
user_at heap id = elim (get_elem? heap id) [ none ↦ new_user [] false | some user ↦ user ]

abbrev pub nick_of : Heap → ℕ → Str
nick_of heap id = (user_at heap id).nick

abbrev pub is_self_of : Heap → ℕ → Bool
is_self_of heap id = (user_at heap id).is_self
