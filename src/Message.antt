-- ===== src/Message.antt =====
-- packages/irc-message/src/types.ts: the intermediate representation of a line.
use mojo_jojo.Base.{Option, List, Str}
use mojo_jojo.Base.Dict.{Dict}

pub record Source : Type 0 where
  pub name : Str
  pub user : Option Str
  pub host : Option Str

-- A tag object, in the order of `Object.keys`.
abbrev pub Tags : Type 0
Tags = Dict Str

pub record Message : Type 0 where
  pub tags : Tags
  pub source : Option Source
  pub command : Str
  pub params : List Str
