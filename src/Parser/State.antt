-- ===== src/Parser/State.antt =====
-- The locals of `parse`, and the closure `flushTag`, which Parser.ts and FlatParser.ts both have.
use mojo_jojo.Base.{ℕ, ◌-◌, Bool, false, List, [], Option, none, some, Str, Bytes, take, drop}
use mojo_jojo.Base.JsObject.{assign}
use mojo_jojo.Message.{Source, Tags, Message}

pub record ParseState : Type 0 where
  pub tags : Tags
  pub params : List Str
  pub source : Option Source
  pub command : Str
  pub tag_key : Option Str
  pub tag_value : Str
  pub client_prefix : Bool

unfoldable pub initial : ParseState
initial = record {
  tags = [];
  params = [];
  source = none;
  command = [];
  tag_key = none;
  tag_value = [];
  client_prefix = false;
}

unfoldable pub flush_tag : ParseState → ParseState
flush_tag s = record s {
  tags = elim s.tag_key [ none ↦ s.tags | some key ↦ assign s.tags key s.tag_value ];
  tag_key = none;
  tag_value = [];
}

-- `buffer.subarray(start, end)`
unfoldable pub subarray : Bytes → ℕ → ℕ → Bytes
subarray buffer start end = take (end - start) (drop start buffer)

-- The last flush and `return { tags, source, command, params }`
unfoldable pub finish : ParseState → Message
unfolding flush_tag
finish s =
    let s' = flush_tag s in
    record { tags = s'.tags; source = s'.source; command = s'.command; params = s'.params }

-- A throw ends the loop.
abbrev pub and_then : {A : Type 0} → Option ParseState → (ParseState → Option A) → Option A
and_then none f = none
and_then (some s) f = f s
