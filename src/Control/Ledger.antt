-- ===== src/Control/Ledger.antt =====
-- What the claims of a broadcast mean, without the maps that hold them: each session has at most
-- one character, each character at most one session, and at most one session is in control.
pub mod Shown
pub mod Assigns
pub mod Moves
pub mod Refines
use fallout_terminal.Common.{
  Bool, true, false, not, ◌&&◌, Option, none, some, [], Bytes, Dict, equal, lookup, is_some,
  if◌then◌else◌,
}
use fallout_terminal.Domain.Coordination.{LiveBroadcast, LogicalSession, ProcessRuntime}
use fallout_terminal.Control.Claims.{is_value}
use fallout_terminal.Control.Snapshots.{is_connected}

pub record Ledger : Type 0 where
  pub on : Bool
  pub character_of : Bytes → Option Bytes
  pub owner_of : Bytes → Option Bytes
  pub in_control : Option Bytes

abbrev pub assignments : Option LiveBroadcast → Dict Bytes
assignments none = []
assignments (some b) = b.assignments_by_session

abbrev pub owners : Option LiveBroadcast → Dict Bytes
owners none = []
owners (some b) = b.session_by_character

abbrev pub controller : Option LiveBroadcast → Option Bytes
controller none = none
controller (some b) = b.controller_session_id

-- The ledger that a broadcast stands for.
abbrev pub ledger_of : Option LiveBroadcast → Ledger
ledger_of b = record {
  on = is_some b;
  character_of = λ s. lookup s (assignments b);
  owner_of = λ c. lookup c (owners b);
  in_control = controller b;
}

-- The session has the character.
abbrev pub hold : Bytes → Bytes → Ledger → Ledger
hold s c l = record l {
  character_of = λ t. if equal s t then some c else l.character_of t;
  owner_of = λ d. if equal c d then some s else l.owner_of d;
}

abbrev pub taken_by : Option Bytes → Bool → Bytes → Option Bytes
taken_by none able s = if able then some s else none
taken_by (some t) able s = some t

abbrev pub given_up : Option Bytes → Bytes → Option Bytes
given_up none s = none
given_up (some t) s = if equal t s then none else some t

-- The session has no character, and no control.
abbrev pub leave : Option Bytes → Ledger → Ledger
leave none l = l
leave (some s) l = record l {
  character_of = λ t. if equal s t then none else l.character_of t;
  in_control = given_up l.in_control s;
}

-- Nor has the character a session.
abbrev pub drop_claim : Bytes → Option Bytes → Ledger → Ledger
drop_claim s none l = l
drop_claim s (some c) l = record l {
  character_of = λ t. if equal s t then none else l.character_of t;
  owner_of = λ d. if equal c d then none else l.owner_of d;
  in_control = given_up l.in_control s;
}

-- The four operations of the Overseer, by what they mean.
module _ (known connected listed : Bytes → Bool) where
  abbrev pub assigning : Bytes → Bytes → Ledger → Ledger
  assigning s c l =
      if l.on
        && known s
        && listed c
        && not (is_some (l.character_of s))
        && not (is_some (l.owner_of c))
      then record (hold s c l) { in_control = taken_by l.in_control (connected s) s }
      else l

  abbrev pub can_release : Bytes → Ledger → Bool
  can_release s l = l.on && known s && is_some (l.character_of s)

  abbrev pub releasing : Bytes → Ledger → Ledger
  releasing s l = if l.on && known s then drop_claim s (l.character_of s) l else l

  abbrev pub can_move : Bytes → Bytes → Ledger → Bool
  can_move c to l = l.on && listed c && known to && not (is_some (l.character_of to))

  abbrev pub moving : Bytes → Bytes → Ledger → Ledger
  moving c to l = if can_move c to l then hold to c (leave (l.owner_of c) l) else l

  -- Where it is in control already, there is nothing to do.
  abbrev pub can_control : Bytes → Ledger → Bool
  can_control s l =
      l.on && known s && is_some (l.character_of s) && connected s && not (is_value l.in_control s)

  abbrev pub controlling : Bytes → Ledger → Ledger
  controlling s l =
      if l.on && known s && is_some (l.character_of s) && connected s
      then record l { in_control = some s }
      else l

abbrev pub connected_as : Option LogicalSession → Bool
connected_as none = false
connected_as (some session) = is_connected session.connection_ids
