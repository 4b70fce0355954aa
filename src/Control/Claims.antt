-- ===== src/Control/Claims.antt =====
-- internal/control/service.go: who has which character, and who is in control.
pub mod Bound
use fallout_terminal.Common.{
  Bool, true, false, not, ◌||◌, Option, none, some, List, [], ◌∷◌, Bytes, Dict, equal, lookup, has,
  is_some, if◌then◌else◌,
}
use fallout_terminal.Domain.Coordination.{LiveBroadcast, ProcessRuntime, CharacterRosterEntry}
use fallout_terminal.Domain.Snapshots.{PlayerRole, unassigned, active, observer}

-- `range m` until the value is `v`.
unfoldable pub key_of : Bytes → Dict Bytes → Option Bytes
key_of v [] = none
key_of v ((k, w) ∷ m) = if equal w v then some k else key_of v m

-- `sessionAssigned`.
unfoldable pub session_assigned : LiveBroadcast → Bytes → Bool
unfolding lookup key_of
session_assigned b session =
    has session b.assignments_by_session || is_some (key_of session b.session_by_character)

abbrev pub or_else : Option Bytes → Option Bytes → Option Bytes
or_else none other = other
or_else (some a) other = some a

-- `characterOwner`.
unfoldable pub character_owner : LiveBroadcast → Bytes → Option Bytes
unfolding lookup key_of
character_owner b character =
    or_else (lookup character b.session_by_character) (key_of character b.assignments_by_session)

-- `characterClaimed`.
abbrev pub character_claimed : LiveBroadcast → Bytes → Bool
character_claimed b character = is_some (character_owner b character)

abbrev pub is_value : Option Bytes → Bytes → Bool
is_value none v = false
is_value (some w) v = equal w v

-- `clearControllerIfSession`.
unfoldable pub clear_controller_if_session : LiveBroadcast → Bytes → LiveBroadcast
clear_controller_if_session b session =
    if is_value b.controller_session_id session
    then record b { controller_session_id = none }
    else b

abbrev pub role_in : LiveBroadcast → Bytes → PlayerRole
role_in b session =
    if not (has session b.assignments_by_session)
    then unassigned
    else if is_value b.controller_session_id session
    then active
    else observer

-- `roleForSession`.
unfoldable pub role_for_session : Option LiveBroadcast → Bytes → PlayerRole
unfolding lookup
role_for_session none session = unassigned
role_for_session (some b) session = role_in b session

abbrev pub entry_of : ProcessRuntime → Option Bytes → Option CharacterRosterEntry
entry_of runtime none = none
entry_of runtime (some character) = lookup character runtime.roster_by_id

abbrev pub assigned_in : ProcessRuntime → Option LiveBroadcast → Bytes → Option CharacterRosterEntry
assigned_in runtime none session = none
assigned_in runtime (some b) session = entry_of runtime (lookup session b.assignments_by_session)

-- `assignedCharacter`.
unfoldable pub assigned_character : ProcessRuntime → Bytes → Option CharacterRosterEntry
unfolding lookup
assigned_character runtime session = assigned_in runtime runtime.broadcast session
