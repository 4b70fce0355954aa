-- ===== src/Control/Assignment.antt =====
-- internal/control/service.go: the Overseer's operations on claims, control and session names.
use fallout_terminal.Common.{
  ℕ, Bool, false, not, ◌&&◌, ◌||◌, Option, none, some, List, [], ◌∷◌, ◌++◌, Bytes, Dict, equal,
  lookup, insert, delete, has, is_some, is_blank, trim_space, rune_count, ltb, if◌then◌else◌,
}
use fallout_terminal.Domain.Coordination.{LogicalSession, LiveBroadcast}
use fallout_terminal.Domain.Snapshots.{RoutedLiveState}
use fallout_terminal.Live.Runtime.{Source}
use fallout_terminal.Control.Answers.{
  CoordinationError, name_blank, name_too_long, name_in_use, no_broadcast, unknown_session,
  unknown_character, session_has_character, character_taken, session_has_no_character,
  session_disconnected, Reply, refuse, accept, accept_with, with_runtime, overseer, refused_early,
}
use fallout_terminal.Control.Claims.{
  session_assigned, character_owner, character_claimed, is_value, clear_controller_if_session,
}
use fallout_terminal.Control.Commit.{
  Config, Coordinator, Effect, Transition, no_effect, state_effects,
}
use fallout_terminal.Control.Live.{project_active_terminal}
use fallout_terminal.Control.Snapshots.{is_connected}

abbrev pub with_broadcast : Coordinator → LiveBroadcast → Coordinator
with_broadcast c b = with_runtime c (record c.runtime { broadcast = some b })

-- Another session than `id` that goes by `name`.
unfoldable pub name_taken : Bytes → Bytes → Dict LogicalSession → Bool
unfolding equal
name_taken id name [] = false
name_taken id name ((key, session) ∷ sessions) =
    not (equal key id) && equal session.fallback_name name || name_taken id name sessions

abbrev pub rename_to :
    Bytes → Bytes → Coordinator → Option LogicalSession → Transition (Option CoordinationError)
rename_to id name c none = refuse c (some unknown_session)
rename_to id name c (some session) =
    if equal session.fallback_name name
    then refuse c none
    else if name_taken id name c.runtime.sessions_by_id
    then refuse c (some name_in_use)
    else accept (
        with_runtime c (record c.runtime {
          sessions_by_id =
              insert id (record session { fallback_name = name }) c.runtime.sessions_by_id;
        }))

abbrev pub rename_step : Bytes → Bytes → Coordinator → Transition (Option CoordinationError)
rename_step id name c = rename_to id name c (lookup id c.runtime.sessions_by_id)

abbrev pub max_fallback_name_runes : ℕ
max_fallback_name_runes = 80

-- `RenameLogicalSession`, with `validatedCoordinationName`.
unfoldable pub rename_logical_session :
    Config → Bytes → Bytes → Coordinator → Coordinator × List Effect × Reply
unfolding lookup insert name_taken overseer
rename_logical_session cfg id name c =
    if is_blank name
    then refused_early c name_blank
    else if ltb max_fallback_name_runes (rune_count (trim_space name))
    then refused_early c name_too_long
    else overseer cfg (rename_step id (trim_space name)) c

abbrev pub shown_effects : Bytes → Option RoutedLiveState → List Effect
shown_effects session none = []
shown_effects session (some state) =
    record no_effect { session_id = session; live = some state } ∷ []

-- `appendCurrentTerminalEffect`: the working copy, and the effects with the terminal.
unfoldable pub append_current_terminal_effect :
    Source → Coordinator → List Effect → Bytes → Coordinator × List Effect
unfolding project_active_terminal
append_current_terminal_effect source c effects session =
    let shown = project_active_terminal source c.runtime in
    (with_runtime c shown.0, effects ++ shown_effects session shown.1)

-- Both sides of a claim.
unfoldable pub claim : LiveBroadcast → Bytes → Bytes → LiveBroadcast
unfolding insert
claim b session character = record b {
  assignments_by_session = insert session character b.assignments_by_session;
  session_by_character = insert character session b.session_by_character;
}

-- The first in control, if nobody is.
abbrev pub take_control : Bool → Bytes → LiveBroadcast → LiveBroadcast
take_control able session b =
    if not (is_some b.controller_session_id) && able
    then record b { controller_session_id = some session }
    else b

abbrev pub accept_showing : Source → Coordinator → Bytes → Transition (Option CoordinationError)
accept_showing source c session =
    let shown = append_current_terminal_effect source c (state_effects c.runtime) session in
    accept_with shown.0 shown.1

abbrev pub assign_to :
    Source
    → Bytes
    → Bytes
    → Coordinator
    → Option LiveBroadcast
    → Option LogicalSession
    → Transition (Option CoordinationError)
assign_to source id character c none _ = refuse c (some no_broadcast)
assign_to source id character c (some b) none = refuse c (some unknown_session)
assign_to source id character c (some b) (some session) =
    if not (has character c.runtime.roster_by_id)
    then refuse c (some unknown_character)
    else if session_assigned b id
    then refuse c (some session_has_character)
    else if character_claimed b character
    then refuse c (some character_taken)
    else accept_showing source
        (with_broadcast c
          (take_control (is_connected session.connection_ids) id (claim b id character)))
        id

abbrev pub assign_step :
    Source → Bytes → Bytes → Coordinator → Transition (Option CoordinationError)
assign_step source id character c =
    assign_to source id character c c.runtime.broadcast (lookup id c.runtime.sessions_by_id)

-- `AssignCharacter`.
unfoldable pub assign_character :
    Config → Bytes → Bytes → Coordinator → Coordinator × List Effect × Reply
unfolding lookup session_assigned character_owner claim append_current_terminal_effect overseer
assign_character cfg id character c = overseer cfg (assign_step cfg.source id character) c

-- Both sides of a claim taken away, and control with them.
unfoldable pub release : LiveBroadcast → Bytes → Bytes → LiveBroadcast
unfolding delete clear_controller_if_session
release b session character =
    clear_controller_if_session
      (record b {
        assignments_by_session = delete session b.assignments_by_session;
        session_by_character = delete character b.session_by_character;
      })
      session

abbrev pub release_claim :
    Bytes → Coordinator → LiveBroadcast → Option Bytes → Transition (Option CoordinationError)
release_claim id c b none = refuse c (some session_has_no_character)
release_claim id c b (some character) = accept (with_broadcast c (release b id character))

abbrev pub release_step :
    Bytes → Coordinator → Option LiveBroadcast → Transition (Option CoordinationError)
release_step id c none = refuse c (some no_broadcast)
release_step id c (some b) =
    if not (has id c.runtime.sessions_by_id)
    then refuse c (some unknown_session)
    else release_claim id c b (lookup id b.assignments_by_session)

-- `ReleaseCharacter`.
unfoldable pub release_character : Config → Bytes → Coordinator → Coordinator × List Effect × Reply
unfolding lookup release overseer
release_character cfg id c = overseer cfg (λ now. release_step id now now.runtime.broadcast) c

-- The claim of the owner, if there is one, is taken away on its side.
abbrev pub vacate : LiveBroadcast → Option Bytes → LiveBroadcast
vacate b none = b
vacate b (some owner) =
    clear_controller_if_session
      (record b { assignments_by_session = delete owner b.assignments_by_session }) owner

unfoldable pub move : LiveBroadcast → Bytes → Bytes → LiveBroadcast
unfolding delete character_owner clear_controller_if_session claim
move b character to = claim (vacate b (character_owner b character)) to character

abbrev pub move_step :
    Bytes → Bytes → Coordinator → Option LiveBroadcast → Transition (Option CoordinationError)
move_step character to c none = refuse c (some no_broadcast)
move_step character to c (some b) =
    if not (has character c.runtime.roster_by_id)
    then refuse c (some unknown_character)
    else if not (has to c.runtime.sessions_by_id)
    then refuse c (some unknown_session)
    else if session_assigned b to
    then refuse c (some session_has_character)
    else accept (with_broadcast c (move b character to))

-- `MoveCharacter`.
unfoldable pub move_character :
    Config → Bytes → Bytes → Coordinator → Coordinator × List Effect × Reply
unfolding lookup session_assigned move overseer
move_character cfg character to c =
    overseer cfg (λ now. move_step character to now now.runtime.broadcast) c

abbrev pub control_to :
    Bytes
    → Coordinator
    → Option LiveBroadcast
    → Option LogicalSession
    → Transition (Option CoordinationError)
control_to id c none _ = refuse c (some no_broadcast)
control_to id c (some b) none = refuse c (some unknown_session)
control_to id c (some b) (some session) =
    if not (session_assigned b id)
    then refuse c (some session_has_no_character)
    else if not (is_connected session.connection_ids)
    then refuse c (some session_disconnected)
    else if is_value b.controller_session_id id
    then refuse c none
    else accept (with_broadcast c (record b { controller_session_id = some id }))

-- `SetActiveController`.
unfoldable pub set_active_controller :
    Config → Bytes → Coordinator → Coordinator × List Effect × Reply
unfolding lookup session_assigned overseer
set_active_controller cfg id c =
    overseer cfg
      (λ now. control_to id now now.runtime.broadcast (lookup id now.runtime.sessions_by_id)) c
