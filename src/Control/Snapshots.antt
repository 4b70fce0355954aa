-- ===== src/Control/Snapshots.antt =====
-- internal/control/service.go: the projections for the Overseer and for one player.
use fallout_terminal.Common.{
  Bool, true, false, Option, none, some, List, [], ◌∷◌, map, ◌%◌, ◌^◌, length, Bytes, lookup,
  is_some, keys, sorted, if◌then◌else◌, ℕ,
}
use fallout_terminal.Domain.Coordination.{
  Connections, LogicalSession, CharacterRosterEntry, LiveBroadcast, ProcessRuntime,
  PlayerConfigHandle, TerminalSwitchDecision, PendingCommandExecution, PendingTerminalNavigation,
  TerminalNavigationNotice,
}
use fallout_terminal.Domain.Runtime.{TerminalTarget}
use fallout_terminal.Domain.Snapshots.{
  PlayerRole, active, PlayerPhase, no_broadcast, selecting, waiting, controlling, observing,
  available, claimed, PlayerConfigMetadata, PlayerCharacter, PlayerRosterEntry, PlayerState,
  MasterRosterEntry, MasterSessionEntry, MasterBroadcastState, MasterPendingSwitch,
  MasterPendingCommandExecution, MasterPendingTerminalNavigation, MasterTerminalNavigationNotice,
  MasterCoordinationState,
}
use fallout_terminal.Control.Claims.{role_for_session, assigned_character}
use fallout_terminal.Control.Roster.{roster_entries}

-- `len(session.ConnectionIDs) > 0`.
abbrev pub is_connected : Connections → Bool
is_connected [] = false
is_connected (_ ∷ _) = true

-- `sortedSessionIDs`.
unfoldable pub sorted_session_ids : ProcessRuntime → List Bytes
unfolding sorted
sorted_session_ids runtime = sorted (keys runtime.sessions_by_id)

abbrev pub metadata : Option PlayerConfigHandle → Option PlayerConfigMetadata
metadata none = none
metadata (some handle) =
    some (record { name = handle.name; file_path = handle.path; version = handle.version })

abbrev pub claimant : Option LiveBroadcast → Bytes → Option Bytes
claimant none character = none
claimant (some b) character = lookup character b.session_by_character

abbrev pub as_character : Option CharacterRosterEntry → Option PlayerCharacter
as_character none = none
as_character (some entry) = some (record { id = entry.id; name = entry.name })

abbrev pub master_roster_entry : ProcessRuntime → CharacterRosterEntry → MasterRosterEntry
master_roster_entry runtime entry = record {
  id = entry.id;
  name = entry.name;
  intelligence = entry.intelligence;
  hacker_perk_available = entry.hacker_perk_available;
  claimed_by_session_id = claimant runtime.broadcast entry.id;
}

abbrev pub master_session_entry : ProcessRuntime → LogicalSession → MasterSessionEntry
master_session_entry runtime session = record {
  id = session.id;
  fallback_name = session.fallback_name;
  connected = is_connected session.connection_ids;
  character = as_character (assigned_character runtime session.id);
  role = role_for_session runtime.broadcast session.id;
}

abbrev pub with_session :
    ProcessRuntime → Option LogicalSession → List MasterSessionEntry → List MasterSessionEntry
with_session runtime none entries = entries
with_session runtime (some session) entries = master_session_entry runtime session ∷ entries

-- The loop over the sorted session IDs.
unfoldable pub master_sessions : ProcessRuntime → List Bytes → List MasterSessionEntry
unfolding lookup assigned_character role_for_session
master_sessions runtime [] = []
master_sessions runtime (id ∷ ids) =
    with_session runtime (lookup id runtime.sessions_by_id) (master_sessions runtime ids)

abbrev pub master_broadcast : Option LiveBroadcast → Option MasterBroadcastState
master_broadcast none = none
master_broadcast (some b) = some (record {
  id = b.id;
  controller_session_id = b.controller_session_id;
  active_terminal_id = b.active_terminal_id;
})

abbrev pub target_id : Option TerminalTarget → Option Bytes
target_id none = none
target_id (some target) = some target.terminal_id

abbrev pub master_switch : Option TerminalSwitchDecision → Option MasterPendingSwitch
master_switch none = none
master_switch (some pending) = some (record {
  switch_id = pending.id;
  broadcast_id = pending.broadcast_id;
  source_terminal_id = pending.source_terminal_id;
  target_terminal_id = target_id pending.target;
})

abbrev pub master_execution : Option PendingCommandExecution → Option MasterPendingCommandExecution
master_execution none = none
master_execution (some pending) = some (record {
  request_id = pending.request_id;
  broadcast_id = pending.broadcast_id;
  terminal_id = pending.terminal_id;
  command_id = pending.command_id;
  command_name = pending.command_name;
  mode = pending.mode;
  confirmation_text = pending.confirmation_text;
})

-- `uint32(len(broadcast.Route))`.
abbrev pub route_depth : Option LiveBroadcast → ℕ
route_depth none = 0
route_depth (some b) = length b.route % 2 ^ 32

abbrev pub master_navigation :
    ProcessRuntime → Option PendingTerminalNavigation → Option MasterPendingTerminalNavigation
master_navigation runtime none = none
master_navigation runtime (some pending) = some (record {
  request_id = pending.request_id;
  broadcast_id = pending.broadcast_id;
  direction = pending.direction;
  source_terminal_id = pending.source_terminal_id;
  source_terminal_name = pending.source_terminal_name;
  command_id = pending.command_id;
  command_name = pending.command_name;
  target_terminal_id = pending.target_terminal_id;
  target_terminal_name = pending.target_terminal_name;
  route_depth = route_depth runtime.broadcast;
})

abbrev pub master_notice : Option TerminalNavigationNotice → Option MasterTerminalNavigationNotice
master_notice none = none
master_notice (some notice) = some (record {
  reason = notice.reason;
  source_terminal_id = notice.source_terminal_id;
  command_id = notice.command_id;
  target_terminal_id = notice.target_terminal_id;
})

-- `masterSnapshot`.
unfoldable pub master_snapshot : ProcessRuntime → MasterCoordinationState
unfolding roster_entries master_sessions sorted_session_ids lookup
master_snapshot runtime = record {
  revision = runtime.revision;
  player_config = metadata runtime.active_player_config;
  roster =
      map (master_roster_entry runtime) (roster_entries runtime.roster_by_id runtime.roster_order);
  sessions = master_sessions runtime (sorted_session_ids runtime);
  broadcast = master_broadcast runtime.broadcast;
  pending_switch = master_switch runtime.pending_switch;
  pending_command_execution = master_execution runtime.pending_command_execution;
  pending_terminal_navigation = master_navigation runtime runtime.pending_terminal_navigation;
  terminal_navigation_notice = master_notice runtime.terminal_navigation_notice;
}

abbrev pub text_of : Option Bytes → Bytes
text_of none = []
text_of (some text) = text

abbrev pub broadcast_id_of : Option LiveBroadcast → Bytes
broadcast_id_of none = []
broadcast_id_of (some b) = b.id

abbrev pub active_id_of : Option LiveBroadcast → Bytes
active_id_of none = []
active_id_of (some b) = text_of b.active_terminal_id

abbrev pub shared_phase : Option Bytes → PlayerRole → PlayerPhase
shared_phase none role = waiting
shared_phase (some id) active = controlling
shared_phase (some id) _ = observing

abbrev pub phase_of : Option LiveBroadcast → Option CharacterRosterEntry → PlayerRole → PlayerPhase
phase_of none character role = no_broadcast
phase_of (some b) none role = selecting
phase_of (some b) (some entry) role = shared_phase b.active_terminal_id role

abbrev pub player_roster_entry : ProcessRuntime → CharacterRosterEntry → PlayerRosterEntry
player_roster_entry runtime entry = record {
  id = entry.id;
  name = entry.name;
  status = if is_some (claimant runtime.broadcast entry.id) then claimed else available;
}

abbrev pub player_state : ProcessRuntime → LogicalSession → PlayerState
player_state runtime session =
    let role = role_for_session runtime.broadcast session.id in
    let character = assigned_character runtime session.id in
    record {
      revision = runtime.revision;
      session_id = session.id;
      fallback_name = session.fallback_name;
      character = as_character character;
      role = role;
      phase = phase_of runtime.broadcast character role;
      broadcast_id = broadcast_id_of runtime.broadcast;
      active_terminal_id = active_id_of runtime.broadcast;
      roster =
          map (player_roster_entry runtime)
            (roster_entries runtime.roster_by_id runtime.roster_order);
      notice = session.notice;
    }

abbrev pub shown_to : ProcessRuntime → Option LogicalSession → Option PlayerState
shown_to runtime none = none
shown_to runtime (some session) = some (player_state runtime session)

-- `playerSnapshot`.
unfoldable pub player_snapshot : ProcessRuntime → Bytes → Option PlayerState
unfolding lookup roster_entries role_for_session assigned_character
player_snapshot runtime session = shown_to runtime (lookup session runtime.sessions_by_id)
