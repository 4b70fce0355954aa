-- ===== src/Domain/Coordination.antt =====
-- internal/domain/model.go: what the coordinator keeps of players, the roster and the broadcast.
-- A nil pointer in a map is a missing key, and a nil map or slice an empty one.
use fallout_terminal.Common.{ℕ, ℤ, Bool, Option, List, Bytes, Dict}
use fallout_terminal.Domain.Runtime.{TerminalRuntime, TerminalTarget}

pub record TerminalGroup : Type 0 where
  pub id : Bytes
  pub name : Bytes
  pub terminal_ids : List Bytes

pub record TerminalGroupCandidate : Type 0 where
  pub terminal_groups : List TerminalGroup
  pub expected_session_revision : ℕ
  pub expected_coordination_revision : ℕ

pub data TerminalReturnOrigin : Type 0 where
  authored_transition initial_group_prefix : TerminalReturnOrigin

pub record PlayerConfigHandle : Type 0 where
  pub path : Bytes
  pub version : ℤ
  pub name : Bytes
  pub content_digest : Bytes

pub data TerminalSwitchChoice : Type 0 where
  preserve discard cancel : TerminalSwitchChoice

pub data CommandExecutionDecision : Type 0 where
  approve reject : CommandExecutionDecision

pub data CommandApprovalMode : Type 0 where
  ordinary state_change completed_state_change : CommandApprovalMode

pub data TerminalNavigationDirection : Type 0 where
  forward back : TerminalNavigationDirection

pub data TerminalNavigationDecision : Type 0 where
  approve reject : TerminalNavigationDecision

pub record TerminalReturnPoint : Type 0 where
  pub terminal_id : Bytes
  pub terminal_name : Bytes
  pub folder_id : Bytes
  pub ancestor_folder_ids : List Bytes
  pub command_id : Bytes
  pub command_name : Bytes
  pub origin : TerminalReturnOrigin
  pub group_id : Bytes
  pub group_position : ℕ

pub record PendingTerminalNavigation : Type 0 where
  pub request_id : Bytes
  pub broadcast_id : Bytes
  pub controller_session_id : Bytes
  pub direction : TerminalNavigationDirection
  pub source_terminal_id : Bytes
  pub source_terminal_name : Bytes
  pub command_id : Bytes
  pub command_name : Bytes
  pub target_terminal_id : Bytes
  pub target_terminal_name : Bytes
  pub return_point : TerminalReturnPoint

pub data TerminalNavigationNoticeReason : Type 0 where
  target_missing self_target command_stale target_changed : TerminalNavigationNoticeReason

pub record TerminalNavigationNotice : Type 0 where
  pub reason : TerminalNavigationNoticeReason
  pub source_terminal_id : Bytes
  pub command_id : Bytes
  pub target_terminal_id : Option Bytes

pub data PlayerNotice : Type 0 where
  command_persistence_failed : PlayerNotice

pub data ActionReason : Type 0 where
  accepted invalid_session stale_broadcast unassigned not_controller : ActionReason
  controller_disconnected stale_terminal invalid_action conflict duplicate : ActionReason

pub record ActionResult : Type 0 where
  pub request_id : Bytes
  pub accepted : Bool
  pub reason : ActionReason
  pub revision : ℕ

pub record RequestResultRecord : Type 0 where
  pub fingerprint : Bytes
  pub result : ActionResult

-- `map[ConnectionID]struct{}`.
abbrev pub Connections : Type 0
Connections = Dict (Unit {0})

pub record LogicalSession : Type 0 where
  pub id : Bytes
  pub fallback_name : Bytes
  pub connection_ids : Connections
  pub request_results : Dict RequestResultRecord
  pub notice : Option PlayerNotice

pub record CharacterCreatePayload : Type 0 where
  pub name : Bytes
  pub intelligence : ℤ
  pub hacker_perk_available : Bool
  pub expected_revision : ℕ

pub record CharacterUpdatePayload : Type 0 where
  pub character_id : Bytes
  pub name : Bytes
  pub intelligence : ℤ
  pub hacker_perk_available : Bool
  pub expected_revision : ℕ

pub record CharacterDeletePayload : Type 0 where
  pub character_id : Bytes
  pub expected_revision : ℕ

pub record CharacterRosterEntry : Type 0 where
  pub id : Bytes
  pub name : Bytes
  pub intelligence : ℤ
  pub hacker_perk_available : Bool

pub record LiveBroadcast : Type 0 where
  pub id : Bytes
  pub assignments_by_session : Dict Bytes
  pub session_by_character : Dict Bytes
  pub controller_session_id : Option Bytes
  pub active_terminal_id : Option Bytes
  pub terminal_runtimes : Dict TerminalRuntime
  pub route : List TerminalReturnPoint
  pub initial_terminal_established : Bool
  pub initial_terminal_id : Bytes
  pub initial_terminal_group_id : Bytes
  pub initial_terminal_group_position : ℕ

pub record TerminalTransitionTarget : Type 0 where
  pub source_terminal_id : Bytes
  pub source_terminal_name : Bytes
  pub command_id : Bytes
  pub command_name : Bytes
  pub target : TerminalTarget

pub record PendingCommandExecution : Type 0 where
  pub request_id : Bytes
  pub broadcast_id : Bytes
  pub terminal_id : Bytes
  pub command_id : Bytes
  pub command_name : Bytes
  pub mode : CommandApprovalMode
  pub confirmation_text : Bytes
  pub controller_session_id : Bytes

pub record TerminalSwitchDecision : Type 0 where
  pub id : Bytes
  pub broadcast_id : Bytes
  pub source_terminal_id : Bytes
  pub target : Option TerminalTarget

pub record ProcessRuntime : Type 0 where
  pub revision : ℕ
  pub sessions_by_id : Dict LogicalSession
  pub session_id_by_browser_token : Dict Bytes
  pub roster_by_id : Dict CharacterRosterEntry
  pub roster_order : List Bytes
  pub active_player_config : Option PlayerConfigHandle
  pub broadcast : Option LiveBroadcast
  pub pending_switch : Option TerminalSwitchDecision
  pub pending_command_execution : Option PendingCommandExecution
  pub pending_terminal_navigation : Option PendingTerminalNavigation
  pub terminal_navigation_notice : Option TerminalNavigationNotice
