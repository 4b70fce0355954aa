-- ===== src/Domain/Snapshots.antt =====
-- internal/domain/model.go: the projections of the coordinator's state for the Overseer and for a
-- player.
use fallout_terminal.Common.{ℕ, ℤ, Bool, Option, List, Bytes}
use fallout_terminal.Domain.Coordination.{
  PlayerNotice, CommandApprovalMode, TerminalNavigationDirection, TerminalNavigationNoticeReason,
}
use fallout_terminal.Domain.Hack.{PublicHackState}
use fallout_terminal.Domain.Runtime.{PublicLiveState}
use fallout_terminal.Domain.Tree.{NavState}

pub data PlayerRole : Type 0 where
  unassigned active observer : PlayerRole

pub data PlayerPhase : Type 0 where
  no_broadcast selecting waiting controlling observing : PlayerPhase

pub data RosterStatus : Type 0 where
  available claimed : RosterStatus

-- Its status is always "loaded".
pub record PlayerConfigMetadata : Type 0 where
  pub name : Bytes
  pub file_path : Bytes
  pub version : ℤ

pub record PlayerCharacter : Type 0 where
  pub id : Bytes
  pub name : Bytes

pub record PlayerRosterEntry : Type 0 where
  pub id : Bytes
  pub name : Bytes
  pub status : RosterStatus

pub record PlayerState : Type 0 where
  pub revision : ℕ
  pub session_id : Bytes
  pub fallback_name : Bytes
  pub character : Option PlayerCharacter
  pub role : PlayerRole
  pub phase : PlayerPhase
  pub broadcast_id : Bytes
  pub active_terminal_id : Bytes
  pub roster : List PlayerRosterEntry
  pub notice : Option PlayerNotice

pub record MasterRosterEntry : Type 0 where
  pub id : Bytes
  pub name : Bytes
  pub intelligence : ℤ
  pub hacker_perk_available : Bool
  pub claimed_by_session_id : Option Bytes

pub record MasterSessionEntry : Type 0 where
  pub id : Bytes
  pub fallback_name : Bytes
  pub connected : Bool
  pub character : Option PlayerCharacter
  pub role : PlayerRole

pub record MasterBroadcastState : Type 0 where
  pub id : Bytes
  pub controller_session_id : Option Bytes
  pub active_terminal_id : Option Bytes

pub record MasterPendingSwitch : Type 0 where
  pub switch_id : Bytes
  pub broadcast_id : Bytes
  pub source_terminal_id : Bytes
  pub target_terminal_id : Option Bytes

pub record MasterPendingCommandExecution : Type 0 where
  pub request_id : Bytes
  pub broadcast_id : Bytes
  pub terminal_id : Bytes
  pub command_id : Bytes
  pub command_name : Bytes
  pub mode : CommandApprovalMode
  pub confirmation_text : Bytes

pub record MasterPendingTerminalNavigation : Type 0 where
  pub request_id : Bytes
  pub broadcast_id : Bytes
  pub direction : TerminalNavigationDirection
  pub source_terminal_id : Bytes
  pub source_terminal_name : Bytes
  pub command_id : Bytes
  pub command_name : Bytes
  pub target_terminal_id : Bytes
  pub target_terminal_name : Bytes
  pub route_depth : ℕ

pub record MasterTerminalNavigationNotice : Type 0 where
  pub reason : TerminalNavigationNoticeReason
  pub source_terminal_id : Bytes
  pub command_id : Bytes
  pub target_terminal_id : Option Bytes

pub record MasterCoordinationState : Type 0 where
  pub revision : ℕ
  pub player_config : Option PlayerConfigMetadata
  pub roster : List MasterRosterEntry
  pub sessions : List MasterSessionEntry
  pub broadcast : Option MasterBroadcastState
  pub pending_switch : Option MasterPendingSwitch
  pub pending_command_execution : Option MasterPendingCommandExecution
  pub pending_terminal_navigation : Option MasterPendingTerminalNavigation
  pub terminal_navigation_notice : Option MasterTerminalNavigationNotice

pub record TerminalReturnTarget : Type 0 where
  pub terminal_id : Bytes
  pub terminal_name : Bytes

pub record PendingTerminalNavigationPresentation : Type 0 where
  pub direction : TerminalNavigationDirection
  pub target_terminal_id : Bytes
  pub target_terminal_name : Bytes

pub record TerminalNavigationPresentation : Type 0 where
  pub route_depth : ℕ
  pub return_target : Option TerminalReturnTarget
  pub pending : Option PendingTerminalNavigationPresentation

-- A `PublicLiveState` with its route.
pub record RoutedLiveState : Type 0 where
  pub live : PublicLiveState
  pub terminal_navigation : Option TerminalNavigationPresentation

pub data TerminalPresentation : Type 0 where
  live : RoutedLiveState → TerminalPresentation
  no_live_terminal : TerminalPresentation

pub record CompoundUpdate : Type 0 where
  pub revision : ℕ
  pub player : Option PlayerState
  pub terminal : Option TerminalPresentation
  pub nav : Option NavState
  pub hack : Option PublicHackState

pub record PersonalizedSnapshot : Type 0 where
  pub recognition_handle : Bytes
  pub revision : ℕ
  pub player_state : PlayerState
  pub terminal : TerminalPresentation
