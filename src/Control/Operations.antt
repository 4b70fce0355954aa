-- ===== src/Control/Operations.antt =====
-- internal/control/service.go: the calls of the coordinator, as values, and where they lead.
use fallout_terminal.Common.{Bool, Option, none, some, List, Bytes}
use fallout_terminal.Domain.Coordination.{
  CharacterRosterEntry, CharacterCreatePayload, CharacterUpdatePayload, CharacterDeletePayload,
  PlayerConfigHandle, TerminalGroupCandidate, TerminalNavigationDecision, TerminalSwitchChoice,
}
use fallout_terminal.Domain.Runtime.{TerminalTarget}
use fallout_terminal.Domain.Tree.{ContentNode}
use fallout_terminal.Live.Runtime.{Service}
use fallout_terminal.Control.Actions.{
  dispatch_player_action, dispatch_player_action_for_recognition,
}
use fallout_terminal.Control.Assignment.{
  rename_logical_session, assign_character, release_character, move_character,
  set_active_controller,
}
use fallout_terminal.Control.Broadcast.{new_coordinator, start_broadcast, end_broadcast, shutdown}
use fallout_terminal.Control.Characters.{
  install_player_config, clear_player_config, add_character, update_character, delete_character,
}
use fallout_terminal.Control.Commands.{PlayerCommand}
use fallout_terminal.Control.Commit.{Config, Coordinator, Effect}
use fallout_terminal.Control.Connections.{Attached, attach_subscription, detach_connection}
use fallout_terminal.Control.Groups.{replace_terminal_groups}
use fallout_terminal.Control.Navigation.{resolve_terminal_navigation}
use fallout_terminal.Control.Selection.{
  CharacterSelection, select_character, select_character_for_recognition,
}
use fallout_terminal.Control.Switch.{
  resolve_terminal_switch, update_live_terminal, refresh_active_terminal, reset_failed_puzzle,
  force_hack_success,
}
use fallout_terminal.Control.Terminals.{request_terminal_activation, request_terminal_clear}

-- A call of the coordinator, with its arguments.
pub data Operation : Type 0 where
  install : PlayerConfigHandle → Bool → List CharacterRosterEntry → Operation
  uninstall : Operation
  add : CharacterCreatePayload → Operation
  edit : CharacterUpdatePayload → Operation
  remove : CharacterDeletePayload → Operation
  attach : Bytes → Bytes → Operation
  detach : Bytes → Operation
  rename : Bytes → Bytes → Operation
  start : Operation
  finish : Operation
  select : CharacterSelection → Operation
  select_by : Bytes → Bytes → Bytes → Bytes → Operation
  assign : Bytes → Bytes → Operation
  free : Bytes → Operation
  hand_over : Bytes → Bytes → Operation
  put_in_control : Bytes → Operation
  activate : TerminalTarget → Operation
  clear : Operation
  decide_switch : Bytes → TerminalSwitchChoice → Operation
  update : ContentNode → Option Bytes → Operation
  refresh : TerminalTarget → Operation
  reset : TerminalTarget → Operation
  force : Operation
  decide_navigation : Bytes → TerminalNavigationDecision → Operation
  regroup : Bool → TerminalGroupCandidate → Operation
  dispatch : Bytes → PlayerCommand → Operation
  dispatch_by : Bytes → PlayerCommand → Operation
  stop : Operation

-- An attachment that is out of rounds leaves the coordinator as it is.
abbrev pub attached_or : Coordinator → Option (Coordinator × List Effect × Attached) → Coordinator
attached_or c none = c
attached_or c (some done) = done.0

module _ (cfg : Config) where
  -- The coordinator after a call.
  unfoldable pub perform : Operation → Coordinator → Coordinator
  unfolding install_player_config clear_player_config add_character update_character
      delete_character attach_subscription detach_connection rename_logical_session start_broadcast
      end_broadcast select_character select_character_for_recognition assign_character
      release_character move_character set_active_controller request_terminal_activation
      request_terminal_clear resolve_terminal_switch update_live_terminal refresh_active_terminal
      reset_failed_puzzle force_hack_success resolve_terminal_navigation replace_terminal_groups
      dispatch_player_action dispatch_player_action_for_recognition
  perform (install handle present roster) c = (install_player_config cfg handle present roster c).0
  perform uninstall c = (clear_player_config cfg c).0
  perform (add payload) c = (add_character cfg payload c).0
  perform (edit payload) c = (update_character cfg payload c).0
  perform (remove payload) c = (delete_character cfg payload c).0
  perform (attach connection handle) c = attached_or c (attach_subscription cfg connection handle c)
  perform (detach connection) c = (detach_connection cfg connection c).0
  perform (rename id name) c = (rename_logical_session cfg id name c).0
  perform start c = (start_broadcast cfg c).0
  perform finish c = (end_broadcast cfg c).0
  perform (select selection) c = (select_character cfg selection c).0
  perform (select_by handle request broadcast character) c =
      (select_character_for_recognition cfg handle request broadcast character c).0
  perform (assign session character) c = (assign_character cfg session character c).0
  perform (free session) c = (release_character cfg session c).0
  perform (hand_over character session) c = (move_character cfg character session c).0
  perform (put_in_control session) c = (set_active_controller cfg session c).0
  perform (activate target) c = (request_terminal_activation cfg target c).0
  perform clear c = (request_terminal_clear cfg c).0
  perform (decide_switch id choice) c = (resolve_terminal_switch cfg id choice c).0
  perform (update tree intro) c = (update_live_terminal cfg tree intro c).0
  perform (refresh target) c = (refresh_active_terminal cfg target c).0
  perform (reset target) c = (reset_failed_puzzle cfg target c).0
  perform force c = (force_hack_success cfg c).0
  perform (decide_navigation id decision) c = (resolve_terminal_navigation cfg id decision c).0
  perform (regroup ended candidate) c = (replace_terminal_groups cfg ended candidate c).0
  perform (dispatch connection command) c = (dispatch_player_action cfg connection command c).0
  perform (dispatch_by handle command) c =
      (dispatch_player_action_for_recognition cfg handle command c).0
  perform stop c = shutdown c

-- The coordinators that calls lead to, from the one that `New` makes.
pub data Reach (cfg : Config) (live : Service) : Coordinator → Type 0 where
  created : Reach cfg live (new_coordinator live)
  later :
      {c : Coordinator}
      → Reach cfg live c
      → (operation : Operation) → Reach cfg live (perform cfg operation c)
