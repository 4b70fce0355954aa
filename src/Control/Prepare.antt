-- ===== src/Control/Prepare.antt =====
-- internal/control/service.go: `preparePlayerAction`, the checks of a player's command.
use fallout_terminal.Common.{
  false, not, ◌||◌, Option, none, some, [], ◌∷◌, Bytes, equal, lookup, has, is_some, if◌then◌else◌,
}
use fallout_terminal.Domain.Coordination.{
  ActionReason, stale_broadcast, unassigned, not_controller, controller_disconnected,
  stale_terminal, invalid_action, conflict, ActionResult, LogicalSession, LiveBroadcast,
  ProcessRuntime,
}
use fallout_terminal.Domain.Runtime.{TerminalRuntime}
use fallout_terminal.Live.Runtime.{is_active}
use fallout_terminal.Control.Claims.{is_value}
use fallout_terminal.Control.Commands.{PlayerCommand, valid_runtime_command}
use fallout_terminal.Control.Commit.{Coordinator, Effect, Transition, no_effect}
use fallout_terminal.Control.Snapshots.{is_connected}

-- `playerActionResultEffect`.
abbrev pub player_action_result_effect : Bytes → Bytes → ActionResult → Effect
player_action_result_effect connection session result = record no_effect {
  connection_id = connection;
  session_id = session;
  result = some result;
}

-- The sender, and what it sends.
pub record Sent : Type 0 where
  pub connection : Bytes
  pub session_id : Bytes
  pub session : LogicalSession
  pub command : PlayerCommand

-- A transaction that changes nothing.
abbrev pub answers : Coordinator → Bytes → Bytes → ActionResult → Transition ActionResult
answers c connection session result = record {
  working = c;
  accepted = false;
  persist = false;
  effects = player_action_result_effect connection session result ∷ [];
  answer = result;
}

-- The checks of an authorized sender, in the order of the source: what stops the command, or the
-- checkpoint that it goes to.
pub data Prepared : Type 0 where
  stopped : ActionReason → Prepared
  ready : LiveBroadcast → TerminalRuntime → Prepared

abbrev pub prepare_at : ProcessRuntime → LiveBroadcast → Option TerminalRuntime → Prepared
prepare_at runtime b none = stopped stale_terminal
prepare_at runtime b (some state) =
    if not (is_active state.lifecycle)
    then stopped stale_terminal
    else if is_some runtime.pending_command_execution || is_some runtime.pending_terminal_navigation
    then stopped conflict
    else ready b state

abbrev pub prepare_in : Sent → ProcessRuntime → Option LiveBroadcast → Prepared
prepare_in sent runtime none = stopped stale_broadcast
prepare_in sent runtime (some b) =
    if not (equal b.id sent.command.broadcast_id)
    then stopped stale_broadcast
    else if not (has sent.session_id b.assignments_by_session)
    then stopped unassigned
    else if not (is_value b.controller_session_id sent.session_id)
    then stopped not_controller
    else if not (is_connected sent.session.connection_ids)
    then stopped controller_disconnected
    else if not (is_value b.active_terminal_id sent.command.terminal_id)
    then stopped stale_terminal
    else prepare_at runtime b (lookup sent.command.terminal_id b.terminal_runtimes)

-- `preparePlayerAction`, from the validity of the command on.
unfoldable pub prepare : Sent → ProcessRuntime → Prepared
unfolding equal lookup valid_runtime_command
prepare sent runtime =
    if not (valid_runtime_command sent.command)
    then stopped invalid_action
    else prepare_in sent runtime runtime.broadcast
