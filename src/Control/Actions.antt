-- ===== src/Control/Actions.antt =====
-- internal/control/service.go: `DispatchPlayerAction`, one command of the player in control.
pub mod Authority
use fallout_terminal.Common.{
  ℕ, suc, Bool, true, false, not, ◌&&◌, ◌||◌, Option, none, some, List, [], ◌∷◌, ◌++◌, Bytes, Dict,
  equal, lookup, insert, has, is_some, sorted, keys, utf8, if◌then◌else◌,
}
use fallout_terminal.Domain.Coordination.{
  ActionReason, accepted, invalid_session, stale_broadcast, unassigned, not_controller,
  controller_disconnected, stale_terminal, invalid_action, conflict, duplicate, ActionResult,
  RequestResultRecord, LogicalSession, LiveBroadcast, ProcessRuntime, TerminalReturnPoint,
  authored_transition, TerminalTransitionTarget, PendingTerminalNavigation, forward, back,
  target_missing,
}
use fallout_terminal.Domain.Runtime.{TerminalRuntime, TerminalTarget, pending}
use fallout_terminal.Domain.Snapshots.{RoutedLiveState}
use fallout_terminal.Domain.Tree.{
  ContentNode, CommandBehavior, TerminalTransitionConfig, fields, behavior, invalid,
  terminal_transitioning,
}
use fallout_terminal.Live.Command.{apply}
use fallout_terminal.Live.Runtime.{is_active, public_runtime}
use fallout_terminal.Control.Answers.{with_runtime}
use fallout_terminal.Control.Assignment.{with_broadcast}
use fallout_terminal.Control.Claims.{is_value}
use fallout_terminal.Control.Commands.{
  PlayerCommand, RuntimeCommandKind, is_navigation, is_presentation, valid_runtime_command,
  player_action_fingerprint, runtime_command, selected_authored_command, command_approval_mode,
  displayed_command_name, command_confirmation_text, root_return_requested,
}
use fallout_terminal.Control.Commit.{
  Catalog, Config, Coordinator, Effect, Transition, no_effect, live_effect, state_effects,
  next_revision, commit,
}
use fallout_terminal.Control.Connections.{session_for_connection}
use fallout_terminal.Control.Live.{put_runtime, project_active_terminal, top_of, undecorated}
use fallout_terminal.Control.Requests.{request_result, store_request_result, rejected_result}
use fallout_terminal.Control.Route.{same_terminal_group, valid_terminal_return_point}
use fallout_terminal.Control.Snapshots.{is_connected}
use fallout_terminal.Control.Prepare.{
  player_action_result_effect, Sent, answers, Prepared, stopped, ready, prepare_at, prepare_in,
  prepare,
}
use fallout_terminal.Control.Outcomes.{
  shown_effect, without_notice, remember, cache_player_action_rejection,
  commit_player_action_result, accepted_player_action, accepted_showing, pending_return, begin,
  return_by, last_of, all_but_last, pending_transition, authored_target, noted, missing_target,
  transition_by, waiting, awaiting, asking, ask_approval, authored_by,
}

-- The runtime with this checkpoint in its broadcast.
abbrev pub put_on : Coordinator → LiveBroadcast → Bytes → TerminalRuntime → ProcessRuntime
put_on c b id state = record c.runtime { broadcast = some (put_runtime b id state) }

module _ (cfg : Config) (sent : Sent) where
  -- The active checkpoint as the command leaves it.
  abbrev pub applied : Coordinator → LiveBroadcast → TerminalRuntime → ProcessRuntime
  applied c b state =
      let on = put_on c b sent.command.terminal_id state in
      if is_presentation sent.command.kind then on else without_notice sent.session_id on

  -- The live terminal applies the command; where it refuses, the checkpoint is as before.
  abbrev pub apply_to : Coordinator → LiveBroadcast → TerminalRuntime → Transition ActionResult
  apply_to c b state =
      let done = apply cfg.source state (runtime_command sent.command) c.live.random in
      let drawn = record c { live = record c.live { random = done.2 } } in
      if done.1
      then accepted_player_action cfg sent (with_runtime drawn (applied c b done.0))
          (live_effect (undecorated (public_runtime done.0)) ∷ [])
      else cache_player_action_rejection cfg sent drawn invalid_action

  abbrev pub act_on :
      Coordinator → LiveBroadcast → TerminalRuntime → Option ContentNode → Transition ActionResult
  act_on c b state (some command) = authored_by cfg sent (behavior command) c b state command
  act_on c b state none =
      if is_navigation sent.command.kind (utf8 "command") sent.command
      then cache_player_action_rejection cfg sent c invalid_action
      else apply_to c b state

  abbrev pub act : Coordinator → Prepared → Transition ActionResult
  act c (stopped reason) = cache_player_action_rejection cfg sent c reason
  act c (ready b state) =
      if root_return_requested state sent.command b.route
      then return_by cfg sent c b state (top_of b.route)
      else act_on c b state (selected_authored_command state sent.command)

  abbrev pub act_unless : Coordinator → Option RequestResultRecord → Transition ActionResult
  act_unless c (some cached) =
      if equal cached.fingerprint (player_action_fingerprint sent.command)
      then answers c sent.connection sent.session_id cached.result
      else answers c sent.connection sent.session_id
          (rejected_result sent.command.request_id duplicate c.runtime.revision)
  act_unless c none = act c (prepare sent c.runtime)

abbrev pub act_as :
    Config
    → Bytes
    → PlayerCommand
    → Coordinator
    → Option (Bytes × LogicalSession)
    → Transition ActionResult
act_as cfg connection command c none =
    answers c connection [] (rejected_result command.request_id invalid_session c.runtime.revision)
act_as cfg connection command c (some (id, session)) =
    let sent : Sent = record {
      connection = connection;
      session_id = id;
      session = session;
      command = command;
    } in
    if equal command.request_id []
    then answers c connection id
        (rejected_result command.request_id invalid_action c.runtime.revision)
    else act_unless cfg sent c (request_result c.runtime id command.request_id)

unfoldable pub action_step : Config → Bytes → PlayerCommand → Coordinator → Transition ActionResult
unfolding session_for_connection equal request_result store_request_result player_action_fingerprint
    prepare root_return_requested top_of valid_terminal_return_point selected_authored_command
    behavior same_terminal_group without_notice command_approval_mode displayed_command_name apply
    runtime_command public_runtime project_active_terminal insert state_effects
action_step cfg connection command c =
    act_as cfg connection command c (session_for_connection c.runtime connection)

-- `DispatchPlayerAction`.
unfoldable pub dispatch_player_action :
    Config → Bytes → PlayerCommand → Coordinator → Coordinator × List Effect × ActionResult
unfolding action_step commit
dispatch_player_action cfg connection command c = commit cfg (action_step cfg connection command) c

abbrev pub first_of : List Bytes → Bytes
first_of [] = []
first_of (id ∷ ids) = id

abbrev pub dispatch_session :
    Config
    → PlayerCommand
    → Coordinator
    → Option LogicalSession
    → Coordinator × List Effect × ActionResult
dispatch_session cfg command c none =
    (c, [], rejected_result command.request_id invalid_session c.runtime.revision)
dispatch_session cfg command c (some session) =
    let connection = first_of (sorted (keys session.connection_ids)) in
    if equal connection []
    then (c, [], rejected_result command.request_id controller_disconnected c.runtime.revision)
    else dispatch_player_action cfg connection command c

abbrev pub dispatch_token :
    Config → PlayerCommand → Coordinator → Option Bytes → Coordinator × List Effect × ActionResult
dispatch_token cfg command c none =
    (c, [], rejected_result command.request_id invalid_session c.runtime.revision)
dispatch_token cfg command c (some id) =
    dispatch_session cfg command c (lookup id c.runtime.sessions_by_id)

-- `DispatchPlayerActionForRecognition`.
unfoldable pub dispatch_player_action_for_recognition :
    Config → Bytes → PlayerCommand → Coordinator → Coordinator × List Effect × ActionResult
unfolding lookup sorted equal dispatch_player_action
dispatch_player_action_for_recognition cfg handle command c =
    dispatch_token cfg command c (lookup handle c.runtime.session_id_by_browser_token)
