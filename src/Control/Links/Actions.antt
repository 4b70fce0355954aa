-- ===== src/Control/Links/Actions.antt =====
-- The commands of the player in control: the claims hold.
use fallout_terminal.Common.{
  Option, none, some, List, Bytes, has, is_some, lookup, equal, inl, inr, refl, if-either,
  Option-cases, not, ◌||◌, [], sorted, keys, utf8,
}
use fallout_terminal.Domain.Coordination.{
  ActionReason, ActionResult, RequestResultRecord, LogicalSession, LiveBroadcast, ProcessRuntime,
  TerminalReturnPoint, TerminalTransitionTarget, invalid_action,
}
use fallout_terminal.Domain.Runtime.{TerminalRuntime}
use fallout_terminal.Domain.Tree.{
  ContentNode, CommandBehavior, fields, behavior, invalid, terminal_transitioning, state_changing,
  ordinary,
}
use fallout_terminal.Live.Command.{apply}
use fallout_terminal.Live.Runtime.{is_active}
use fallout_terminal.Control.Actions.{
  applied, put_on, apply_to, act_on, act, act_unless, act_as, action_step, dispatch_player_action,
  dispatch_session, dispatch_token, dispatch_player_action_for_recognition, first_of,
}
use fallout_terminal.Control.Prepare.{
  Sent, Prepared, stopped, ready, prepare_at, prepare_in, prepare,
}
use fallout_terminal.Control.Outcomes.{
  without_notice, remember, accepted_showing, begin, return_by, missing_target, noted, awaiting,
  asking, transition_by, ask_approval, authored_by, authored_target, cache_player_action_rejection,
  pending_return, pending_transition,
}
use fallout_terminal.Control.Answers.{with_runtime}
use fallout_terminal.Control.Commands.{
  PlayerCommand, is_navigation, player_action_fingerprint, root_return_requested, runtime_command,
  selected_authored_command, is_presentation, valid_runtime_command,
}
use fallout_terminal.Control.Commit.{Config, Coordinator, Effect}
use fallout_terminal.Control.Commit.Kept.{Ends, commit-kept}
use fallout_terminal.Control.Connections.{session_for_connection}
use fallout_terminal.Control.Links.{LinksIn, IsLinked, LinksIn-insert, IsLinked-IsStable}
use fallout_terminal.Control.Links.Players.{store_request_result-IsLinked}
use fallout_terminal.Control.Live.{top_of, project_active_terminal}
use fallout_terminal.Control.Claims.{is_value}
use fallout_terminal.Control.Snapshots.{is_connected}
use fallout_terminal.Control.Requests.{request_result}
use fallout_terminal.Control.Route.{same_terminal_group, valid_terminal_return_point}

without_notice-IsLinked :
    (id : Bytes) (r : ProcessRuntime) → IsLinked r → IsLinked (without_notice id r)
unfolding without_notice
without_notice-IsLinked id r h = elim (Option-cases (lookup id r.sessions_by_id)) [
  | inl unknown ↦ rw (unknown, without_notice) h
  | inr (session, e) ↦
      rw (e, without_notice) (LinksIn-insert id _ r.sessions_by_id r.roster_by_id r.broadcast h)
]

-- The claims of the broadcast that an action is ready for.
abbrev ReadyFor : Coordinator → Prepared → Type 0
ReadyFor c (stopped reason) = Unit
ReadyFor c (ready b state) = LinksIn c.runtime.sessions_by_id c.runtime.roster_by_id (some b)

module _ (sent : Sent) (c : Coordinator) where
  prepare_at-ReadyFor :
      (b : LiveBroadcast) (state : Option TerminalRuntime)
      → LinksIn c.runtime.sessions_by_id c.runtime.roster_by_id (some b)
      → ReadyFor c (prepare_at c.runtime b state)
  prepare_at-ReadyFor b none h = tt
  prepare_at-ReadyFor b (some state) h =
      if-either (ReadyFor c) (not (is_active state.lifecycle)) tt (
        if-either (ReadyFor c)
          (is_some c.runtime.pending_command_execution
            || is_some c.runtime.pending_terminal_navigation)
          tt h)

  prepare_in-ReadyFor :
      (b : Option LiveBroadcast)
      → LinksIn c.runtime.sessions_by_id c.runtime.roster_by_id b
      → ReadyFor c (prepare_in sent c.runtime b)
  prepare_in-ReadyFor none h = tt
  prepare_in-ReadyFor (some b) h =
      if-either (ReadyFor c) (not (equal b.id sent.command.broadcast_id)) tt (
        if-either (ReadyFor c) (not (has sent.session_id b.assignments_by_session)) tt (
          if-either (ReadyFor c) (not (is_value b.controller_session_id sent.session_id)) tt (
            if-either (ReadyFor c) (not (is_connected sent.session.connection_ids)) tt (
              if-either (ReadyFor c) (not (is_value b.active_terminal_id sent.command.terminal_id))
                tt
                (prepare_at-ReadyFor b (lookup sent.command.terminal_id b.terminal_runtimes) h)))))

  prepare-ReadyFor : IsLinked c.runtime → ReadyFor c (prepare sent c.runtime)
  unfolding prepare
  prepare-ReadyFor h =
      if-either (ReadyFor c) (not (valid_runtime_command sent.command)) tt
        (prepare_in-ReadyFor c.runtime.broadcast h)

module _ (cfg : Config) (sent : Sent) where
  remembered :
      (result : ActionResult) (c : Coordinator)
      → IsLinked c.runtime
      → IsLinked (remember cfg sent result c).runtime
  remembered result c h =
      store_request_result-IsLinked cfg.request_result_limit c.runtime sent.session_id
        sent.command.request_id _ h

  cached-Ends :
      (c : Coordinator) (reason : ActionReason)
      → IsLinked c.runtime
      → Ends IsLinked (cache_player_action_rejection cfg sent c reason)
  cached-Ends c reason h = inl (remembered _ c h)

  accepted_showing-Ends :
      (c : Coordinator) → IsLinked c.runtime → Ends IsLinked (accepted_showing cfg sent c)
  accepted_showing-Ends c h = inl (
      remembered _ (with_runtime c (project_active_terminal cfg.source c.runtime).0)
        ((IsLinked-IsStable cfg.source).0 c.runtime h))

  missing_target-Ends :
      (c : Coordinator) (state : TerminalRuntime) (command : ContentNode)
      → IsLinked c.runtime
      → Ends IsLinked (missing_target cfg sent c state command)
  missing_target-Ends c state command h = inl (remembered _ (noted cfg sent c state command) h)

  return_by-Ends :
      (c : Coordinator) (b : LiveBroadcast) (state : TerminalRuntime)
      (top : Option TerminalReturnPoint)
      → IsLinked c.runtime
      → Ends IsLinked (return_by cfg sent c b state top)
  return_by-Ends c b state none h = cached-Ends c invalid_action h
  return_by-Ends c b state (some top) h =
      if-either (Ends IsLinked)
        (not (valid_terminal_return_point (cfg.catalog c.asked) state.terminal_id top))
        (cached-Ends c invalid_action h)
        (accepted_showing-Ends (begin cfg sent c (λ id. pending_return cfg sent id b state top)) h)

  transition_by-Ends :
      (c : Coordinator) (b : LiveBroadcast) (state : TerminalRuntime) (command : ContentNode)
      (found : Option TerminalTransitionTarget)
      → IsLinked c.runtime
      → Ends IsLinked (transition_by cfg sent c b state command found)
  transition_by-Ends c b state command none h = missing_target-Ends c state command h
  transition_by-Ends c b state command (some found) h =
      if-either (Ends IsLinked)
        (equal found.target.terminal_id state.terminal_id
          || not (
              equal found.target.terminal_id
                (authored_target cfg sent (fields command).terminal_transition))
          || not (
              same_terminal_group (cfg.catalog c.asked) state.terminal_id found.target.terminal_id))
        (missing_target-Ends c state command h)
        (accepted_showing-Ends
          (begin cfg sent c (λ id. pending_transition cfg sent id b state command found.target)) h)

  ask_approval-Ends :
      (c : Coordinator) (b : LiveBroadcast) (state : TerminalRuntime) (command : ContentNode)
      → LinksIn c.runtime.sessions_by_id c.runtime.roster_by_id (some b)
      → Ends IsLinked (ask_approval cfg sent c b state command)
  ask_approval-Ends c b state command h =
      accepted_showing-Ends (asking cfg sent c b state command)
        (without_notice-IsLinked sent.session_id (awaiting cfg sent c b state command) h)

  authored_by-Ends :
      (how : CommandBehavior) (c : Coordinator) (b : LiveBroadcast) (state : TerminalRuntime)
      (command : ContentNode)
      → IsLinked c.runtime
      → LinksIn c.runtime.sessions_by_id c.runtime.roster_by_id (some b)
      → Ends IsLinked (authored_by cfg sent how c b state command)
  authored_by-Ends invalid c b state command links h = cached-Ends c invalid_action links
  authored_by-Ends terminal_transitioning c b state command links h =
      transition_by-Ends c b state command
        ((cfg.catalog c.asked).lookup_terminal_transition state.terminal_id (fields command).id)
        links
  authored_by-Ends ordinary c b state command links h = ask_approval-Ends c b state command h
  authored_by-Ends state_changing c b state command links h = ask_approval-Ends c b state command h

  applied-IsLinked :
      (c : Coordinator) (b : LiveBroadcast) (state : TerminalRuntime)
      → LinksIn c.runtime.sessions_by_id c.runtime.roster_by_id (some b)
      → IsLinked (applied cfg sent c b state)
  applied-IsLinked c b state h =
      if-either IsLinked (is_presentation sent.command.kind) h
        (without_notice-IsLinked sent.session_id (put_on c b sent.command.terminal_id state) h)

  apply_to-Ends :
      (c : Coordinator) (b : LiveBroadcast) (state : TerminalRuntime)
      → IsLinked c.runtime
      → LinksIn c.runtime.sessions_by_id c.runtime.roster_by_id (some b)
      → Ends IsLinked (apply_to cfg sent c b state)
  apply_to-Ends c b state links h =
      let done = apply cfg.source state (runtime_command sent.command) c.live.random in
      let drawn = record c { live = record c.live { random = done.2 } } in
      if-either (Ends IsLinked) done.1
        (inl (
          remembered _ (with_runtime drawn (applied cfg sent c b done.0))
            (applied-IsLinked c b done.0 h)))
        (cached-Ends drawn invalid_action links)

  act_on-Ends :
      (c : Coordinator) (b : LiveBroadcast) (state : TerminalRuntime) (command : Option ContentNode)
      → IsLinked c.runtime
      → LinksIn c.runtime.sessions_by_id c.runtime.roster_by_id (some b)
      → Ends IsLinked (act_on cfg sent c b state command)
  act_on-Ends c b state (some command) links h =
      authored_by-Ends (behavior command) c b state command links h
  act_on-Ends c b state none links h =
      if-either (Ends IsLinked) (is_navigation sent.command.kind (utf8 "command") sent.command)
        (cached-Ends c invalid_action links) (apply_to-Ends c b state links h)

  act-Ends :
      (c : Coordinator) (p : Prepared)
      → IsLinked c.runtime
      → ReadyFor c p
      → Ends IsLinked (act cfg sent c p)
  act-Ends c (stopped reason) links h = cached-Ends c reason links
  act-Ends c (ready b state) links h =
      if-either (Ends IsLinked) (root_return_requested state sent.command b.route)
        (return_by-Ends c b state (top_of b.route) links)
        (act_on-Ends c b state (selected_authored_command state sent.command) links h)

  act_unless-Ends :
      (c : Coordinator) (cached : Option RequestResultRecord)
      → IsLinked c.runtime
      → Ends IsLinked (act_unless cfg sent c cached)
  act_unless-Ends c (some cached) h =
      if-either (Ends IsLinked) (equal cached.fingerprint (player_action_fingerprint sent.command))
        (inr (refl, refl)) (inr (refl, refl))
  act_unless-Ends c none h = act-Ends c (prepare sent c.runtime) h (prepare-ReadyFor sent c h)

module _ (cfg : Config) (command : PlayerCommand) (c : Coordinator) (h : IsLinked c.runtime) where
  act_as-Ends :
      (connection : Bytes) (found : Option (Bytes × LogicalSession))
      → Ends IsLinked (act_as cfg connection command c found)
  act_as-Ends connection none = inr (refl, refl)
  act_as-Ends connection (some (id, session)) =
      if-either (Ends IsLinked) (equal command.request_id []) (inr (refl, refl)) (
        act_unless-Ends cfg
          (record {
            connection = connection;
            session_id = id;
            session = session;
            command = command;
          })
          c (request_result c.runtime id command.request_id) h)

  pub dispatch_player_action-IsLinked :
      (connection : Bytes) → IsLinked (dispatch_player_action cfg connection command c).0.runtime
  unfolding dispatch_player_action action_step
  dispatch_player_action-IsLinked connection =
      commit-kept cfg IsLinked (IsLinked-IsStable cfg.source) (action_step cfg connection command) c
        h (act_as-Ends connection (session_for_connection c.runtime connection))

  dispatch_session-IsLinked :
      (session : Option LogicalSession)
      → IsLinked (dispatch_session cfg command c session).0.runtime
  dispatch_session-IsLinked none = h
  dispatch_session-IsLinked (some session) =
      if-either (λ (done : Coordinator × List Effect × ActionResult). IsLinked done.0.runtime)
        (equal (first_of (sorted (keys session.connection_ids))) []) h
        (dispatch_player_action-IsLinked (first_of (sorted (keys session.connection_ids))))

  dispatch_token-IsLinked :
      (id : Option Bytes) → IsLinked (dispatch_token cfg command c id).0.runtime
  dispatch_token-IsLinked none = h
  dispatch_token-IsLinked (some id) = dispatch_session-IsLinked (lookup id c.runtime.sessions_by_id)

  pub dispatch_player_action_for_recognition-IsLinked :
      (handle : Bytes)
      → IsLinked (dispatch_player_action_for_recognition cfg handle command c).0.runtime
  unfolding dispatch_player_action_for_recognition
  dispatch_player_action_for_recognition-IsLinked handle =
      dispatch_token-IsLinked (lookup handle c.runtime.session_id_by_browser_token)
