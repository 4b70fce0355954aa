-- ===== src/Control/Actions/Authority.antt =====
-- Whose commands `DispatchPlayerAction` carries out.
use fallout_terminal.Common.{
  true, false, not, ◌||◌, Option, none, some, Bytes, has, lookup, equal, is_some, ◌≡◌, refl, sym,
  subst, arith, if-cases, [],
}
use fallout_terminal.Domain.Coordination.{
  ActionResult, LogicalSession, LiveBroadcast, ProcessRuntime,
}
use fallout_terminal.Domain.Runtime.{TerminalRuntime}
use fallout_terminal.Live.Runtime.{is_active}
use fallout_terminal.Control.Actions.{act, act_unless, act_as, action_step, dispatch_player_action}
use fallout_terminal.Control.Prepare.{
  Sent, Prepared, stopped, ready, prepare_at, prepare_in, prepare,
}
use fallout_terminal.Control.Claims.{is_value}
use fallout_terminal.Control.Commands.{PlayerCommand, valid_runtime_command}
use fallout_terminal.Control.Commit.{Config, Coordinator, Transition, commit}
use fallout_terminal.Control.Connections.{session_for_connection}
use fallout_terminal.Control.Requests.{request_result}
use fallout_terminal.Control.Snapshots.{is_connected}

-- The sender is in control of a terminal that is on, of the broadcast that it names, and nothing
-- waits for the Overseer.
pub record IsAuthorized (sent : Sent) (runtime : ProcessRuntime) : Type 0 where
  pub broadcast : LiveBroadcast
  pub checkpoint : TerminalRuntime
  pub running : runtime.broadcast ≡ some broadcast
  pub named : equal broadcast.id sent.command.broadcast_id ≡ true
  pub well_formed : valid_runtime_command sent.command ≡ true
  pub assigned : has sent.session_id broadcast.assignments_by_session ≡ true
  pub controls : is_value broadcast.controller_session_id sent.session_id ≡ true
  pub connected : is_connected sent.session.connection_ids ≡ true
  pub on_terminal : is_value broadcast.active_terminal_id sent.command.terminal_id ≡ true
  pub at_terminal : lookup sent.command.terminal_id broadcast.terminal_runtimes ≡ some checkpoint
  pub active : is_active checkpoint.lifecycle ≡ true
  pub no_command : is_some runtime.pending_command_execution ≡ false
  pub no_navigation : is_some runtime.pending_terminal_navigation ≡ false

-- What is ready is authorized.
abbrev Checked : Sent → ProcessRuntime → Prepared → Type 0
Checked sent r (stopped reason) = Unit
Checked sent r (ready b state) = IsAuthorized sent r

module _ (sent : Sent) (r : ProcessRuntime)
    (valid : valid_runtime_command sent.command ≡ true) where
  prepare_in-Checked :
      (b : Option LiveBroadcast) → r.broadcast ≡ b → Checked sent r (prepare_in sent r b)
  prepare_in-Checked none e = tt
  prepare_in-Checked (some b) e =
      if-cases (Checked sent r) (not (equal b.id sent.command.broadcast_id)) (λ _. tt)
        (λ named.
          if-cases (Checked sent r) (not (has sent.session_id b.assignments_by_session)) (λ _. tt)
            (λ assigned.
              if-cases (Checked sent r) (not (is_value b.controller_session_id sent.session_id))
                (λ _. tt)
                (λ controls.
                  if-cases (Checked sent r) (not (is_connected sent.session.connection_ids))
                    (λ _. tt)
                    (λ connected.
                      if-cases (Checked sent r)
                        (not (is_value b.active_terminal_id sent.command.terminal_id)) (λ _. tt)
                        (λ on.
                          at_slot named assigned controls connected on
                            (lookup sent.command.terminal_id b.terminal_runtimes) refl)))))
    where
      at_slot :
          not (equal b.id sent.command.broadcast_id) ≡ false
          → not (has sent.session_id b.assignments_by_session) ≡ false
          → not (is_value b.controller_session_id sent.session_id) ≡ false
          → not (is_connected sent.session.connection_ids) ≡ false
          → not (is_value b.active_terminal_id sent.command.terminal_id) ≡ false
          → (slot : Option TerminalRuntime)
          → lookup sent.command.terminal_id b.terminal_runtimes ≡ slot
          → Checked sent r (prepare_at r b slot)
      at_slot named assigned controls connected on none found = tt
      at_slot named assigned controls connected on (some state) found =
          if-cases (Checked sent r) (not (is_active state.lifecycle)) (λ _. tt)
            (λ active.
              if-cases (Checked sent r)
                (is_some r.pending_command_execution || is_some r.pending_terminal_navigation)
                (λ _. tt)
                (λ idle. record {
                  broadcast = b;
                  checkpoint = state;
                  running = e;
                  named = ground (arith, named);
                  well_formed = valid;
                  assigned = ground (arith, assigned);
                  controls = ground (arith, controls);
                  connected = ground (arith, connected);
                  on_terminal = ground (arith, on);
                  at_terminal = found;
                  active = ground (arith, active);
                  no_command = ground (arith, idle);
                  no_navigation = ground (arith, idle);
                }))

prepare-Checked : (sent : Sent) (r : ProcessRuntime) → Checked sent r (prepare sent r)
unfolding prepare
prepare-Checked sent r =
    if-cases (Checked sent r) (not (valid_runtime_command sent.command)) (λ _. tt)
      (λ valid. prepare_in-Checked sent r (ground (arith, valid)) r.broadcast refl)

act-Checked :
    (cfg : Config) (sent : Sent) (c : Coordinator) (p : Prepared)
    → Checked sent c.runtime p
    → (act cfg sent c p).answer.accepted ≡ true
    → IsAuthorized sent c.runtime
act-Checked cfg sent c (stopped reason) h e = absurd (ground arith)
act-Checked cfg sent c (ready b state) h e = h

-- If a command that is new is accepted, then its sender is the session in control of the broadcast
-- that the command names, it has a character and a stream, the terminal that the command names is
-- the active one, and neither a command nor a way to another terminal waits for the Overseer.
pub dispatch_player_action-IsAuthorized :
    (cfg : Config) (connection : Bytes) (command : PlayerCommand) (c : Coordinator) (id : Bytes)
    (session : LogicalSession)
    → session_for_connection c.runtime connection ≡ some (id, session)
    → request_result c.runtime id command.request_id ≡ none
    → (dispatch_player_action cfg connection command c).2.accepted ≡ true
    → IsAuthorized
        (record { connection = connection; session_id = id; session = session; command = command })
        c.runtime
unfolding dispatch_player_action action_step commit
dispatch_player_action-IsAuthorized cfg connection command c id session from new e =
    let sent : Sent = record {
      connection = connection;
      session_id = id;
      session = session;
      command = command;
    } in
    let Does : Transition ActionResult → Type 0 =
      λ t. t.answer.accepted ≡ true → IsAuthorized sent c.runtime in
    if-cases Does (equal command.request_id []) (λ _ f. absurd (ground arith))
      (λ _.
        subst (λ o. Does (act_unless cfg sent c o)) (sym new)
          (act-Checked cfg sent c (prepare sent c.runtime) (prepare-Checked sent c.runtime)))
      (subst (λ o. (act_as cfg connection command c o).answer.accepted ≡ true) from e)
