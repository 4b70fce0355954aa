-- ===== src/Control/Outcomes.antt =====
-- internal/control/service.go: how a player's command ends, and what it asks of the Overseer.
use fallout_terminal.Common.{
  suc, true, false, not, ◌||◌, Option, none, some, List, [], ◌∷◌, ◌++◌, Bytes, equal, lookup,
  insert, utf8, if◌then◌else◌,
}
use fallout_terminal.Domain.Coordination.{
  ActionReason, accepted, invalid_action, ActionResult, LiveBroadcast, ProcessRuntime,
  TerminalReturnPoint, authored_transition, TerminalTransitionTarget, PendingTerminalNavigation,
  forward, back, target_missing,
}
use fallout_terminal.Domain.Runtime.{TerminalRuntime, TerminalTarget, pending}
use fallout_terminal.Domain.Snapshots.{RoutedLiveState}
use fallout_terminal.Domain.Tree.{
  ContentNode, CommandBehavior, TerminalTransitionConfig, fields, invalid, terminal_transitioning,
}
use fallout_terminal.Control.Answers.{with_runtime}
use fallout_terminal.Control.Commands.{
  player_action_fingerprint, command_approval_mode, displayed_command_name,
  command_confirmation_text,
}
use fallout_terminal.Control.Commit.{
  Config, Coordinator, Effect, Transition, live_effect, state_effects, next_revision,
}
use fallout_terminal.Control.Live.{put_runtime, project_active_terminal}
use fallout_terminal.Control.Requests.{store_request_result, rejected_result}
use fallout_terminal.Control.Route.{same_terminal_group, valid_terminal_return_point}
use fallout_terminal.Control.Prepare.{player_action_result_effect, Sent}

abbrev pub shown_effect : Option RoutedLiveState → List Effect
shown_effect none = []
shown_effect (some state) = live_effect state ∷ []

-- A session's notice is taken away.
unfoldable pub without_notice : Bytes → ProcessRuntime → ProcessRuntime
unfolding lookup insert
without_notice id runtime = elim (lookup id runtime.sessions_by_id) [
  | none ↦ runtime
  | some session ↦ record runtime {
    sessions_by_id = insert id (record session { notice = none }) runtime.sessions_by_id;
  }
]

module _ (cfg : Config) (sent : Sent) where
  abbrev pub remember : ActionResult → Coordinator → Coordinator
  remember result c = with_runtime c (
      store_request_result cfg.request_result_limit c.runtime sent.session_id
        sent.command.request_id
        (record { fingerprint = player_action_fingerprint sent.command; result = result }))

  -- `cachePlayerActionRejection`.
  abbrev pub cache_player_action_rejection : Coordinator → ActionReason → Transition ActionResult
  cache_player_action_rejection c reason =
      let result = rejected_result sent.command.request_id reason c.runtime.revision in
      record {
        working = remember result c;
        accepted = false;
        persist = true;
        effects = player_action_result_effect sent.connection sent.session_id result ∷ [];
        answer = result;
      }

  -- `commitPlayerActionResult`.
  abbrev pub commit_player_action_result :
      Coordinator → ActionResult → List Effect → Transition ActionResult
  commit_player_action_result c result effects = record {
    working = remember result c;
    accepted = true;
    persist = false;
    effects = effects ++ (player_action_result_effect sent.connection sent.session_id result ∷ []);
    answer = result;
  }

  -- `acceptedPlayerAction`.
  abbrev pub accepted_player_action : Coordinator → List Effect → Transition ActionResult
  accepted_player_action c effects =
      commit_player_action_result c
        (record {
          request_id = sent.command.request_id;
          accepted = true;
          reason = accepted;
          revision = next_revision c.runtime.revision;
        })
        effects

  -- `playerActionStateEffects`, and the end of an action that shows them.
  abbrev pub accepted_showing : Coordinator → Transition ActionResult
  accepted_showing c =
      let shown = project_active_terminal cfg.source c.runtime in
      accepted_player_action (with_runtime c shown.0)
        (state_effects c.runtime ++ shown_effect shown.1)

  abbrev pub pending_return :
      Bytes → LiveBroadcast → TerminalRuntime → TerminalReturnPoint → PendingTerminalNavigation
  pending_return id b state point = record {
    request_id = id;
    broadcast_id = b.id;
    controller_session_id = sent.session_id;
    direction = back;
    source_terminal_id = state.terminal_id;
    source_terminal_name = state.terminal_name;
    command_id = point.command_id;
    command_name = point.command_name;
    target_terminal_id = point.terminal_id;
    target_terminal_name = point.terminal_name;
    return_point = point;
  }

  -- `beginTerminalReturn` and `beginTerminalTransition`: the decision that the Overseer has to take.
  abbrev pub begin : Coordinator → (Bytes → PendingTerminalNavigation) → Coordinator
  begin c pending_with = record c {
    asked = suc c.asked;
    runtime = record c.runtime {
      pending_terminal_navigation = some (pending_with (cfg.next_id c.asked));
      terminal_navigation_notice = none;
    };
  }

  abbrev pub return_by :
      Coordinator
      → LiveBroadcast
      → TerminalRuntime
      → Option TerminalReturnPoint
      → Transition ActionResult
  return_by c b state none = cache_player_action_rejection c invalid_action
  return_by c b state (some top) =
      if not (valid_terminal_return_point (cfg.catalog c.asked) state.terminal_id top)
      then cache_player_action_rejection c invalid_action
      else accepted_showing (begin c (λ id. pending_return id b state top))

  abbrev pub last_of : Bytes → List Bytes → Bytes
  last_of d [] = d
  last_of d (name ∷ names) = last_of name names

  abbrev pub all_but_last : List Bytes → List Bytes
  all_but_last [] = []
  all_but_last (name ∷ []) = []
  all_but_last (name ∷ other ∷ names) = name ∷ all_but_last (other ∷ names)

  abbrev pub pending_transition :
      Bytes
      → LiveBroadcast
      → TerminalRuntime
      → ContentNode
      → TerminalTarget
      → PendingTerminalNavigation
  pending_transition id b state command target = record {
    request_id = id;
    broadcast_id = b.id;
    controller_session_id = sent.session_id;
    direction = forward;
    source_terminal_id = state.terminal_id;
    source_terminal_name = state.terminal_name;
    command_id = (fields command).id;
    command_name = (fields command).name;
    target_terminal_id = target.terminal_id;
    target_terminal_name = target.terminal_name;
    return_point = record {
      terminal_id = state.terminal_id;
      terminal_name = state.terminal_name;
      folder_id = last_of (utf8 "root") state.nav.path;
      ancestor_folder_ids = all_but_last state.nav.path;
      command_id = (fields command).id;
      command_name = (fields command).name;
      origin = authored_transition;
      group_id = [];
      group_position = 0;
    };
  }

  abbrev pub authored_target : Option TerminalTransitionConfig → Bytes
  authored_target none = []
  authored_target (some transition) = transition.target_terminal_id

  -- A link that leads nowhere: the Overseer is told, and the player is refused.
  abbrev pub noted : Coordinator → TerminalRuntime → ContentNode → Coordinator
  noted c state command = with_runtime c (record c.runtime {
    terminal_navigation_notice = some (record {
      reason = target_missing;
      source_terminal_id = state.terminal_id;
      command_id = (fields command).id;
      target_terminal_id = some (authored_target (fields command).terminal_transition);
    });
  })

  abbrev pub missing_target : Coordinator → TerminalRuntime → ContentNode → Transition ActionResult
  missing_target c state command =
      commit_player_action_result (noted c state command)
        (rejected_result sent.command.request_id invalid_action (next_revision c.runtime.revision))
        (state_effects (noted c state command).runtime)

  abbrev pub transition_by :
      Coordinator
      → LiveBroadcast
      → TerminalRuntime
      → ContentNode
      → Option TerminalTransitionTarget
      → Transition ActionResult
  transition_by c b state command none = missing_target c state command
  transition_by c b state command (some found) =
      if equal found.target.terminal_id state.terminal_id
        || not
            (equal found.target.terminal_id (authored_target (fields command).terminal_transition))
        || not
            (same_terminal_group (cfg.catalog c.asked) state.terminal_id found.target.terminal_id)
      then missing_target c state command
      else accepted_showing (begin c (λ id. pending_transition id b state command found.target))

  -- A command that waits for the Overseer.
  abbrev pub waiting : TerminalRuntime → ContentNode → TerminalRuntime
  waiting state command = record state {
    command_execution = some (record { phase = pending; command_id = (fields command).id });
  }

  abbrev pub awaiting : Coordinator → LiveBroadcast → TerminalRuntime → ContentNode → ProcessRuntime
  awaiting c b state command = record c.runtime {
    broadcast = some (put_runtime b sent.command.terminal_id (waiting state command));
    pending_command_execution = some (record {
      request_id = cfg.next_id c.asked;
      broadcast_id = b.id;
      terminal_id = state.terminal_id;
      command_id = (fields command).id;
      command_name = displayed_command_name state command;
      mode = command_approval_mode state command;
      confirmation_text = command_confirmation_text command;
      controller_session_id = sent.session_id;
    });
  }

  abbrev pub asking : Coordinator → LiveBroadcast → TerminalRuntime → ContentNode → Coordinator
  asking c b state command = record c {
    asked = suc c.asked;
    runtime = without_notice sent.session_id (awaiting c b state command);
  }

  abbrev pub ask_approval :
      Coordinator → LiveBroadcast → TerminalRuntime → ContentNode → Transition ActionResult
  ask_approval c b state command = accepted_showing (asking c b state command)

  abbrev pub authored_by :
      CommandBehavior
      → Coordinator
      → LiveBroadcast
      → TerminalRuntime
      → ContentNode
      → Transition ActionResult
  authored_by invalid c b state command = cache_player_action_rejection c invalid_action
  authored_by terminal_transitioning c b state command =
      transition_by c b state command
        ((cfg.catalog c.asked).lookup_terminal_transition state.terminal_id (fields command).id)
  authored_by _ c b state command = ask_approval c b state command
