-- ===== src/Control/Broadcast.antt =====
-- internal/control/service.go: the start and the end of a broadcast, and of the coordinator.
use fallout_terminal.Common.{
  ℕ, suc, true, false, not, ◌&&◌, Option, none, some, List, [], ◌∷◌, ◌++◌, ℤ, pos, negsuc, Bytes,
  is_some, zero, if◌then◌else◌,
}
use fallout_terminal.Domain.Coordination.{LiveBroadcast, ProcessRuntime}
use fallout_terminal.Live.Runtime.{Service}
use fallout_terminal.Control.Answers.{
  CoordinationError, config_required, no_broadcast, already_broadcasting, Reply, refuse, accept,
  accept_with, with_runtime, overseer,
}
use fallout_terminal.Control.Commit.{
  Config, Coordinator, Effect, Transition, no_effect, state_effects,
}
use fallout_terminal.Control.Requests.{clear_request_results}

-- `newProcessRuntime`.
abbrev pub new_process_runtime : ProcessRuntime
new_process_runtime = record {
  revision = 0;
  sessions_by_id = [];
  session_id_by_browser_token = [];
  roster_by_id = [];
  roster_order = [];
  active_player_config = none;
  broadcast = none;
  pending_switch = none;
  pending_command_execution = none;
  pending_terminal_navigation = none;
  terminal_navigation_notice = none;
}

abbrev pub default_request_result_limit : ℕ
default_request_result_limit = 256

-- The limit that `New` takes from its configuration.
unfoldable pub request_limit : ℤ → ℕ
request_limit (pos zero) = default_request_result_limit
request_limit (pos (suc n)) = suc n
request_limit (negsuc n) = default_request_result_limit

-- The coordinator of `New`.
abbrev pub new_coordinator : Service → Coordinator
new_coordinator service = record { runtime = new_process_runtime; live = service; asked = 0 }

abbrev pub new_broadcast : Bytes → LiveBroadcast
new_broadcast id = record {
  id = id;
  assignments_by_session = [];
  session_by_character = [];
  controller_session_id = none;
  active_terminal_id = none;
  terminal_runtimes = [];
  route = [];
  initial_terminal_established = false;
  initial_terminal_id = [];
  initial_terminal_group_id = [];
  initial_terminal_group_position = 0;
}

abbrev pub start_step : Config → Coordinator → Transition (Option CoordinationError)
start_step cfg c =
    if is_some cfg.roster_store && not (is_some c.runtime.active_player_config)
    then refuse c (some config_required)
    else if is_some c.runtime.broadcast
    then refuse c (some already_broadcasting)
    else accept (record c {
      asked = suc c.asked;
      runtime = clear_request_results (record c.runtime {
        broadcast = some (new_broadcast (cfg.next_id c.asked));
        pending_switch = none;
        pending_terminal_navigation = none;
        terminal_navigation_notice = none;
      });
    })

-- `StartBroadcast`.
unfoldable pub start_broadcast : Config → Coordinator → Coordinator × List Effect × Reply
unfolding clear_request_results overseer
start_broadcast cfg c = overseer cfg (start_step cfg) c

abbrev pub end_step : Coordinator → Transition (Option CoordinationError)
end_step c =
    let next = with_runtime c (
      clear_request_results (record c.runtime {
        broadcast = none;
        pending_switch = none;
        pending_command_execution = none;
        pending_terminal_navigation = none;
        terminal_navigation_notice = none;
      })) in
    if is_some c.runtime.broadcast
    then accept_with next
        (state_effects next.runtime ++ (record no_effect { clear_live_terminal = true } ∷ []))
    else refuse c (some no_broadcast)

-- `EndBroadcast`.
unfoldable pub end_broadcast : Config → Coordinator → Coordinator × List Effect × Reply
unfolding clear_request_results overseer
end_broadcast cfg c = overseer cfg end_step c

-- `Shutdown`.
abbrev pub shutdown : Coordinator → Coordinator
shutdown c = with_runtime c new_process_runtime
