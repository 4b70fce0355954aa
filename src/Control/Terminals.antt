-- ===== src/Control/Terminals.antt =====
-- internal/control/service.go: the terminals of a broadcast, which the Overseer switches between.
use fallout_terminal.Common.{
  suc, Bool, true, false, not, ◌&&◌, Option, none, some, List, [], ◌∷◌, ◌++◌, Bytes, Dict, equal,
  lookup, insert, has, is_some, is_blank, trim_space, if◌then◌else◌,
}
use fallout_terminal.Domain.Coordination.{LiveBroadcast, ProcessRuntime}
use fallout_terminal.Domain.Runtime.{TerminalRuntime, TerminalTarget, TerminalLifecycle, active}
use fallout_terminal.Live.Runtime.{
  is_active, public_runtime, create_runtime, update_runtime, reactivate_runtime, suspend_runtime,
}
use fallout_terminal.Control.Answers.{
  CoordinationError, terminal_blank, no_broadcast, update_failed, Reply, refuse, accept,
  accept_with, with_runtime, overseer, refused_early,
}
use fallout_terminal.Control.Claims.{is_value}
use fallout_terminal.Control.Commit.{
  Config, Coordinator, Effect, Transition, no_effect, live_effect, state_effects,
}
use fallout_terminal.Control.Live.{
  active_terminal_runtime, put_runtime, undecorated, unfinished_terminal_runtime,
}
use fallout_terminal.Control.Route.{
  establish_initial_terminal_route, clear_terminal_navigation_runtime,
}

unfoldable pub without_executions : Dict TerminalRuntime → Dict TerminalRuntime
without_executions [] = []
without_executions ((id, state) ∷ rest) =
    (id, record state { command_execution = none }) ∷ without_executions rest

abbrev pub without_executions_in : Option LiveBroadcast → Option LiveBroadcast
without_executions_in none = none
without_executions_in (some b) =
    some (record b { terminal_runtimes = without_executions b.terminal_runtimes })

-- `clearCommandExecutionRuntime`.
unfoldable pub clear_command_execution_runtime : ProcessRuntime → ProcessRuntime
unfolding without_executions
clear_command_execution_runtime runtime = record runtime {
  pending_command_execution = none;
  broadcast = without_executions_in runtime.broadcast;
}

abbrev pub with_lifecycle : TerminalLifecycle → TerminalRuntime → TerminalRuntime
with_lifecycle lifecycle state = record state { lifecycle = lifecycle }

abbrev pub suspend_found : LiveBroadcast → Bytes → Option TerminalRuntime → LiveBroadcast
suspend_found b id none = b
suspend_found b id (some state) = put_runtime b id (suspend_runtime state)

abbrev pub suspend_at : LiveBroadcast → Option Bytes → LiveBroadcast
suspend_at b none = b
suspend_at b (some id) = suspend_found b id (lookup id b.terminal_runtimes)

-- The active checkpoint is suspended.
unfoldable pub suspend_active : LiveBroadcast → LiveBroadcast
unfolding lookup insert suspend_runtime
suspend_active b = suspend_at b b.active_terminal_id

-- The active checkpoint is suspended, unless it is the target's.
abbrev pub suspend_source : Bytes → LiveBroadcast → LiveBroadcast
suspend_source target b = if is_value b.active_terminal_id target then b else suspend_active b

abbrev pub shown_if : Bool → TerminalRuntime → Effect
shown_if true state = live_effect (undecorated (public_runtime state))
shown_if false state = no_effect

-- The target's checkpoint, which becomes the active one.
abbrev pub activated :
    Config
    → Bytes
    → Coordinator
    → LiveBroadcast
    → TerminalRuntime
    → Bool
    → Transition (Option CoordinationError)
activated cfg target c b state shown =
    let placed = put_runtime b target state in
    let switched = suspend_source target placed in
    let on = put_runtime switched target (with_lifecycle active state) in
    let routed =
      establish_initial_terminal_route (cfg.catalog c.asked)
        (record on { active_terminal_id = some target }) target in
    let next =
      with_runtime c (record c.runtime { broadcast = some routed; pending_switch = none }) in
    accept_with next (state_effects next.runtime ++ (shown_if shown state ∷ []))

abbrev pub activate_slot :
    Config
    → TerminalTarget
    → Coordinator
    → LiveBroadcast
    → Option TerminalRuntime
    → Transition (Option CoordinationError)
activate_slot cfg target c b none =
    let made = create_runtime cfg.source target c.live in
    activated cfg target.terminal_id (record c { live = made.1 }) b made.0 true
activate_slot cfg target c b (some state) =
    let again = reactivate_runtime cfg.source state target in
    let updated = update_runtime cfg.source state target in
    if not (is_active state.lifecycle)
    then activated cfg target.terminal_id c b again.0 again.1
    else if updated.1
    then activated cfg target.terminal_id c b updated.0 true
    else refuse c (some update_failed)

-- A decision that the Overseer has to take first.
abbrev pub pend_switch :
    Config
    → Option TerminalTarget
    → Coordinator
    → LiveBroadcast
    → TerminalRuntime
    → Transition (Option CoordinationError)
pend_switch cfg target c b source = accept (record c {
  asked = suc c.asked;
  runtime = record c.runtime {
    pending_switch = some (record {
      id = cfg.next_id c.asked;
      broadcast_id = b.id;
      source_terminal_id = source.terminal_id;
      target = target;
    });
  };
})

abbrev pub activate_from :
    Config
    → TerminalTarget
    → Coordinator
    → LiveBroadcast
    → Option TerminalRuntime
    → Transition (Option CoordinationError)
activate_from cfg target c b none =
    activate_slot cfg target c b (lookup target.terminal_id b.terminal_runtimes)
activate_from cfg target c b (some source) =
    if unfinished_terminal_runtime source && not (equal source.terminal_id target.terminal_id)
    then pend_switch cfg (some target) c b source
    else activate_slot cfg target c b (lookup target.terminal_id b.terminal_runtimes)

-- The runtime without a pending command, navigation or route.
abbrev pub undecided : Coordinator → Coordinator
undecided c =
    with_runtime c (clear_terminal_navigation_runtime (clear_command_execution_runtime c.runtime)).0

abbrev pub undecided_broadcast : LiveBroadcast → LiveBroadcast
undecided_broadcast b = record b {
  terminal_runtimes = without_executions b.terminal_runtimes;
  route = [];
}

abbrev pub activate_in :
    Config
    → TerminalTarget
    → Coordinator
    → Option LiveBroadcast
    → Transition (Option CoordinationError)
activate_in cfg target c none = refuse c (some no_broadcast)
activate_in cfg target c (some b) =
    activate_from cfg target (undecided c) (undecided_broadcast b)
      (active_terminal_runtime (some (undecided_broadcast b)))

abbrev pub activation_step :
    Config → TerminalTarget → Coordinator → Transition (Option CoordinationError)
activation_step cfg target c = activate_in cfg target c c.runtime.broadcast

-- `RequestTerminalActivation`.
unfoldable pub request_terminal_activation :
    Config → TerminalTarget → Coordinator → Coordinator × List Effect × Reply
unfolding clear_command_execution_runtime clear_terminal_navigation_runtime lookup equal insert
    active_terminal_runtime suspend_active establish_initial_terminal_route create_runtime
    reactivate_runtime update_runtime public_runtime overseer
request_terminal_activation cfg target c =
    if is_blank target.terminal_id
    then refused_early c terminal_blank
    else overseer cfg (activation_step cfg target) c

-- The active checkpoint is suspended, and no terminal is active.
abbrev pub clear_active :
    Coordinator → LiveBroadcast → Option TerminalRuntime → Transition (Option CoordinationError)
clear_active c b source =
    let off = record (suspend_active b) { active_terminal_id = none } in
    let next = with_runtime c (record c.runtime { broadcast = some off; pending_switch = none }) in
    accept_with next
      (state_effects next.runtime ++ (record no_effect { clear_live_terminal = true } ∷ []))

abbrev pub clear_from :
    Config
    → Bool
    → Coordinator
    → LiveBroadcast
    → Option TerminalRuntime
    → Transition (Option CoordinationError)
clear_from cfg cleared c b none =
    if is_some b.active_terminal_id
    then clear_active c b none
    else if cleared
    then accept c
    else refuse c none
clear_from cfg cleared c b (some source) =
    if unfinished_terminal_runtime source
    then pend_switch cfg none c b source
    else clear_active c b (some source)

abbrev pub clear_in :
    Config → Bool → Coordinator → Option LiveBroadcast → Transition (Option CoordinationError)
clear_in cfg cleared c none = refuse c (some no_broadcast)
clear_in cfg cleared c (some b) =
    clear_from cfg cleared (undecided c) (undecided_broadcast b)
      (active_terminal_runtime (some (undecided_broadcast b)))

abbrev pub clear_step : Config → Coordinator → Transition (Option CoordinationError)
clear_step cfg c =
    clear_in cfg (clear_terminal_navigation_runtime (clear_command_execution_runtime c.runtime)).1 c
      c.runtime.broadcast

-- `RequestTerminalClear`.
unfoldable pub request_terminal_clear : Config → Coordinator → Coordinator × List Effect × Reply
unfolding clear_command_execution_runtime clear_terminal_navigation_runtime active_terminal_runtime
    suspend_active overseer
request_terminal_clear cfg c = overseer cfg (clear_step cfg) c

-- `CanDeleteTerminal`: whether it gives no error.
unfoldable pub can_delete_terminal : Bytes → ProcessRuntime → Bool
unfolding lookup
can_delete_terminal id runtime = not (is_blank id) && elim runtime.broadcast [
  | none ↦ true
  | some b ↦ not (has (trim_space id) b.terminal_runtimes)
]
