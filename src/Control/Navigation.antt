-- ===== src/Control/Navigation.antt =====
-- internal/control/service.go: `ResolveTerminalNavigation`, the Overseer's decision on a way to
-- another terminal and back.
use fallout_terminal.Common.{
  Bool, true, false, not, ◌&&◌, ◌||◌, Option, none, some, List, [], ◌∷◌, ◌++◌, Bytes, equal, lookup,
  insert, is_blank, trim_space, if◌then◌else◌,
}
use fallout_terminal.Domain.Coordination.{
  LiveBroadcast, ProcessRuntime, TerminalReturnPoint, PendingTerminalNavigation,
  TerminalNavigationDirection, forward, back, TerminalNavigationDecision, TerminalTransitionTarget,
  TerminalNavigationNoticeReason, target_missing, target_changed,
}
use fallout_terminal.Domain.Runtime.{TerminalRuntime, TerminalTarget, rejected}
use fallout_terminal.Domain.Snapshots.{RoutedLiveState}
use fallout_terminal.Domain.Tree.{NavState}
use fallout_terminal.Live.Runtime.{create_runtime, reactivate_runtime, public_runtime}
use fallout_terminal.Nav.{restore_folder, default_state}
use fallout_terminal.Control.Answers.{
  CoordinationError, navigation_blank, stale_navigation, route_changed, return_unavailable,
  return_failed, navigation_target_changed, target_failed, Reply, refuse, accept_with, with_runtime,
  overseer, refused_early,
}
use fallout_terminal.Control.Assignment.{with_broadcast}
use fallout_terminal.Control.Commit.{
  Config, Coordinator, Effect, Transition, live_effect, state_effects,
}
use fallout_terminal.Control.Live.{
  active_terminal_runtime, put_runtime, put_active, top_of, decorate_terminal_navigation,
  project_active_terminal,
}
use fallout_terminal.Control.Route.{
  same_terminal_return_point, same_terminal_group, valid_terminal_return_point,
}
use fallout_terminal.Control.Terminals.{suspend_active}

abbrev pub shown_effect : Option RoutedLiveState → List Effect
shown_effect none = []
shown_effect (some state) = live_effect state ∷ []

-- The end of a decision, with the active terminal shown, and with an error for the Overseer or none.
abbrev pub decided :
    Config → Coordinator → Option CoordinationError → Transition (Option CoordinationError)
decided cfg c error =
    let shown = project_active_terminal cfg.source c.runtime in
    record {
      working = with_runtime c shown.0;
      accepted = true;
      persist = false;
      effects = state_effects c.runtime ++ shown_effect shown.1;
      answer = error;
    }

abbrev pub blocked : PendingTerminalNavigation → TerminalRuntime → TerminalRuntime
blocked pending source = record source {
  command_execution = some (record { phase = rejected; command_id = pending.command_id });
}

abbrev pub declined_runtime :
    TerminalNavigationDirection
    → PendingTerminalNavigation
    → TerminalRuntime
    → ProcessRuntime
    → ProcessRuntime
declined_runtime forward pending source runtime = put_active runtime (blocked pending source)
declined_runtime back pending source runtime = runtime

abbrev pub settled_navigation : ProcessRuntime → ProcessRuntime
settled_navigation runtime = record runtime {
  pending_terminal_navigation = none;
  terminal_navigation_notice = none;
}

abbrev pub decline :
    Config
    → Coordinator
    → PendingTerminalNavigation
    → TerminalRuntime
    → Transition (Option CoordinationError)
decline cfg c pending source =
    decided cfg
      (with_runtime c
        (declined_runtime pending.direction pending source (settled_navigation c.runtime)))
      none

-- A target that is gone: the decision ends with a notice.
abbrev pub give_up :
    Config
    → Coordinator
    → PendingTerminalNavigation
    → TerminalNavigationNoticeReason
    → CoordinationError
    → Transition (Option CoordinationError)
give_up cfg c pending reason error =
    decided cfg
      (with_runtime c (record c.runtime {
        pending_terminal_navigation = none;
        terminal_navigation_notice = some (record {
          reason = reason;
          source_terminal_id = pending.source_terminal_id;
          command_id = pending.command_id;
          target_terminal_id = some pending.target_terminal_id;
        });
      }))
      (some error)

-- The target becomes the active terminal, at a place and with a route.
abbrev pub arrive :
    Coordinator
    → LiveBroadcast
    → Bytes
    → TerminalRuntime
    → NavState
    → List TerminalReturnPoint
    → Transition (Option CoordinationError)
arrive c b id state nav route =
    let there = record state { nav = nav } in
    let on = put_runtime b id there in
    let next = with_runtime c (
      settled_navigation (record c.runtime {
        broadcast = some (record on { route = route; active_terminal_id = some id });
      })) in
    let shown = record (public_runtime state) { nav = nav } in
    accept_with next (
      state_effects next.runtime
      ++ (live_effect (decorate_terminal_navigation next.runtime shown) ∷ []))

abbrev pub go_to_slot :
    Config
    → TerminalTarget
    → Coordinator
    → LiveBroadcast
    → NavState
    → List TerminalReturnPoint
    → CoordinationError
    → Option TerminalRuntime
    → Transition (Option CoordinationError)
go_to_slot cfg target c b nav route error none =
    let made = create_runtime cfg.source target c.live in
    arrive (record c { live = made.1 }) b target.terminal_id made.0 nav route
go_to_slot cfg target c b nav route error (some state) =
    let again = reactivate_runtime cfg.source state target in
    if again.1
    then arrive c b target.terminal_id again.0 nav route
    else refuse (with_broadcast c b) (some error)

abbrev pub go_to :
    Config
    → TerminalTarget
    → Coordinator
    → LiveBroadcast
    → NavState
    → List TerminalReturnPoint
    → CoordinationError
    → Transition (Option CoordinationError)
go_to cfg target c b nav route error =
    go_to_slot cfg target c b nav route error (lookup target.terminal_id b.terminal_runtimes)

-- A route without its last entry.
unfoldable pub popped : List TerminalReturnPoint → List TerminalReturnPoint
popped [] = []
popped (point ∷ []) = []
popped (point ∷ other ∷ route) = point ∷ popped (other ∷ route)

abbrev pub return_to :
    Config
    → Coordinator
    → LiveBroadcast
    → PendingTerminalNavigation
    → Option TerminalTarget
    → Transition (Option CoordinationError)
return_to cfg c b pending none = give_up cfg c pending target_missing return_unavailable
return_to cfg c b pending (some latest) =
    if not (equal latest.terminal_id pending.return_point.terminal_id)
      || not (
          same_terminal_group (cfg.catalog c.asked) pending.source_terminal_id
            pending.target_terminal_id)
    then give_up cfg c pending target_missing return_unavailable
    else go_to cfg latest c (suspend_active b)
        (restore_folder latest.tree pending.return_point.folder_id
          pending.return_point.ancestor_folder_ids)
        (popped b.route) return_failed

abbrev pub is_top : TerminalReturnPoint → Option TerminalReturnPoint → Bool
is_top point none = false
is_top point (some top) = same_terminal_return_point top point

abbrev pub go_back :
    Config
    → Coordinator
    → LiveBroadcast
    → PendingTerminalNavigation
    → Transition (Option CoordinationError)
go_back cfg c b pending =
    if not (is_top pending.return_point (top_of b.route))
      || not (
          valid_terminal_return_point (cfg.catalog c.asked) pending.source_terminal_id
            pending.return_point)
    then refuse c (some route_changed)
    else return_to cfg c b pending
        ((cfg.catalog c.asked).lookup_terminal pending.target_terminal_id)

abbrev pub follow_link :
    Config
    → Coordinator
    → LiveBroadcast
    → PendingTerminalNavigation
    → Option TerminalTransitionTarget
    → Transition (Option CoordinationError)
follow_link cfg c b pending none = give_up cfg c pending target_changed navigation_target_changed
follow_link cfg c b pending (some latest) =
    if not (equal latest.target.terminal_id pending.target_terminal_id)
      || equal latest.target.terminal_id pending.source_terminal_id
      || not (
          same_terminal_group (cfg.catalog c.asked) pending.source_terminal_id
            pending.target_terminal_id)
    then give_up cfg c pending target_changed navigation_target_changed
    else go_to cfg latest.target c (suspend_active b) default_state
        (b.route ++ (pending.return_point ∷ [])) target_failed

abbrev pub approved :
    Config
    → TerminalNavigationDirection
    → Coordinator
    → LiveBroadcast
    → PendingTerminalNavigation
    → Transition (Option CoordinationError)
approved cfg back c b pending = go_back cfg c b pending
approved cfg forward c b pending =
    follow_link cfg c b pending (
      (cfg.catalog c.asked).lookup_terminal_transition pending.source_terminal_id
        pending.command_id)

abbrev pub resolve_by :
    Config
    → TerminalNavigationDecision
    → Coordinator
    → LiveBroadcast
    → PendingTerminalNavigation
    → TerminalRuntime
    → Transition (Option CoordinationError)
resolve_by cfg TerminalNavigationDecision.reject c b pending source = decline cfg c pending source
resolve_by cfg TerminalNavigationDecision.approve c b pending source =
    approved cfg pending.direction c b pending

abbrev pub resolve_from :
    Config
    → Bytes
    → TerminalNavigationDecision
    → Coordinator
    → LiveBroadcast
    → PendingTerminalNavigation
    → Option TerminalRuntime
    → Transition (Option CoordinationError)
resolve_from cfg id decision c b pending none = refuse c (some stale_navigation)
resolve_from cfg id decision c b pending (some source) =
    if equal pending.request_id id
      && equal pending.broadcast_id b.id
      && equal source.terminal_id pending.source_terminal_id
    then resolve_by cfg decision c b pending source
    else refuse c (some stale_navigation)

abbrev pub resolve_in :
    Config
    → Bytes
    → TerminalNavigationDecision
    → Coordinator
    → Option LiveBroadcast
    → Option PendingTerminalNavigation
    → Transition (Option CoordinationError)
resolve_in cfg id decision c (some b) (some pending) =
    resolve_from cfg id decision c b pending (active_terminal_runtime (some b))
resolve_in cfg id decision c _ _ = refuse c (some stale_navigation)

-- `ResolveTerminalNavigation`.
unfoldable pub resolve_terminal_navigation :
    Config → Bytes → TerminalNavigationDecision → Coordinator → Coordinator × List Effect × Reply
unfolding equal lookup insert trim_space active_terminal_runtime put_active suspend_active top_of
    popped restore_folder same_terminal_return_point same_terminal_group valid_terminal_return_point
    create_runtime reactivate_runtime public_runtime decorate_terminal_navigation
    project_active_terminal state_effects overseer
resolve_terminal_navigation cfg id decision c =
    if is_blank id
    then refused_early c navigation_blank
    else overseer cfg
        (λ now.
          resolve_in cfg (trim_space id) decision now now.runtime.broadcast
            now.runtime.pending_terminal_navigation)
        c
