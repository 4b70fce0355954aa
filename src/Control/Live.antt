-- ===== src/Control/Live.antt =====
-- internal/control/service.go: the active terminal of a broadcast, and what is shown of it.
use fallout_terminal.Common.{
  Bool, true, false, not, ◌&&◌, Option, none, some, List, [], ◌∷◌, Bytes, lookup, insert, is_some,
  if◌then◌else◌,
}
use fallout_terminal.Domain.Coordination.{
  LiveBroadcast, ProcessRuntime, PendingTerminalNavigation, TerminalReturnPoint,
}
use fallout_terminal.Domain.Hack.{HackState}
use fallout_terminal.Domain.Runtime.{TerminalRuntime, PublicLiveState}
use fallout_terminal.Domain.Snapshots.{
  TerminalReturnTarget, PendingTerminalNavigationPresentation, TerminalNavigationPresentation,
  RoutedLiveState,
}
use fallout_terminal.Live.Runtime.{Source, is_active, project_runtime}
use fallout_terminal.Control.Snapshots.{route_depth}

abbrev pub runtime_at : LiveBroadcast → Option Bytes → Option TerminalRuntime
runtime_at b none = none
runtime_at b (some id) = lookup id b.terminal_runtimes

-- `activeTerminalRuntime`.
unfoldable pub active_terminal_runtime : Option LiveBroadcast → Option TerminalRuntime
unfolding lookup
active_terminal_runtime none = none
active_terminal_runtime (some b) = runtime_at b b.active_terminal_id

-- The checkpoint of the active terminal is written back: the map holds pointers.
abbrev pub put_runtime : LiveBroadcast → Bytes → TerminalRuntime → LiveBroadcast
put_runtime b id state = record b { terminal_runtimes = insert id state b.terminal_runtimes }

abbrev pub put_at : Option Bytes → LiveBroadcast → TerminalRuntime → LiveBroadcast
put_at none b state = b
put_at (some id) b state = put_runtime b id state

abbrev pub put_in : Option LiveBroadcast → TerminalRuntime → Option LiveBroadcast
put_in none state = none
put_in (some b) state = some (put_at b.active_terminal_id b state)

unfoldable pub put_active : ProcessRuntime → TerminalRuntime → ProcessRuntime
unfolding insert
put_active runtime state = record runtime { broadcast = put_in runtime.broadcast state }

-- The active checkpoint, unless it is suspended.
abbrev pub if_active : Option TerminalRuntime → Option TerminalRuntime
if_active none = none
if_active (some state) = if is_active state.lifecycle then some state else none

abbrev pub live_terminal : ProcessRuntime → Option TerminalRuntime
live_terminal runtime = if_active (active_terminal_runtime runtime.broadcast)

-- The last entry of a route.
unfoldable pub top_of : List TerminalReturnPoint → Option TerminalReturnPoint
top_of [] = none
top_of (point ∷ []) = some point
top_of (point ∷ other ∷ route) = top_of (other ∷ route)

abbrev pub return_target_of : Option TerminalReturnPoint → Option TerminalReturnTarget
return_target_of none = none
return_target_of (some top) =
    some (record { terminal_id = top.terminal_id; terminal_name = top.terminal_name })

abbrev pub pending_shown :
    Option PendingTerminalNavigation → Option PendingTerminalNavigationPresentation
pending_shown none = none
pending_shown (some pending) = some (record {
  direction = pending.direction;
  target_terminal_id = pending.target_terminal_id;
  target_terminal_name = pending.target_terminal_name;
})

abbrev pub is_empty : List TerminalReturnPoint → Bool
is_empty [] = true
is_empty (_ ∷ _) = false

abbrev pub navigation_of : ProcessRuntime → LiveBroadcast → Option TerminalNavigationPresentation
navigation_of runtime b =
    if is_empty b.route && not (is_some runtime.pending_terminal_navigation)
    then none
    else some (record {
      route_depth = route_depth (some b);
      return_target = return_target_of (top_of b.route);
      pending = pending_shown runtime.pending_terminal_navigation;
    })

abbrev pub navigation_in :
    ProcessRuntime → Option LiveBroadcast → Option TerminalNavigationPresentation
navigation_in runtime none = none
navigation_in runtime (some b) = navigation_of runtime b

-- `decorateTerminalNavigation`.
unfoldable pub decorate_terminal_navigation : ProcessRuntime → PublicLiveState → RoutedLiveState
unfolding top_of
decorate_terminal_navigation runtime state = record {
  live = state;
  terminal_navigation = navigation_in runtime runtime.broadcast;
}

-- A projection that has no route with it.
abbrev pub undecorated : PublicLiveState → RoutedLiveState
undecorated state = record { live = state; terminal_navigation = none }

-- `unfinishedTerminalRuntime`.
abbrev pub unfinished_hack : Option HackState → Bool
unfinished_hack none = false
unfinished_hack (some h) = not h.solved && not h.failed

abbrev pub unfinished_terminal_runtime : TerminalRuntime → Bool
unfinished_terminal_runtime state = unfinished_hack state.hack

module _ (source : Source) where
  -- `ProjectRuntime` of the active terminal, which repairs its selection in place.
  abbrev pub project_as :
      ProcessRuntime → Option TerminalRuntime → ProcessRuntime × Option RoutedLiveState
  project_as runtime none = (runtime, none)
  project_as runtime (some state) =
      let shown = project_runtime source state in
      (put_active runtime shown.0, some (decorate_terminal_navigation runtime shown.1))

  -- `projectActiveTerminal`.
  unfoldable pub project_active_terminal : ProcessRuntime → ProcessRuntime × Option RoutedLiveState
  unfolding project_runtime put_active decorate_terminal_navigation active_terminal_runtime
  project_active_terminal runtime = project_as runtime (live_terminal runtime)
