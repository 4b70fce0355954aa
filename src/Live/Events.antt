-- ===== src/Live/Events.antt =====
-- internal/live/service.go: what the coordinator asks for one terminal, in any order.
use fallout_terminal.Common.{true, Option, none, some, List, [], ◌∷◌, ◌≡◌}
use fallout_terminal.Domain.Runtime.{TerminalTarget, TerminalRuntime, RuntimeCommand}
use fallout_terminal.Live.Runtime.{
  Source, Service, create_runtime, reset_failed_hack, update_runtime, reactivate_runtime,
  project_runtime, force_runtime, suspend_runtime,
}
use fallout_terminal.Live.Command.{apply}
use fallout_terminal.Nav.{is_root}

-- What the coordinator asks for one terminal.
pub data Event : Type 0 where
  run : RuntimeCommand → Event
  update : TerminalTarget → Event
  suspend project force : Event
  reactivate : TerminalTarget → Event
  reset : TerminalTarget → Event
  discard : TerminalTarget → Event

pub record Checkpoint : Type 0 where
  pub runtime : TerminalRuntime
  pub service : Service

abbrev pub made : TerminalRuntime × Service → Checkpoint
made (runtime, service) = record { runtime = runtime; service = service }

abbrev pub replaced : Checkpoint → Option TerminalRuntime × Service → Checkpoint
replaced point (none, service) = record { runtime = point.runtime; service = service }
replaced point (some runtime, service) = record { runtime = runtime; service = service }

unfoldable pub handle : Source → Checkpoint → Event → Checkpoint
handle source point (run command) =
    let done = apply source point.runtime command point.service.random in
    record { runtime = done.0; service = record point.service { random = done.2 } }
handle source point (update target) = record point {
  runtime = (update_runtime source point.runtime target).0;
}
handle source point suspend = record point { runtime = suspend_runtime point.runtime }
handle source point project = record point { runtime = (project_runtime source point.runtime).0 }
handle source point force = record point { runtime = (force_runtime source point.runtime).0 }
handle source point (reactivate target) = record point {
  runtime = (reactivate_runtime source point.runtime target).0;
}
handle source point (reset target) =
    replaced point (reset_failed_hack source point.runtime target point.service)
handle source point (discard target) = made (create_runtime source target point.service)

unfoldable pub history : Source → Checkpoint → List Event → Checkpoint
unfolding handle
history source point [] = point
history source point (event ∷ events) = history source (handle source point event) events

-- The target that comes with an event has a proper root.
abbrev pub IsRooted : Event → Type 0
IsRooted (update target) = is_root target.tree ≡ true
IsRooted (reactivate target) = is_root target.tree ≡ true
IsRooted (reset target) = is_root target.tree ≡ true
IsRooted (discard target) = is_root target.tree ≡ true
IsRooted _ = Unit
