-- ===== src/Live/Runtime.antt =====
-- internal/live/service.go: the operations on a checkpoint that the coordinator owns.
use fallout_terminal.Common.{
  ℕ, suc, Bool, true, false, not, ◌&&◌, Option, none, some, List, [], ℤ, pos, Bytes, leb_ℤ, equal,
  if◌then◌else◌,
}
use fallout_terminal.Domain.Hack.{HackState, PublicHackState}
use fallout_terminal.Domain.Runtime.{
  no_selection, TerminalLifecycle, active, suspended, TerminalTarget, TerminalRuntime,
  PublicLiveState,
}
use fallout_terminal.Hack.Board.{generate_board}
use fallout_terminal.Hack.Effects.{public_state}
use fallout_terminal.Hack.Play.{force_success}
use fallout_terminal.Hack.Random.{Random}
use fallout_terminal.Live.Effective.{effective_tree}
use fallout_terminal.Live.Presentation.{active_puzzle, revalidate_presentation}
use fallout_terminal.Nav.{revalidate, default_state}

-- What a service draws from: random numbers, words, and IDs for new puzzles.
pub record Source : Type 0 where
  pub sha256 : Bytes → Bytes
  pub words : Option (ℕ → ℕ → List Bytes)
  pub next_id : ℕ → Bytes

pub record Service : Type 0 where
  pub random : Random
  pub ids_drawn : ℕ

abbrev pub public_hack : Option HackState → Option PublicHackState
public_hack none = none
public_hack (some h) = some (public_state h)

-- `publicTerminalRuntime`.
unfoldable pub public_runtime : TerminalRuntime → PublicLiveState
unfolding effective_tree public_state
public_runtime state = record {
  terminal_id = state.terminal_id;
  terminal_name = state.terminal_name;
  tree = effective_tree state.tree state.command_states;
  hack_level = state.hack_level;
  intro_text = state.intro_text;
  nav = state.nav;
  hack = public_hack state.hack;
  command_execution = state.command_execution;
  presentation = state.presentation;
}

abbrev pub fresh_runtime : TerminalTarget → Option HackState → TerminalRuntime
fresh_runtime target puzzle = record {
  terminal_id = target.terminal_id;
  terminal_name = target.terminal_name;
  tree = target.tree;
  command_states = target.command_states;
  command_execution = none;
  hack_level = target.hack_level;
  intro_text = target.intro_text;
  nav = default_state;
  hack = puzzle;
  presentation = record {
    kind = no_selection;
    context_key = [];
    target_id = [];
    pattern_id = [];
    page_index = 0;
  };
  lifecycle = active;
}

abbrev pub is_failed : Option HackState → Bool
is_failed none = false
is_failed (some h) = h.failed && not h.solved

abbrev kept_level : Option HackState → ℤ → ℤ → ℤ
kept_level none old new = new
kept_level (some _) old new = old

-- The authored content of a target put in place, with the navigation repaired.
abbrev pub with_target : TerminalRuntime → TerminalTarget → TerminalRuntime
with_target state target = record state {
  terminal_name = target.terminal_name;
  tree = target.tree;
  command_states = target.command_states;
  intro_text = target.intro_text;
  hack_level = kept_level state.hack state.hack_level target.hack_level;
  nav = revalidate state.nav target.tree;
}

abbrev pub is_for : TerminalRuntime → TerminalTarget → Bool
is_for state target =
    not (equal target.terminal_id []) && equal state.terminal_id target.terminal_id

abbrev pub is_active : TerminalLifecycle → Bool
is_active active = true
is_active suspended = false

module _ (source : Source) where
  -- A puzzle for a level above zero; its generation takes the next ID.
  unfoldable pub new_puzzle : ℤ → Service → Option HackState × Service
  unfolding generate_board
  new_puzzle level service =
      let drawn =
        generate_board source.sha256 (source.next_id service.ids_drawn) level source.words
          service.random in
      if leb_ℤ (pos 1) level
      then (drawn.0, record { random = drawn.1; ids_drawn = suc service.ids_drawn })
      else (none, service)

  -- `CreateRuntime` and `DiscardRuntime`.
  unfoldable pub create_runtime : TerminalTarget → Service → TerminalRuntime × Service
  unfolding new_puzzle revalidate_presentation
  create_runtime target service =
      let drawn = new_puzzle target.hack_level service in
      (revalidate_presentation source.sha256 (fresh_runtime target drawn.0), drawn.1)

  -- `ResetFailedHack`: only the current failed puzzle of the same terminal is replaced.
  unfoldable pub reset_failed_hack :
      TerminalRuntime → TerminalTarget → Service → Option TerminalRuntime × Service
  unfolding create_runtime
  reset_failed_hack old target service =
      let made = create_runtime target service in
      if not (equal target.terminal_id [])
        && equal old.terminal_id target.terminal_id
        && is_failed old.hack
      then (some made.0, made.1)
      else (none, service)

  -- `UpdateRuntime`: the checkpoint, and whether there is a projection.
  unfoldable pub update_runtime : TerminalRuntime → TerminalTarget → TerminalRuntime × Bool
  unfolding revalidate revalidate_presentation
  update_runtime state target =
      if is_for state target
      then (revalidate_presentation source.sha256 (with_target state target), true)
      else (state, false)

  -- `ReactivateRuntime`.
  unfoldable pub reactivate_runtime : TerminalRuntime → TerminalTarget → TerminalRuntime × Bool
  unfolding revalidate revalidate_presentation
  reactivate_runtime state target =
      if is_for state target
      then (
        revalidate_presentation source.sha256
            (record (with_target state target) { command_execution = none; lifecycle = active }),
        true,
      )
      else (state, false)

  -- `ProjectRuntime`.
  unfoldable pub project_runtime : TerminalRuntime → TerminalRuntime × PublicLiveState
  unfolding revalidate_presentation public_runtime
  project_runtime state =
      let next = revalidate_presentation source.sha256 state in (next, public_runtime next)

  -- `ForceRuntimeHackSuccess`.
  unfoldable pub force_runtime : TerminalRuntime → TerminalRuntime × Bool
  unfolding active_puzzle force_success revalidate_presentation
  force_runtime state =
      if is_active state.lifecycle
      then elim (active_puzzle state.hack) [
        | none ↦ (state, false)
        | some h ↦ (
          revalidate_presentation source.sha256 (record state { hack = some (force_success h) }),
          true,
        )
      ]
      else (state, false)

-- `SuspendRuntime`.
unfoldable pub suspend_runtime : TerminalRuntime → TerminalRuntime
suspend_runtime state = record state { lifecycle = suspended }
