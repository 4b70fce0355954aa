-- ===== src/Control/Answers.antt =====
-- internal/control/service.go: what the operations of the Overseer answer.
pub mod Settles
use fallout_terminal.Common.{true, false, Option, none, some, List, []}
use fallout_terminal.Domain.Coordination.{ProcessRuntime}
use fallout_terminal.Domain.Snapshots.{MasterCoordinationState}
use fallout_terminal.Control.Commit.{Config, Coordinator, Effect, Transition, commit, state_effects}
use fallout_terminal.Control.Snapshots.{master_snapshot}

-- The errors, without the values that their texts name.
pub data CoordinationError : Type 0 where
  config_path_blank config_invalid config_during_broadcast config_required : CoordinationError
  stale_revision roster_during_broadcast unknown_character save_failed : CoordinationError
  name_blank name_too_long bad_intelligence : CoordinationError
  no_broadcast unknown_session session_has_character character_taken : CoordinationError
  session_has_no_character session_disconnected name_in_use already_broadcasting : CoordinationError
  terminal_blank no_terminal terminal_not_active stale_reset not_failed : CoordinationError
  creation_failed update_failed switch_blank stale_switch : CoordinationError
  navigation_blank stale_navigation route_changed return_unavailable return_failed :
      CoordinationError
  navigation_target_changed target_failed : CoordinationError
  canceled stale_groups groups_unavailable groups_invalid groups_refused groups_not_saved :
      CoordinationError

-- The answer of an operation: the state of the Overseer, and the error if there is one.
pub record Reply : Type 0 where
  pub state : MasterCoordinationState
  pub error : Option CoordinationError

-- A transaction that ends in `transition{}`, at the working copy as it is.
abbrev pub refuse : Coordinator → Option CoordinationError → Transition (Option CoordinationError)
refuse c error = record {
  working = c;
  accepted = false;
  persist = false;
  effects = [];
  answer = error;
}

abbrev pub accept_with : Coordinator → List Effect → Transition (Option CoordinationError)
accept_with c effects = record {
  working = c;
  accepted = true;
  persist = false;
  effects = effects;
  answer = none;
}

abbrev pub accept : Coordinator → Transition (Option CoordinationError)
accept c = accept_with c (state_effects c.runtime)

-- A transaction behind its guards.
abbrev pub guarded :
    Option CoordinationError
    → Coordinator
    → Transition (Option CoordinationError)
    → Transition (Option CoordinationError)
guarded none c t = t
guarded (some error) c t = refuse c (some error)

abbrev pub with_runtime : Coordinator → ProcessRuntime → Coordinator
with_runtime c runtime = record c { runtime = runtime }

-- The whole of such an operation: the snapshot of the working copy gets the canonical revision.
unfoldable pub overseer :
    Config
    → (Coordinator → Transition (Option CoordinationError))
    → Coordinator
    → Coordinator × List Effect × Reply
unfolding commit master_snapshot
overseer cfg apply c =
    let done = commit cfg apply c in
    (
      done.0,
      done.1,
      record {
        state = record (master_snapshot (apply c).working.runtime) {
          revision = done.0.runtime.revision;
        };
        error = done.2;
      },
    )

-- An operation that returns before its transaction.
abbrev pub refused_early : Coordinator → CoordinationError → Coordinator × List Effect × Reply
refused_early c error = (c, [], record { state = master_snapshot c.runtime; error = some error })

abbrev pub unless_refused :
    Option CoordinationError
    → Coordinator
    → Coordinator × List Effect × Reply
    → Coordinator × List Effect × Reply
unless_refused none c done = done
unless_refused (some error) c done = refused_early c error
