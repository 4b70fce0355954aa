-- ===== src/Live/Legacy.antt =====
-- internal/live/service.go: the one live terminal that a service holds itself.
pub mod Keep
use fallout_terminal.Common.{
  ℕ, Bool, true, false, Option, none, some, List, [], ◌∷◌, ℤ, Bytes, All, ◌≡◌, refl, Option-cases,
  inl, inr, Bool-cases, if◌then◌else◌,
}
use fallout_terminal.Domain.Hack.{HackState, PublicHackState}
use fallout_terminal.Domain.Runtime.{
  TerminalRuntime, RuntimeCommand, navigate, guess, activate_pattern, no_selection, active,
}
use fallout_terminal.Domain.Tree.{ContentNode, NavState}
use fallout_terminal.Hack.Effects.{public_state}
use fallout_terminal.Hack.Play.{force_success}
use fallout_terminal.Live.Presentation.{active_puzzle}
use fallout_terminal.Live.Runtime.{Source, Service, new_puzzle, public_hack}
use fallout_terminal.Live.Command.{apply}
use fallout_terminal.Nav.{is_root, default_state, revalidate}

pub record LiveState : Type 0 where
  pub terminal_id : Bytes
  pub terminal_name : Bytes
  pub tree : ContentNode
  pub hack_level : ℤ
  pub intro_text : Bytes
  pub nav : NavState
  pub hack : Option HackState

pub record Held : Type 0 where
  pub live : Option LiveState
  pub service : Service

abbrev live_hack : Option LiveState → Option HackState
live_hack none = none
live_hack (some state) = state.hack

-- `terminalRuntime`.
unfoldable pub terminal_runtime : LiveState → TerminalRuntime
terminal_runtime state = record {
  terminal_id = state.terminal_id;
  terminal_name = state.terminal_name;
  tree = state.tree;
  command_states = [];
  command_execution = none;
  hack_level = state.hack_level;
  intro_text = state.intro_text;
  nav = state.nav;
  hack = state.hack;
  presentation = record {
    kind = no_selection;
    context_key = [];
    target_id = [];
    pattern_id = [];
    page_index = 0;
  };
  lifecycle = active;
}

-- `publicLiveState`, whose trees and copies are the values themselves.
unfoldable pub snapshot : Held → Option (LiveState × Option PublicHackState)
snapshot held = elim held.live [ none ↦ none | some state ↦ some (state, public_hack state.hack) ]

module _ (source : Source) where
  -- `Set`.
  unfoldable pub set_live : Held → Bytes → Bytes → ContentNode → ℤ → Bytes → Held
  unfolding new_puzzle
  set_live held terminal_id terminal_name tree level intro_text =
      let drawn = new_puzzle source level held.service in
      record {
        live = some (record {
          terminal_id = terminal_id;
          terminal_name = terminal_name;
          tree = tree;
          hack_level = level;
          intro_text = intro_text;
          nav = default_state;
          hack = drawn.0;
        });
        service = drawn.1;
      }

  -- A command to the live terminal; navigation and the puzzle are taken over from the checkpoint
  -- that ran it. The puzzle is shared with it, so a refused command has worked on it too.
  unfoldable pub run_live : Held → LiveState → RuntimeCommand → Held × Bool
  unfolding terminal_runtime apply
  run_live held state command =
      let done = apply source (terminal_runtime state) command held.service.random in
      (
        record {
          live = some (record state { nav = done.0.nav; hack = done.0.hack });
          service = record held.service { random = done.2 };
        },
        done.1,
      )

  -- `ApplyNav`.
  unfoldable pub apply_nav : Held → Bytes → Bytes → Held × Bool
  unfolding run_live
  apply_nav held action id = elim held.live [
    | none ↦ (held, false)
    | some state ↦ run_live held state (navigate action id)
  ]

  abbrev pub run_puzzle : Held → RuntimeCommand → Held × Bool
  run_puzzle held command = elim held.live [
    | none ↦ (held, false)
    | some state ↦ elim (active_puzzle state.hack) [
      | none ↦ (held, false)
      | some _ ↦ run_live held state command
    ]
  ]

  -- `ApplyHackGuess`.
  unfoldable pub apply_hack_guess : Held → Bytes → Held × Bool
  unfolding run_live active_puzzle
  apply_hack_guess held id = run_puzzle held (guess id)

  -- `ApplyHackPattern`, whose callback is given the projection of the puzzle.
  unfoldable pub apply_hack_pattern : Held → Bytes → Held × Bool
  unfolding run_live active_puzzle
  apply_hack_pattern held id = run_puzzle held (activate_pattern id)

abbrev pub with_intro : LiveState → Option Bytes → LiveState
with_intro state none = state
with_intro state (some text) = record state { intro_text = text }

-- `Update`.
unfoldable pub update_live : Held → ContentNode → Option Bytes → Held × Bool
unfolding revalidate
update_live held tree intro_text = elim held.live [
  | none ↦ (held, false)
  | some state ↦ (
    record held {
      live =
          some
            (record (with_intro state intro_text) { tree = tree; nav = revalidate state.nav tree });
    },
    true,
  )
]

-- `Clear`.
unfoldable pub clear_live : Held → Held
clear_live held = record held { live = none }

-- `ForceHackSuccess`.
unfoldable pub force_live : Held → Held × Bool
unfolding active_puzzle force_success
force_live held = elim held.live [
  | none ↦ (held, false)
  | some state ↦ elim (active_puzzle state.hack) [
    | none ↦ (held, false)
    | some h ↦ (record held { live = some (record state { hack = some (force_success h) }) }, true)
  ]
]
