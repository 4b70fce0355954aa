-- ===== src/Live/Sound.antt =====
-- internal/live/service.go: what holds of a checkpoint at any time.
use fallout_terminal.Common.{
  Bool, true, false, not, ◌&&◌, ◌||◌, Option, none, some, Bytes, equal, utf8, ◌≡◌, inl, inr, ap,
  subst, arith, Option-cases, Bool-cases, if-either,
}
use fallout_terminal.Domain.Hack.{HackState}
use fallout_terminal.Domain.Runtime.{
  Presentation, CommandExecution, CommandExecutionPhase, pending, rejected, TerminalRuntime,
  RuntimeCommand, select_character, navigate, guess, activate_pattern, present,
}
use fallout_terminal.Hack.Game.{IsPlayable, apply_guess-IsPlayable, apply_pattern-IsPlayable}
use fallout_terminal.Hack.Play.Guess.{IsActive}
use fallout_terminal.Hack.Random.{Random}
use fallout_terminal.Live.Presentation.{
  active_hack, active_puzzle, presentation_context, valid_presentation, revalidate_presentation,
}
use fallout_terminal.Live.Runtime.{Source}
use fallout_terminal.Live.Command.{same_presentation, run_command, leave_rejected, dispatch, apply}
use fallout_terminal.Nav.Valid.{IsValidNav, apply_action-IsValidNav}
use fallout_terminal.Nav.{apply_action}

-- A puzzle that can be played, if there is one.
abbrev pub IsSoundHack : Option HackState → Type 0
IsSoundHack none = Unit
IsSoundHack (some h) = IsPlayable h

-- The players stand at a place of the checkpoint's tree, and its puzzle can be played.
pub record IsSound (state : TerminalRuntime) : Type 0 where
  pub place : IsValidNav state.tree state.nav
  pub puzzle : IsSoundHack state.hack

pub active_puzzle-some :
    (hack : Option HackState) (h : HackState)
    → active_puzzle hack ≡ some h
    → (hack ≡ some h) × IsActive h
unfolding active_puzzle active_hack
active_puzzle-some none h e = ground arith
active_puzzle-some (some k) h e = elim (Bool-cases (active_hack k)) [
  | inl on ↦
      let same : k ≡ h = ground (arith, e, on) in
      (ap some same, subst IsActive same (ground (arith, on)))
  | inr off ↦ ground (arith, e, off)
]

pub puzzle_of :
    (state : TerminalRuntime) (h : HackState) → IsSound state → state.hack ≡ some h → IsPlayable h
puzzle_of state h sound e = subst IsSoundHack e sound.puzzle

IsSound-selects :
    (state : TerminalRuntime) (p : Presentation)
    → IsSound state
    → IsSound (record state { presentation = p })
IsSound-selects state p sound = record { place = sound.place; puzzle = sound.puzzle }

pub revalidate_presentation-IsSound :
    (sha256 : Bytes → Bytes) (state : TerminalRuntime)
    → IsSound state
    → IsSound (revalidate_presentation sha256 state)
unfolding revalidate_presentation
revalidate_presentation-IsSound sha256 state sound =
    if-either IsSound
      (equal state.presentation.context_key (presentation_context sha256 state).0
        && valid_presentation sha256 state state.presentation)
      sound (IsSound-selects state _ sound)

run_command-IsSound :
    (source : Source) (state : TerminalRuntime) (command : RuntimeCommand) (r : Random)
    → IsSound state
    → IsSound (run_command source state command r).0
unfolding run_command
run_command-IsSound source state select_character r sound = sound
run_command-IsSound source state (navigate action id) r sound = record {
  place = apply_action-IsValidNav state.tree state.nav action id sound.place;
  puzzle = sound.puzzle;
}
run_command-IsSound source state (guess id) r sound =
    elim (Option-cases (active_puzzle state.hack)) [
      | inl idle ↦ rw (idle, run_command) sound
      | inr (h, on) ↦
          let v = puzzle_of state h sound (active_puzzle-some state.hack h on).0 in
          rw (on, run_command)
            (record { place = sound.place; puzzle = apply_guess-IsPlayable h id v })
    ]
run_command-IsSound source state (activate_pattern id) r sound =
    elim (Option-cases (active_puzzle state.hack)) [
      | inl idle ↦ rw (idle, run_command) sound
      | inr (h, on) ↦
          let v = puzzle_of state h sound (active_puzzle-some state.hack h on).0 in
          rw (on, run_command)
            (record { place = sound.place; puzzle = apply_pattern-IsPlayable h id r v })
    ]
run_command-IsSound source state (present p) r sound =
    if-either {A = TerminalRuntime × Bool × Random} {x = (state, false, r)}
      {y = (record state { presentation = p }, true, r)} (λ done. IsSound done.0)
      (not (valid_presentation source.sha256 state p) || same_presentation state.presentation p)
      sound (IsSound-selects state p sound)

leave_rejected-IsSound :
    (state : TerminalRuntime) (command : RuntimeCommand)
    → IsSound state
    → IsSound (leave_rejected state command).0
unfolding leave_rejected
leave_rejected-IsSound state (navigate action id) sound =
    let next : TerminalRuntime = record state {
      command_execution = none;
      nav = apply_action state.nav state.tree action id;
    } in
    if-either {A = TerminalRuntime × Bool} {x = (next, true)} {y = (state, false)}
      (λ left. IsSound left.0) (equal action (utf8 "back"))
      (record {
        place = apply_action-IsValidNav state.tree state.nav action id sound.place;
        puzzle = sound.puzzle;
      })
      sound
leave_rejected-IsSound state select_character sound = sound
leave_rejected-IsSound state (guess id) sound = sound
leave_rejected-IsSound state (activate_pattern id) sound = sound
leave_rejected-IsSound state (present p) sound = sound

dispatch-IsSound :
    (source : Source) (execution : Option CommandExecution) (state : TerminalRuntime)
    (command : RuntimeCommand) (r : Random)
    → IsSound state
    → IsSound (dispatch source execution state command r).0
unfolding dispatch
dispatch-IsSound source none state command r sound =
    run_command-IsSound source state command r sound
dispatch-IsSound source (some execution) state command r sound = go execution.phase
  where
    go :
        (phase : CommandExecutionPhase)
        → IsSound
            (elim phase as (λ _. TerminalRuntime × Bool × Random) [
              | pending ↦ (state, false, r)
              | rejected ↦ ((leave_rejected state command).0, (leave_rejected state command).1, r)
            ]).0
    go pending = sound
    go rejected = leave_rejected-IsSound state command sound

-- A command, accepted or not, leads from a sound checkpoint to a sound one.
pub apply-IsSound :
    (source : Source) (state : TerminalRuntime) (command : RuntimeCommand) (r : Random)
    → IsSound state
    → IsSound (apply source state command r).0
unfolding apply
apply-IsSound source state command r sound =
    let done = dispatch source state.command_execution state command r in
    let next = dispatch-IsSound source state.command_execution state command r sound in
    if-either {A = TerminalRuntime × Bool × Random}
      {x = (revalidate_presentation source.sha256 done.0, true, done.2)} {y = done}
      (λ result. IsSound result.0) done.1
      (revalidate_presentation-IsSound source.sha256 done.0 next) next
