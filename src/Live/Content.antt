-- ===== src/Live/Content.antt =====
-- internal/live/service.go: no command changes the authored content of a checkpoint.
use fallout_terminal.Common.{
  Bool, true, false, not, ◌&&◌, ◌||◌, Option, none, some, Bytes, equal, utf8, ◌≡◌, refl, ◌∙◌, inl,
  inr, Option-cases, Bool-cases, if-either,
}
use fallout_terminal.Domain.Runtime.{
  CommandExecution, CommandExecutionPhase, pending, rejected, TerminalRuntime, RuntimeCommand,
  select_character, navigate, guess, activate_pattern, present,
}
use fallout_terminal.Hack.Random.{Random}
use fallout_terminal.Live.Presentation.{
  active_puzzle, presentation_context, valid_presentation, revalidate_presentation,
}
use fallout_terminal.Live.Runtime.{Source}
use fallout_terminal.Live.Command.{same_presentation, run_command, leave_rejected, dispatch, apply}

revalidate_presentation-tree :
    (sha256 : Bytes → Bytes) (state : TerminalRuntime)
    → (revalidate_presentation sha256 state).tree ≡ state.tree
unfolding revalidate_presentation
revalidate_presentation-tree sha256 state =
    if-either (λ (t : TerminalRuntime). t.tree ≡ state.tree)
      (equal state.presentation.context_key (presentation_context sha256 state).0
        && valid_presentation sha256 state state.presentation)
      refl refl

run_command-tree :
    (source : Source) (state : TerminalRuntime) (command : RuntimeCommand) (r : Random)
    → (run_command source state command r).0.tree ≡ state.tree
unfolding run_command
run_command-tree source state select_character r = refl
run_command-tree source state (navigate action id) r = refl
run_command-tree source state (guess id) r = elim (Option-cases (active_puzzle state.hack)) [
  | inl idle ↦ rw (idle, run_command) refl
  | inr (h, on) ↦ rw (on, run_command) refl
]
run_command-tree source state (activate_pattern id) r =
    elim (Option-cases (active_puzzle state.hack)) [
      | inl idle ↦ rw (idle, run_command) refl
      | inr (h, on) ↦ rw (on, run_command) refl
    ]
run_command-tree source state (present p) r =
    if-either {A = TerminalRuntime × Bool × Random} {x = (state, false, r)}
      {y = (record state { presentation = p }, true, r)} (λ done. done.0.tree ≡ state.tree)
      (not (valid_presentation source.sha256 state p) || same_presentation state.presentation p)
      refl refl

leave_rejected-tree :
    (state : TerminalRuntime) (command : RuntimeCommand)
    → (leave_rejected state command).0.tree ≡ state.tree
unfolding leave_rejected
leave_rejected-tree state (navigate action id) = elim (Bool-cases (equal action (utf8 "back"))) [
  | inl back ↦ rw back refl
  | inr other ↦ rw other refl
]
leave_rejected-tree state select_character = refl
leave_rejected-tree state (guess id) = refl
leave_rejected-tree state (activate_pattern id) = refl
leave_rejected-tree state (present p) = refl

dispatch-tree :
    (source : Source) (execution : Option CommandExecution) (state : TerminalRuntime)
    (command : RuntimeCommand) (r : Random)
    → (dispatch source execution state command r).0.tree ≡ state.tree
unfolding dispatch
dispatch-tree source none state command r = run_command-tree source state command r
dispatch-tree source (some execution) state command r = go execution.phase
  where
    go :
        (phase : CommandExecutionPhase)
        → (elim phase as (λ _. TerminalRuntime × Bool × Random) [
          | pending ↦ (state, false, r)
          | rejected ↦ ((leave_rejected state command).0, (leave_rejected state command).1, r)
        ]).0.tree
          ≡ state.tree
    go pending = refl
    go rejected = leave_rejected-tree state command

-- No command, accepted or not, changes the content.
pub apply-tree :
    (source : Source) (state : TerminalRuntime) (command : RuntimeCommand) (r : Random)
    → (apply source state command r).0.tree ≡ state.tree
unfolding apply
apply-tree source state command r =
    let done = dispatch source state.command_execution state command r in
    let same = dispatch-tree source state.command_execution state command r in
    if-either {A = TerminalRuntime × Bool × Random}
      {x = (revalidate_presentation source.sha256 done.0, true, done.2)} {y = done}
      (λ result. result.0.tree ≡ state.tree) done.1
      (revalidate_presentation-tree source.sha256 done.0 ∙ same) same
