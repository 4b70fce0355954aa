-- ===== src/Live/Command.antt =====
-- internal/live/service.go: `Apply`, one command to a checkpoint.
use fallout_terminal.Common.{
  ℕ, Bool, true, false, not, ◌&&◌, ◌||◌, Option, none, some, Bytes, equal, ◌==◌, if◌then◌else◌,
  utf8, length,
}
use fallout_terminal.Domain.Hack.{HackState}
use fallout_terminal.Domain.Runtime.{
  Presentation, PresentationKind, no_selection, menu, page, hacking, CommandExecution, pending,
  rejected, TerminalRuntime, RuntimeCommand, select_character, navigate, guess, activate_pattern,
  present,
}
use fallout_terminal.Hack.Effects.{apply_pattern}
use fallout_terminal.Hack.Play.{apply_guess}
use fallout_terminal.Hack.Random.{Random}
use fallout_terminal.Live.Presentation.{active_puzzle, valid_presentation, revalidate_presentation}
use fallout_terminal.Nav.{apply_action}
use fallout_terminal.Live.Runtime.{Source}

-- `==` on presentations.
abbrev kind_number : PresentationKind → ℕ
kind_number no_selection = 0
kind_number menu = 1
kind_number page = 2
kind_number hacking = 3

unfoldable pub same_presentation : Presentation → Presentation → Bool
same_presentation p q =
    kind_number p.kind == kind_number q.kind
    && equal p.context_key q.context_key
    && equal p.target_id q.target_id
    && equal p.pattern_id q.pattern_id
    && p.page_index == q.page_index

-- The test that a guess has changed nothing.
unfoldable pub unchanged : HackState → HackState → Bool
unchanged old new =
    new.attempts_left == old.attempts_left
    && (not new.solved || old.solved)
    && (new.solved || not old.solved)
    && (not new.failed || old.failed)
    && (new.failed || not old.failed)
    && length new.log == length old.log

abbrev pub navigated : TerminalRuntime → Bytes → Bytes → TerminalRuntime
navigated state action id = record state { nav = apply_action state.nav state.tree action id }

-- Behind a rejected command, only the way back is open.
unfoldable pub leave_rejected : TerminalRuntime → RuntimeCommand → TerminalRuntime × Bool
unfolding apply_action
leave_rejected state (navigate action id) =
    if equal action (utf8 "back")
    then (navigated (record state { command_execution = none }) action id, true)
    else (state, false)
leave_rejected state _ = (state, false)

module _ (source : Source) where
  -- One command to a checkpoint that waits for nothing, and whether it is accepted. A guess that is
  -- not leaves what `apply_guess` made of the puzzle in place.
  unfoldable pub run_command :
      TerminalRuntime → RuntimeCommand → Random → TerminalRuntime × Bool × Random
  unfolding active_puzzle apply_action apply_guess apply_pattern same_presentation unchanged
  run_command state select_character r = (state, false, r)
  run_command state (navigate action id) r = (navigated state action id, true, r)
  run_command state (guess id) r = elim (active_puzzle state.hack) [
    | none ↦ (state, false, r)
    | some h ↦
        let new = apply_guess h id in (record state { hack = some new }, not (unchanged h new), r)
  ]
  run_command state (activate_pattern id) r = elim (active_puzzle state.hack) [
    | none ↦ (state, false, r)
    | some h ↦
        let done = apply_pattern h id r in (record state { hack = some done.0 }, done.2, done.1)
  ]
  run_command state (present p) r =
      if not (valid_presentation source.sha256 state p) || same_presentation state.presentation p
      then (state, false, r)
      else (record state { presentation = p }, true, r)

  unfoldable pub dispatch :
      Option CommandExecution
      → TerminalRuntime
      → RuntimeCommand
      → Random
      → TerminalRuntime × Bool × Random
  unfolding run_command leave_rejected
  dispatch none state command r = run_command state command r
  dispatch (some execution) state command r = elim execution.phase [
    | pending ↦ (state, false, r)
    | rejected ↦ let left = leave_rejected state command in (left.0, left.1, r)
  ]

  -- `Apply`: the checkpoint, whether there is a projection of it, and the source of later draws.
  unfoldable pub apply : TerminalRuntime → RuntimeCommand → Random → TerminalRuntime × Bool × Random
  unfolding dispatch revalidate_presentation
  apply state command r =
      let done = dispatch state.command_execution state command r in
      if done.1 then (revalidate_presentation source.sha256 done.0, true, done.2) else done
