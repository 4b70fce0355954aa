-- ===== src/Live/Refused.antt =====
-- internal/live/service.go: commands that `Apply` refuses.
use fallout_terminal.Common.{
  Bool, true, false, not, ◌||◌, Option, none, some, Bytes, equal, utf8, ◌≡◌, inl, inr, refl, sym,
  ap, ◌∙◌, arith, Option-cases, Bool-cases, lookup,
}
use fallout_terminal.Domain.Hack.{HackState}
use fallout_terminal.Domain.Runtime.{
  CommandExecution, CommandExecutionPhase, pending, rejected, TerminalRuntime, RuntimeCommand,
  select_character, navigate, guess, activate_pattern, present,
}
use fallout_terminal.Hack.Effects.Once.{apply_pattern_refused}
use fallout_terminal.Hack.Effects.{apply_pattern}
use fallout_terminal.Hack.Game.{IsPlayable}
use fallout_terminal.Hack.Play.Guess.{IsActive, apply_guess_word, apply_guess-IsFiller}
use fallout_terminal.Hack.Play.{apply_guess}
use fallout_terminal.Hack.Random.{Random}
use fallout_terminal.Live.Presentation.{active_puzzle, valid_presentation}
use fallout_terminal.Live.Runtime.{Source}
use fallout_terminal.Live.Command.{unchanged, run_command, leave_rejected, dispatch, apply}
use fallout_terminal.Live.Command.{same_presentation}
use fallout_terminal.Live.Sound.{IsSound, active_puzzle-some, puzzle_of}

-- A guess that changes neither the attempts nor the outcome nor the length of the log changes
-- nothing at all.
unchanged-same :
    (h : HackState) (id : Bytes)
    → IsActive h
    → IsPlayable h
    → unchanged h (apply_guess h id) ≡ true
    → apply_guess h id ≡ h
unfolding unchanged
unchanged-same h id on v e = elim (Option-cases (lookup id h.words_by_id)) [
  | inl unknown ↦ elim (apply_guess-IsFiller h id on unknown) [
    | inl same ↦ same
    | inr (shown, filler, missed) ↦ ground (arith, e, missed.spent, v.lost_is, on)
  ]
  | inr (c, known) ↦ elim (apply_guess_word h id c on known) [
    | inl (full, won) ↦ ground (arith, e, won.solved, on)
    | inr (partial, missed) ↦ ground (arith, e, missed.spent, v.lost_is, on)
  ]
]

put_back_refused :
    (state : TerminalRuntime) (h : HackState) (r : Random)
    → state.hack ≡ some h
    → ◌≡◌ {A = TerminalRuntime × Bool × Random}
        (record state { hack = some h }, false, r)
        (state, false, r)
put_back_refused state h r e = rw (sym e) refl

run_guess :
    (source : Source) (state : TerminalRuntime) (id : Bytes) (r : Random) (h : HackState)
    → active_puzzle state.hack ≡ some h
    → run_command source state (guess id) r
      ≡ (record state { hack = some (apply_guess h id) }, not (unchanged h (apply_guess h id)), r)
unfolding run_command
run_guess source state id r h on = rw (on, run_command) refl

run_pattern :
    (source : Source) (state : TerminalRuntime) (id : Bytes) (r : Random) (h : HackState)
    → active_puzzle state.hack ≡ some h
    → run_command source state (activate_pattern id) r ≡ (
      record state { hack = some (apply_pattern h id r).0 },
      (apply_pattern h id r).2,
      (apply_pattern h id r).1,
    )
unfolding run_command
run_pattern source state id r h on = rw (on, run_command) refl

not-false : (b : Bool) → not b ≡ false → b ≡ true
not-false b h = ground (arith, h)

guess_refused :
    (source : Source) (state : TerminalRuntime) (id : Bytes) (r : Random) (h : HackState)
    → IsSound state
    → active_puzzle state.hack ≡ some h
    → (run_command source state (guess id) r).1 ≡ false
    → run_command source state (guess id) r ≡ (state, false, r)
guess_refused source state id r h sound on refused =
    let (has, active) = active_puzzle-some state.hack h on in
    let run = run_guess source state id r h on in
    let idle = not-false (unchanged h (apply_guess h id)) (sym (ap (λ t. t.1) run) ∙ refused) in
    let same = unchanged-same h id active (puzzle_of state h sound has) idle in
    run ∙ rw idle (rw same (put_back_refused state h r has))

pattern_refused :
    (source : Source) (state : TerminalRuntime) (id : Bytes) (r : Random) (h : HackState)
    → active_puzzle state.hack ≡ some h
    → (run_command source state (activate_pattern id) r).1 ≡ false
    → run_command source state (activate_pattern id) r ≡ (state, false, r)
pattern_refused source state id r h on refused =
    let (has, active) = active_puzzle-some state.hack h on in
    let run = run_pattern source state id r h on in
    let same = apply_pattern_refused h id r (sym (ap (λ t. t.1) run) ∙ refused) in
    run ∙ rw same (put_back_refused state h r has)

run_command_refused :
    (source : Source) (state : TerminalRuntime) (command : RuntimeCommand) (r : Random)
    → IsSound state
    → (run_command source state command r).1 ≡ false
    → run_command source state command r ≡ (state, false, r)
unfolding run_command
run_command_refused source state select_character r sound h = refl
run_command_refused source state (navigate action id) r sound h = ground (arith, h)
run_command_refused source state (guess id) r sound h =
    elim (Option-cases (active_puzzle state.hack)) [
      | inl idle ↦ rw (idle, run_command) refl
      | inr (k, on) ↦ guess_refused source state id r k sound on h
    ]
run_command_refused source state (activate_pattern id) r sound h =
    elim (Option-cases (active_puzzle state.hack)) [
      | inl idle ↦ rw (idle, run_command) refl
      | inr (k, on) ↦ pattern_refused source state id r k on h
    ]
run_command_refused source state (present p) r sound h =
    elim (Bool-cases
      (not (valid_presentation source.sha256 state p) || same_presentation state.presentation p)) [
        | inl no_change ↦ rw no_change refl
        | inr change ↦ ground (arith, h, change)
      ]

leave_rejected_refused :
    (state : TerminalRuntime) (command : RuntimeCommand)
    → (leave_rejected state command).1 ≡ false
    → leave_rejected state command ≡ (state, false)
unfolding leave_rejected
leave_rejected_refused state (navigate action id) h =
    elim (Bool-cases (equal action (utf8 "back"))) [
      | inl back ↦ ground (arith, h, back)
      | inr other ↦ rw other refl
    ]
leave_rejected_refused state select_character h = refl
leave_rejected_refused state (guess id) h = refl
leave_rejected_refused state (activate_pattern id) h = refl
leave_rejected_refused state (present p) h = refl

dispatch_refused :
    (source : Source) (execution : Option CommandExecution) (state : TerminalRuntime)
    (command : RuntimeCommand) (r : Random)
    → IsSound state
    → (dispatch source execution state command r).1 ≡ false
    → dispatch source execution state command r ≡ (state, false, r)
unfolding dispatch
dispatch_refused source none state command r sound h =
    run_command_refused source state command r sound h
dispatch_refused source (some execution) state command r sound h = go execution.phase h
  where
    left : CommandExecutionPhase → TerminalRuntime × Bool × Random
    left pending = (state, false, r)
    left rejected = ((leave_rejected state command).0, (leave_rejected state command).1, r)

    go : (phase : CommandExecutionPhase) → (left phase).1 ≡ false → left phase ≡ (state, false, r)
    go pending h = refl
    go rejected h = rw (leave_rejected_refused state command h) refl

-- A command that is not accepted changes nothing: the checkpoint, with the puzzle that a guess has
-- worked on, and the random source are what they were, if the checkpoint was sound.
pub apply_refused :
    (source : Source) (state : TerminalRuntime) (command : RuntimeCommand) (r : Random)
    → IsSound state
    → (apply source state command r).1 ≡ false
    → apply source state command r ≡ (state, false, r)
unfolding apply
apply_refused source state command r sound h =
    elim (Bool-cases (dispatch source state.command_execution state command r).1) [
      | inl accepted ↦ ground (arith, h, accepted)
      | inr refused ↦
          rw (dispatch_refused source state.command_execution state command r sound refused) refl
    ]
