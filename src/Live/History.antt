-- ===== src/Live/History.antt =====
-- internal/live/service.go: a checkpoint from its creation on, whatever is asked of it.
use fallout_terminal.Common.{
  suc, Bool, true, false, not, ◌&&◌, Option, none, some, List, [], ◌∷◌, ℤ, pos, leb_ℤ, equal, All,
  ◌≡◌, refl, inl, inr, Option-cases, Bool-cases, if-either,
}
use fallout_terminal.Domain.Hack.{HackState}
use fallout_terminal.Domain.Runtime.{TerminalTarget, TerminalRuntime, active}
use fallout_terminal.Hack.Board.Boards.{generate_board-IsPlayable}
use fallout_terminal.Hack.Board.{generate_board}
use fallout_terminal.Hack.Game.{IsPlayable, force_success-IsPlayable}
use fallout_terminal.Hack.Play.{force_success}
use fallout_terminal.Live.Presentation.{active_puzzle, revalidate_presentation}
use fallout_terminal.Live.Runtime.{
  Source, Service, new_puzzle, create_runtime, reset_failed_hack, update_runtime,
  reactivate_runtime, project_runtime, force_runtime, suspend_runtime, with_target, is_for,
  fresh_runtime, is_active, is_failed,
}
use fallout_terminal.Live.Sound.{
  IsSound, IsSoundHack, active_puzzle-some, puzzle_of, apply-IsSound,
  revalidate_presentation-IsSound,
}
use fallout_terminal.Nav.Find.{at_root-IsValidNav}
use fallout_terminal.Nav.Repair.{revalidate-IsValidNav}
use fallout_terminal.Nav.{is_root}
use fallout_terminal.Live.Events.{
  Checkpoint, Event, IsRooted, discard, force, handle, history, project, reactivate, replaced,
  reset, run, suspend, update,
}

IsSoundHack-of :
    (hack : Option HackState) → ((h : HackState) → hack ≡ some h → IsPlayable h) → IsSoundHack hack
IsSoundHack-of none h = tt
IsSoundHack-of (some k) h = h k refl

pub new_puzzle-IsSoundHack :
    (source : Source) (level : ℤ) (service : Service)
    → IsSoundHack (new_puzzle source level service).0
unfolding new_puzzle
new_puzzle-IsSoundHack source level service =
    let id = source.next_id service.ids_drawn in
    let drawn = generate_board source.sha256 id level source.words service.random in
    if-either {x = (drawn.0, record { random = drawn.1; ids_drawn = suc service.ids_drawn })}
      {y = (none, service)} (λ (puzzle : Option HackState × Service). IsSoundHack puzzle.0)
      (leb_ℤ (pos 1) level)
      (IsSoundHack-of drawn.0
        ((generate_board-IsPlayable source.sha256 id level source.words).holds service.random))
      tt

-- A new checkpoint of a tree with a proper root is sound.
pub create_runtime-IsSound :
    (source : Source) (target : TerminalTarget) (service : Service)
    → is_root target.tree ≡ true
    → IsSound (create_runtime source target service).0
unfolding create_runtime
create_runtime-IsSound source target service root =
    revalidate_presentation-IsSound source.sha256
      (fresh_runtime target (new_puzzle source target.hack_level service).0)
      (record {
        place = at_root-IsValidNav target.tree root;
        puzzle = new_puzzle-IsSoundHack source target.hack_level service;
      })

with_target-IsSound :
    (state : TerminalRuntime) (target : TerminalTarget)
    → is_root target.tree ≡ true
    → IsSound state
    → IsSound (with_target state target)
with_target-IsSound state target root sound = record {
  place = revalidate-IsValidNav target.tree state.nav root;
  puzzle = sound.puzzle;
}

update_runtime-IsSound :
    (source : Source) (state : TerminalRuntime) (target : TerminalTarget)
    → is_root target.tree ≡ true
    → IsSound state
    → IsSound (update_runtime source state target).0
unfolding update_runtime
update_runtime-IsSound source state target root sound = elim (Bool-cases (is_for state target)) [
  | inl own ↦ rw own (
      revalidate_presentation-IsSound source.sha256 (with_target state target)
        (with_target-IsSound state target root sound))
  | inr other ↦ rw other sound
]

reactivate_runtime-IsSound :
    (source : Source) (state : TerminalRuntime) (target : TerminalTarget)
    → is_root target.tree ≡ true
    → IsSound state
    → IsSound (reactivate_runtime source state target).0
unfolding reactivate_runtime
reactivate_runtime-IsSound source state target root sound =
    let next = with_target-IsSound state target root sound in
    elim (Bool-cases (is_for state target)) [
      | inl own ↦ rw own (
          revalidate_presentation-IsSound source.sha256
            (record (with_target state target) { command_execution = none; lifecycle = active })
            (record { place = next.place; puzzle = next.puzzle }))
      | inr other ↦ rw other sound
    ]

forced-IsSound :
    (source : Source) (state : TerminalRuntime)
    → IsSound state
    → IsSound (force_runtime source state).0
unfolding force_runtime
forced-IsSound source state sound = elim (Option-cases (active_puzzle state.hack)) [
  | inl idle ↦
      rw (idle, force_runtime)
        (if-either {A = TerminalRuntime × Bool} (λ done. IsSound done.0) (is_active state.lifecycle)
          sound sound)
  | inr (h, on) ↦
      let v = puzzle_of state h sound (active_puzzle-some state.hack h on).0 in
      let next : TerminalRuntime = record state { hack = some (force_success h) } in
      rw (on, force_runtime)
        (if-either {A = TerminalRuntime × Bool}
          {x = (revalidate_presentation source.sha256 next, true)} {y = (state, false)}
          (λ done. IsSound done.0) (is_active state.lifecycle)
          (revalidate_presentation-IsSound source.sha256 next
            (record { place = sound.place; puzzle = force_success-IsPlayable h v }))
          sound)
]

reset_failed_hack-IsSound :
    (source : Source) (point : Checkpoint) (target : TerminalTarget)
    → is_root target.tree ≡ true
    → IsSound point.runtime
    → IsSound (replaced point (reset_failed_hack source point.runtime target point.service)).runtime
unfolding reset_failed_hack
reset_failed_hack-IsSound source point target root sound =
    let fresh = create_runtime source target point.service in
    if-either {A = Option TerminalRuntime × Service} {x = (some fresh.0, fresh.1)}
      {y = (none, point.service)} (λ done. IsSound (replaced point done).runtime)
      (not (equal target.terminal_id [])
        && equal point.runtime.terminal_id target.terminal_id
        && is_failed point.runtime.hack)
      (create_runtime-IsSound source target point.service root) sound

handle-IsSound :
    (source : Source) (point : Checkpoint) (event : Event)
    → IsRooted event
    → IsSound point.runtime
    → IsSound (handle source point event).runtime
unfolding handle suspend_runtime project_runtime
handle-IsSound source point (run command) rooted sound =
    apply-IsSound source point.runtime command point.service.random sound
handle-IsSound source point (update target) rooted sound =
    update_runtime-IsSound source point.runtime target rooted sound
handle-IsSound source point suspend rooted sound = record {
  place = sound.place;
  puzzle = sound.puzzle;
}
handle-IsSound source point project rooted sound =
    revalidate_presentation-IsSound source.sha256 point.runtime sound
handle-IsSound source point force rooted sound = forced-IsSound source point.runtime sound
handle-IsSound source point (reactivate target) rooted sound =
    reactivate_runtime-IsSound source point.runtime target rooted sound
handle-IsSound source point (reset target) rooted sound =
    reset_failed_hack-IsSound source point target rooted sound
handle-IsSound source point (discard target) rooted sound =
    create_runtime-IsSound source target point.service rooted

-- Whatever is asked of a checkpoint, in any order, the players stand at a place of its tree and its
-- puzzle can be played, if that held at the start and every new tree has a proper root.
pub history-IsSound :
    (source : Source) (point : Checkpoint) (events : List Event)
    → All IsRooted events
    → IsSound point.runtime
    → IsSound (history source point events).runtime
unfolding history
history-IsSound source point [] rooted sound = sound
history-IsSound source point (event ∷ events) (first, rest) sound =
    history-IsSound source (handle source point event) events rest
      (handle-IsSound source point event first sound)
