-- ===== src/Live/Legacy/Keep.antt =====
-- internal/live/service.go: what holds of the terminal that a service holds, whatever is asked.
use fallout_terminal.Common.{
  true, Option, none, some, List, [], ◌∷◌, ℤ, Bytes, All, ◌≡◌, Option-cases, inl, inr, subst,
}
use fallout_terminal.Domain.Runtime.{RuntimeCommand, navigate, guess, activate_pattern}
use fallout_terminal.Domain.Tree.{ContentNode}
use fallout_terminal.Hack.Game.{force_success-IsPlayable}
use fallout_terminal.Live.History.{new_puzzle-IsSoundHack}
use fallout_terminal.Live.Content.{apply-tree}
use fallout_terminal.Live.Legacy.{
  LiveState, Held, terminal_runtime, set_live, run_live, apply_nav, run_puzzle, apply_hack_guess,
  apply_hack_pattern, update_live, clear_live, force_live,
}
use fallout_terminal.Live.Presentation.{active_puzzle}
use fallout_terminal.Live.Runtime.{Source}
use fallout_terminal.Live.Command.{apply}
use fallout_terminal.Live.Sound.{IsSoundHack, active_puzzle-some, apply-IsSound}
use fallout_terminal.Nav.Find.{at_root-IsValidNav}
use fallout_terminal.Nav.Repair.{revalidate-IsValidNav}
use fallout_terminal.Nav.Valid.{IsValidNav}
use fallout_terminal.Nav.{is_root}

-- What a client asks of the live terminal.
pub data Request : Type 0 where
  set : Bytes → Bytes → ContentNode → ℤ → Bytes → Request
  update : ContentNode → Option Bytes → Request
  nav : Bytes → Bytes → Request
  guess_word activate : Bytes → Request
  clear force : Request

unfoldable pub answer : Source → Held → Request → Held
answer source held (set terminal_id name tree level intro) =
    set_live source held terminal_id name tree level intro
answer source held (update tree intro) = (update_live held tree intro).0
answer source held (nav action id) = (apply_nav source held action id).0
answer source held (guess_word id) = (apply_hack_guess source held id).0
answer source held (activate id) = (apply_hack_pattern source held id).0
answer source held clear = clear_live held
answer source held force = (force_live held).0

unfoldable pub answer_all : Source → Held → List Request → Held
unfolding answer
answer_all source held [] = held
answer_all source held (request ∷ requests) =
    answer_all source (answer source held request) requests

abbrev pub IsRootedRequest : Request → Type 0
IsRootedRequest (set terminal_id name tree level intro) = is_root tree ≡ true
IsRootedRequest (update tree intro) = is_root tree ≡ true
IsRootedRequest _ = Unit

-- The live terminal, if there is one, has a place in its tree and a puzzle that can be played.
abbrev pub IsSoundLive : Option LiveState → Type 0
IsSoundLive none = Unit
IsSoundLive (some state) = IsValidNav state.tree state.nav × IsSoundHack state.hack

run_live-IsSoundLive :
    (source : Source) (held : Held) (state : LiveState) (command : RuntimeCommand)
    → IsSoundLive (some state)
    → IsSoundLive (run_live source held state command).0.live
unfolding run_live terminal_runtime
run_live-IsSoundLive source held state command (place, puzzle) =
    let runtime = terminal_runtime state in
    let next =
      apply-IsSound source runtime command held.service.random
        (record { place = place; puzzle = puzzle }) in
    let same = apply-tree source runtime command held.service.random in
    (
      subst (λ tree. IsValidNav tree (apply source runtime command held.service.random).0.nav) same
          next.place,
      next.puzzle,
    )

run_puzzle-IsSoundLive :
    (source : Source) (held : Held) (command : RuntimeCommand)
    → IsSoundLive held.live
    → IsSoundLive (run_puzzle source held command).0.live
run_puzzle-IsSoundLive source held command sound = elim (Option-cases held.live) [
  | inl empty ↦ rw (empty, run_puzzle) sound
  | inr (state, live) ↦ elim (Option-cases (active_puzzle state.hack)) [
    | inl idle ↦ rw (live, idle, run_puzzle) sound
    | inr (h, on) ↦
        rw (live, on, run_puzzle)
          (run_live-IsSoundLive source held state command (subst IsSoundLive live sound))
  ]
]

apply_nav-IsSoundLive :
    (source : Source) (held : Held) (action id : Bytes)
    → IsSoundLive held.live
    → IsSoundLive (apply_nav source held action id).0.live
unfolding apply_nav
apply_nav-IsSoundLive source held action id sound = elim (Option-cases held.live) [
  | inl empty ↦ rw (empty, apply_nav) sound
  | inr (state, live) ↦
      rw (live, apply_nav)
        (run_live-IsSoundLive source held state (navigate action id) (subst IsSoundLive live sound))
]

update_live-IsSoundLive :
    (held : Held) (tree : ContentNode) (intro : Option Bytes)
    → is_root tree ≡ true
    → IsSoundLive held.live
    → IsSoundLive (update_live held tree intro).0.live
unfolding update_live
update_live-IsSoundLive held tree intro root sound = go held.live intro sound
  where
    go :
        (live : Option LiveState) (intro : Option Bytes)
        → IsSoundLive live
        → IsSoundLive (update_live (record held { live = live }) tree intro).0.live
    go none intro sound = tt
    go (some state) none (place, puzzle) = (revalidate-IsValidNav tree state.nav root, puzzle)
    go (some state) (some text) (place, puzzle) =
        (revalidate-IsValidNav tree state.nav root, puzzle)

force_live-IsSoundLive :
    (held : Held) → IsSoundLive held.live → IsSoundLive (force_live held).0.live
unfolding force_live
force_live-IsSoundLive held sound = elim (Option-cases held.live) [
  | inl empty ↦ rw (empty, force_live) sound
  | inr (state, live) ↦
      let (place, puzzle) : IsSoundLive (some state) = subst IsSoundLive live sound in
      elim (Option-cases (active_puzzle state.hack)) [
        | inl idle ↦ rw (live, idle, force_live) sound
        | inr (h, on) ↦
            let v = subst IsSoundHack (active_puzzle-some state.hack h on).0 puzzle in
            rw (live, on, force_live) (place, force_success-IsPlayable h v)
      ]
]

answer-IsSoundLive :
    (source : Source) (held : Held) (request : Request)
    → IsRootedRequest request
    → IsSoundLive held.live
    → IsSoundLive (answer source held request).live
unfolding answer set_live clear_live apply_hack_guess apply_hack_pattern
answer-IsSoundLive source held (set terminal_id name tree level intro) root sound =
    (at_root-IsValidNav tree root, new_puzzle-IsSoundHack source level held.service)
answer-IsSoundLive source held (update tree intro) root sound =
    update_live-IsSoundLive held tree intro root sound
answer-IsSoundLive source held (nav action id) root sound =
    apply_nav-IsSoundLive source held action id sound
answer-IsSoundLive source held (guess_word id) root sound =
    run_puzzle-IsSoundLive source held (guess id) sound
answer-IsSoundLive source held (activate id) root sound =
    run_puzzle-IsSoundLive source held (activate_pattern id) sound
answer-IsSoundLive source held clear root sound = tt
answer-IsSoundLive source held force root sound = force_live-IsSoundLive held sound

-- Whatever clients ask of the live terminal, in any order, it has a place in its tree and a puzzle
-- that can be played, if that held at the start and every tree that is set has a proper root.
pub answer_all-IsSoundLive :
    (source : Source) (held : Held) (requests : List Request)
    → All IsRootedRequest requests
    → IsSoundLive held.live
    → IsSoundLive (answer_all source held requests).live
unfolding answer_all
answer_all-IsSoundLive source held [] rooted sound = sound
answer_all-IsSoundLive source held (request ∷ requests) (first, rest) sound =
    answer_all-IsSoundLive source (answer source held request) requests rest
      (answer-IsSoundLive source held request first sound)
