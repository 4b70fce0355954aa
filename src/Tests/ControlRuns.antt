-- ===== src/Tests/ControlRuns.antt =====
-- The coordinator on concrete inputs.
use fallout_terminal.Common.{
  ℕ, true, false, Option, none, some, List, [], ◌∷◌, Bytes, Dict, ◌≡◌, refl, arith, decimal,
  decimal_injective, AreDifferent, ◌%◌, if◌then◌else◌, length, ◌≤◌, lookup, equal, has, leb, not,
  ◌&&◌,
}
use fallout_terminal.Domain.Coordination.{RequestResultRecord, conflict}
use fallout_terminal.Control.Actions.{dispatch_player_action}
use fallout_terminal.Control.Actions.Authority.{IsAuthorized, dispatch_player_action-IsAuthorized}
use fallout_terminal.Control.Answers.Settles.{Settles}
use fallout_terminal.Control.Assignment.{
  assign_character, release_character, move_character, set_active_controller,
}
use fallout_terminal.Control.Claims.{role_for_session, is_value}
use fallout_terminal.Domain.Snapshots.{active}
use fallout_terminal.Control.Commit.{Config}
use fallout_terminal.Control.Connections.{attach_subscription, session_for_connection}
use fallout_terminal.Control.Connections.Ends.{HasEnded, attach_subscription-HasEnded}
use fallout_terminal.Control.Ledger.Assigns.{assigned_ledger}
use fallout_terminal.Control.Ledger.Moves.{released_ledger, releases, moved_ledger, moves}
use fallout_terminal.Control.Ledger.Refines.{
  controlled_ledger, controls, assign_character-refines, release_character-refines,
  move_character-refines, set_active_controller-refines,
}
use fallout_terminal.Control.Ledger.Shown.{Shows}
use fallout_terminal.Control.Links.{IsLinked}
use fallout_terminal.Control.Links.Reach.{reach-IsLinked}
use fallout_terminal.Control.Requests.{request_result, store_in}
use fallout_terminal.Control.Requests.Cache.{
  HasNoBlank, MakesRoom, length-store_in, lookup-store_in,
}
use fallout_terminal.Control.Requests.Fingerprints.{player_action_fingerprint_injective}
use fallout_terminal.Control.Commands.{PlayerCommand, player_action_fingerprint}
use fallout_terminal.Control.Selection.{select_character}
use fallout_terminal.Control.Selection.Replay.{select_character-twice}
use fallout_terminal.Control.Selection.Taken.{IsTaken, select_character-IsTaken}
use fallout_terminal.Tests.ControlSamples.{
  config, first_session, second_session, vault_dweller, on_air, on_air-Reach, session_of, player,
  at_terminal, guessing, selecting,
}
use fallout_terminal.Tests.Samples.{service}
use fallout_terminal.Common.{equal}
use fallout_terminal.Hack.Play.{count_matches}
use fallout_terminal.Control.Operations.{perform}
use fallout_terminal.Common.{rune_count}

reach-IsLinked_example : IsLinked on_air.runtime
reach-IsLinked_example = reach-IsLinked config service on_air on_air-Reach

assign_character-refines_example :
    Shows
      (assigned_ledger config.source second_session vault_dweller on_air on_air.runtime.broadcast)
      (assign_character config second_session vault_dweller on_air).0.runtime
assign_character-refines_example =
    assign_character-refines config on_air (reach-IsLinked config service on_air on_air-Reach)
      second_session vault_dweller

release_character-refines_example :
    Shows
      (released_ledger first_session on_air on_air.runtime.broadcast)
      (release_character config first_session on_air).0.runtime
    × Settles
        (releases first_session on_air on_air.runtime.broadcast)
        on_air
        (release_character config first_session on_air)
release_character-refines_example =
    release_character-refines config on_air (reach-IsLinked config service on_air on_air-Reach)
      first_session

move_character-refines_example :
    Shows
      (moved_ledger vault_dweller second_session on_air on_air.runtime.broadcast)
      (move_character config vault_dweller second_session on_air).0.runtime
    × Settles
        (moves vault_dweller second_session on_air on_air.runtime.broadcast)
        on_air
        (move_character config vault_dweller second_session on_air)
move_character-refines_example =
    move_character-refines config on_air (reach-IsLinked config service on_air on_air-Reach)
      vault_dweller second_session

set_active_controller-refines_example :
    Shows
      (controlled_ledger first_session on_air on_air.runtime.broadcast)
      (set_active_controller config first_session on_air).0.runtime
    × Settles
        (controls first_session on_air on_air.runtime.broadcast)
        on_air
        (set_active_controller config first_session on_air)
set_active_controller-refines_example =
    set_active_controller-refines config on_air (reach-IsLinked config service on_air on_air-Reach)
      first_session

-- A source that has only a hundred IDs.
abbrev repeating : Config
repeating = record config { next_id = λ call. decimal (call % 100) }

repeating-AreDifferent : AreDifferent repeating.next_id 0 6
repeating-AreDifferent i j i_from i_to j_from j_to e =
    omega (arith, decimal_injective (i % 100) (j % 100) e)

attach_subscription-HasEnded_example :
    HasEnded (attach_subscription repeating (b'e' ∷ []) [] at_terminal)
attach_subscription-HasEnded_example =
    attach_subscription-HasEnded repeating (b'e' ∷ []) [] at_terminal repeating-AreDifferent

-- The same guess, sent with another request ID, and a field that looks like the print of one.
abbrev tricky : PlayerCommand
tricky = record guessing { node_id = b'1' ∷ b':' ∷ b';' ∷ [] }

abbrev guessing_again : PlayerCommand
guessing_again = record tricky { request_id = b'x' ∷ [] }

same_print : player_action_fingerprint tricky ≡ player_action_fingerprint guessing_again
unfolding player_action_fingerprint
same_print = refl

player_action_fingerprint_injective_example :
    record tricky { request_id = guessing_again.request_id } ≡ guessing_again
player_action_fingerprint_injective_example =
    player_action_fingerprint_injective tricky guessing_again refl refl same_print

abbrev refusal : RequestResultRecord
refusal = record {
  fingerprint = [];
  result = record { request_id = []; accepted = false; reason = conflict; revision = 0 };
}

-- Two answers, which is as many as the limit allows.
abbrev full_cache : Dict RequestResultRecord
full_cache = (b'p' ∷ [], refusal) ∷ (b'o' ∷ [], refusal) ∷ []

length-store_in_example : length (store_in 2 (b'z' ∷ []) refusal full_cache) ≤ 2
length-store_in_example =
    length-store_in 2 (b'z' ∷ []) refusal full_cache (omega arith) (omega arith)

full_cache-HasNoBlank : HasNoBlank full_cache
unfolding equal
full_cache-HasNoBlank = (refl, (refl, tt))

lookup-store_in_example :
    (gone : Option Bytes) × MakesRoom 2 (b'z' ∷ []) full_cache gone
    × (lookup (b'o' ∷ []) (store_in 2 (b'z' ∷ []) refusal full_cache) ≡ (
        if equal (b'z' ∷ []) (b'o' ∷ [])
        then some refusal
        else if is_value gone (b'o' ∷ [])
        then none
        else lookup (b'o' ∷ []) full_cache))
lookup-store_in_example =
    lookup-store_in 2 (b'z' ∷ []) refusal full_cache (omega arith) full_cache-HasNoBlank (b'o' ∷ [])

-- The answer with the smallest key has made room.
evicted : lookup (b'o' ∷ []) (store_in 2 (b'z' ∷ []) refusal full_cache) ≡ none
unfolding lookup store_in
evicted = refl

controls_from :
    session_for_connection at_terminal.runtime (b'c' ∷ [])
    ≡ some (player, session_of player (b'c' ∷ []))
unfolding session_for_connection fallout_terminal.Common.equal
controls_from = refl

new_guess : request_result at_terminal.runtime player guessing.request_id ≡ none
unfolding request_result fallout_terminal.Common.equal
new_guess = refl

guess_accepted : (dispatch_player_action config (b'c' ∷ []) guessing at_terminal).2.accepted ≡ true
unfolding dispatch_player_action fallout_terminal.Hack.Play.count_matches
guess_accepted = refl

dispatch_player_action-IsAuthorized_example :
    IsAuthorized
      (record {
        connection = b'c' ∷ [];
        session_id = player;
        session = session_of player (b'c' ∷ []);
        command = guessing;
      })
      at_terminal.runtime
dispatch_player_action-IsAuthorized_example =
    dispatch_player_action-IsAuthorized config (b'c' ∷ []) guessing at_terminal player
      (session_of player (b'c' ∷ [])) controls_from new_guess guess_accepted

new_selection : request_result at_terminal.runtime selecting.session_id selecting.request_id ≡ none
unfolding request_result fallout_terminal.Common.equal
new_selection = refl

selection_accepted : (select_character config selecting at_terminal).2.accepted ≡ true
unfolding select_character
selection_accepted = refl

select_character-IsTaken_example :
    IsTaken selecting at_terminal.runtime (select_character config selecting at_terminal).0.runtime
select_character-IsTaken_example =
    select_character-IsTaken config selecting at_terminal new_selection selection_accepted

select_character-twice_example :
    ((select_character config selecting (select_character config selecting at_terminal).0).0.runtime
      ≡ (select_character config selecting at_terminal).0.runtime)
    × ((select_character config selecting
          (select_character config selecting at_terminal).0).2.accepted
        ≡ true)
select_character-twice_example =
    select_character-twice config selecting at_terminal new_selection selection_accepted

-- On the way, the first session came to have the character, and to be in control.
first_claims : role_for_session on_air.runtime.broadcast first_session ≡ active
unfolding role_for_session fallout_terminal.Control.Operations.perform
    fallout_terminal.Common.rune_count
first_claims = refl
