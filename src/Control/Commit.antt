-- ===== src/Control/Commit.antt =====
-- internal/control/service.go: `commit`, the boundary of every transaction, and what it publishes.
-- A transaction works on a copy of the runtime. Audit events are left out.
pub mod Kept
pub mod Revisions
use fallout_terminal.Common.{
  ℕ, suc, ◌+◌, ◌%◌, ◌^◌, Bool, true, false, Option, none, some, List, [], ◌∷◌, ◌++◌, map, Bytes,
  lookup, ◌==◌, if◌then◌else◌,
}
use fallout_terminal.Domain.Coordination.{
  ActionResult, CharacterRosterEntry, LiveBroadcast, PlayerConfigHandle, ProcessRuntime,
  TerminalTransitionTarget, TerminalGroup,
}
use fallout_terminal.Domain.Runtime.{TerminalTarget}
use fallout_terminal.Domain.Snapshots.{
  MasterCoordinationState, PlayerState, RoutedLiveState, TerminalPresentation, live,
  no_live_terminal, CompoundUpdate,
}
use fallout_terminal.Live.Runtime.{Source, Service}
use fallout_terminal.Control.Claims.{session_assigned}
use fallout_terminal.Control.Live.{live_terminal, project_active_terminal}
use fallout_terminal.Control.Snapshots.{master_snapshot, player_snapshot, sorted_session_ids}

-- What the latest validated session answers.
pub record Catalog : Type 0 where
  pub lookup_terminal : Bytes → Option TerminalTarget
  pub lookup_terminal_transition : Bytes → Bytes → Option TerminalTransitionTarget
  pub lookup_terminal_group : Bytes → Option TerminalGroup

-- What the store of terminal groups answers: saved, with or without a change, refused with a
-- message of its own, or failed. The session document with it is passed on.
pub data GroupAnswer : Type 0 where
  saved : Bool → GroupAnswer
  refused failed : GroupAnswer

-- What the coordinator is built with. IDs, stores and the catalog answer by the number
-- of the call.
pub record Config : Type 0 where
  pub source : Source
  pub next_id : ℕ → Bytes
  pub roster_store :
      Option (ℕ → PlayerConfigHandle → List CharacterRosterEntry → Option PlayerConfigHandle)
  pub group_store : Option (ℕ → List TerminalGroup → ℕ → GroupAnswer)
  pub catalog : ℕ → Catalog
  pub request_result_limit : ℕ

-- The canonical runtime, the live terminal's source of puzzles, and the calls of IDs and stores.
pub record Coordinator : Type 0 where
  pub runtime : ProcessRuntime
  pub live : Service
  pub asked : ℕ

pub record Effect : Type 0 where
  pub revision : ℕ
  pub session_id : Bytes
  pub connection_id : Bytes
  pub master : Option MasterCoordinationState
  pub player : Option PlayerState
  pub live : Option RoutedLiveState
  pub result : Option ActionResult
  pub clear_live_terminal : Bool
  pub update : Option CompoundUpdate

abbrev pub no_effect : Effect
no_effect = record {
  revision = 0;
  session_id = [];
  connection_id = [];
  master = none;
  player = none;
  live = none;
  result = none;
  clear_live_terminal = false;
  update = none;
}

-- A transaction's end: the working copy, whether it is accepted or only kept, what it publishes and
-- what it answers.
pub record Transition {ℓ} (A : Type ℓ) : Type ℓ where
  pub working : Coordinator
  pub accepted : Bool
  pub persist : Bool
  pub effects : List Effect
  pub answer : A

abbrev pub with_player : Bytes → Option PlayerState → List Effect → List Effect
with_player session none effects = effects
with_player session (some state) effects =
    record no_effect { session_id = session; player = some state } ∷ effects

unfoldable pub player_effects : ProcessRuntime → List Bytes → List Effect
unfolding player_snapshot
player_effects runtime [] = []
player_effects runtime (session ∷ sessions) =
    with_player session (player_snapshot runtime session) (player_effects runtime sessions)

-- `presenceEffects`, which `stateEffects` calls.
unfoldable pub state_effects : ProcessRuntime → List Effect
unfolding master_snapshot player_effects sorted_session_ids
state_effects runtime =
    record no_effect { master = some (master_snapshot runtime) }
    ∷ player_effects runtime (sorted_session_ids runtime)

abbrev pub live_effect : RoutedLiveState → Effect
live_effect state = record no_effect { live = some state }

abbrev pub stamp_master : ℕ → Option MasterCoordinationState → Option MasterCoordinationState
stamp_master revision none = none
stamp_master revision (some state) = some (record state { revision = revision })

abbrev pub stamp_player : ℕ → Option PlayerState → Option PlayerState
stamp_player revision none = none
stamp_player revision (some state) = some (record state { revision = revision })

abbrev pub stamp_result : ℕ → Option ActionResult → Option ActionResult
stamp_result revision none = none
stamp_result revision (some result) =
    some (if result.revision == 0 then record result { revision = revision } else result)

-- `detachEffect`.
unfoldable pub detach_effect : ℕ → Effect → Effect
detach_effect revision effect = record effect {
  revision = revision;
  master = stamp_master revision effect.master;
  player = stamp_player revision effect.player;
  result = stamp_result revision effect.result;
}

module _ (source : Source) where
  abbrev pub shown_update :
      CompoundUpdate → ProcessRuntime × Option RoutedLiveState → ProcessRuntime × CompoundUpdate
  shown_update update (runtime, none) =
      (runtime, record update { terminal = some no_live_terminal })
  shown_update update (runtime, some state) = (
    runtime,
    record update {
      terminal = some (live state);
      nav = some state.live.nav;
      hack = state.live.hack;
    },
  )

  abbrev pub terminal_update :
      Option LiveBroadcast
      → Bytes
      → ProcessRuntime
      → CompoundUpdate
      → ProcessRuntime × CompoundUpdate
  terminal_update none session runtime update = (runtime, update)
  terminal_update (some b) session runtime update =
      if session_assigned b session
      then shown_update update (project_active_terminal source runtime)
      else (runtime, update)

  abbrev pub update_for :
      Bytes → ProcessRuntime → Option PlayerState → ProcessRuntime × Option CompoundUpdate
  update_for session runtime none = (runtime, none)
  update_for session runtime (some state) =
      let done = terminal_update runtime.broadcast session runtime (record {
        revision = runtime.revision;
        player = some state;
        terminal = none;
        nav = none;
        hack = none;
      }) in
      (done.0, some done.1)

  -- `compoundUpdateLocked`, at the canonical runtime.
  unfoldable pub compound_update : ProcessRuntime → Bytes → ProcessRuntime × Option CompoundUpdate
  unfolding player_snapshot session_assigned project_active_terminal
  compound_update runtime session = update_for session runtime (player_snapshot runtime session)

  abbrev pub with_update : Bytes → Option CompoundUpdate → List Effect → List Effect
  with_update session none effects = effects
  with_update session (some update) effects =
      record no_effect { revision = update.revision; session_id = session; update = some update }
      ∷ effects

  -- The updates of all sessions; each projection repairs the shared checkpoint.
  unfoldable pub compound_updates : ProcessRuntime → List Bytes → ProcessRuntime × List Effect
  unfolding compound_update
  compound_updates runtime [] = (runtime, [])
  compound_updates runtime (session ∷ sessions) =
      let here = compound_update runtime session in
      let after = compound_updates here.0 sessions in (after.0, with_update session here.1 after.1)

-- A `uint64` revision.
abbrev pub next_revision : ℕ → ℕ
next_revision revision = (revision + 1) % 2 ^ 64

-- The canonical runtime after a transaction, with its revision.
abbrev pub settled {ℓ} : {A : Type ℓ} → ProcessRuntime → Transition A → ProcessRuntime
settled before t =
    if t.accepted
    then record t.working.runtime { revision = next_revision before.revision }
    else if t.persist
    then record t.working.runtime { revision = before.revision }
    else before

module _ {ℓ} {A : Type ℓ} (cfg : Config) where
  abbrev pub updates : Transition A → ProcessRuntime → ProcessRuntime × List Effect
  updates t runtime =
      if t.accepted
      then compound_updates cfg.source runtime (sorted_session_ids runtime)
      else (runtime, [])

  -- `commit`: the coordinator, what is published, and the answer. What was drawn from the IDs, the
  -- stores and the live terminal is gone, also where the transaction is refused.
  unfoldable pub commit : (Coordinator → Transition A) → Coordinator → Coordinator × List Effect × A
  unfolding compound_updates detach_effect sorted_session_ids
  commit apply c =
      let t = apply c in
      let runtime = settled c.runtime t in
      let updated = updates t runtime in
      (
        record { runtime = updated.0; live = t.working.live; asked = t.working.asked },
        map (detach_effect runtime.revision) t.effects ++ updated.1,
        t.answer,
      )
