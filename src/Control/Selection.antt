-- ===== src/Control/Selection.antt =====
-- internal/control/service.go: `SelectCharacter`, the claim that a player makes.
pub mod Taken
pub mod Replay
use fallout_terminal.Common.{
  Bool, true, false, not, Option, none, some, List, [], ◌∷◌, ◌++◌, Bytes, equal, lookup, has,
  is_some, utf8, if◌then◌else◌,
}
use fallout_terminal.Domain.Coordination.{
  ActionReason, accepted, invalid_session, stale_broadcast, invalid_action, conflict, duplicate,
  ActionResult, RequestResultRecord, LogicalSession, LiveBroadcast, ProcessRuntime,
}
use fallout_terminal.Domain.Snapshots.{PlayerState}
use fallout_terminal.Control.Answers.{with_runtime}
use fallout_terminal.Control.Assignment.{
  with_broadcast, claim, take_control, append_current_terminal_effect,
}
use fallout_terminal.Control.Commit.{
  Config, Coordinator, Effect, Transition, no_effect, state_effects, next_revision, commit,
}
use fallout_terminal.Control.Requests.{
  request_result, store_request_result, fingerprint_fields, rejected_result,
}
use fallout_terminal.Control.Snapshots.{is_connected, player_snapshot}

pub record CharacterSelection : Type 0 where
  pub connection_id : Bytes
  pub session_id : Bytes
  pub request_id : Bytes
  pub broadcast_id : Bytes
  pub character_id : Bytes
  pub fingerprint : Bytes

-- `selectionFingerprint`.
unfoldable pub selection_fingerprint : CharacterSelection → Bytes
unfolding equal fingerprint_fields
selection_fingerprint s =
    if not (equal s.fingerprint [])
    then s.fingerprint
    else fingerprint_fields (utf8 "SelectCharacter" ∷ s.broadcast_id ∷ s.character_id ∷ [])

-- `resultEffect`.
abbrev pub result_effect : CharacterSelection → ActionResult → Effect
result_effect s result = record no_effect {
  connection_id = s.connection_id;
  session_id = s.session_id;
  result = some result;
}

abbrev pub state_effect : Bytes → Option PlayerState → List Effect
state_effect session none = []
state_effect session (some state) =
    record no_effect { session_id = session; player = some state } ∷ []

-- `selectionResultEffects`.
unfoldable pub selection_result_effects :
    ProcessRuntime → CharacterSelection → ActionResult → List Effect
unfolding player_snapshot
selection_result_effects runtime s result =
    state_effect s.session_id (player_snapshot runtime s.session_id)
    ++ (result_effect s result ∷ [])

-- A transaction that ends with no change.
abbrev pub answer_only : Coordinator → List Effect → ActionResult → Transition ActionResult
answer_only c effects result = record {
  working = c;
  accepted = false;
  persist = false;
  effects = effects;
  answer = result;
}

abbrev pub rejects : Coordinator → CharacterSelection → ActionReason → Transition ActionResult
rejects c s reason =
    let result = rejected_result s.request_id reason c.runtime.revision in
    answer_only c (selection_result_effects c.runtime s result) result

module _ (cfg : Config) where
  abbrev pub remembered : CharacterSelection → ActionResult → Coordinator → Coordinator
  remembered s result c = with_runtime c (
      store_request_result cfg.request_result_limit c.runtime s.session_id s.request_id
        (record { fingerprint = selection_fingerprint s; result = result }))

  -- `cacheSelectionRejection`.
  abbrev pub cache_selection_rejection :
      Coordinator → CharacterSelection → ActionReason → Transition ActionResult
  cache_selection_rejection c s reason =
      let result = rejected_result s.request_id reason c.runtime.revision in
      let kept = remembered s result c in
      record {
        working = kept;
        accepted = false;
        persist = true;
        effects = selection_result_effects kept.runtime s result;
        answer = result;
      }

  abbrev pub accept_claim : CharacterSelection → Coordinator → Transition ActionResult
  accept_claim s c =
      let result : ActionResult = record {
        request_id = s.request_id;
        accepted = true;
        reason = accepted;
        revision = next_revision c.runtime.revision;
      } in
      let kept = remembered s result c in
      let shown =
        append_current_terminal_effect cfg.source kept (state_effects kept.runtime) s.session_id in
      record {
        working = shown.0;
        accepted = true;
        persist = false;
        effects = shown.1 ++ (result_effect s result ∷ []);
        answer = result;
      }

  abbrev pub select_in : CharacterSelection → Coordinator → LiveBroadcast → Transition ActionResult
  select_in s c b =
      if has s.session_id b.assignments_by_session
      then cache_selection_rejection c s conflict
      else if not (has s.character_id c.runtime.roster_by_id)
      then cache_selection_rejection c s conflict
      else if has s.character_id b.session_by_character
      then cache_selection_rejection c s conflict
      else accept_claim s
          (with_broadcast c (take_control true s.session_id (claim b s.session_id s.character_id)))

  abbrev pub select_current :
      CharacterSelection → Coordinator → Option LiveBroadcast → Transition ActionResult
  select_current s c none = rejects c s stale_broadcast
  select_current s c (some b) =
      if not (equal b.id s.broadcast_id) then rejects c s stale_broadcast else select_in s c b

  abbrev pub select_unless :
      CharacterSelection → Coordinator → Option RequestResultRecord → Transition ActionResult
  select_unless s c (some cached) =
      if equal cached.fingerprint (selection_fingerprint s)
      then answer_only c (selection_result_effects c.runtime s cached.result) cached.result
      else rejects c s duplicate
  select_unless s c none =
      if equal s.character_id []
      then cache_selection_rejection c s invalid_action
      else select_current s c c.runtime.broadcast

  abbrev pub select_for :
      CharacterSelection → Coordinator → Option LogicalSession → Transition ActionResult
  select_for s c none =
      let result = rejected_result s.request_id invalid_session c.runtime.revision in
      answer_only c (result_effect s result ∷ []) result
  select_for s c (some session) =
      if equal s.request_id []
      then rejects c s invalid_action
      else if not (is_connected session.connection_ids)
      then rejects c s invalid_session
      else select_unless s c (request_result c.runtime s.session_id s.request_id)

  unfoldable pub select_step : CharacterSelection → Coordinator → Transition ActionResult
  unfolding lookup equal request_result store_request_result selection_fingerprint
      selection_result_effects claim append_current_terminal_effect
  select_step s c = select_for s c (lookup s.session_id c.runtime.sessions_by_id)

  -- `SelectCharacter`.
  unfoldable pub select_character :
      CharacterSelection → Coordinator → Coordinator × List Effect × ActionResult
  unfolding select_step commit
  select_character s c =
      let done = commit cfg (select_step s) c in
      (
        done.0,
        done.1,
        if done.2.accepted then record done.2 { revision = done.0.runtime.revision } else done.2,
      )

-- `ResolveRecognition`.
unfoldable pub resolve_recognition : ProcessRuntime → Bytes → Option Bytes
unfolding equal lookup
resolve_recognition runtime handle =
    if equal handle [] then none else elim (lookup handle runtime.session_id_by_browser_token) [
      | none ↦ none
      | some session ↦ if has session runtime.sessions_by_id then some session else none
    ]

abbrev pub select_as :
    Config
    → Bytes
    → Bytes
    → Bytes
    → Coordinator
    → Option Bytes
    → Coordinator × List Effect × ActionResult
select_as cfg request broadcast character c none =
    (c, [], rejected_result request invalid_session c.runtime.revision)
select_as cfg request broadcast character c (some session) =
    select_character cfg
      (record {
        connection_id = [];
        session_id = session;
        request_id = request;
        broadcast_id = broadcast;
        character_id = character;
        fingerprint = [];
      })
      c

-- `SelectCharacterForRecognition`.
unfoldable pub select_character_for_recognition :
    Config → Bytes → Bytes → Bytes → Bytes → Coordinator → Coordinator × List Effect × ActionResult
unfolding resolve_recognition select_character
select_character_for_recognition cfg handle request broadcast character c =
    select_as cfg request broadcast character c (resolve_recognition c.runtime handle)
