-- ===== src/Control/Connections.antt =====
-- internal/control/service.go: logical sessions and the connections of their browsers.
pub mod Ends
use fallout_terminal.Common.{
  ℕ, zero, suc, ◌+◌, Bool, true, false, not, ◌&&◌, ◌||◌, Option, none, some, List, [], ◌∷◌, ◌++◌,
  Bytes, Dict, equal, lookup, insert, delete, has, is_some, keys, sorted, any, utf8, decimal,
  length, ◌==◌, if◌then◌else◌,
}
use fallout_terminal.Domain.Coordination.{
  Connections, LogicalSession, LiveBroadcast, ProcessRuntime,
}
use fallout_terminal.Domain.Snapshots.{
  PlayerState, PersonalizedSnapshot, RoutedLiveState, TerminalPresentation, live, no_live_terminal,
}
use fallout_terminal.Live.Runtime.{Source}
use fallout_terminal.Control.Answers.{with_runtime}
use fallout_terminal.Control.Claims.{session_assigned}
use fallout_terminal.Control.Commit.{Config, Coordinator, Effect, Transition, state_effects, commit}
use fallout_terminal.Control.Live.{project_active_terminal}
use fallout_terminal.Control.Snapshots.{is_connected, player_snapshot, sorted_session_ids}

-- The used names and the numbered ones.
unfoldable pub fallback_names : Dict LogicalSession → List Bytes
fallback_names [] = []
fallback_names ((_, session) ∷ sessions) = session.fallback_name ∷ fallback_names sessions

abbrev pub player_name : ℕ → Bytes
player_name number = utf8 "PLAYER " ++ decimal number

-- The loop of `nextFallbackName` from `number` on.
unfoldable pub free_name : ℕ → List Bytes → ℕ → Option Bytes
unfolding equal decimal utf8
free_name zero used number = none
free_name (suc fuel) used number =
    let later = free_name fuel used (suc number) in
    if any (equal (player_name number)) used then later else some (player_name number)

-- `nextFallbackName`. It tries one name more than are used.
unfoldable pub next_fallback_name : Dict LogicalSession → Option Bytes
unfolding free_name fallback_names
next_fallback_name sessions = free_name (suc (length sessions)) (fallback_names sessions) 1

-- The loops of `nextUniqueSessionID` and `nextUniqueBrowserToken` over the calls from `asked` on:
-- the first ID that is neither blank nor a key, and the calls made.
unfoldable pub unique_id : (ℕ → Bytes) → ℕ → List Bytes → ℕ → Option (Bytes × ℕ)
unfolding equal
unique_id next_id zero used asked = none
unique_id next_id (suc fuel) used asked =
    let later = unique_id next_id fuel used (suc asked) in
    if equal (next_id asked) [] || any (equal (next_id asked)) used
    then later
    else some (next_id asked, suc asked)

-- The rounds that the loop is given: more than there are keys, with one for a blank ID.
abbrev pub unique_rounds {ℓ} : {V : Type ℓ} → Dict V → ℕ
unique_rounds m = suc (suc (length m))

-- `sessionForConnection`: the first session, by ID, that holds the connection.
unfoldable pub holder_of :
    Bytes → Dict LogicalSession → List Bytes → Option (Bytes × LogicalSession)
unfolding lookup
holder_of connection sessions [] = none
holder_of connection sessions (id ∷ ids) =
    let rest = holder_of connection sessions ids in
    elim (lookup id sessions) [
      | none ↦ rest
      | some session ↦ if has connection session.connection_ids then some (id, session) else rest
    ]

unfoldable pub session_for_connection : ProcessRuntime → Bytes → Option (Bytes × LogicalSession)
unfolding holder_of sorted_session_ids
session_for_connection runtime connection =
    holder_of connection runtime.sessions_by_id (sorted_session_ids runtime)

abbrev pub without_connection : Bytes → LogicalSession → LogicalSession
without_connection connection session = record session {
  connection_ids = delete connection session.connection_ids;
}

-- One session, other than the target, without the connection.
abbrev pub removed_from : Bytes → Bytes → Bytes → LogicalSession → LogicalSession
removed_from connection target id session =
    if equal id target then session else without_connection connection session

abbrev pub goes_absent : Bytes → Bytes → Bytes → LogicalSession → Bool
goes_absent connection target id session =
    not (equal id target)
    && has connection session.connection_ids
    && not (is_connected (delete connection session.connection_ids))

-- `removeConnectionFromOtherSessions`: the sessions, and whether one of them is absent now. The
-- order in which it meets them changes neither.
unfoldable pub remove_connection_from_others :
    Bytes → Bytes → Dict LogicalSession → Dict LogicalSession × Bool
unfolding equal lookup delete
remove_connection_from_others connection target [] = ([], false)
remove_connection_from_others connection target ((id, session) ∷ sessions) =
    let rest = remove_connection_from_others connection target sessions in
    (
      (id, removed_from connection target id session) ∷ rest.0,
      goes_absent connection target id session || rest.1,
    )

abbrev pub presented :
    ProcessRuntime × Option RoutedLiveState → ProcessRuntime × TerminalPresentation
presented (runtime, none) = (runtime, no_live_terminal)
presented (runtime, some state) = (runtime, live state)

module _ (source : Source) where
  abbrev pub terminal_for :
      Option LiveBroadcast → ProcessRuntime → Bytes → ProcessRuntime × TerminalPresentation
  terminal_for none runtime session = (runtime, no_live_terminal)
  terminal_for (some b) runtime session =
      if session_assigned b session
      then presented (project_active_terminal source runtime)
      else (runtime, no_live_terminal)

  abbrev pub snapshot_of :
      ProcessRuntime
      → Bytes
      → Bytes
      → Option PlayerState
      → ProcessRuntime × Option PersonalizedSnapshot
  snapshot_of runtime session handle none = (runtime, none)
  snapshot_of runtime session handle (some state) =
      let shown = terminal_for runtime.broadcast runtime session in
      (
        shown.0,
        some (record {
          recognition_handle = handle;
          revision = runtime.revision;
          player_state = state;
          terminal = shown.1;
        }),
      )

  -- `subscriptionSnapshot`: the projection repairs the shared checkpoint.
  unfoldable pub subscription_snapshot :
      ProcessRuntime → Bytes → Bytes → ProcessRuntime × Option PersonalizedSnapshot
  unfolding player_snapshot session_assigned project_active_terminal
  subscription_snapshot runtime session handle =
      snapshot_of runtime session handle (player_snapshot runtime session)

abbrev pub stamped : ℕ → Option PersonalizedSnapshot → Option PersonalizedSnapshot
stamped revision none = none
stamped revision (some snapshot) = some (record snapshot {
  revision = revision;
  player_state = record snapshot.player_state { revision = revision };
})

abbrev pub Attached : Type 0
Attached = Option PersonalizedSnapshot

module _ (cfg : Config) where
  -- A transaction that ends with a snapshot for the session.
  abbrev pub attach_end : Coordinator → Bool → Bool → Bytes → Bytes → Transition Attached
  attach_end c accepted changed session handle =
      let shown = subscription_snapshot cfg.source c.runtime session handle in
      record {
        working = with_runtime c shown.0;
        accepted = accepted;
        persist = false;
        effects = if changed then state_effects shown.0 else [];
        answer = shown.1;
      }

  abbrev pub new_session : Bytes → Bytes → Bytes → LogicalSession
  new_session id name connection = record {
    id = id;
    fallback_name = name;
    connection_ids = (connection, tt) ∷ [];
    request_results = [];
    notice = none;
  }

  -- The coordinator with these sessions and tokens.
  abbrev pub admitted : Coordinator → Dict LogicalSession → Dict Bytes → Coordinator
  admitted c sessions tokens =
      with_runtime c
        (record c.runtime { sessions_by_id = sessions; session_id_by_browser_token = tokens })

  -- The sessions with one that holds the connection, which no other holds any more.
  abbrev pub held_by : Bytes → Bytes → LogicalSession → Coordinator → Dict LogicalSession
  held_by connection id session c =
      insert id session (remove_connection_from_others connection id c.runtime.sessions_by_id).0

  -- A fresh session for an unknown browser; `none` where a loop is out of rounds.
  abbrev pub enter_session :
      Bytes → Coordinator → Bytes → Bytes → Option Bytes → Option (Transition Attached)
  enter_session connection c id handle none = none
  enter_session connection c id handle (some name) = some (
      attach_end
        (admitted c (held_by connection id (new_session id name connection) c)
          (insert handle id c.runtime.session_id_by_browser_token))
        true true id handle)

  abbrev pub enter_with :
      Bytes → Coordinator → Bytes → Option (Bytes × ℕ) → Option (Transition Attached)
  enter_with connection c id none = none
  enter_with connection c id (some (handle, asked)) =
      let others = remove_connection_from_others connection id c.runtime.sessions_by_id in
      enter_session connection (record c { asked = asked }) id handle (next_fallback_name others.0)

  abbrev pub enter_as : Bytes → Coordinator → Option (Bytes × ℕ) → Option (Transition Attached)
  enter_as connection c none = none
  enter_as connection c (some (id, asked)) = enter_with connection c id (
      unique_id cfg.next_id (unique_rounds c.runtime.session_id_by_browser_token)
        (keys c.runtime.session_id_by_browser_token) asked)

  abbrev pub enter : Bytes → Coordinator → Option (Transition Attached)
  enter connection c = enter_as connection c (
      unique_id cfg.next_id (unique_rounds c.runtime.sessions_by_id) (keys c.runtime.sessions_by_id)
        c.asked)

  -- One more stream of a session that is known.
  abbrev pub joined : Bytes → LogicalSession → LogicalSession
  joined connection session = record session {
    connection_ids = insert connection tt session.connection_ids;
  }

  abbrev pub join_session :
      Bytes → Bytes → Coordinator → Bytes → LogicalSession → Transition Attached
  join_session connection handle c id session =
      let others = remove_connection_from_others connection id c.runtime.sessions_by_id in
      if has connection session.connection_ids
      then attach_end c false false id handle
      else attach_end
          (admitted c (held_by connection id (joined connection session) c)
            c.runtime.session_id_by_browser_token)
          true (not (is_connected session.connection_ids) || others.1) id handle

  abbrev pub attach_to :
      Bytes → Bytes → Coordinator → Bytes → Option LogicalSession → Option (Transition Attached)
  attach_to connection handle c id none = enter connection c
  attach_to connection handle c id (some session) =
      some (join_session connection handle c id session)

  abbrev pub attach_known :
      Bytes → Bytes → Coordinator → Option Bytes → Option (Transition Attached)
  attach_known connection handle c none = enter connection c
  attach_known connection handle c (some id) =
      if equal handle []
      then enter connection c
      else attach_to connection handle c id (lookup id c.runtime.sessions_by_id)

  unfoldable pub attach_step : Bytes → Bytes → Coordinator → Option (Transition Attached)
  unfolding lookup insert equal unique_id next_fallback_name remove_connection_from_others
      subscription_snapshot state_effects
  attach_step connection handle c =
      attach_known connection handle c (lookup handle c.runtime.session_id_by_browser_token)

  -- `AttachSubscriptionAndRegister`, with a blank handle for none; the snapshot that it answers is
  -- the one that it registers. `none` is where a loop is out of rounds.
  unfoldable pub attach_subscription :
      Bytes → Bytes → Coordinator → Option (Coordinator × List Effect × Attached)
  unfolding attach_step equal commit
  attach_subscription connection handle c = elim (attach_step connection handle c) [
    | none ↦ if equal connection [] then some (c, [], none) else none
    | some t ↦
        let done = commit cfg (λ now. t) c in
        if equal connection []
        then some (c, [], none)
        else some (done.0, done.1, stamped done.0.runtime.revision done.2)
  ]

  abbrev pub detach_from :
      Bytes → Coordinator → Option (Bytes × LogicalSession) → Transition (Unit {0})
  detach_from connection c none = record {
    working = c;
    accepted = false;
    persist = false;
    effects = [];
    answer = tt;
  }
  detach_from connection c (some (id, session)) =
      let left = without_connection connection session in
      let next =
        with_runtime c
          (record c.runtime { sessions_by_id = insert id left c.runtime.sessions_by_id }) in
      record {
        working = next;
        accepted = true;
        persist = false;
        effects = if length session.connection_ids == 1 then state_effects next.runtime else [];
        answer = tt;
      }

  -- `DetachConnection`.
  unfoldable pub detach_connection : Bytes → Coordinator → Coordinator × List Effect
  unfolding insert delete session_for_connection state_effects equal commit
  detach_connection connection c =
      let done =
        commit cfg
          (λ now. detach_from connection now (session_for_connection now.runtime connection)) c in
      if equal connection [] then (c, []) else (done.0, done.1)

-- `ActiveStreamCount`.
unfoldable pub active_stream_count : Dict LogicalSession → ℕ
active_stream_count [] = 0
active_stream_count ((_, session) ∷ sessions) =
    length session.connection_ids + active_stream_count sessions
