-- ===== src/Control/Selection/Replay.antt =====
-- A selection that was accepted is accepted again, and changes nothing more.
use fallout_terminal.Common.{
  ℕ, ◌∙◌, sym, true, false, not, Option, none, some, has, lookup, equal, equal_refl, ◌≡◌, refl, inl,
  inr, ap, subst, arith, if-cases, [], lookup-insert, Option-cases,
}
use fallout_terminal.Domain.Coordination.{
  ActionResult, LogicalSession, LiveBroadcast, ProcessRuntime, RequestResultRecord,
}
use fallout_terminal.Domain.Runtime.{TerminalRuntime}
use fallout_terminal.Live.Runtime.{Source}
use fallout_terminal.Control.Assignment.{
  claim, take_control, with_broadcast, append_current_terminal_effect,
}
use fallout_terminal.Control.Commit.{Config, Coordinator, Transition, commit}
use fallout_terminal.Control.Commit.Kept.{IsStable, commit-leads}
use fallout_terminal.Control.Commit.Revisions.{commit_refused}
use fallout_terminal.Control.Live.{live_terminal, put_active, project_active_terminal}
use fallout_terminal.Control.Requests.{request_result, store_in, store_request_result}
use fallout_terminal.Control.Requests.Cache.{lookup-store_in_any}
use fallout_terminal.Control.Selection.{
  CharacterSelection, selection_fingerprint, remembered, accept_claim, select_in, select_current,
  select_unless, select_for, select_step, select_character,
}
use fallout_terminal.Control.Selection.Taken.{stamped-accepted}
use fallout_terminal.Control.Snapshots.{is_connected}

-- The session is connected, and the selection is among its answered requests, as accepted.
pub record IsAnswered (s : CharacterSelection) (r : ProcessRuntime) : Type 0 where
  pub session : LogicalSession
  pub result : ActionResult
  pub recognized : lookup s.session_id r.sessions_by_id ≡ some session
  pub connected : is_connected session.connection_ids ≡ true
  pub answered :
      lookup s.request_id session.request_results
      ≡ some (record { fingerprint = selection_fingerprint s; result = result })
  pub agreed : result.accepted ≡ true
  pub filled : equal s.request_id [] ≡ false

module _ (s : CharacterSelection) where
  put_active-IsAnswered :
      (r : ProcessRuntime) (state : TerminalRuntime)
      → IsAnswered s r
      → IsAnswered s (put_active r state)
  unfolding put_active
  put_active-IsAnswered r state h = record {
    session = h.session;
    result = h.result;
    recognized = h.recognized;
    connected = h.connected;
    answered = h.answered;
    agreed = h.agreed;
    filled = h.filled;
  }

  project_active_terminal-IsAnswered :
      (source : Source) (r : ProcessRuntime)
      → IsAnswered s r
      → IsAnswered s (project_active_terminal source r).0
  unfolding project_active_terminal
  project_active_terminal-IsAnswered source r h = elim (Option-cases (live_terminal r)) [
    | inl idle ↦ rw (idle, project_active_terminal) h
    | inr (state, on) ↦ rw (on, project_active_terminal) (put_active-IsAnswered r _ h)
  ]

  IsAnswered-IsStable : (source : Source) → IsStable source (IsAnswered s)
  IsAnswered-IsStable source = (
    project_active_terminal-IsAnswered source,
    λ r n h. record {
      session = h.session;
      result = h.result;
      recognized = h.recognized;
      connected = h.connected;
      answered = h.answered;
      agreed = h.agreed;
      filled = h.filled;
    },
  )

  stored-IsAnswered :
      (limit : ℕ) (r : ProcessRuntime) (session : LogicalSession) (result : ActionResult)
      → lookup s.session_id r.sessions_by_id ≡ some session
      → is_connected session.connection_ids ≡ true
      → result.accepted ≡ true
      → equal s.request_id [] ≡ false
      → IsAnswered s (
          store_request_result limit r s.session_id s.request_id
            (record { fingerprint = selection_fingerprint s; result = result }))
  unfolding store_request_result
  stored-IsAnswered limit r session result known connected agreed filled =
      let entry : RequestResultRecord = record {
        fingerprint = selection_fingerprint s;
        result = result;
      } in
      let stored : LogicalSession = record session {
        request_results = store_in limit s.request_id entry session.request_results;
      } in
      rw (known, store_request_result)
        (record {
          session = stored;
          result = result;
          recognized = ground (
            arith,
            lookup-insert s.session_id s.session_id stored r.sessions_by_id,
            equal_refl s.session_id,
          );
          connected = connected;
          answered = ground (
            arith,
            lookup-store_in_any limit s.request_id entry session.request_results s.request_id,
            equal_refl s.request_id,
          );
          agreed = agreed;
          filled = filled;
        })

-- A transaction that accepts leaves the selection answered.
abbrev Answers : CharacterSelection → Transition ActionResult → Type 0
Answers s t = t.answer.accepted ≡ true → (t.accepted ≡ true) × IsAnswered s t.working.runtime

module _ (cfg : Config) (s : CharacterSelection) (c : Coordinator) (session : LogicalSession)
    (known : lookup s.session_id c.runtime.sessions_by_id ≡ some session)
    (connected : is_connected session.connection_ids ≡ true)
    (filled : equal s.request_id [] ≡ false) where
  accept_claim-IsAnswered :
      (now : Coordinator)
      → now.runtime.sessions_by_id ≡ c.runtime.sessions_by_id
      → IsAnswered s (accept_claim cfg s now).working.runtime
  unfolding append_current_terminal_effect
  accept_claim-IsAnswered now same =
      project_active_terminal-IsAnswered s cfg.source (remembered cfg s _ now).runtime (
        stored-IsAnswered s cfg.request_result_limit now.runtime session _
          (ap (lookup s.session_id) same ∙ known) connected refl filled)

  select_in-Answers : (b : LiveBroadcast) → Answers s (select_in cfg s c b)
  select_in-Answers b =
      if-cases (Answers s) (has s.session_id b.assignments_by_session)
        (λ _ e. absurd (ground arith))
        (λ _.
          if-cases (Answers s) (not (has s.character_id c.runtime.roster_by_id))
            (λ _ e. absurd (ground arith))
            (λ _.
              if-cases (Answers s) (has s.character_id b.session_by_character)
                (λ _ e. absurd (ground arith))
                (λ _ e. (
                  refl,
                  accept_claim-IsAnswered
                      (with_broadcast c
                        (take_control true s.session_id (claim b s.session_id s.character_id)))
                      refl,
                ))))

  select_current-Answers : (b : Option LiveBroadcast) → Answers s (select_current cfg s c b)
  select_current-Answers none = λ e. absurd (ground arith)
  select_current-Answers (some b) =
      if-cases (Answers s) (not (equal b.id s.broadcast_id)) (λ _ e. absurd (ground arith))
        (λ _. select_in-Answers b)

select_for-Answers :
    (cfg : Config) (s : CharacterSelection) (c : Coordinator) (session : Option LogicalSession)
    → lookup s.session_id c.runtime.sessions_by_id ≡ session
    → request_result c.runtime s.session_id s.request_id ≡ none
    → Answers s (select_for cfg s c session)
select_for-Answers cfg s c none known new = λ e. absurd (ground arith)
select_for-Answers cfg s c (some session) known new =
    if-cases (Answers s) (equal s.request_id []) (λ _ e. absurd (ground arith))
      (λ filled.
        if-cases (Answers s) (not (is_connected session.connection_ids))
          (λ _ e. absurd (ground arith))
          (λ connected.
            subst (λ o. Answers s (select_unless cfg s c o)) (sym new)
              (if-cases (Answers s) (equal s.character_id []) (λ _ e. absurd (ground arith))
                (λ _.
                  select_current-Answers cfg s c session known (ground (arith, connected)) filled
                    c.runtime.broadcast))))

-- A transaction that answers from the cache, with acceptance.
abbrev Repeats : Transition ActionResult → Type 0
Repeats t = (t.accepted ≡ false) × (t.persist ≡ false) × (t.answer.accepted ≡ true)

request_result-answered :
    (s : CharacterSelection) (r : ProcessRuntime) (h : IsAnswered s r)
    → request_result r s.session_id s.request_id
      ≡ some (record { fingerprint = selection_fingerprint s; result = h.result })
unfolding request_result
request_result-answered s r h = rw (h.recognized, request_result) h.answered

module _ (cfg : Config) (s : CharacterSelection) (c : Coordinator)
    (h : IsAnswered s c.runtime) where
  select_for-Repeats : Repeats (select_for cfg s c (some h.session))
  select_for-Repeats =
      if-cases Repeats (equal s.request_id []) (λ e. absurd (ground (arith, e, h.filled)))
        (λ _.
          if-cases Repeats (not (is_connected h.session.connection_ids))
            (λ e. absurd (ground (arith, e, h.connected)))
            (λ _.
              subst (λ o. Repeats (select_unless cfg s c o))
                (sym (request_result-answered s c.runtime h))
                (if-cases Repeats (equal (selection_fingerprint s) (selection_fingerprint s))
                  (λ _. (refl, refl, h.agreed))
                  (λ e. absurd (ground (arith, e, equal_refl (selection_fingerprint s)))))))

  select_character-repeats :
      ((select_character cfg s c).0.runtime ≡ c.runtime)
      × ((select_character cfg s c).2.accepted ≡ true)
  unfolding select_character select_step commit
  select_character-repeats =
      let (refused, dropped, agreed) =
        subst (λ o. Repeats (select_for cfg s c o)) (sym h.recognized) select_for-Repeats in
      (
        commit_refused cfg (select_step cfg s) c refused dropped,
        stamped-accepted (select_step cfg s c).answer _ ∙ agreed,
      )

select_character-IsAnswered :
    (cfg : Config) (s : CharacterSelection) (c : Coordinator)
    → request_result c.runtime s.session_id s.request_id ≡ none
    → (select_character cfg s c).2.accepted ≡ true
    → IsAnswered s (select_character cfg s c).0.runtime
unfolding select_character select_step commit
select_character-IsAnswered cfg s c new e =
    let t = select_step cfg s c in
    let (agreed, answered) =
      select_for-Answers cfg s c (lookup s.session_id c.runtime.sessions_by_id) refl new
        (sym (stamped-accepted t.answer _) ∙ e) in
    commit-leads cfg (IsAnswered s) (IsAnswered-IsStable s cfg.source) (select_step cfg s) c
      (inl agreed, answered)

-- If `SelectCharacter` accepts a request that is new, then the same request, sent again, is
-- accepted once more and leaves the runtime as it is.
pub select_character-twice :
    (cfg : Config) (s : CharacterSelection) (c : Coordinator)
    → request_result c.runtime s.session_id s.request_id ≡ none
    → (select_character cfg s c).2.accepted ≡ true
    → ((select_character cfg s (select_character cfg s c).0).0.runtime
        ≡ (select_character cfg s c).0.runtime)
      × ((select_character cfg s (select_character cfg s c).0).2.accepted ≡ true)
select_character-twice cfg s c new e =
    select_character-repeats cfg s (select_character cfg s c).0
      (select_character-IsAnswered cfg s c new e)
