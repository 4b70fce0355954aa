-- ===== src/Control/Links/Players.antt =====
-- The claims that players make, and their answered requests.
use fallout_terminal.Common.{
  ℕ, true, Option, none, some, Bytes, Dict, has, lookup, equal, ◌≡◌, inl, inr, refl, arith,
  if-either, if-cases, not, [], ◌∷◌, subst,
}
use fallout_terminal.Domain.Coordination.{
  LiveBroadcast, LogicalSession, ProcessRuntime, ActionReason, RequestResultRecord, conflict,
  invalid_action,
}
use fallout_terminal.Control.Commit.{Config, Coordinator}
use fallout_terminal.Control.Commit.Kept.{Ends, commit-kept}
use fallout_terminal.Control.Links.{LinksIn, IsLinked, LinksIn-insert, IsLinked-IsStable}
use fallout_terminal.Control.Links.Overseer.{claimed-links, append_current_terminal_effect-IsLinked}
use fallout_terminal.Control.Requests.{store_for, store_request_result, cleared, request_result}
use fallout_terminal.Control.Selection.{
  CharacterSelection, cache_selection_rejection, accept_claim, select_in, select_current,
  select_unless, select_for, select_step, select_character, select_as,
  select_character_for_recognition, resolve_recognition, selection_fingerprint,
}
use fallout_terminal.Control.Snapshots.{is_connected}

store_for-IsLinked :
    (r : ProcessRuntime) (limit : ℕ) (id : Bytes) (session : Option LogicalSession)
    (request : Bytes) (entry : RequestResultRecord)
    → IsLinked r
    → IsLinked (store_for r limit id session request entry)
store_for-IsLinked r limit id none request entry h = h
store_for-IsLinked r limit id (some session) request entry h =
    LinksIn-insert id _ r.sessions_by_id r.roster_by_id r.broadcast h

pub store_request_result-IsLinked :
    (limit : ℕ) (r : ProcessRuntime) (id request : Bytes) (entry : RequestResultRecord)
    → IsLinked r
    → IsLinked (store_request_result limit r id request entry)
unfolding store_request_result
store_request_result-IsLinked limit r id request entry h =
    store_for-IsLinked r limit id (lookup id r.sessions_by_id) request entry h

pub has-cleared :
    (s : Bytes) (sessions : Dict LogicalSession) → has s (cleared sessions) ≡ has s sessions
unfolding cleared lookup
has-cleared s [] = refl
has-cleared s ((id, session) ∷ sessions) = ground (arith, has-cleared s sessions)

module _ (cfg : Config) (s : CharacterSelection) where
  cached-Ends :
      (c : Coordinator) (reason : ActionReason)
      → IsLinked c.runtime
      → Ends IsLinked (cache_selection_rejection cfg c s reason)
  cached-Ends c reason h = inl (
      store_request_result-IsLinked cfg.request_result_limit c.runtime s.session_id s.request_id _
        h)

  accept_claim-Ends : (c : Coordinator) → IsLinked c.runtime → Ends IsLinked (accept_claim cfg s c)
  accept_claim-Ends c h = inl (
      append_current_terminal_effect-IsLinked cfg.source _ _ s.session_id (
        store_request_result-IsLinked cfg.request_result_limit c.runtime s.session_id s.request_id _
          h))

  select_in-Ends :
      (c : Coordinator) (b : LiveBroadcast)
      → has s.session_id c.runtime.sessions_by_id ≡ true
      → IsLinked c.runtime
      → c.runtime.broadcast ≡ some b
      → Ends IsLinked (select_in cfg s c b)
  select_in-Ends c b known h e =
      let links : LinksIn c.runtime.sessions_by_id c.runtime.roster_by_id (some b) =
        subst (LinksIn c.runtime.sessions_by_id c.runtime.roster_by_id) e h in
      if-cases (Ends IsLinked) (has s.session_id b.assignments_by_session)
        (λ _. cached-Ends c conflict h)
        (λ free.
          if-cases (Ends IsLinked) (not (has s.character_id c.runtime.roster_by_id))
            (λ _. cached-Ends c conflict h)
            (λ listed.
              if-cases (Ends IsLinked) (has s.character_id b.session_by_character)
                (λ _. cached-Ends c conflict h)
                (λ vacant. accept_claim-Ends _ (
                  claimed-links true s.session_id s.character_id b c.runtime.sessions_by_id
                    c.runtime.roster_by_id links known (ground (arith, listed))
                    (ground (arith, free)) (ground (arith, vacant))))))

  select_current-Ends :
      (c : Coordinator) (b : Option LiveBroadcast)
      → has s.session_id c.runtime.sessions_by_id ≡ true
      → IsLinked c.runtime
      → c.runtime.broadcast ≡ b
      → Ends IsLinked (select_current cfg s c b)
  select_current-Ends c none known h e = inr (refl, refl)
  select_current-Ends c (some b) known h e =
      if-either (Ends IsLinked) (not (equal b.id s.broadcast_id)) (inr (refl, refl))
        (select_in-Ends c b known h e)

  select_unless-Ends :
      (c : Coordinator) (cached : Option RequestResultRecord)
      → has s.session_id c.runtime.sessions_by_id ≡ true
      → IsLinked c.runtime
      → Ends IsLinked (select_unless cfg s c cached)
  select_unless-Ends c none known h =
      if-either (Ends IsLinked) (equal s.character_id []) (cached-Ends c invalid_action h)
        (select_current-Ends c c.runtime.broadcast known h refl)
  select_unless-Ends c (some cached) known h =
      if-either (Ends IsLinked) (equal cached.fingerprint (selection_fingerprint s))
        (inr (refl, refl)) (inr (refl, refl))

  select_for-Ends :
      (c : Coordinator) (session : Option LogicalSession)
      → lookup s.session_id c.runtime.sessions_by_id ≡ session
      → IsLinked c.runtime
      → Ends IsLinked (select_for cfg s c session)
  select_for-Ends c none e h = inr (refl, refl)
  select_for-Ends c (some session) e h =
      if-either (Ends IsLinked) (equal s.request_id []) (inr (refl, refl)) (
        if-either (Ends IsLinked) (not (is_connected session.connection_ids)) (inr (refl, refl)) (
          select_unless-Ends c (request_result c.runtime s.session_id s.request_id)
            (ground (arith, e)) h))

  pub select_character-IsLinked :
      (c : Coordinator) → IsLinked c.runtime → IsLinked (select_character cfg s c).0.runtime
  unfolding select_character select_step
  select_character-IsLinked c h =
      commit-kept cfg IsLinked (IsLinked-IsStable cfg.source) (select_step cfg s) c h
        (select_for-Ends c (lookup s.session_id c.runtime.sessions_by_id) refl h)

module _ (cfg : Config) (request broadcast character : Bytes) (c : Coordinator)
    (h : IsLinked c.runtime) where
  select_as-IsLinked :
      (session : Option Bytes)
      → IsLinked (select_as cfg request broadcast character c session).0.runtime
  select_as-IsLinked none = h
  select_as-IsLinked (some session) = select_character-IsLinked cfg _ c h

  pub select_character_for_recognition-IsLinked :
      (handle : Bytes)
      → IsLinked
          (select_character_for_recognition cfg handle request broadcast character c).0.runtime
  unfolding select_character_for_recognition
  select_character_for_recognition-IsLinked handle =
      select_as-IsLinked (resolve_recognition c.runtime handle)
