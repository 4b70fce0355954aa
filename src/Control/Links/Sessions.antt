-- ===== src/Control/Links/Sessions.antt =====
-- Connections come and go, broadcasts start and end: the claims hold.
use fallout_terminal.Common.{
  ℕ, Bool, true, false, Option, none, some, List, Bytes, Dict, has, lookup, insert, equal, is_some,
  ◌≡◌, ◌∙◌, inl, inr, refl, arith, Option-cases, if-either, if-cases, not, ◌&&◌, ◌||◌, [], ◌∷◌, sym,
  subst,
}
use fallout_terminal.Domain.Coordination.{
  LiveBroadcast, LogicalSession, CharacterRosterEntry, ProcessRuntime,
}
use fallout_terminal.Domain.Snapshots.{PlayerState, RoutedLiveState}
use fallout_terminal.Live.Runtime.{Source}
use fallout_terminal.Control.Broadcast.{
  new_broadcast, start_step, start_broadcast, end_step, end_broadcast,
}
use fallout_terminal.Control.Claims.{session_assigned}
use fallout_terminal.Control.Claims.Bound.{IsBoundIn}
use fallout_terminal.Control.Commit.{Config, Coordinator, Transition, Effect}
use fallout_terminal.Control.Commit.Kept.{Ends, commit-kept}
use fallout_terminal.Control.Connections.{
  remove_connection_from_others, presented, terminal_for, snapshot_of, subscription_snapshot,
  Attached, attach_end, new_session, admitted, held_by, joined, enter_session, enter_with, enter_as,
  enter, join_session, attach_to, attach_known, attach_step, attach_subscription, detach_from,
  detach_connection, session_for_connection,
}
use fallout_terminal.Control.Links.{
  LinksIn, IsLinked, LinksIn-insert, LinksIn-more, IsLinked-IsStable, overseer-IsLinked,
}
use fallout_terminal.Control.Links.Players.{has-cleared}
use fallout_terminal.Control.Live.{project_active_terminal}
use fallout_terminal.Control.Requests.{cleared, clear_request_results}
use fallout_terminal.Control.Snapshots.{player_snapshot, is_connected}

has-removed :
    (connection target s : Bytes) (sessions : Dict LogicalSession)
    → has s (remove_connection_from_others connection target sessions).0 ≡ has s sessions
unfolding remove_connection_from_others lookup
has-removed connection target s [] = refl
has-removed connection target s ((id, session) ∷ sessions) =
    ground (arith, has-removed connection target s sessions)

presented-runtime : (p : ProcessRuntime × Option RoutedLiveState) → (presented p).0 ≡ p.0
presented-runtime (r, none) = refl
presented-runtime (r, some state) = refl

module _ (source : Source) where
  terminal_for-IsLinked :
      (b : Option LiveBroadcast) (r : ProcessRuntime) (session : Bytes)
      → IsLinked r
      → IsLinked (terminal_for source b r session).0
  terminal_for-IsLinked none r session h = h
  terminal_for-IsLinked (some b) r session h =
      if-cases (λ (p : ProcessRuntime × _). IsLinked p.0) (session_assigned b session)
        (λ _.
          subst IsLinked (sym (presented-runtime (project_active_terminal source r)))
            ((IsLinked-IsStable source).0 r h))
        (λ _. h)

  pub subscription_snapshot-IsLinked :
      (r : ProcessRuntime) (session handle : Bytes)
      → IsLinked r
      → IsLinked (subscription_snapshot source r session handle).0
  unfolding subscription_snapshot
  subscription_snapshot-IsLinked r session handle h = go (player_snapshot r session)
    where
      go : (state : Option PlayerState) → IsLinked (snapshot_of source r session handle state).0
      go none = h
      go (some state) = terminal_for-IsLinked r.broadcast r session h

-- A step that may not come about.
abbrev pub EndsIf : Option (Transition Attached) → Type 0
EndsIf none = Unit
EndsIf (some t) = Ends IsLinked t

module _ (cfg : Config) (connection : Bytes) where
  entered-links :
      (id : Bytes) (session : LogicalSession) (c : Coordinator)
      → IsLinked c.runtime
      → LinksIn
          (insert id session
            (remove_connection_from_others connection id c.runtime.sessions_by_id).0)
          c.runtime.roster_by_id
          c.runtime.broadcast
  entered-links id session c h =
      LinksIn-insert id session _ c.runtime.roster_by_id c.runtime.broadcast (
        LinksIn-more c.runtime.sessions_by_id _ c.runtime.roster_by_id c.runtime.broadcast
          (λ s e. has-removed connection id s c.runtime.sessions_by_id ∙ e) h)

  attach_end-Ends :
      (c : Coordinator) (accepted changed : Bool) (session handle : Bytes)
      → IsLinked c.runtime
      → Ends IsLinked (attach_end cfg c accepted changed session handle)
  attach_end-Ends c accepted changed session handle h =
      inl (subscription_snapshot-IsLinked cfg.source c.runtime session handle h)

  enter_session-Ends :
      (c : Coordinator) (id handle : Bytes) (name : Option Bytes)
      → IsLinked c.runtime
      → EndsIf (enter_session cfg connection c id handle name)
  enter_session-Ends c id handle none h = tt
  enter_session-Ends c id handle (some name) h =
      attach_end-Ends
        (admitted cfg c (held_by cfg connection id (new_session cfg id name connection) c)
          (insert handle id c.runtime.session_id_by_browser_token))
        true true id handle (entered-links id (new_session cfg id name connection) c h)

  enter_with-Ends :
      (c : Coordinator) (id : Bytes) (made : Option (Bytes × ℕ))
      → IsLinked c.runtime
      → EndsIf (enter_with cfg connection c id made)
  enter_with-Ends c id none h = tt
  enter_with-Ends c id (some (handle, asked)) h =
      enter_session-Ends (record c { asked = asked }) id handle _ h

  enter_as-Ends :
      (c : Coordinator) (made : Option (Bytes × ℕ))
      → IsLinked c.runtime
      → EndsIf (enter_as cfg connection c made)
  enter_as-Ends c none h = tt
  enter_as-Ends c (some (id, asked)) h = enter_with-Ends c id _ h

  enter-Ends : (c : Coordinator) → IsLinked c.runtime → EndsIf (enter cfg connection c)
  enter-Ends c h = enter_as-Ends c _ h

  join_session-Ends :
      (handle : Bytes) (c : Coordinator) (id : Bytes) (session : LogicalSession)
      → IsLinked c.runtime
      → Ends IsLinked (join_session cfg connection handle c id session)
  join_session-Ends handle c id session h =
      if-either (Ends IsLinked) (has connection session.connection_ids)
        (attach_end-Ends c false false id handle h)
        (attach_end-Ends
          (admitted cfg c (held_by cfg connection id (joined cfg connection session) c)
            c.runtime.session_id_by_browser_token)
          true
          (not (is_connected session.connection_ids)
            || (remove_connection_from_others connection id c.runtime.sessions_by_id).1)
          id handle (entered-links id (joined cfg connection session) c h))

  attach_to-Ends :
      (handle : Bytes) (c : Coordinator) (id : Bytes) (session : Option LogicalSession)
      → IsLinked c.runtime
      → EndsIf (attach_to cfg connection handle c id session)
  attach_to-Ends handle c id none h = enter-Ends c h
  attach_to-Ends handle c id (some session) h = join_session-Ends handle c id session h

  attach_known-Ends :
      (handle : Bytes) (c : Coordinator) (id : Option Bytes)
      → IsLinked c.runtime
      → EndsIf (attach_known cfg connection handle c id)
  attach_known-Ends handle c none h = enter-Ends c h
  attach_known-Ends handle c (some id) h =
      if-either EndsIf (equal handle []) (enter-Ends c h)
        (attach_to-Ends handle c id (lookup id c.runtime.sessions_by_id) h)

  pub attach_step-Ends :
      (handle : Bytes) (c : Coordinator)
      → IsLinked c.runtime
      → EndsIf (attach_step cfg connection handle c)
  unfolding attach_step
  attach_step-Ends handle c h = attach_known-Ends handle c _ h

  pub detach_from-Ends :
      (c : Coordinator) (found : Option (Bytes × LogicalSession))
      → IsLinked c.runtime
      → Ends IsLinked (detach_from cfg connection c found)
  detach_from-Ends c none h = inr (refl, refl)
  detach_from-Ends c (some (id, session)) h =
      inl
        (LinksIn-insert id _ c.runtime.sessions_by_id c.runtime.roster_by_id c.runtime.broadcast h)

cleared-links :
    (sessions : Dict LogicalSession) (roster : Dict CharacterRosterEntry) (b : Option LiveBroadcast)
    → LinksIn sessions roster b
    → LinksIn (cleared sessions) roster b
cleared-links sessions roster b h =
    LinksIn-more sessions (cleared sessions) roster b (λ s e. has-cleared s sessions ∙ e) h

new-IsBound :
    (known rostered : Bytes → Bool) (id : Bytes) → IsBoundIn known rostered (new_broadcast id)
unfolding lookup
new-IsBound known rostered id = record {
  assigned = λ s c e. absurd (cc);
  owned = λ s c e. absurd (cc);
  recognized = λ s c e. absurd (cc);
  listed = λ s c e. absurd (cc);
  controlling = λ s e. absurd (cc);
  once = tt;
  once_back = tt;
}

module _ (cfg : Config) (c : Coordinator) (h : IsLinked c.runtime) where
  pub detach_connection-IsLinked :
      (connection : Bytes) → IsLinked (detach_connection cfg connection c).0.runtime
  unfolding detach_connection
  detach_connection-IsLinked connection =
      if-either (λ (done : Coordinator × List Effect). IsLinked done.0.runtime)
        (equal connection []) h
        (commit-kept cfg IsLinked (IsLinked-IsStable cfg.source)
          (λ now. detach_from cfg connection now (session_for_connection now.runtime connection)) c
          h (detach_from-Ends cfg connection c _ h))

  pub start_broadcast-IsLinked : IsLinked (start_broadcast cfg c).0.runtime
  unfolding start_broadcast clear_request_results
  start_broadcast-IsLinked = overseer-IsLinked cfg (start_step cfg) c h (
      if-either (Ends IsLinked)
        (is_some cfg.roster_store && not (is_some c.runtime.active_player_config))
        (inr (refl, refl))
        (if-either (Ends IsLinked) (is_some c.runtime.broadcast) (inr (refl, refl)) (
          inl (
            cleared-links c.runtime.sessions_by_id c.runtime.roster_by_id
              (some (new_broadcast (cfg.next_id c.asked)))
              (new-IsBound _ _ (cfg.next_id c.asked))))))

  pub end_broadcast-IsLinked : IsLinked (end_broadcast cfg c).0.runtime
  unfolding end_broadcast clear_request_results
  end_broadcast-IsLinked = overseer-IsLinked cfg end_step c h (
      if-either (Ends IsLinked) (is_some c.runtime.broadcast)
        (inl (cleared-links c.runtime.sessions_by_id c.runtime.roster_by_id none tt))
        (inr (refl, refl)))

-- A call that ends keeps the links.
abbrev pub LinkedIf : Option (Coordinator × List Effect × Attached) → Type 0
LinkedIf none = Unit
LinkedIf (some done) = IsLinked done.0.runtime

module _ (cfg : Config) (c : Coordinator) (h : IsLinked c.runtime) where
  pub attach_subscription-LinkedIf :
      (connection handle : Bytes) → LinkedIf (attach_subscription cfg connection handle c)
  unfolding attach_subscription
  attach_subscription-LinkedIf connection handle =
      let kept : EndsIf (attach_step cfg connection handle c) =
        attach_step-Ends cfg connection handle c h in
      elim (Option-cases (attach_step cfg connection handle c)) [
        | inl none_left ↦
            rw (none_left, attach_subscription) (if-either LinkedIf (equal connection []) h tt)
        | inr (t, e) ↦
            rw (e, attach_subscription)
              (if-either LinkedIf (equal connection []) h (
                commit-kept cfg IsLinked (IsLinked-IsStable cfg.source) (λ now. t) c h
                  (subst EndsIf e kept)))
      ]
