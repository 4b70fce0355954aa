-- ===== src/Control/Links/Navigation.antt =====
-- Ways to another terminal and back, and new groups of terminals: the claims hold.
use fallout_terminal.Common.{
  ℕ, suc, Bool, true, false, Option, none, some, List, Bytes, lookup, equal, inl, inr, refl,
  if-either, not, ◌&&◌, ◌||◌, [], ◌∷◌, ◌++◌, ◌==◌, is_blank, trim_space,
}
use fallout_terminal.Domain.Coordination.{
  LiveBroadcast, ProcessRuntime, TerminalGroup, TerminalGroupCandidate, TerminalReturnPoint,
  PendingTerminalNavigation, TerminalNavigationDirection, forward, back, TerminalNavigationDecision,
  TerminalTransitionTarget, TerminalNavigationNoticeReason, target_missing, target_changed,
}
use fallout_terminal.Domain.Runtime.{TerminalRuntime, TerminalTarget}
use fallout_terminal.Domain.Tree.{NavState}
use fallout_terminal.Live.Runtime.{reactivate_runtime}
use fallout_terminal.Nav.{restore_folder, default_state}
use fallout_terminal.Control.Answers.{
  CoordinationError, Reply, return_failed, target_failed, return_unavailable,
  navigation_target_changed,
}
use fallout_terminal.Control.Commit.{
  GroupAnswer, saved, refused, failed, Config, Coordinator, Effect,
}
use fallout_terminal.Control.Commit.Kept.{Ends}
use fallout_terminal.Control.Groups.{
  saved_as, save_groups, groups_step, valid_runtime_terminal_groups, replace_terminal_groups,
}
use fallout_terminal.Control.Links.{
  LinksIn, IsLinked, IsLinked-IsStable, put_active-IsLinked, overseer-IsLinked,
}
use fallout_terminal.Control.Links.Terminals.{ClaimedAt, suspend_active-Claimed}
use fallout_terminal.Control.Live.{active_terminal_runtime, top_of}
use fallout_terminal.Control.Navigation.{
  decided, blocked, settled_navigation, declined_runtime, decline, give_up, go_to_slot, go_to,
  popped, return_to, is_top, go_back, follow_link, approved, resolve_by, resolve_from, resolve_in,
  resolve_terminal_navigation,
}
use fallout_terminal.Control.Route.{same_terminal_group, valid_terminal_return_point}
use fallout_terminal.Control.Terminals.{suspend_active}

declined-IsLinked :
    (d : TerminalNavigationDirection) (pending : PendingTerminalNavigation)
    (source : TerminalRuntime) (r : ProcessRuntime)
    → IsLinked r
    → IsLinked (declined_runtime d pending source r)
declined-IsLinked forward pending source r h = put_active-IsLinked r (blocked pending source) h
declined-IsLinked back pending source r h = h

module _ (cfg : Config) where
  decided-Ends :
      (c : Coordinator) (error : Option CoordinationError)
      → IsLinked c.runtime
      → Ends IsLinked (decided cfg c error)
  decided-Ends c error h = inl ((IsLinked-IsStable cfg.source).0 c.runtime h)

  decline-Ends :
      (c : Coordinator) (pending : PendingTerminalNavigation) (source : TerminalRuntime)
      → IsLinked c.runtime
      → Ends IsLinked (decline cfg c pending source)
  decline-Ends c pending source h = inl (
      (IsLinked-IsStable cfg.source).0
        (declined_runtime pending.direction pending source (settled_navigation c.runtime))
        (declined-IsLinked pending.direction pending source (settled_navigation c.runtime) h))

  give_up-Ends :
      (c : Coordinator) (pending : PendingTerminalNavigation)
      (reason : TerminalNavigationNoticeReason) (error : CoordinationError)
      → IsLinked c.runtime
      → Ends IsLinked (give_up cfg c pending reason error)
  give_up-Ends c pending reason error h = inl (
      (IsLinked-IsStable cfg.source).0
        (record c.runtime {
          pending_terminal_navigation = none;
          terminal_navigation_notice = some (record {
            reason = reason;
            source_terminal_id = pending.source_terminal_id;
            command_id = pending.command_id;
            target_terminal_id = some pending.target_terminal_id;
          });
        })
        h)

  go_to_slot-Ends :
      (target : TerminalTarget) (c : Coordinator) (b : LiveBroadcast) (nav : NavState)
      (route : List TerminalReturnPoint) (error : CoordinationError)
      (state : Option TerminalRuntime)
      → ClaimedAt c b
      → Ends IsLinked (go_to_slot cfg target c b nav route error state)
  go_to_slot-Ends target c b nav route error none h = inl h
  go_to_slot-Ends target c b nav route error (some state) h =
      if-either (Ends IsLinked) (reactivate_runtime cfg.source state target).1 (inl h)
        (inr (refl, refl))

  go_to-Ends :
      (target : TerminalTarget) (c : Coordinator) (b : LiveBroadcast) (nav : NavState)
      (route : List TerminalReturnPoint) (error : CoordinationError)
      → ClaimedAt c b
      → Ends IsLinked (go_to cfg target c (suspend_active b) nav route error)
  go_to-Ends target c b nav route error h =
      go_to_slot-Ends target c (suspend_active b) nav route error
        (lookup target.terminal_id (suspend_active b).terminal_runtimes)
        (suspend_active-Claimed c.runtime.sessions_by_id c.runtime.roster_by_id b h)

  module _ (c : Coordinator) (b : LiveBroadcast) (pending : PendingTerminalNavigation)
      (links : IsLinked c.runtime) (h : ClaimedAt c b) where
    return_to-Ends :
        (latest : Option TerminalTarget) → Ends IsLinked (return_to cfg c b pending latest)
    return_to-Ends none = give_up-Ends c pending target_missing return_unavailable links
    return_to-Ends (some latest) =
        if-either (Ends IsLinked)
          (not (equal latest.terminal_id pending.return_point.terminal_id)
            || not (
                same_terminal_group (cfg.catalog c.asked) pending.source_terminal_id
                  pending.target_terminal_id))
          (give_up-Ends c pending target_missing return_unavailable links)
          (go_to-Ends latest c b
            (restore_folder latest.tree pending.return_point.folder_id
              pending.return_point.ancestor_folder_ids)
            (popped b.route) return_failed h)

    go_back-Ends : Ends IsLinked (go_back cfg c b pending)
    go_back-Ends =
        if-either (Ends IsLinked)
          (not (is_top pending.return_point (top_of b.route))
            || not (
                valid_terminal_return_point (cfg.catalog c.asked) pending.source_terminal_id
                  pending.return_point))
          (inr (refl, refl))
          (return_to-Ends ((cfg.catalog c.asked).lookup_terminal pending.target_terminal_id))

    follow_link-Ends :
        (latest : Option TerminalTransitionTarget)
        → Ends IsLinked (follow_link cfg c b pending latest)
    follow_link-Ends none = give_up-Ends c pending target_changed navigation_target_changed links
    follow_link-Ends (some latest) =
        if-either (Ends IsLinked)
          (not (equal latest.target.terminal_id pending.target_terminal_id)
            || equal latest.target.terminal_id pending.source_terminal_id
            || not (
                same_terminal_group (cfg.catalog c.asked) pending.source_terminal_id
                  pending.target_terminal_id))
          (give_up-Ends c pending target_changed navigation_target_changed links)
          (go_to-Ends latest.target c b default_state (b.route ++ (pending.return_point ∷ []))
            target_failed h)

    approved-Ends : (d : TerminalNavigationDirection) → Ends IsLinked (approved cfg d c b pending)
    approved-Ends back = go_back-Ends
    approved-Ends forward = follow_link-Ends (
        (cfg.catalog c.asked).lookup_terminal_transition pending.source_terminal_id
          pending.command_id)

    resolve_by-Ends :
        (decision : TerminalNavigationDecision) (source : TerminalRuntime)
        → Ends IsLinked (resolve_by cfg decision c b pending source)
    resolve_by-Ends TerminalNavigationDecision.reject source = decline-Ends c pending source links
    resolve_by-Ends TerminalNavigationDecision.approve source = approved-Ends pending.direction

    resolve_from-Ends :
        (id : Bytes) (decision : TerminalNavigationDecision) (source : Option TerminalRuntime)
        → Ends IsLinked (resolve_from cfg id decision c b pending source)
    resolve_from-Ends id decision none = inr (refl, refl)
    resolve_from-Ends id decision (some source) =
        if-either (Ends IsLinked)
          (equal pending.request_id id
            && equal pending.broadcast_id b.id
            && equal source.terminal_id pending.source_terminal_id)
          (resolve_by-Ends decision source) (inr (refl, refl))

  resolve_in-Ends :
      (id : Bytes) (decision : TerminalNavigationDecision) (c : Coordinator)
      (b : Option LiveBroadcast) (pending : Option PendingTerminalNavigation)
      → IsLinked c.runtime
      → LinksIn c.runtime.sessions_by_id c.runtime.roster_by_id b
      → Ends IsLinked (resolve_in cfg id decision c b pending)
  resolve_in-Ends id decision c (some b) (some pending) links h =
      resolve_from-Ends c b pending links h id decision (active_terminal_runtime (some b))
  resolve_in-Ends id decision c (some b) none links h = inr (refl, refl)
  resolve_in-Ends id decision c none pending links h = inr (refl, refl)

  saved_as-Ends :
      (c : Coordinator) (answer : GroupAnswer)
      → IsLinked c.runtime
      → Ends IsLinked (saved_as c answer)
  saved_as-Ends c failed h = inr (refl, refl)
  saved_as-Ends c refused h = inr (refl, refl)
  saved_as-Ends c (saved false) h = inr (refl, refl)
  saved_as-Ends c (saved true) h = inl h

  save_groups-Ends :
      (store : Option (ℕ → List TerminalGroup → ℕ → GroupAnswer))
      (candidate : TerminalGroupCandidate) (c : Coordinator)
      → IsLinked c.runtime
      → Ends IsLinked (save_groups store candidate c)
  save_groups-Ends none candidate c h = inr (refl, refl)
  save_groups-Ends (some store) candidate c h =
      if-either (Ends IsLinked)
        (not (valid_runtime_terminal_groups c.runtime candidate.terminal_groups)) (inr (refl, refl))
        (saved_as-Ends (record c { asked = suc c.asked })
          (store c.asked candidate.terminal_groups candidate.expected_session_revision) h)

  module _ (c : Coordinator) (h : IsLinked c.runtime) where
    pub resolve_terminal_navigation-IsLinked :
        (id : Bytes) (decision : TerminalNavigationDecision)
        → IsLinked (resolve_terminal_navigation cfg id decision c).0.runtime
    unfolding resolve_terminal_navigation
    resolve_terminal_navigation-IsLinked id decision =
        if-either (λ (done : Coordinator × List Effect × Reply). IsLinked done.0.runtime)
          (is_blank id) h
          (overseer-IsLinked cfg
            (λ now.
              resolve_in cfg (trim_space id) decision now now.runtime.broadcast
                now.runtime.pending_terminal_navigation)
            c h
            (resolve_in-Ends (trim_space id) decision c c.runtime.broadcast
              c.runtime.pending_terminal_navigation h h))

    pub replace_terminal_groups-IsLinked :
        (ended : Bool) (candidate : TerminalGroupCandidate)
        → IsLinked (replace_terminal_groups cfg ended candidate c).0.runtime
    unfolding replace_terminal_groups
    replace_terminal_groups-IsLinked ended candidate =
        overseer-IsLinked cfg (groups_step cfg ended candidate) c h (
          if-either (Ends IsLinked) ended (inr (refl, refl)) (
            if-either (Ends IsLinked)
              (not (candidate.expected_coordination_revision == c.runtime.revision))
              (inr (refl, refl)) (save_groups-Ends cfg.group_store candidate c h)))
