-- ===== src/Control/Links/Terminals.antt =====
-- Terminals are switched, refreshed and travelled between: the claims hold.
use fallout_terminal.Common.{
  ℕ, zero, suc, Bool, true, Option, none, some, List, Bytes, Dict, lookup, equal, is_some, ◌≡◌, inl,
  inr, refl, if-either, not, ◌&&◌, [], is_blank,
}
use fallout_terminal.Domain.Coordination.{
  LiveBroadcast, LogicalSession, CharacterRosterEntry, TerminalGroup, TerminalReturnPoint,
}
use fallout_terminal.Domain.Runtime.{TerminalRuntime, TerminalTarget}
use fallout_terminal.Live.Runtime.{is_active, create_runtime, update_runtime, reactivate_runtime}
use fallout_terminal.Control.Answers.{Reply}
use fallout_terminal.Control.Claims.{is_value}
use fallout_terminal.Control.Commit.{Catalog, Config, Coordinator, Effect}
use fallout_terminal.Control.Commit.Kept.{Ends}
use fallout_terminal.Control.Links.{LinksIn, IsLinked, overseer-IsLinked}
use fallout_terminal.Control.Live.{put_runtime, unfinished_terminal_runtime}
use fallout_terminal.Control.Route.{
  index_of, prefix_route, routed, placed, in_group, establish_initial_terminal_route,
  clear_terminal_navigation_runtime,
}
use fallout_terminal.Control.Terminals.{
  clear_command_execution_runtime, suspend_found, suspend_at, suspend_active, suspend_source,
  activated, activate_slot, activate_from, undecided, undecided_broadcast, activate_in,
  activation_step, request_terminal_activation, clear_active, clear_from, clear_in, clear_step,
  request_terminal_clear,
}

module _ (sessions : Dict LogicalSession) (roster : Dict CharacterRosterEntry) where
  -- The claims of a broadcast are in order.
  abbrev pub Claimed : LiveBroadcast → Type 0
  Claimed b = LinksIn sessions roster (some b)

  suspend_found-Claimed :
      (b : LiveBroadcast) (id : Bytes) (state : Option TerminalRuntime)
      → Claimed b
      → Claimed (suspend_found b id state)
  suspend_found-Claimed b id none h = h
  suspend_found-Claimed b id (some state) h = h

  suspend_at-Claimed :
      (b : LiveBroadcast) (id : Option Bytes) → Claimed b → Claimed (suspend_at b id)
  suspend_at-Claimed b none h = h
  suspend_at-Claimed b (some id) h = suspend_found-Claimed b id (lookup id b.terminal_runtimes) h

  pub suspend_active-Claimed : (b : LiveBroadcast) → Claimed b → Claimed (suspend_active b)
  unfolding suspend_active
  suspend_active-Claimed b h = suspend_at-Claimed b b.active_terminal_id h

  suspend_source-Claimed :
      (target : Bytes) (b : LiveBroadcast) → Claimed b → Claimed (suspend_source target b)
  suspend_source-Claimed target b h =
      if-either Claimed (is_value b.active_terminal_id target) h (suspend_active-Claimed b h)

  module _ (catalog : Catalog) where
    routed-Claimed :
        (b : LiveBroadcast) (id : Bytes) (group : TerminalGroup) (position : ℕ)
        (route : Option (List TerminalReturnPoint))
        → Claimed b
        → Claimed (routed catalog b id group position route)
    routed-Claimed b id group position none h = h
    routed-Claimed b id group position (some route) h = h

    placed-Claimed :
        (b : LiveBroadcast) (id : Bytes) (group : TerminalGroup) (position : Option ℕ)
        → Claimed b
        → Claimed (placed catalog b id group position)
    placed-Claimed b id group none h = h
    placed-Claimed b id group (some zero) h = h
    placed-Claimed b id group (some (suc n)) h =
        routed-Claimed b id group (suc n) (prefix_route catalog group.id 0 _) h

    in_group-Claimed :
        (b : LiveBroadcast) (id : Bytes) (group : Option TerminalGroup)
        → Claimed b
        → Claimed (in_group catalog b id group)
    in_group-Claimed b id none h = h
    in_group-Claimed b id (some group) h =
        if-either Claimed (equal group.id []) h
          (placed-Claimed b id group (index_of id group.terminal_ids) h)

    establish-Claimed :
        (b : LiveBroadcast) (id : Bytes)
        → Claimed b
        → Claimed (establish_initial_terminal_route catalog b id)
    unfolding establish_initial_terminal_route
    establish-Claimed b id h = if-either Claimed b.initial_terminal_established h (
        in_group-Claimed (record b { initial_terminal_established = true }) id
          (catalog.lookup_terminal_group id) h)

-- The claims at a coordinator, of a broadcast that it may come to have.
abbrev pub ClaimedAt : Coordinator → LiveBroadcast → Type 0
ClaimedAt c b = Claimed c.runtime.sessions_by_id c.runtime.roster_by_id b

module _ (cfg : Config) where
  activated-Ends :
      (target : Bytes) (c : Coordinator) (b : LiveBroadcast) (state : TerminalRuntime)
      (shown : Bool)
      → ClaimedAt c b
      → Ends IsLinked (activated cfg target c b state shown)
  activated-Ends target c b state shown h = inl (
      establish-Claimed c.runtime.sessions_by_id c.runtime.roster_by_id (cfg.catalog c.asked) _
        target
        (suspend_source-Claimed c.runtime.sessions_by_id c.runtime.roster_by_id target
          (put_runtime b target state) h))

  activate_slot-Ends :
      (target : TerminalTarget) (c : Coordinator) (b : LiveBroadcast)
      (state : Option TerminalRuntime)
      → ClaimedAt c b
      → Ends IsLinked (activate_slot cfg target c b state)
  activate_slot-Ends target c b none h =
      let made = create_runtime cfg.source target c.live in
      activated-Ends target.terminal_id (record c { live = made.1 }) b made.0 true h
  activate_slot-Ends target c b (some state) h =
      let again = reactivate_runtime cfg.source state target in
      let updated = update_runtime cfg.source state target in
      if-either (Ends IsLinked) (not (is_active state.lifecycle))
        (activated-Ends target.terminal_id c b again.0 again.1 h)
        (if-either (Ends IsLinked) updated.1
          (activated-Ends target.terminal_id c b updated.0 true h) (inr (refl, refl)))

  activate_from-Ends :
      (target : TerminalTarget) (c : Coordinator) (b : LiveBroadcast)
      (source : Option TerminalRuntime)
      → IsLinked c.runtime
      → ClaimedAt c b
      → Ends IsLinked (activate_from cfg target c b source)
  activate_from-Ends target c b none links h =
      activate_slot-Ends target c b (lookup target.terminal_id b.terminal_runtimes) h
  activate_from-Ends target c b (some source) links h =
      if-either (Ends IsLinked)
        (unfinished_terminal_runtime source && not (equal source.terminal_id target.terminal_id))
        (inl links)
        (activate_slot-Ends target c b (lookup target.terminal_id b.terminal_runtimes) h)

undecided-IsLinked :
    (c : Coordinator) (b : Option LiveBroadcast)
    → c.runtime.broadcast ≡ b
    → LinksIn c.runtime.sessions_by_id c.runtime.roster_by_id b
    → IsLinked (undecided c).runtime
unfolding clear_terminal_navigation_runtime clear_command_execution_runtime
undecided-IsLinked c none e h = rw e tt
undecided-IsLinked c (some b) e h = rw e h

module _ (cfg : Config) where
  activate_in-Ends :
      (target : TerminalTarget) (c : Coordinator) (b : Option LiveBroadcast)
      → c.runtime.broadcast ≡ b
      → LinksIn c.runtime.sessions_by_id c.runtime.roster_by_id b
      → Ends IsLinked (activate_in cfg target c b)
  unfolding clear_terminal_navigation_runtime clear_command_execution_runtime
  activate_in-Ends target c none e h = inr (refl, refl)
  activate_in-Ends target c (some b) e h =
      activate_from-Ends cfg target (undecided c) (undecided_broadcast b) _
        (undecided-IsLinked c (some b) e h) h

  pub request_terminal_activation-IsLinked :
      (target : TerminalTarget) (c : Coordinator)
      → IsLinked c.runtime
      → IsLinked (request_terminal_activation cfg target c).0.runtime
  unfolding request_terminal_activation
  request_terminal_activation-IsLinked target c h =
      if-either (λ (done : Coordinator × List Effect × Reply). IsLinked done.0.runtime)
        (is_blank target.terminal_id) h
        (overseer-IsLinked cfg (activation_step cfg target) c h
          (activate_in-Ends target c c.runtime.broadcast refl h))

  clear_active-Ends :
      (c : Coordinator) (b : LiveBroadcast) (source : Option TerminalRuntime)
      → ClaimedAt c b
      → Ends IsLinked (clear_active c b source)
  clear_active-Ends c b source h =
      inl (suspend_active-Claimed c.runtime.sessions_by_id c.runtime.roster_by_id b h)

  clear_from-Ends :
      (cleared : Bool) (c : Coordinator) (b : LiveBroadcast) (source : Option TerminalRuntime)
      → IsLinked c.runtime
      → ClaimedAt c b
      → Ends IsLinked (clear_from cfg cleared c b source)
  clear_from-Ends cleared c b none links h =
      if-either (Ends IsLinked) (is_some b.active_terminal_id) (clear_active-Ends c b none h)
        (if-either (Ends IsLinked) cleared (inl links) (inr (refl, refl)))
  clear_from-Ends cleared c b (some source) links h =
      if-either (Ends IsLinked) (unfinished_terminal_runtime source) (inl links)
        (clear_active-Ends c b (some source) h)

  clear_in-Ends :
      (cleared : Bool) (c : Coordinator) (b : Option LiveBroadcast)
      → c.runtime.broadcast ≡ b
      → LinksIn c.runtime.sessions_by_id c.runtime.roster_by_id b
      → Ends IsLinked (clear_in cfg cleared c b)
  unfolding clear_terminal_navigation_runtime clear_command_execution_runtime
  clear_in-Ends cleared c none e h = inr (refl, refl)
  clear_in-Ends cleared c (some b) e h =
      clear_from-Ends cleared (undecided c) (undecided_broadcast b) _
        (undecided-IsLinked c (some b) e h) h

  pub request_terminal_clear-IsLinked :
      (c : Coordinator) → IsLinked c.runtime → IsLinked (request_terminal_clear cfg c).0.runtime
  unfolding request_terminal_clear
  request_terminal_clear-IsLinked c h =
      overseer-IsLinked cfg (clear_step cfg) c h (clear_in-Ends _ c c.runtime.broadcast refl h)
