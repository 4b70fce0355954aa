-- ===== src/Control/Links/Switch.antt =====
-- Decisions on terminals, and changes of the active one: the claims hold.
use fallout_terminal.Common.{
  Bool, true, false, Option, none, some, List, Bytes, lookup, equal, inl, inr, refl, if-either, not,
  ◌&&◌, [], is_blank,
}
use fallout_terminal.Domain.Coordination.{
  LiveBroadcast, TerminalSwitchChoice, preserve, discard, cancel, TerminalSwitchDecision,
}
use fallout_terminal.Domain.Runtime.{TerminalRuntime, TerminalTarget}
use fallout_terminal.Domain.Tree.{ContentNode}
use fallout_terminal.Live.Runtime.{
  Service, is_active, is_failed, reactivate_runtime, update_runtime, reset_failed_hack,
  force_runtime,
}
use fallout_terminal.Control.Answers.{Reply}
use fallout_terminal.Control.Claims.{is_value}
use fallout_terminal.Control.Commit.{Config, Coordinator, Effect}
use fallout_terminal.Control.Commit.Kept.{Ends, commit-kept}
use fallout_terminal.Control.Links.{
  LinksIn, IsLinked, IsLinked-IsStable, put_active-IsLinked, overseer-IsLinked,
}
use fallout_terminal.Control.Links.Terminals.{ClaimedAt, suspend_active-Claimed}
use fallout_terminal.Control.Live.{active_terminal_runtime, live_terminal}
use fallout_terminal.Control.Switch.{
  switch_slot, switch_target, leave_source, decide_from, decide, decide_in, resolve_terminal_switch,
  updated_active, own_target, update_active, update_live_terminal, without_stale_result,
  refresh_active, trimmed, refresh_active_terminal, is_fresh, replaced_active, reset_active,
  reset_in, reset_failed_puzzle, forced, force_active, force_hack_success,
}

module _ (cfg : Config) where
  switch_slot-Ends :
      (target : TerminalTarget) (c : Coordinator) (b : LiveBroadcast)
      (state : Option TerminalRuntime)
      → ClaimedAt c b
      → Ends IsLinked (switch_slot cfg target c b state)
  switch_slot-Ends target c b none h = inl h
  switch_slot-Ends target c b (some state) h =
      if-either (Ends IsLinked) (reactivate_runtime cfg.source state target).1 (inl h)
        (inr (refl, refl))

  switch_target-Ends :
      (c : Coordinator) (b : LiveBroadcast) (target : Option TerminalTarget)
      → ClaimedAt c b
      → Ends IsLinked (switch_target cfg c b target)
  switch_target-Ends c b none h = inl h
  switch_target-Ends c b (some target) h =
      switch_slot-Ends target c b (lookup target.terminal_id b.terminal_runtimes) h

  leave_source-Claimed :
      (choice : TerminalSwitchChoice) (c : Coordinator) (b : LiveBroadcast)
      (source : TerminalRuntime)
      → ClaimedAt c b
      → ClaimedAt c (leave_source choice b source)
  leave_source-Claimed preserve c b source h =
      suspend_active-Claimed c.runtime.sessions_by_id c.runtime.roster_by_id b h
  leave_source-Claimed discard c b source h = h
  leave_source-Claimed cancel c b source h = h

  decide_from-Ends :
      (choice : TerminalSwitchChoice) (c : Coordinator) (b : LiveBroadcast)
      (pending : TerminalSwitchDecision) (source : Option TerminalRuntime)
      → ClaimedAt c b
      → Ends IsLinked (decide_from cfg choice c b pending source)
  decide_from-Ends choice c b pending none h = inr (refl, refl)
  decide_from-Ends choice c b pending (some source) h =
      if-either (Ends IsLinked) (not (equal source.terminal_id pending.source_terminal_id))
        (inr (refl, refl))
        (switch_target-Ends c (leave_source choice b source) pending.target
          (leave_source-Claimed choice c b source h))

  decide-Ends :
      (choice : TerminalSwitchChoice) (c : Coordinator) (b : LiveBroadcast)
      (pending : TerminalSwitchDecision)
      → IsLinked c.runtime
      → ClaimedAt c b
      → Ends IsLinked (decide cfg choice c b pending)
  decide-Ends cancel c b pending links h = inl links
  decide-Ends preserve c b pending links h =
      decide_from-Ends preserve c b pending (active_terminal_runtime (some b)) h
  decide-Ends discard c b pending links h =
      decide_from-Ends discard c b pending (active_terminal_runtime (some b)) h

  decide_in-Ends :
      (id : Bytes) (choice : TerminalSwitchChoice) (c : Coordinator) (b : Option LiveBroadcast)
      (pending : Option TerminalSwitchDecision)
      → IsLinked c.runtime
      → LinksIn c.runtime.sessions_by_id c.runtime.roster_by_id b
      → Ends IsLinked (decide_in cfg id choice c b pending)
  decide_in-Ends id choice c (some b) (some pending) links h =
      if-either (Ends IsLinked)
        (equal pending.id id
          && equal pending.broadcast_id b.id
          && is_value b.active_terminal_id pending.source_terminal_id)
        (decide-Ends choice c b pending links h) (inr (refl, refl))
  decide_in-Ends id choice c (some b) none links h = inr (refl, refl)
  decide_in-Ends id choice c none pending links h = inr (refl, refl)

  updated_active-Ends :
      (c : Coordinator) (updated : TerminalRuntime × Bool)
      → IsLinked c.runtime
      → Ends IsLinked (updated_active c updated)
  updated_active-Ends c (state, false) h = inr (refl, refl)
  updated_active-Ends c (state, true) h = inl (put_active-IsLinked c.runtime state h)

  update_active-Ends :
      (tree : ContentNode) (intro : Option Bytes) (c : Coordinator) (state : Option TerminalRuntime)
      → IsLinked c.runtime
      → Ends IsLinked (update_active cfg tree intro c state)
  update_active-Ends tree intro c none h = inr (refl, refl)
  update_active-Ends tree intro c (some state) h =
      updated_active-Ends c (update_runtime cfg.source state (own_target tree intro state)) h

  refresh_active-Ends :
      (target : TerminalTarget) (c : Coordinator) (state : Option TerminalRuntime)
      → IsLinked c.runtime
      → Ends IsLinked (refresh_active cfg target c state)
  refresh_active-Ends target c none h = inr (refl, refl)
  refresh_active-Ends target c (some state) h =
      if-either (Ends IsLinked) (not (equal state.terminal_id target.terminal_id))
        (inr (refl, refl))
        (updated_active-Ends c
          (update_runtime cfg.source (without_stale_result target state) target) h)

  replaced_active-Ends :
      (c : Coordinator) (b : LiveBroadcast) (target : TerminalTarget)
      (made : Option TerminalRuntime × Service)
      → ClaimedAt c b
      → Ends IsLinked (replaced_active c b target made)
  replaced_active-Ends c b target (none, service) h = inr (refl, refl)
  replaced_active-Ends c b target (some state, service) h =
      if-either (Ends IsLinked) (equal state.terminal_id target.terminal_id && is_fresh state.hack)
        (inl h) (inr (refl, refl))

  reset_active-Ends :
      (target : TerminalTarget) (c : Coordinator) (b : LiveBroadcast)
      (state : Option TerminalRuntime)
      → ClaimedAt c b
      → Ends IsLinked (reset_active cfg target c b state)
  reset_active-Ends target c b none h = inr (refl, refl)
  reset_active-Ends target c b (some state) h =
      if-either (Ends IsLinked)
        (not (
          is_value b.active_terminal_id target.terminal_id
          && equal state.terminal_id target.terminal_id))
        (inr (refl, refl))
        (if-either (Ends IsLinked) (not (is_active state.lifecycle && is_failed state.hack))
          (inr (refl, refl))
          (replaced_active-Ends c b target (reset_failed_hack cfg.source state target c.live) h))

  reset_in-Ends :
      (target : TerminalTarget) (c : Coordinator) (b : Option LiveBroadcast)
      → LinksIn c.runtime.sessions_by_id c.runtime.roster_by_id b
      → Ends IsLinked (reset_in cfg target c b)
  reset_in-Ends target c none h = inr (refl, refl)
  reset_in-Ends target c (some b) h =
      reset_active-Ends target c b (active_terminal_runtime (some b)) h

  forced-Ends :
      (c : Coordinator) (done : TerminalRuntime × Bool)
      → IsLinked c.runtime
      → Ends IsLinked (forced c done)
  forced-Ends c (state, false) h = inr (refl, refl)
  forced-Ends c (state, true) h = inl (put_active-IsLinked c.runtime state h)

  force_active-Ends :
      (c : Coordinator) (state : Option TerminalRuntime)
      → IsLinked c.runtime
      → Ends IsLinked (force_active cfg c state)
  force_active-Ends c none h = inr (refl, refl)
  force_active-Ends c (some state) h = forced-Ends c (force_runtime cfg.source state) h

  module _ (c : Coordinator) (h : IsLinked c.runtime) where
    pub resolve_terminal_switch-IsLinked :
        (id : Bytes) (choice : TerminalSwitchChoice)
        → IsLinked (resolve_terminal_switch cfg id choice c).0.runtime
    unfolding resolve_terminal_switch
    resolve_terminal_switch-IsLinked id choice =
        if-either (λ (done : Coordinator × List Effect × Reply). IsLinked done.0.runtime)
          (equal id []) h
          (overseer-IsLinked cfg
            (λ now. decide_in cfg id choice now now.runtime.broadcast now.runtime.pending_switch) c
            h (decide_in-Ends id choice c c.runtime.broadcast c.runtime.pending_switch h h))

    pub update_live_terminal-IsLinked :
        (tree : ContentNode) (intro : Option Bytes)
        → IsLinked (update_live_terminal cfg tree intro c).0.runtime
    unfolding update_live_terminal
    update_live_terminal-IsLinked tree intro =
        overseer-IsLinked cfg
          (λ now. update_active cfg tree intro now (active_terminal_runtime now.runtime.broadcast))
          c h (update_active-Ends tree intro c (active_terminal_runtime c.runtime.broadcast) h)

    pub refresh_active_terminal-IsLinked :
        (target : TerminalTarget) → IsLinked (refresh_active_terminal cfg target c).0.runtime
    unfolding refresh_active_terminal
    refresh_active_terminal-IsLinked target =
        if-either (λ (done : Coordinator × List Effect × Reply). IsLinked done.0.runtime)
          (is_blank target.terminal_id) h
          (overseer-IsLinked cfg
            (λ now.
              refresh_active cfg (trimmed target) now
                (active_terminal_runtime now.runtime.broadcast))
            c h
            (refresh_active-Ends (trimmed target) c (active_terminal_runtime c.runtime.broadcast)
              h))

    pub reset_failed_puzzle-IsLinked :
        (target : TerminalTarget) → IsLinked (reset_failed_puzzle cfg target c).0.runtime
    unfolding reset_failed_puzzle
    reset_failed_puzzle-IsLinked target =
        if-either (λ (done : Coordinator × List Effect × Reply). IsLinked done.0.runtime)
          (is_blank target.terminal_id) h
          (overseer-IsLinked cfg (λ now. reset_in cfg (trimmed target) now now.runtime.broadcast) c
            h (reset_in-Ends (trimmed target) c c.runtime.broadcast h))

    pub force_hack_success-IsLinked : IsLinked (force_hack_success cfg c).0.runtime
    unfolding force_hack_success
    force_hack_success-IsLinked =
        commit-kept cfg IsLinked (IsLinked-IsStable cfg.source)
          (λ now. force_active cfg now (live_terminal now.runtime)) c h
          (force_active-Ends c (live_terminal c.runtime) h)
