-- ===== src/Control/Switch.antt =====
-- internal/control/service.go: decisions on a switch of terminals, and changes of the active one.
use fallout_terminal.Common.{
  Bool, true, false, not, ◌&&◌, Option, none, some, List, [], ◌∷◌, ◌++◌, Bytes, Dict, equal, lookup,
  insert, delete, has, is_blank, trim_space, if◌then◌else◌,
}
use fallout_terminal.Domain.Coordination.{
  LiveBroadcast, TerminalSwitchChoice, preserve, discard, cancel, TerminalSwitchDecision,
}
use fallout_terminal.Domain.Hack.{HackState, PublicHackState}
use fallout_terminal.Domain.Runtime.{TerminalRuntime, TerminalTarget, active}
use fallout_terminal.Domain.Tree.{ContentNode, CommandExecutionState}
use fallout_terminal.Live.Runtime.{
  Service, is_active, is_failed, public_runtime, public_hack, create_runtime, update_runtime,
  reactivate_runtime, reset_failed_hack, force_runtime,
}
use fallout_terminal.Control.Answers.{
  CoordinationError, terminal_blank, no_terminal, terminal_not_active, stale_reset, not_failed,
  creation_failed, update_failed, switch_blank, stale_switch, Reply, refuse, accept, accept_with,
  with_runtime, overseer, refused_early,
}
use fallout_terminal.Control.Assignment.{with_broadcast}
use fallout_terminal.Control.Claims.{is_value}
use fallout_terminal.Control.Commit.{
  Config, Coordinator, Effect, Transition, no_effect, live_effect, state_effects, commit,
}
use fallout_terminal.Control.Live.{
  active_terminal_runtime, live_terminal, put_runtime, put_active, undecorated,
}
use fallout_terminal.Control.Snapshots.{master_snapshot}
use fallout_terminal.Control.Terminals.{with_lifecycle, suspend_active}

-- The transaction's end with no pending switch, at this broadcast.
abbrev pub switched_to :
    Coordinator → LiveBroadcast → Effect → Transition (Option CoordinationError)
switched_to c b effect =
    let next = with_runtime c (record c.runtime { broadcast = some b; pending_switch = none }) in
    accept_with next (state_effects next.runtime ++ (effect ∷ []))

abbrev pub switch_on :
    Coordinator → LiveBroadcast → Bytes → TerminalRuntime → Transition (Option CoordinationError)
switch_on c b id state =
    let on = put_runtime b id (with_lifecycle active state) in
    switched_to c (record on { active_terminal_id = some id })
      (live_effect (undecorated (public_runtime state)))

abbrev pub switch_slot :
    Config
    → TerminalTarget
    → Coordinator
    → LiveBroadcast
    → Option TerminalRuntime
    → Transition (Option CoordinationError)
switch_slot cfg target c b none =
    let made = create_runtime cfg.source target c.live in
    switch_on (record c { live = made.1 }) b target.terminal_id made.0
switch_slot cfg target c b (some state) =
    let again = reactivate_runtime cfg.source state target in
    if again.1
    then switch_on c b target.terminal_id again.0
    else refuse (with_broadcast c b) (some creation_failed)

abbrev pub switch_target :
    Config
    → Coordinator
    → LiveBroadcast
    → Option TerminalTarget
    → Transition (Option CoordinationError)
switch_target cfg c b none =
    switched_to c (record b { active_terminal_id = none })
      (record no_effect { clear_live_terminal = true })
switch_target cfg c b (some target) =
    switch_slot cfg target c b (lookup target.terminal_id b.terminal_runtimes)

-- What becomes of the source: it is kept or dropped.
abbrev pub leave_source : TerminalSwitchChoice → LiveBroadcast → TerminalRuntime → LiveBroadcast
leave_source preserve b source = suspend_active b
leave_source _ b source = record b {
  terminal_runtimes = delete source.terminal_id b.terminal_runtimes;
}

abbrev pub decide_from :
    Config
    → TerminalSwitchChoice
    → Coordinator
    → LiveBroadcast
    → TerminalSwitchDecision
    → Option TerminalRuntime
    → Transition (Option CoordinationError)
decide_from cfg choice c b pending none = refuse c (some stale_switch)
decide_from cfg choice c b pending (some source) =
    if not (equal source.terminal_id pending.source_terminal_id)
    then refuse c (some stale_switch)
    else switch_target cfg c (leave_source choice b source) pending.target

abbrev pub decide :
    Config
    → TerminalSwitchChoice
    → Coordinator
    → LiveBroadcast
    → TerminalSwitchDecision
    → Transition (Option CoordinationError)
decide cfg cancel c b pending = accept (with_runtime c (record c.runtime { pending_switch = none }))
decide cfg preserve c b pending =
    decide_from cfg preserve c b pending (active_terminal_runtime (some b))
decide cfg discard c b pending =
    decide_from cfg discard c b pending (active_terminal_runtime (some b))

abbrev pub decide_in :
    Config
    → Bytes
    → TerminalSwitchChoice
    → Coordinator
    → Option LiveBroadcast
    → Option TerminalSwitchDecision
    → Transition (Option CoordinationError)
decide_in cfg id choice c (some b) (some pending) =
    if equal pending.id id
      && equal pending.broadcast_id b.id
      && is_value b.active_terminal_id pending.source_terminal_id
    then decide cfg choice c b pending
    else refuse c (some stale_switch)
decide_in cfg id choice c _ _ = refuse c (some stale_switch)

-- `ResolveTerminalSwitch`. A choice is one of the three.
unfoldable pub resolve_terminal_switch :
    Config → Bytes → TerminalSwitchChoice → Coordinator → Coordinator × List Effect × Reply
unfolding equal lookup insert delete suspend_active active_terminal_runtime create_runtime
    reactivate_runtime public_runtime overseer
resolve_terminal_switch cfg id choice c =
    if equal id []
    then refused_early c switch_blank
    else overseer cfg
        (λ now. decide_in cfg id choice now now.runtime.broadcast now.runtime.pending_switch) c

-- The active checkpoint as it was updated, and shown.
abbrev pub updated_active :
    Coordinator → TerminalRuntime × Bool → Transition (Option CoordinationError)
updated_active c (state, false) = refuse c (some update_failed)
updated_active c (state, true) =
    let next = with_runtime c (put_active c.runtime state) in
    accept_with next
      (state_effects next.runtime ++ (live_effect (undecorated (public_runtime state)) ∷ []))

abbrev pub intro_or : Option Bytes → Bytes → Bytes
intro_or none intro = intro
intro_or (some text) intro = text

abbrev pub own_target : ContentNode → Option Bytes → TerminalRuntime → TerminalTarget
own_target tree intro state = record {
  terminal_id = state.terminal_id;
  terminal_name = state.terminal_name;
  tree = tree;
  command_states = state.command_states;
  hack_level = state.hack_level;
  intro_text = intro_or intro state.intro_text;
}

abbrev pub update_active :
    Config
    → ContentNode
    → Option Bytes
    → Coordinator
    → Option TerminalRuntime
    → Transition (Option CoordinationError)
update_active cfg tree intro c none = refuse c (some no_terminal)
update_active cfg tree intro c (some state) =
    updated_active c (update_runtime cfg.source state (own_target tree intro state))

-- `UpdateLiveTerminal`.
unfoldable pub update_live_terminal :
    Config → ContentNode → Option Bytes → Coordinator → Coordinator × List Effect × Reply
unfolding active_terminal_runtime put_active update_runtime public_runtime overseer
update_live_terminal cfg tree intro c =
    overseer cfg
      (λ now. update_active cfg tree intro now (active_terminal_runtime now.runtime.broadcast)) c

abbrev pub is_stale_result :
    Option Bytes → Dict CommandExecutionState → Dict CommandExecutionState → Bool
is_stale_result none old new = false
is_stale_result (some command) old new = has command old && not (has command new)

-- A completed result that the target no longer has is left.
abbrev pub without_stale_result : TerminalTarget → TerminalRuntime → TerminalRuntime
without_stale_result target state =
    if is_stale_result state.nav.command_node_id state.command_states target.command_states
    then record state { nav = record state.nav { command_node_id = none } }
    else state

abbrev pub refresh_active :
    Config
    → TerminalTarget
    → Coordinator
    → Option TerminalRuntime
    → Transition (Option CoordinationError)
refresh_active cfg target c none = refuse c (some terminal_not_active)
refresh_active cfg target c (some state) =
    if not (equal state.terminal_id target.terminal_id)
    then refuse c (some terminal_not_active)
    else updated_active c (update_runtime cfg.source (without_stale_result target state) target)

abbrev pub trimmed : TerminalTarget → TerminalTarget
trimmed target = record target { terminal_id = trim_space target.terminal_id }

-- `RefreshActiveTerminal`.
unfoldable pub refresh_active_terminal :
    Config → TerminalTarget → Coordinator → Coordinator × List Effect × Reply
unfolding equal lookup active_terminal_runtime put_active update_runtime public_runtime overseer
refresh_active_terminal cfg target c =
    if is_blank target.terminal_id
    then refused_early c terminal_blank
    else overseer cfg
        (λ now.
          refresh_active cfg (trimmed target) now (active_terminal_runtime now.runtime.broadcast))
        c

abbrev pub is_fresh : Option HackState → Bool
is_fresh none = false
is_fresh (some h) = not h.failed && not h.solved

abbrev pub replaced_active :
    Coordinator
    → LiveBroadcast
    → TerminalTarget
    → Option TerminalRuntime × Service
    → Transition (Option CoordinationError)
replaced_active c b target (none, service) =
    refuse (record c { live = service }) (some creation_failed)
replaced_active c b target (some state, service) =
    let on = put_runtime b target.terminal_id (with_lifecycle active state) in
    let next = with_broadcast (record c { live = service }) on in
    if equal state.terminal_id target.terminal_id && is_fresh state.hack
    then accept_with next
        (state_effects next.runtime ++ (live_effect (undecorated (public_runtime state)) ∷ []))
    else refuse (record c { live = service }) (some creation_failed)

abbrev pub reset_active :
    Config
    → TerminalTarget
    → Coordinator
    → LiveBroadcast
    → Option TerminalRuntime
    → Transition (Option CoordinationError)
reset_active cfg target c b none = refuse c (some no_terminal)
reset_active cfg target c b (some state) =
    if not (
      is_value b.active_terminal_id target.terminal_id
      && equal state.terminal_id target.terminal_id)
    then refuse c (some stale_reset)
    else if not (is_active state.lifecycle && is_failed state.hack)
    then refuse c (some not_failed)
    else replaced_active c b target (reset_failed_hack cfg.source state target c.live)

abbrev pub reset_in :
    Config
    → TerminalTarget
    → Coordinator
    → Option LiveBroadcast
    → Transition (Option CoordinationError)
reset_in cfg target c none = refuse c (some no_terminal)
reset_in cfg target c (some b) = reset_active cfg target c b (active_terminal_runtime (some b))

-- `ResetFailedHack`.
unfoldable pub reset_failed_puzzle :
    Config → TerminalTarget → Coordinator → Coordinator × List Effect × Reply
unfolding equal insert active_terminal_runtime reset_failed_hack public_runtime overseer
reset_failed_puzzle cfg target c =
    if is_blank target.terminal_id
    then refused_early c terminal_blank
    else overseer cfg (λ now. reset_in cfg (trimmed target) now now.runtime.broadcast) c

abbrev pub forced : Coordinator → TerminalRuntime × Bool → Transition (Option PublicHackState)
forced c (state, false) = record {
  working = c;
  accepted = false;
  persist = false;
  effects = [];
  answer = none;
}
forced c (state, true) =
    let next = with_runtime c (put_active c.runtime state) in
    record {
      working = next;
      accepted = true;
      persist = false;
      effects =
          record no_effect {
            live = some (undecorated (public_runtime state));
            master = some (master_snapshot next.runtime);
          }
          ∷ [];
      answer = public_hack state.hack;
    }

abbrev pub force_active :
    Config → Coordinator → Option TerminalRuntime → Transition (Option PublicHackState)
force_active cfg c none = record {
  working = c;
  accepted = false;
  persist = false;
  effects = [];
  answer = none;
}
force_active cfg c (some state) = forced c (force_runtime cfg.source state)

-- `ForceHackSuccess`: the puzzle that is solved, if there was one to solve.
unfoldable pub force_hack_success :
    Config → Coordinator → Coordinator × List Effect × Option PublicHackState
unfolding active_terminal_runtime put_active force_runtime public_runtime master_snapshot commit
force_hack_success cfg c = commit cfg (λ now. force_active cfg now (live_terminal now.runtime)) c
