-- ===== src/Control/Groups.antt =====
-- internal/control/service.go: terminal groups that are replaced while a broadcast has a route.
use fallout_terminal.Common.{
  ℕ, suc, Bool, true, false, not, ◌&&◌, ◌||◌, Option, none, some, List, [], ◌∷◌, Bytes, Dict, equal,
  lookup, insert, length, ltb, get_or, ◌==◌, if◌then◌else◌,
}
use fallout_terminal.Domain.Coordination.{
  LiveBroadcast, ProcessRuntime, TerminalReturnPoint, TerminalReturnOrigin, authored_transition,
  initial_group_prefix, TerminalGroup, TerminalGroupCandidate, PendingTerminalNavigation,
  TerminalNavigationDirection, forward, back,
}
use fallout_terminal.Control.Answers.{
  CoordinationError, canceled, stale_groups, groups_unavailable, groups_invalid, groups_refused,
  groups_not_saved, Reply, refuse, accept, overseer,
}
use fallout_terminal.Control.Commit.{
  GroupAnswer, saved, refused, failed, Config, Coordinator, Effect, Transition,
}
use fallout_terminal.Control.Live.{top_of}
use fallout_terminal.Control.Route.{same_terminal_return_point}

-- Where a terminal stands.
pub record Membership : Type 0 where
  pub group_id : Bytes
  pub position : ℕ

unfoldable pub members_from : Bytes → ℕ → List Bytes → Dict Membership → Dict Membership
unfolding insert
members_from group position [] m = m
members_from group position (id ∷ ids) m =
    members_from group (suc position) ids
      (insert id (record { group_id = group; position = position }) m)

-- `byTerminal` and `byGroup`.
unfoldable pub by_terminal : List TerminalGroup → Dict Membership → Dict Membership
unfolding members_from
by_terminal [] m = m
by_terminal (group ∷ groups) m = by_terminal groups (members_from group.id 0 group.terminal_ids m)

unfoldable pub by_group : List TerminalGroup → Dict (List Bytes) → Dict (List Bytes)
unfolding insert
by_group [] m = m
by_group (group ∷ groups) m = by_group groups (insert group.id group.terminal_ids m)

abbrev pub ids_in : Option (List Bytes) → List Bytes
ids_in none = []
ids_in (some ids) = ids

abbrev pub is_member : Option Membership → Bytes → ℕ → Bool
is_member none group position = false
is_member (some member) group position = equal member.group_id group && member.position == position

-- The zero value for a terminal in no group.
abbrev pub member_or : Option Membership → Membership
member_or none = record { group_id = []; position = 0 }
member_or (some member) = member

abbrev pub initial_stays : Dict Membership → LiveBroadcast → Bool
initial_stays m b =
    not b.initial_terminal_established
    || equal b.initial_terminal_group_id []
    || is_member (lookup b.initial_terminal_id m) b.initial_terminal_group_id
        b.initial_terminal_group_position

abbrev pub is_top : TerminalReturnPoint → Option TerminalReturnPoint → Bool
is_top point none = false
is_top point (some top) = same_terminal_return_point top point

abbrev pub on_route : Option LiveBroadcast → TerminalReturnPoint → Bool
on_route none point = false
on_route (some b) point = is_top point (top_of b.route)

abbrev pub adjacent : TerminalReturnOrigin → TerminalReturnPoint → Membership → Membership → Bool
adjacent authored_transition point source target = true
adjacent initial_group_prefix point source target =
    source.position == suc target.position
    && equal point.group_id target.group_id
    && point.group_position == target.position

abbrev pub return_stays :
    TerminalNavigationDirection
    → Option LiveBroadcast
    → TerminalReturnPoint
    → Membership
    → Membership
    → Bool
return_stays forward b point source target = true
return_stays back b point source target =
    on_route b point && adjacent point.origin point source target

abbrev pub pair_stays :
    Option LiveBroadcast → PendingTerminalNavigation → Option Membership → Option Membership → Bool
pair_stays b pending (some source) (some target) =
    equal source.group_id target.group_id
    && return_stays pending.direction b pending.return_point source target
pair_stays b pending _ _ = false

abbrev pub pending_stays :
    Dict Membership → Option LiveBroadcast → Option PendingTerminalNavigation → Bool
pending_stays m b none = true
pending_stays m b (some pending) =
    pair_stays b pending (lookup pending.source_terminal_id m) (lookup pending.target_terminal_id m)

abbrev pub successor_of : Bytes → List TerminalReturnPoint → Bytes
successor_of active [] = active
successor_of active (point ∷ route) = point.terminal_id

-- The checks of a point that was put in front of the initial terminal, at `seeded` such points.
abbrev pub seeded_stays :
    Dict (List Bytes)
    → Dict Membership
    → LiveBroadcast
    → ℕ
    → Membership
    → TerminalReturnPoint
    → Bytes
    → Bool
seeded_stays g m b seeded member point successor =
    let ordered = ids_in (lookup point.group_id g) in
    let next = member_or (lookup successor m) in
    point.group_position == seeded
    && equal point.group_id member.group_id
    && ltb point.group_position (length ordered)
    && equal (get_or ordered point.group_position []) point.terminal_id
    && member.position == point.group_position
    && (equal b.initial_terminal_group_id []
        || equal point.group_id b.initial_terminal_group_id
          && ltb point.group_position b.initial_terminal_group_position)
    && equal next.group_id member.group_id
    && next.position == suc point.group_position

-- The loop over the route. `ended` tells that a point of another origin came before.
unfoldable pub route_stays :
    Dict (List Bytes)
    → Dict Membership
    → LiveBroadcast
    → Bytes
    → Bytes
    → ℕ
    → Bool
    → List TerminalReturnPoint
    → Bool
unfolding lookup equal
route_stays g m b active group seeded ended [] = true
route_stays g m b active group seeded ended (point ∷ route) =
    let authored = route_stays g m b active group seeded true route in
    let prefixed = route_stays g m b active group (suc seeded) ended route in
    elim (lookup point.terminal_id m) [
      | none ↦ false
      | some member ↦ equal member.group_id group && elim point.origin [
        | authored_transition ↦ authored
        | initial_group_prefix ↦
            not ended
            && seeded_stays g m b seeded member point (successor_of active route)
            && prefixed
      ]
    ]

abbrev pub active_stays :
    Dict (List Bytes) → Dict Membership → LiveBroadcast → Bytes → Option Membership → Bool
active_stays g m b active none = false
active_stays g m b active (some member) = route_stays g m b active member.group_id 0 false b.route

abbrev pub way_stays : Dict (List Bytes) → Dict Membership → LiveBroadcast → Option Bytes → Bool
way_stays g m b none = true
way_stays g m b (some active) = active_stays g m b active (lookup active m)

abbrev pub broadcast_stays : Dict (List Bytes) → Dict Membership → Option LiveBroadcast → Bool
broadcast_stays g m none = true
broadcast_stays g m (some b) = way_stays g m b b.active_terminal_id

abbrev pub start_stays : Dict Membership → Option LiveBroadcast → Bool
start_stays m none = true
start_stays m (some b) = initial_stays m b

-- `validateRuntimeTerminalGroups`: whether it gives no error.
unfoldable pub valid_runtime_terminal_groups : ProcessRuntime → List TerminalGroup → Bool
unfolding by_terminal by_group lookup equal top_of same_terminal_return_point route_stays
valid_runtime_terminal_groups runtime groups =
    let m = by_terminal groups [] in
    start_stays m runtime.broadcast
    && pending_stays m runtime.broadcast runtime.pending_terminal_navigation
    && broadcast_stays (by_group groups []) m runtime.broadcast

abbrev pub saved_as : Coordinator → GroupAnswer → Transition (Option CoordinationError)
saved_as c failed = refuse c (some groups_not_saved)
saved_as c refused = refuse c (some groups_refused)
saved_as c (saved false) = refuse c none
saved_as c (saved true) = accept c

abbrev pub save_groups :
    Option (ℕ → List TerminalGroup → ℕ → GroupAnswer)
    → TerminalGroupCandidate
    → Coordinator
    → Transition (Option CoordinationError)
save_groups none candidate c = refuse c (some groups_unavailable)
save_groups (some store) candidate c =
    if not (valid_runtime_terminal_groups c.runtime candidate.terminal_groups)
    then refuse c (some groups_invalid)
    else saved_as (record c { asked = suc c.asked })
        (store c.asked candidate.terminal_groups candidate.expected_session_revision)

abbrev pub groups_step :
    Config → Bool → TerminalGroupCandidate → Coordinator → Transition (Option CoordinationError)
groups_step cfg ended candidate c =
    if ended
    then refuse c (some canceled)
    else if not (candidate.expected_coordination_revision == c.runtime.revision)
    then refuse c (some stale_groups)
    else save_groups cfg.group_store candidate c

-- `ReplaceTerminalGroups`; `ended` tells that its context is done.
unfoldable pub replace_terminal_groups :
    Config → Bool → TerminalGroupCandidate → Coordinator → Coordinator × List Effect × Reply
unfolding valid_runtime_terminal_groups overseer
replace_terminal_groups cfg ended candidate c = overseer cfg (groups_step cfg ended candidate) c
