-- ===== src/Control/Route.antt =====
-- internal/control/service.go: the route of terminals that the players have come by.
use mathlib.Core.Option
use fallout_terminal.Common.{
  ℕ, zero, suc, Bool, true, false, not, ◌&&◌, ◌||◌, Option, none, some, List, [], ◌∷◌, Bytes, equal,
  take, ◌==◌, if◌then◌else◌, utf8,
}
use fallout_terminal.Domain.Coordination.{
  LiveBroadcast, ProcessRuntime, TerminalReturnPoint, TerminalReturnOrigin, authored_transition,
  initial_group_prefix, TerminalGroup,
}
use fallout_terminal.Domain.Runtime.{TerminalTarget}
use fallout_terminal.Control.Commit.{Catalog}

-- The place of a text in a list: its first, and its last.
unfoldable pub index_of : Bytes → List Bytes → Option ℕ
unfolding equal
index_of id [] = none
index_of id (member ∷ members) =
    if equal member id then some 0 else Option.map suc (index_of id members)

unfoldable pub last_index_of : Bytes → List Bytes → Option ℕ
unfolding equal
last_index_of id [] = none
last_index_of id (member ∷ members) = elim (last_index_of id members) [
  | some i ↦ some (suc i)
  | none ↦ if equal member id then some 0 else none
]

abbrev pub prefix_point : Bytes → ℕ → TerminalTarget → TerminalReturnPoint
prefix_point group position target = record {
  terminal_id = target.terminal_id;
  terminal_name = target.terminal_name;
  folder_id = utf8 "root";
  ancestor_folder_ids = [];
  command_id = [];
  command_name = [];
  origin = initial_group_prefix;
  group_id = group;
  group_position = position;
}

module _ (catalog : Catalog) where
  -- The loop over the members in front of the initial terminal.
  unfoldable pub prefix_route : Bytes → ℕ → List Bytes → Option (List TerminalReturnPoint)
  unfolding equal
  prefix_route group position [] = some []
  prefix_route group position (member ∷ members) =
      let later = prefix_route group (suc position) members in
      elim (catalog.lookup_terminal member) [
        | none ↦ none
        | some target ↦
            if equal target.terminal_id member
            then Option.map (λ route. prefix_point group position target ∷ route) later
            else none
      ]

  abbrev pub initial_at : Bytes → Bytes → ℕ → LiveBroadcast → LiveBroadcast
  initial_at id group position b = record b {
    initial_terminal_id = id;
    initial_terminal_group_id = group;
    initial_terminal_group_position = position;
  }

  abbrev pub routed :
      LiveBroadcast → Bytes → TerminalGroup → ℕ → Option (List TerminalReturnPoint) → LiveBroadcast
  routed b id group position none = b
  routed b id group position (some route) = record (initial_at id group.id position b) {
    route = route;
  }

  abbrev pub placed : LiveBroadcast → Bytes → TerminalGroup → Option ℕ → LiveBroadcast
  placed b id group none = b
  placed b id group (some zero) = initial_at id group.id 0 b
  placed b id group (some (suc n)) =
      routed b id group (suc n) (prefix_route group.id 0 (take (suc n) group.terminal_ids))

  abbrev pub in_group : LiveBroadcast → Bytes → Option TerminalGroup → LiveBroadcast
  in_group b id none = b
  in_group b id (some group) =
      if equal group.id [] then b else placed b id group (index_of id group.terminal_ids)

  -- `establishInitialTerminalRoute`.
  unfoldable pub establish_initial_terminal_route : LiveBroadcast → Bytes → LiveBroadcast
  unfolding equal index_of prefix_route
  establish_initial_terminal_route b id =
      if b.initial_terminal_established
      then b
      else in_group (record b { initial_terminal_established = true }) id
          (catalog.lookup_terminal_group id)

  abbrev pub same_group : Option TerminalGroup → Option TerminalGroup → Bool
  same_group (some source) (some target) = not (equal source.id []) && equal source.id target.id
  same_group _ _ = false

  -- `sameTerminalGroup`.
  unfoldable pub same_terminal_group : Bytes → Bytes → Bool
  unfolding equal
  same_terminal_group source target =
      same_group (catalog.lookup_terminal_group source) (catalog.lookup_terminal_group target)

  abbrev pub is_at : Option ℕ → ℕ → Bool
  is_at none position = false
  is_at (some i) position = i == position

  abbrev pub valid_prefix :
      Option TerminalGroup → Option TerminalGroup → Bytes → TerminalReturnPoint → Bool
  valid_prefix (some source) (some target) source_id point =
      not (equal source.id [])
      && equal source.id target.id
      && equal point.group_id target.id
      && is_at (last_index_of point.terminal_id target.terminal_ids) point.group_position
      && is_at (last_index_of source_id target.terminal_ids) (suc point.group_position)
  valid_prefix _ _ source_id point = false

  abbrev pub valid_point : TerminalReturnOrigin → Bytes → TerminalReturnPoint → Bool
  valid_point authored_transition source_id point = true
  valid_point initial_group_prefix source_id point =
      valid_prefix (catalog.lookup_terminal_group source_id)
        (catalog.lookup_terminal_group point.terminal_id) source_id point

  -- `validTerminalReturnPoint`.
  unfoldable pub valid_terminal_return_point : Bytes → TerminalReturnPoint → Bool
  unfolding same_terminal_group equal last_index_of
  valid_terminal_return_point source_id point =
      same_terminal_group source_id point.terminal_id && valid_point point.origin source_id point

abbrev pub same_origin : TerminalReturnOrigin → TerminalReturnOrigin → Bool
same_origin authored_transition authored_transition = true
same_origin initial_group_prefix initial_group_prefix = true
same_origin _ _ = false

unfoldable pub same_texts : List Bytes → List Bytes → Bool
unfolding equal
same_texts [] [] = true
same_texts (a ∷ rest) (b ∷ bs) = equal a b && same_texts rest bs
same_texts _ _ = false

-- `sameTerminalReturnPoint`.
unfoldable pub same_terminal_return_point : TerminalReturnPoint → TerminalReturnPoint → Bool
unfolding equal same_texts
same_terminal_return_point p q =
    equal p.terminal_id q.terminal_id
    && equal p.terminal_name q.terminal_name
    && equal p.folder_id q.folder_id
    && equal p.command_id q.command_id
    && equal p.command_name q.command_name
    && same_origin p.origin q.origin
    && equal p.group_id q.group_id
    && p.group_position == q.group_position
    && same_texts p.ancestor_folder_ids q.ancestor_folder_ids

-- `clearTerminalNavigationRuntime`: the runtime, and whether anything was there.
abbrev pub cleared_route : Option LiveBroadcast → Option LiveBroadcast
cleared_route none = none
cleared_route (some b) = some (record b { route = [] })

abbrev pub has_route : Option LiveBroadcast → Bool
has_route none = false
has_route (some b) = elim b.route [ [] ↦ false | _ ↦ true ]

abbrev pub is_there {ℓ} : {A : Type ℓ} → Option A → Bool
is_there none = false
is_there (some a) = true

unfoldable pub clear_terminal_navigation_runtime : ProcessRuntime → ProcessRuntime × Bool
clear_terminal_navigation_runtime runtime = (
  record runtime {
    pending_terminal_navigation = none;
    terminal_navigation_notice = none;
    broadcast = cleared_route runtime.broadcast;
  },
  is_there runtime.pending_terminal_navigation
      || is_there runtime.terminal_navigation_notice
      || has_route runtime.broadcast,
)
