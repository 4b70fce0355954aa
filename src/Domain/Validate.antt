-- ===== src/Domain/Validate.antt =====
-- internal/domain/validate.go: `validateTree`. Errors are told apart without their paths.
pub mod Clear
use fallout_terminal.Common.{
  ℕ, ◌+◌, Bool, true, false, not, ◌&&◌, ◌||◌, Option, none, some, List, [], ◌∷◌, ◌++◌, Bytes, Dict,
  any, equal, lookup, ltb, if◌then◌else◌, length, utf8,
}
use fallout_terminal.Domain.Tree.{
  ContentNode, node, Children, leaf, child, NodeFields, StateChangeConfig, TerminalTransitionConfig,
  CommandBehavior, ordinary, state_changing, terminal_transitioning, invalid, behavior, node_folder,
  node_command, node_entry,
}
use fallout_terminal.Common.{is_blank}

abbrev pub max_node_depth : ℕ
max_node_depth = 64

abbrev pub max_nodes : ℕ
max_nodes = 100000

abbrev pub max_name_bytes : ℕ
max_name_bytes = 256

abbrev pub max_terminal_id_bytes : ℕ
max_terminal_id_bytes = 256

abbrev pub max_body_bytes : ℕ
max_body_bytes = 1048576

pub data TreeError : Type 0 where
  node_limit depth_limit bad_id duplicate_id bad_name bad_extra : TreeError
  folder_with_configuration missing_children folder_with_body : TreeError
  command_not_leaf long_text two_behaviors bad_text bad_completed_name : TreeError
  bad_confirmation bad_target : TreeError
  entry_with_configuration entry_not_leaf long_description unsupported_kind : TreeError

pub record TransitionReference : Type 0 where
  pub command_id : Bytes
  pub target_terminal_id : Bytes

-- `count`, `nodesByID` and `transitionReferences`.
pub record Visited : Type 0 where
  pub count : ℕ
  pub nodes_by_id : Dict ContentNode
  pub references : List TransitionReference

pub data Checked : Type 0 where
  refused : TreeError → Checked
  checked : Visited → Checked

-- The first error whose test holds, in the order of the source.
unfoldable pub first_error : List (Bool × TreeError) → Option TreeError
first_error [] = none
first_error ((fails, error) ∷ rest) = if fails then some error else first_error rest

-- `validateRequiredString` fails.
abbrev pub lacks : Bytes → ℕ → Bool
lacks value max_bytes = is_blank value || ltb max_bytes (length value)

abbrev pub known_fields : List Bytes
known_fields =
    utf8 "id"
    ∷ utf8 "type"
    ∷ utf8 "name"
    ∷ utf8 "children"
    ∷ utf8 "text"
    ∷ utf8 "description"
    ∷ utf8 "blocks"
    ∷ utf8 "stateChange"
    ∷ utf8 "terminalTransition"
    ∷ []

abbrev is_set {ℓ} : {A : Type ℓ} → Option A → Bool
is_set none = false
is_set (some a) = true

abbrev pub is_known : Option ContentNode → Bool
is_known none = false
is_known (some n) = true

abbrev has_text : Bytes → Bool
has_text text = not (equal text [])

abbrev pub is_parent : Children → Bool
is_parent leaf = false
is_parent (child n rest) = true

-- Command configuration on a node of another kind.
abbrev has_configuration : NodeFields → Bool
has_configuration f = is_set f.state_change || is_set f.terminal_transition

abbrev change_lacks : Option StateChangeConfig → (StateChangeConfig → Bytes) → ℕ → Bool
change_lacks none part max_bytes = false
change_lacks (some change) part max_bytes = lacks (part change) max_bytes

abbrev target_lacks : Option TerminalTransitionConfig → Bool
target_lacks none = false
target_lacks (some transition) = lacks transition.target_terminal_id max_terminal_id_bytes

-- The tests of a command's behaviour.
abbrev behavior_tests : CommandBehavior → NodeFields → List (Bool × TreeError)
behavior_tests invalid f = (true, two_behaviors) ∷ []
behavior_tests state_changing f =
    (lacks f.text max_body_bytes, bad_text)
    ∷ (
      change_lacks f.state_change (λ change. change.completed_name) max_name_bytes,
      bad_completed_name,
    )
    ∷ (
      change_lacks f.state_change (λ change. change.confirmation_text) max_body_bytes,
      bad_confirmation,
    )
    ∷ []
behavior_tests terminal_transitioning f = (target_lacks f.terminal_transition, bad_target) ∷ []
behavior_tests ordinary f = []

-- The tests of a node by its kind.
unfoldable pub kind_tests : NodeFields → Children → List (Bool × TreeError)
unfolding behavior
kind_tests f children =
    if equal f.kind node_folder
    then (has_configuration f, folder_with_configuration)
      ∷ (not f.has_children, missing_children)
      ∷ (has_text f.text || has_text f.description || is_set f.blocks, folder_with_body)
      ∷ []
    else if equal f.kind node_command
    then (is_parent children || has_text f.description || is_set f.blocks, command_not_leaf)
      ∷ (ltb max_body_bytes (length f.text), long_text)
      ∷ behavior_tests (behavior (node f children)) f
    else if equal f.kind node_entry
    then (has_configuration f, entry_with_configuration)
      ∷ (is_parent children || has_text f.text, entry_not_leaf)
      ∷ (ltb max_body_bytes (length f.description), long_description)
      ∷ []
    else (true, unsupported_kind) ∷ []

-- The link of a command that leads to another terminal.
abbrev link_of : CommandBehavior → NodeFields → List TransitionReference
link_of terminal_transitioning f = elim f.terminal_transition [
  | none ↦ []
  | some transition ↦
      record { command_id = f.id; target_terminal_id = transition.target_terminal_id } ∷ []
]
link_of _ f = []

unfoldable pub links : NodeFields → Children → List TransitionReference
unfolding behavior
links f children = if equal f.kind node_command then link_of (behavior (node f children)) f else []

-- `json.Valid` is the argument `json_valid`; the extra fields of a node are its raw values.
module _ (json_valid : Bytes → Bool) where
  -- `validateExtras` fails.
  unfoldable pub bad_extras : Dict Bytes → Bool
  bad_extras extra =
      any (λ (field : Bytes × Bytes). any (equal field.0) known_fields || not (json_valid field.1))
        extra

  -- The tests that come first for every node.
  unfoldable pub entry_tests : NodeFields → ℕ → Visited → List (Bool × TreeError)
  unfolding bad_extras lookup
  entry_tests f depth seen =
      (ltb max_nodes (seen.count + 1), node_limit)
      ∷ (ltb max_node_depth depth, depth_limit)
      ∷ (lacks f.id max_name_bytes, bad_id)
      ∷ (is_known (lookup f.id seen.nodes_by_id), duplicate_id)
      ∷ (lacks f.name max_name_bytes, bad_name)
      ∷ (bad_extras f.extra, bad_extra)
      ∷ []

  unfoldable pub enter : NodeFields → Children → Visited → Visited
  unfolding links
  enter f children seen = record {
    count = seen.count + 1;
    nodes_by_id = (f.id, node f children) ∷ seen.nodes_by_id;
    references = seen.references ++ links f children;
  }

  -- `visit`.
  unfoldable mutual
    unfolding first_error kind_tests entry_tests enter

    pub visit : ContentNode → ℕ → Visited → Checked
    visit (node f children) depth seen =
        let entered = enter f children seen in
        let below = visit_children children (depth + 1) entered in
        elim (first_error (entry_tests f depth seen)) [
          | some error ↦ refused error
          | none ↦ elim (first_error (kind_tests f children)) [
            | some error ↦ refused error
            | none ↦ if equal f.kind node_folder then below else checked entered
          ]
        ]

    pub visit_children : Children → ℕ → Visited → Checked
    visit_children leaf depth seen = checked seen
    visit_children (child n rest) depth seen = elim (visit n depth seen) [
      | refused error ↦ refused error
      | checked next ↦ visit_children rest depth next
    ]

  -- `validateTree`.
  unfoldable pub validate_tree : ContentNode → Checked
  unfolding visit
  validate_tree root = visit root 1 (record { count = 0; nodes_by_id = []; references = [] })
