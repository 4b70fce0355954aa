-- ===== src/Domain/Tree.antt =====
-- internal/domain/model.go: content nodes, navigation states and command states.
use fallout_terminal.Common.{Bool, Option, none, some, List, Bytes, Dict, utf8}

abbrev pub node_folder : Bytes
node_folder = utf8 "folder"

abbrev pub node_command : Bytes
node_command = utf8 "command"

abbrev pub node_entry : Bytes
node_entry = utf8 "entry"

pub record EntryContentBlock : Type 0 where
  pub id : Bytes
  pub initial_text : Bytes

pub record EntryContentChange : Type 0 where
  pub block_id : Bytes
  pub completed_text : Bytes

pub record StateChangeConfig : Type 0 where
  pub completed_name : Bytes
  pub confirmation_text : Bytes
  pub entry_content_change : Option EntryContentChange

pub record TerminalTransitionConfig : Type 0 where
  pub target_terminal_id : Bytes

pub record CommandExecutionState : Type 0 where
  pub completed_name : Bytes
  pub result_text : Bytes
  pub entry_content_change : Option EntryContentChange

-- The fields of a `ContentNode` other than its children; `kind` is its `Type`, and `has_children`
-- tells an empty array of children from a missing one, which both are `leaf`.
pub record NodeFields : Type 0 where
  pub id : Bytes
  pub kind : Bytes
  pub name : Bytes
  pub text : Bytes
  pub description : Bytes
  pub blocks : Option (List EntryContentBlock)
  pub has_children : Bool
  pub state_change : Option StateChangeConfig
  pub terminal_transition : Option TerminalTransitionConfig
  pub extra : Dict Bytes

mutual
  pub data ContentNode : Type 0 where
    node : NodeFields → Children → ContentNode

  pub data Children : Type 0 where
    leaf : Children
    child : ContentNode → Children → Children

abbrev pub fields : ContentNode → NodeFields
fields (node f children) = f

abbrev pub children_of : ContentNode → Children
children_of (node f children) = children

-- `Behavior`.
pub data CommandBehavior : Type 0 where
  ordinary state_changing terminal_transitioning invalid : CommandBehavior

abbrev behavior_of : Option StateChangeConfig → Option TerminalTransitionConfig → CommandBehavior
behavior_of (some _) (some _) = invalid
behavior_of (some _) none = state_changing
behavior_of none (some _) = terminal_transitioning
behavior_of none none = ordinary

unfoldable pub behavior : ContentNode → CommandBehavior
behavior n = behavior_of (fields n).state_change (fields n).terminal_transition

pub record NavState : Type 0 where
  pub path : List Bytes
  pub mode : Bytes
  pub view_entry_id : Option Bytes
  pub command_node_id : Option Bytes
