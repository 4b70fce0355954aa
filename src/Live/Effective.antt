-- ===== src/Live/Effective.antt =====
-- internal/live/service.go: the content that players see once commands have been completed.
use fallout_terminal.Common.{
  List, ◌&&◌, not, Option, none, some, [], ◌∷◌, map, Bytes, Dict, equal, lookup, insert, utf8, join,
  if◌then◌else◌, length, ◌==◌,
}
use fallout_terminal.Domain.Tree.{
  ContentNode, node, Children, leaf, child, NodeFields, EntryContentBlock, EntryContentChange,
  CommandExecutionState, node_command, node_entry,
}

abbrev put_change : Option EntryContentChange → Dict Bytes → Dict Bytes
put_change none texts = texts
put_change (some change) texts = insert change.block_id change.completed_text texts

-- The completed text of each block. The order of two states that complete one block is the list's.
unfoldable pub completed_block_text : Dict CommandExecutionState → Dict Bytes → Dict Bytes
completed_block_text [] texts = texts
completed_block_text ((_, state) ∷ states) texts =
    completed_block_text states (put_change state.entry_content_change texts)

abbrev block_text : Dict Bytes → EntryContentBlock → Bytes
block_text texts block = elim (lookup block.id texts) [
  | some text ↦ text
  | none ↦ block.initial_text
]

-- A command that was completed has its completed name and result.
unfoldable pub with_command_state : Dict CommandExecutionState → NodeFields → NodeFields
with_command_state states f = elim (lookup f.id states) [
  | none ↦ f
  | some state ↦
      if equal f.kind node_command
      then record f { name = state.completed_name; text = state.result_text }
      else f
]

abbrev pub blocks_of : NodeFields → List EntryContentBlock
blocks_of f = elim f.blocks [ none ↦ [] | some blocks ↦ blocks ]

-- An entry with blocks is described by their texts.
unfoldable pub with_blocks : Dict Bytes → NodeFields → NodeFields
with_blocks texts f =
    if equal f.kind node_entry && not (length (blocks_of f) == 0)
    then record f { description = join (utf8 "\n\n") (map (block_text texts) (blocks_of f)) }
    else f

-- `applyEffectiveContentStates`.
unfoldable mutual
  unfolding with_command_state with_blocks

  pub apply_states : Dict CommandExecutionState → Dict Bytes → ContentNode → ContentNode
  apply_states states texts (node f children) =
      node (with_blocks texts (with_command_state states f)) (apply_states_to states texts children)

  pub apply_states_to : Dict CommandExecutionState → Dict Bytes → Children → Children
  apply_states_to states texts leaf = leaf
  apply_states_to states texts (child n rest) =
      child (apply_states states texts n) (apply_states_to states texts rest)

-- `effectiveTree`.
unfoldable pub effective_tree : ContentNode → Dict CommandExecutionState → ContentNode
unfolding completed_block_text apply_states
effective_tree tree states = apply_states states (completed_block_text states []) tree
