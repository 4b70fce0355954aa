-- ===== src/Live/Shown.antt =====
-- internal/live/service.go: the projected content has the places of the authored one.
use fallout_terminal.Common.{
  not, ◌&&◌, Option, none, some, List, [], ◌∷◌, Bytes, Dict, equal, lookup, length, ◌==◌, ◌≡◌, refl,
  ap, ◌∙◌, inl, inr, arith, Bool-cases, Option-cases,
}
use fallout_terminal.Domain.Runtime.{TerminalRuntime}
use fallout_terminal.Domain.Tree.{
  ContentNode, node, Children, leaf, child, NodeFields, CommandExecutionState, fields, node_folder,
  node_command, node_entry,
}
use fallout_terminal.Live.Effective.{
  blocks_of, with_command_state, with_blocks, apply_states, apply_states_to, completed_block_text,
  effective_tree,
}
use fallout_terminal.Live.Runtime.{public_runtime}
use fallout_terminal.Live.Sound.{IsSound}
use fallout_terminal.Nav.Valid.{IsValidNav, Names}
use fallout_terminal.Nav.Paths.{current_folder-root, current_folder-at, descend-step, descend-first}
use fallout_terminal.Nav.{matches, child_in, direct_child, descend}

with_blocks-names :
    (texts : Dict Bytes) (f : NodeFields)
    → ((with_blocks texts f).id ≡ f.id) × ((with_blocks texts f).kind ≡ f.kind)
unfolding with_blocks
with_blocks-names texts f =
    elim (Bool-cases (equal f.kind node_entry && not (length (blocks_of f) == 0))) [
      | inl described ↦ rw described (refl, refl)
      | inr plain ↦ rw plain (refl, refl)
    ]

with_command_state-names :
    (states : Dict CommandExecutionState) (f : NodeFields)
    → ((with_command_state states f).id ≡ f.id) × ((with_command_state states f).kind ≡ f.kind)
unfolding with_command_state
with_command_state-names states f = elim (Option-cases (lookup f.id states)) [
  | inl waiting ↦ rw (waiting, with_command_state) (refl, refl)
  | inr (state, completed) ↦ elim (Bool-cases (equal f.kind node_command)) [
    | inl command ↦ rw (completed, command, with_command_state) (refl, refl)
    | inr other ↦ rw (completed, other, with_command_state) (refl, refl)
  ]
]

-- Completed commands change neither the ID nor the kind of a node.
apply_states-names :
    (states : Dict CommandExecutionState) (texts : Dict Bytes) (n : ContentNode)
    → ((fields (apply_states states texts n)).id ≡ (fields n).id)
      × ((fields (apply_states states texts n)).kind ≡ (fields n).kind)
unfolding apply_states
apply_states-names states texts (node f children) =
    let described = with_blocks-names texts (with_command_state states f) in
    let completed = with_command_state-names states f in
    (described.0 ∙ completed.0, described.1 ∙ completed.1)

module _ (states : Dict CommandExecutionState) (texts : Dict Bytes) where
  matches-apply_states :
      (n : ContentNode) (id kind : Bytes)
      → matches (apply_states states texts n) id kind ≡ matches n id kind
  matches-apply_states n id kind =
      let same = apply_states-names states texts n in rw (same.0, same.1) refl

  child_in-apply_states :
      (cs : Children) (id kind : Bytes) (n : ContentNode)
      → child_in cs id kind ≡ some n
      → child_in (apply_states_to states texts cs) id kind ≡ some (apply_states states texts n)
  unfolding child_in apply_states
  child_in-apply_states leaf id kind n h = ground (arith, h)
  child_in-apply_states (child m rest) id kind n h =
      let same = matches-apply_states m id kind in
      elim (Bool-cases (matches m id kind)) [
        | inl hit ↦
            let this : m ≡ n = ground (arith, h, hit) in
            rw (same ∙ hit) (ap (λ k. some (apply_states states texts k)) this)
        | inr miss ↦
            rw (same ∙ miss) (child_in-apply_states rest id kind n (ground (arith, h, miss)))
      ]

  direct_child-apply_states :
      (folder n : ContentNode) (id kind : Bytes)
      → direct_child folder id kind ≡ some n
      → direct_child (apply_states states texts folder) id kind ≡ some (apply_states states texts n)
  unfolding apply_states
  direct_child-apply_states (node f cs) n id kind h = child_in-apply_states cs id kind n h

  descend-apply_states :
      (c f : ContentNode) (ids : List Bytes)
      → descend c ids ≡ some f
      → descend (apply_states states texts c) ids ≡ some (apply_states states texts f)
  unfolding descend
  descend-apply_states c f [] h = ground (arith, h)
  descend-apply_states c f (id ∷ ids) h =
      let (next, hit, later) = descend-first c f id ids h in
      descend-step (apply_states states texts c) (apply_states states texts next) id ids
        (direct_child-apply_states c next id node_folder hit)
      ∙ descend-apply_states next f ids later

  Names-apply_states :
      (folder : ContentNode) (kind : Bytes) (ref : Option Bytes)
      → Names folder kind ref
      → Names (apply_states states texts folder) kind ref
  Names-apply_states folder kind none named = tt
  Names-apply_states folder kind (some id) (n, hit) =
      (apply_states states texts n, direct_child-apply_states folder n id kind hit)

-- For a sound checkpoint, the players' place in the authored tree is a place in the tree that they
-- are shown.
pub public_runtime-IsValidNav :
    (state : TerminalRuntime)
    → IsSound state
    → IsValidNav (public_runtime state).tree (public_runtime state).nav
unfolding public_runtime effective_tree
public_runtime-IsValidNav state sound =
    let states = state.command_states in
    let texts = completed_block_text states [] in
    let v = sound.place in
    let (root, ids, path, leads) =
      current_folder-root state.tree state.nav.path v.folder v.resolves in
    let same = apply_states-names states texts state.tree in
    record {
      folder = apply_states states texts v.folder;
      resolves = rw path (
          current_folder-at (apply_states states texts state.tree) ids (rw (same.0, same.1) root)
          ∙ descend-apply_states states texts state.tree v.folder ids leads);
      mode_is = v.mode_is;
      view = Names-apply_states states texts v.folder node_entry state.nav.view_entry_id v.view;
      command =
          Names-apply_states states texts v.folder node_command state.nav.command_node_id v.command;
    }
