-- ===== src/Nav.antt =====
-- internal/nav/nav.go: shared navigation. Pointers to copies are values here.
pub mod Paths
pub mod Valid
pub mod Repair
pub mod Search
pub mod Find
use fallout_terminal.Common.{
  ℕ, suc, Bool, true, false, not, ◌&&◌, ◌||◌, Option, none, some, List, [], ◌∷◌, ◌++◌, Bytes, ltb,
  if◌then◌else◌, equal, utf8, length, reverse,
}
use fallout_terminal.Domain.Tree.{
  ContentNode, node, Children, leaf, child, NavState, fields, children_of, node_folder,
  node_command, node_entry,
}

abbrev pub mode_list : Bytes
mode_list = utf8 "list"

abbrev pub mode_entry : Bytes
mode_entry = utf8 "entry"

abbrev pub root_id : Bytes
root_id = utf8 "root"

-- `Default`.
abbrev pub default_state : NavState
default_state = record {
  path = root_id ∷ [];
  mode = mode_list;
  view_entry_id = none;
  command_node_id = none;
}

abbrev pub matches : ContentNode → Bytes → Bytes → Bool
matches n id kind = equal (fields n).id id && equal (fields n).kind kind

-- The loop of `directChild`.
unfoldable pub child_in : Children → Bytes → Bytes → Option ContentNode
child_in leaf id kind = none
child_in (child n rest) id kind = if matches n id kind then some n else child_in rest id kind

abbrev pub direct_child : ContentNode → Bytes → Bytes → Option ContentNode
direct_child parent id kind = child_in (children_of parent) id kind

-- The folder at the end of a path of child folders.
unfoldable pub descend : ContentNode → List Bytes → Option ContentNode
unfolding child_in
descend current [] = some current
descend current (id ∷ ids) = elim (direct_child current id node_folder) [
  | none ↦ none
  | some next ↦ descend next ids
]

-- The tree's root is the folder `root`.
abbrev pub is_root : ContentNode → Bool
is_root tree = equal (fields tree).id root_id && equal (fields tree).kind node_folder

unfoldable pub current_folder : ContentNode → List Bytes → Option ContentNode
unfolding descend
current_folder tree [] = none
current_folder tree (first ∷ ids) =
    if equal first root_id && is_root tree then descend tree ids else none

-- `path[:len(path)-1]`.
unfoldable pub drop_last : List Bytes → List Bytes
drop_last [] = []
drop_last (id ∷ []) = []
drop_last (id ∷ other ∷ ids) = id ∷ drop_last (other ∷ ids)

unfoldable pub enter_folder : NavState → ContentNode → NavState
enter_folder state n = record {
  path = state.path ++ ((fields n).id ∷ []);
  mode = mode_list;
  view_entry_id = none;
  command_node_id = none;
}

unfoldable pub open_entry : NavState → ContentNode → NavState
open_entry state n = record state {
  mode = mode_entry;
  view_entry_id = some (fields n).id;
  command_node_id = none;
}

unfoldable pub select_command : NavState → ContentNode → NavState
select_command state n = record state { command_node_id = some (fields n).id }

unfoldable pub go_back : NavState → NavState
unfolding drop_last
go_back state =
    if equal state.mode mode_entry
    then record state { mode = mode_list; view_entry_id = none }
    else if ltb 1 (length state.path)
    then record state { path = drop_last state.path; command_node_id = none }
    else record state { command_node_id = none }

-- An action on a child of the current folder, if there is one.
abbrev pub on_child :
    Option ContentNode → Bytes → Bytes → (NavState → ContentNode → NavState) → NavState → NavState
on_child none id kind act state = state
on_child (some folder) id kind act state = elim (direct_child folder id kind) [
  | none ↦ state
  | some n ↦ act state n
]

-- `ApplyAction`.
unfoldable pub apply_action : NavState → ContentNode → Bytes → Bytes → NavState
unfolding child_in enter_folder open_entry select_command go_back
apply_action state tree action id =
    let folder = current_folder tree state.path in
    if equal action (utf8 "enter")
    then on_child folder id node_folder enter_folder state
    else if equal action (utf8 "back")
    then go_back state
    else if equal action (utf8 "entry")
    then on_child folder id node_entry open_entry state
    else if equal action (utf8 "command")
    then on_child folder id node_command select_command state
    else state

-- The part of a path that still leads through folders, and the folder it ends at.
unfoldable pub follow : ContentNode → List Bytes → List Bytes × ContentNode
unfolding child_in
follow current [] = ([], current)
follow current (id ∷ ids) = elim (direct_child current id node_folder) [
  | none ↦ ([], current)
  | some next ↦ let later = follow next ids in ((fields next).id ∷ later.0, later.1)
]

-- `path[1:]`, or nothing.
abbrev pub rest_of : List Bytes → List Bytes
rest_of [] = []
rest_of (first ∷ ids) = ids

unfoldable pub revalidated_path : ContentNode → List Bytes → List Bytes × ContentNode
unfolding follow
revalidated_path tree path = let valid = follow tree (rest_of path) in (root_id ∷ valid.0, valid.1)

-- A reference is kept while it names a child of this kind.
unfoldable pub keep_child : ContentNode → Bytes → Option Bytes → Option Bytes
unfolding child_in
keep_child folder kind none = none
keep_child folder kind (some id) = elim (direct_child folder id kind) [
  | none ↦ none
  | some _ ↦ some id
]

abbrev pub mode_of : Option Bytes → Bytes
mode_of none = mode_list
mode_of (some _) = mode_entry

-- `Revalidate`.
unfoldable pub revalidate : NavState → ContentNode → NavState
unfolding revalidated_path keep_child
revalidate state tree =
    let valid = revalidated_path tree state.path in
    let viewed = if equal state.mode mode_entry then state.view_entry_id else none in
    let kept = keep_child valid.1 node_entry viewed in
    record {
      path = valid.0;
      mode = mode_of kept;
      view_entry_id = kept;
      command_node_id = keep_child valid.1 node_command state.command_node_id;
    }

-- `visit`, the search in `FindFolderPath`.
unfoldable mutual
  pub visit : Bytes → ContentNode → List Bytes → Option (List Bytes)
  visit folder_id (node f children) path =
      let below = visit_children folder_id children path in
      if equal f.id folder_id then some path else below

  pub visit_children : Bytes → Children → List Bytes → Option (List Bytes)
  visit_children folder_id leaf path = none
  visit_children folder_id (child n rest) path =
      let found =
        if equal (fields n).kind node_folder
        then visit folder_id n (path ++ ((fields n).id ∷ []))
        else none in
      let later = visit_children folder_id rest path in
      elim found [ some p ↦ some p | none ↦ later ]

-- `FindFolderPath`.
unfoldable pub find_folder_path : ContentNode → Bytes → Option (List Bytes)
unfolding visit
find_folder_path tree folder_id =
    if not (is_root tree) || equal folder_id [] then none else visit folder_id tree (root_id ∷ [])

abbrev pub at_path : List Bytes → NavState
at_path path = record {
  path = path;
  mode = mode_list;
  view_entry_id = none;
  command_node_id = none;
}

-- The ancestors, nearest to the folder first.
unfoldable pub first_found : ContentNode → List Bytes → NavState
unfolding find_folder_path
first_found tree [] = default_state
first_found tree (id ∷ ids) =
    let later = first_found tree ids in
    elim (find_folder_path tree id) [ some path ↦ at_path path | none ↦ later ]

-- `RestoreFolder`; the saved ancestors are listed from the root down.
unfoldable pub restore_folder : ContentNode → Bytes → List Bytes → NavState
unfolding first_found
restore_folder tree folder_id ancestors = first_found tree (folder_id ∷ reverse ancestors)
