-- ===== src/Nav/Find.antt =====
-- internal/nav/nav.go: finding a folder by its ID, and restoring a saved place.
use fallout_terminal.Common.{
  true, false, ◌||◌, not, some, List, [], ◌∷◌, Bytes, equal, ◌≡◌, refl, ap, ◌∙◌, arith,
  Option-cases, Bool-cases, reverse, inl, inr,
}
use fallout_terminal.Domain.Tree.{ContentNode, fields}
use fallout_terminal.Nav.Valid.{IsValidNav}
use fallout_terminal.Nav.Paths.{current_folder-root, current_folder-at}
use fallout_terminal.Nav.{
  descend, is_root, current_folder, find_folder_path, at_path, first_found, restore_folder,
  default_state, root_id,
}
use fallout_terminal.Nav.Search.{IsClear, visit-IsFound, visit_finds}

-- A folder that the search finds is the one with this ID, and the path that it gives leads there,
-- in a tree where no folder hides behind a sibling folder with its ID.
pub find_folder_path_finds :
    (tree : ContentNode) (id : Bytes) (path : List Bytes)
    → IsClear tree
    → find_folder_path tree id ≡ some path
    → (f : ContentNode) × (current_folder tree path ≡ some f) × ((fields f).id ≡ id)
unfolding find_folder_path
find_folder_path_finds tree id path clear h =
    elim (Bool-cases (not (is_root tree) || equal id [])) [
      | inl refused ↦ ground (arith, h, refused)
      | inr searched ↦
          let r = visit-IsFound id tree (root_id ∷ []) path clear (ground (arith, h, searched)) in
          let root : is_root tree ≡ true = ground (arith, searched) in
          (r.folder, rw r.below (current_folder-at tree r.ids root ∙ r.leads), r.same)
    ]

find_folder_path_hits :
    (tree f : ContentNode) (path : List Bytes)
    → current_folder tree path ≡ some f
    → equal (fields f).id [] ≡ false
    → (found : List Bytes) × (find_folder_path tree (fields f).id ≡ some found)
unfolding find_folder_path
find_folder_path_hits tree f path h named =
    let (root, ids, e, leads) = current_folder-root tree path f h in
    let (found, hit) = visit_finds (fields f).id tree f ids (root_id ∷ []) leads refl in
    (found, ground (arith, root, named, hit))

-- No other folder of the tree has the folder's ID.
abbrev pub IsUnique : ContentNode → ContentNode → Type 0
IsUnique tree f =
    (path : List Bytes) (g : ContentNode)
    → current_folder tree path ≡ some g
    → (fields g).id ≡ (fields f).id
    → g ≡ f

-- A folder that a path leads to is found by its ID, and the path that the search gives leads to it,
-- if it has an ID that no other folder has, in a tree where no folder hides behind a sibling
-- folder with its ID.
pub find_folder_path_complete :
    (tree f : ContentNode) (path : List Bytes)
    → IsClear tree
    → current_folder tree path ≡ some f
    → equal (fields f).id [] ≡ false
    → IsUnique tree f
    → (found : List Bytes) × (find_folder_path tree (fields f).id ≡ some found)
      × (current_folder tree found ≡ some f)
find_folder_path_complete tree f path clear h named unique =
    let (found, hit) = find_folder_path_hits tree f path h named in
    let (g, leads, same) = find_folder_path_finds tree (fields f).id found clear hit in
    (found, hit, leads ∙ ap some (unique found g leads same))

at_path-IsValidNav :
    (tree f : ContentNode) (path : List Bytes)
    → current_folder tree path ≡ some f
    → IsValidNav tree (at_path path)
at_path-IsValidNav tree f path h = record {
  folder = f;
  resolves = h;
  mode_is = refl;
  view = tt;
  command = tt;
}

pub at_root-IsValidNav : (tree : ContentNode) → is_root tree ≡ true → IsValidNav tree default_state
unfolding descend
at_root-IsValidNav tree root =
    at_path-IsValidNav tree tree (root_id ∷ []) (current_folder-at tree [] root)

first_found-IsValidNav :
    (tree : ContentNode) (ids : List Bytes)
    → is_root tree ≡ true
    → IsClear tree
    → IsValidNav tree (first_found tree ids)
unfolding first_found descend
first_found-IsValidNav tree [] root clear = at_root-IsValidNav tree root
first_found-IsValidNav tree (id ∷ ids) root clear = elim (Option-cases (find_folder_path tree id)) [
  | inl miss ↦ rw (miss, first_found) (first_found-IsValidNav tree ids root clear)
  | inr (path, hit) ↦
      let (f, leads, same) = find_folder_path_finds tree id path clear hit in
      rw (hit, first_found) (at_path-IsValidNav tree f path leads)
]

-- A restored place is one that the tree allows, whatever was saved, if the tree's root is the folder
-- `root` and no folder hides behind a sibling folder with its ID.
pub restore_folder-IsValidNav :
    (tree : ContentNode) (folder_id : Bytes) (ancestors : List Bytes)
    → is_root tree ≡ true
    → IsClear tree
    → IsValidNav tree (restore_folder tree folder_id ancestors)
unfolding restore_folder
restore_folder-IsValidNav tree folder_id ancestors root clear =
    first_found-IsValidNav tree (folder_id ∷ reverse ancestors) root clear
