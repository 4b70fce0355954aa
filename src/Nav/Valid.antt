-- ===== src/Nav/Valid.antt =====
-- internal/nav/nav.go: which navigation states a tree allows, and that actions lead to such states.
use fallout_terminal.Common.{
  true, false, Option, none, some, List, [], ◌∷◌, ◌++◌, Bytes, equal, utf8, length, ltb, ◌≡◌, inl,
  inr, refl, sym, ◌∙◌, arith, Option-cases, Bool-cases, if-either,
}
use fallout_terminal.Domain.Tree.{
  ContentNode, NavState, children_of, node_folder, node_command, node_entry,
}
use fallout_terminal.Nav.{
  direct_child, descend, is_root, current_folder, drop_last, enter_folder, open_entry,
  select_command, go_back, on_child, apply_action, mode_of, mode_entry, root_id,
}
use fallout_terminal.Nav.Paths.{
  child_in-named, current_folder-at, current_folder-root, descend-append, descend-drop_last,
}

-- A reference that is empty or names a child of this kind.
abbrev pub Names : ContentNode → Bytes → Option Bytes → Type 0
Names folder kind none = Unit
Names folder kind (some id) = (n : ContentNode) × (direct_child folder id kind ≡ some n)

-- The path leads to a folder, an entry is viewed exactly in entry mode, and the references name
-- direct children of that folder.
pub record IsValidNav (tree : ContentNode) (s : NavState) : Type 0 where
  pub folder : ContentNode
  pub resolves : current_folder tree s.path ≡ some folder
  pub mode_is : s.mode ≡ mode_of s.view_entry_id
  pub view : Names folder node_entry s.view_entry_id
  pub command : Names folder node_command s.command_node_id

enter_folder-IsValidNav :
    (tree n : ContentNode) (s : NavState) (id : Bytes) (v : IsValidNav tree s)
    → direct_child v.folder id node_folder ≡ some n
    → IsValidNav tree (enter_folder s n)
unfolding enter_folder
enter_folder-IsValidNav tree n s id v found =
    let (root, ids, path, leads) = current_folder-root tree s.path v.folder v.resolves in
    let same = (child_in-named (children_of v.folder) id node_folder n found).0 in
    record {
      folder = n;
      resolves = rw path (
          rw same (
            current_folder-at tree (ids ++ (id ∷ [])) root
            ∙ descend-append tree v.folder n ids id leads found));
      mode_is = refl;
      view = tt;
      command = tt;
    }

open_entry-IsValidNav :
    (tree n : ContentNode) (s : NavState) (id : Bytes) (v : IsValidNav tree s)
    → direct_child v.folder id node_entry ≡ some n
    → IsValidNav tree (open_entry s n)
unfolding open_entry
open_entry-IsValidNav tree n s id v found =
    let same = (child_in-named (children_of v.folder) id node_entry n found).0 in
    record {
      folder = v.folder;
      resolves = v.resolves;
      mode_is = refl;
      view = (n, rw same found);
      command = tt;
    }

select_command-IsValidNav :
    (tree n : ContentNode) (s : NavState) (id : Bytes) (v : IsValidNav tree s)
    → direct_child v.folder id node_command ≡ some n
    → IsValidNav tree (select_command s n)
unfolding select_command
select_command-IsValidNav tree n s id v found =
    let same = (child_in-named (children_of v.folder) id node_command n found).0 in
    record {
      folder = v.folder;
      resolves = v.resolves;
      mode_is = v.mode_is;
      view = v.view;
      command = (n, rw same found);
    }

mode-list :
    (folder : ContentNode) (view : Option Bytes)
    → equal (mode_of view) mode_entry ≡ false
    → view ≡ none
unfolding equal utf8
mode-list folder none h = refl
mode-list folder (some id) h = ground (arith, h)

parent-resolves :
    (tree : ContentNode) (path : List Bytes) (f : ContentNode)
    → ltb 1 (length path) ≡ true
    → current_folder tree path ≡ some f
    → (g : ContentNode) × (current_folder tree (drop_last path) ≡ some g)
unfolding drop_last
parent-resolves tree path f long h =
    let (root, ids, e, leads) = current_folder-root tree path f h in go root ids e leads
  where
    go :
        is_root tree ≡ true
        → (ids : List Bytes) → path ≡ root_id ∷ ids
        → descend tree ids ≡ some f
        → (g : ContentNode) × (current_folder tree (drop_last path) ≡ some g)
    go root [] e leads = ground (arith, long, e)
    go root (id ∷ ids) e leads =
        let (g, found) = descend-drop_last tree f id ids leads in
        (g, rw e (current_folder-at tree (drop_last (id ∷ ids)) root ∙ found))

go_back-IsValidNav :
    (tree : ContentNode) (s : NavState) → IsValidNav tree s → IsValidNav tree (go_back s)
unfolding go_back
go_back-IsValidNav tree s v = elim (Bool-cases (equal s.mode mode_entry)) [
  | inl viewing ↦ rw viewing (record {
    folder = v.folder;
    resolves = v.resolves;
    mode_is = refl;
    view = tt;
    command = v.command;
  })
  | inr listing ↦
      let closed : s.view_entry_id ≡ none =
        mode-list v.folder s.view_entry_id (rw (sym v.mode_is) listing) in
      elim (Bool-cases (ltb 1 (length s.path))) [
        | inl long ↦
            let (g, found) = parent-resolves tree s.path v.folder long v.resolves in
            rw listing (
              rw long (record {
                folder = g;
                resolves = found;
                mode_is = v.mode_is;
                view = rw closed tt;
                command = tt;
              }))
        | inr short ↦ rw listing (
            rw short (record {
              folder = v.folder;
              resolves = v.resolves;
              mode_is = v.mode_is;
              view = v.view;
              command = tt;
            }))
      ]
]

on_child-IsValidNav :
    (tree : ContentNode) (s : NavState) (id kind : Bytes) (act : NavState → ContentNode → NavState)
    → IsValidNav tree s
    → ((n : ContentNode) (v : IsValidNav tree s)
        → direct_child v.folder id kind ≡ some n
        → IsValidNav tree (act s n))
    → IsValidNav tree (on_child (current_folder tree s.path) id kind act s)
on_child-IsValidNav tree s id kind act v keeps =
    rw v.resolves (elim (Option-cases (direct_child v.folder id kind)) [
      | inl miss ↦ rw (miss, on_child) v
      | inr (n, hit) ↦ rw (hit, on_child) (keeps n v hit)
    ])

-- An action, whatever its name and its target, leads from a state that the tree allows to one that
-- it allows.
pub apply_action-IsValidNav :
    (tree : ContentNode) (s : NavState) (action id : Bytes)
    → IsValidNav tree s
    → IsValidNav tree (apply_action s tree action id)
unfolding apply_action enter_folder open_entry select_command go_back
apply_action-IsValidNav tree s action id v =
    if-either (IsValidNav tree) (equal action (utf8 "enter"))
      (on_child-IsValidNav tree s id node_folder enter_folder v
        (λ n w. enter_folder-IsValidNav tree n s id w))
      (if-either (IsValidNav tree) (equal action (utf8 "back")) (go_back-IsValidNav tree s v) (
        if-either (IsValidNav tree) (equal action (utf8 "entry"))
          (on_child-IsValidNav tree s id node_entry open_entry v
            (λ n w. open_entry-IsValidNav tree n s id w))
          (if-either (IsValidNav tree) (equal action (utf8 "command"))
            (on_child-IsValidNav tree s id node_command select_command v
              (λ n w. select_command-IsValidNav tree n s id w))
            v)))
