-- ===== src/Nav/Repair.antt =====
-- internal/nav/nav.go: what Revalidate makes of a navigation state when the tree has changed.
use fallout_terminal.Common.{
  true, Option, none, some, List, [], ◌∷◌, ◌++◌, Bytes, equal, utf8, ◌≡◌, ◌⊎◌, inl, inr, refl, ap,
  ◌∙◌, arith, Option-cases, if◌then◌else◌,
}
use fallout_terminal.Domain.Tree.{
  ContentNode, NavState, children_of, node_folder, node_command, node_entry,
}
use fallout_terminal.Nav.Valid.{IsValidNav, Names}
use fallout_terminal.Nav.Paths.{
  child_in-named, current_folder-root, current_folder-at, descend-step, descend-first,
}
use fallout_terminal.Nav.{
  direct_child, descend, is_root, current_folder, follow, rest_of, revalidated_path, keep_child,
  revalidate, mode_of, mode_entry, root_id,
}

-- A part of a path that leads to a folder from which the rest does not lead on.
pub record IsLongest (c : ContentNode) (ids valid : List Bytes) (f : ContentNode) : Type 0 where
  pub rest : List Bytes
  pub front : ids ≡ valid ++ rest
  pub leads : descend c valid ≡ some f
  pub stops :
      (rest ≡ [])
      ⊎ ((id : Bytes) × (later : List Bytes) × (rest ≡ id ∷ later)
          × (direct_child f id node_folder ≡ none))

follow-stop :
    (c : ContentNode) (id : Bytes) (ids : List Bytes)
    → direct_child c id node_folder ≡ none
    → follow c (id ∷ ids) ≡ ([], c)
unfolding follow
follow-stop c id ids miss = ground (arith, miss)

follow-step :
    (c next : ContentNode) (id : Bytes) (ids : List Bytes)
    → direct_child c id node_folder ≡ some next
    → follow c (id ∷ ids) ≡ (id ∷ (follow next ids).0, (follow next ids).1)
unfolding follow
follow-step c next id ids hit =
    ground (arith, hit, child_in-named (children_of c) id node_folder next hit)

follow-IsLongest :
    (c : ContentNode) (ids : List Bytes) → IsLongest c ids (follow c ids).0 (follow c ids).1
unfolding follow descend
follow-IsLongest c [] = record { rest = []; front = refl; leads = refl; stops = inl refl }
follow-IsLongest c (id ∷ ids) = elim (Option-cases (direct_child c id node_folder)) [
  | inl miss ↦
      rw (follow-stop c id ids miss)
        (record { rest = id ∷ ids; front = refl; leads = refl; stops = inr (id, ids, refl, miss) })
  | inr (next, hit) ↦
      let later = follow-IsLongest next ids in
      rw (follow-step c next id ids hit) (record {
        rest = later.rest;
        front = ap (λ x. id ∷ x) later.front;
        leads = descend-step c next id (follow next ids).0 hit ∙ later.leads;
        stops = later.stops;
      })
]

-- In a tree whose root is the folder `root`, revalidation keeps the longest part of the path, behind
-- its first ID, that still leads through folders, and the kept path leads to the folder where it
-- stops.
pub revalidated_path-IsLongest :
    (tree : ContentNode) (path : List Bytes)
    → is_root tree ≡ true
    → (ids : List Bytes) × ((revalidated_path tree path).0 ≡ root_id ∷ ids)
      × IsLongest tree (rest_of path) ids (revalidated_path tree path).1
      × (current_folder tree (revalidated_path tree path).0 ≡ some (revalidated_path tree path).1)
unfolding revalidated_path
revalidated_path-IsLongest tree path root =
    let long = follow-IsLongest tree (rest_of path) in
    (
      (follow tree (rest_of path)).0,
      refl,
      long,
      current_folder-at tree (follow tree (rest_of path)).0 root ∙ long.leads,
    )

keep_child-Names :
    (folder : ContentNode) (kind : Bytes) (ref : Option Bytes)
    → Names folder kind (keep_child folder kind ref)
unfolding keep_child
keep_child-Names folder kind none = tt
keep_child-Names folder kind (some id) = elim (Option-cases (direct_child folder id kind)) [
  | inl miss ↦ rw (miss, keep_child) tt
  | inr (n, hit) ↦ rw (hit, keep_child) (n, hit)
]

keep_child-named :
    (folder : ContentNode) (kind : Bytes) (ref : Option Bytes)
    → Names folder kind ref
    → keep_child folder kind ref ≡ ref
unfolding keep_child
keep_child-named folder kind none named = refl
keep_child-named folder kind (some id) (n, hit) = ground (arith, hit)

-- Whatever the state was, the revalidated one is a state that the tree allows, if the tree's root is
-- the folder `root`.
pub revalidate-IsValidNav :
    (tree : ContentNode) (s : NavState) → is_root tree ≡ true → IsValidNav tree (revalidate s tree)
unfolding revalidate
revalidate-IsValidNav tree s root =
    let (ids, front, long, resolves) = revalidated_path-IsLongest tree s.path root in
    record {
      folder = (revalidated_path tree s.path).1;
      resolves = resolves;
      mode_is = refl;
      view = keep_child-Names (revalidated_path tree s.path).1 node_entry _;
      command = keep_child-Names (revalidated_path tree s.path).1 node_command s.command_node_id;
    }

follow-valid :
    (c f : ContentNode) (ids : List Bytes) → descend c ids ≡ some f → follow c ids ≡ (ids, f)
unfolding follow descend
follow-valid c f [] h = ground (arith, h)
follow-valid c f (id ∷ ids) h =
    let (next, hit, later) = descend-first c f id ids h in
    rw (follow-step c next id ids hit) (rw (follow-valid next f ids later) refl)

viewed_again :
    (s : NavState)
    → s.mode ≡ mode_of s.view_entry_id
    → (if equal s.mode mode_entry then s.view_entry_id else none) ≡ s.view_entry_id
unfolding equal utf8
viewed_again s h = go s.view_entry_id s.mode h
  where
    go :
        (view : Option Bytes) (mode : Bytes)
        → mode ≡ mode_of view
        → (if equal mode mode_entry then view else none) ≡ view
    go none mode h = rw h refl
    go (some id) mode h = rw h refl

-- A state that the tree allows is kept as it is; so a second revalidation changes nothing.
pub revalidate_keeps :
    (tree : ContentNode) (s : NavState) → IsValidNav tree s → revalidate s tree ≡ s
unfolding revalidate revalidated_path
revalidate_keeps tree s v =
    let (root, ids, path, leads) = current_folder-root tree s.path v.folder v.resolves in
    let valid : revalidated_path tree s.path ≡ (s.path, v.folder) =
      rw path (rw (follow-valid tree v.folder ids leads) refl) in
    let viewed = keep_child-named v.folder node_entry s.view_entry_id v.view in
    let selected = keep_child-named v.folder node_command s.command_node_id v.command in
    ground (arith, valid, viewed_again s v.mode_is, viewed, selected, v.mode_is)
