-- ===== src/Tests/NavRuns.antt =====
-- Navigation on concrete inputs.
use fallout_terminal.Common.{
  true, false, some, List, [], ◌∷◌, Bytes, ◌≡◌, ◌≢◌, refl, encode_rune, arith, subst, ap, sym, ◌∙◌,
  utf8, equal,
}
use fallout_terminal.Domain.Tree.{
  ContentNode, NavState, fields, node_entry, node_command, node_folder,
}
use fallout_terminal.Nav.Find.{
  IsUnique, find_folder_path_finds, find_folder_path_complete, restore_folder-IsValidNav,
  at_root-IsValidNav,
}
use fallout_terminal.Nav.Paths.{current_folder-root, descend-first}
use fallout_terminal.Nav.Search.{IsClear}
use fallout_terminal.Nav.Repair.{
  IsLongest, revalidated_path-IsLongest, revalidate-IsValidNav, revalidate_keeps,
}
use fallout_terminal.Nav.Valid.{IsValidNav, apply_action-IsValidNav}
use fallout_terminal.Nav.{
  apply_action, revalidate, revalidated_path, rest_of, find_folder_path, restore_folder,
  current_folder, direct_child, descend, default_state, is_root, root_id, mode_entry, child_in,
}
use fallout_terminal.Tests.Samples.{tree, outer, inner, outer_id, inner_id, entry_id}

rooted : is_root tree ≡ true
unfolding equal utf8
rooted = refl

apply_action-IsValidNav_example :
    IsValidNav tree (apply_action default_state tree (utf8 "enter") outer_id)
apply_action-IsValidNav_example =
    apply_action-IsValidNav tree default_state (utf8 "enter") outer_id
      (at_root-IsValidNav tree rooted)

abbrev stale_path : List Bytes
stale_path = root_id ∷ outer_id ∷ entry_id ∷ inner_id ∷ []

abbrev stale : NavState
stale = record {
  path = stale_path;
  mode = mode_entry;
  view_entry_id = some entry_id;
  command_node_id = some inner_id;
}

revalidated_path-IsLongest_example :
    (ids : List Bytes) × ((revalidated_path tree stale_path).0 ≡ root_id ∷ ids)
    × IsLongest tree (rest_of stale_path) ids (revalidated_path tree stale_path).1
    × (current_folder tree (revalidated_path tree stale_path).0
        ≡ some (revalidated_path tree stale_path).1)
revalidated_path-IsLongest_example = revalidated_path-IsLongest tree stale_path rooted

revalidate-IsValidNav_example : IsValidNav tree (revalidate stale tree)
revalidate-IsValidNav_example = revalidate-IsValidNav tree stale rooted

revalidate_keeps_example : revalidate (revalidate stale tree) tree ≡ revalidate stale tree
revalidate_keeps_example =
    revalidate_keeps tree (revalidate stale tree) (revalidate-IsValidNav tree stale rooted)

entry_differs : node_entry ≢ node_folder
unfolding utf8 encode_rune
entry_differs e = ground (arith, e)

command_differs : node_command ≢ node_folder
unfolding utf8 encode_rune
command_differs e = ground (arith, e)

clear : IsClear tree
unfolding IsClear child_in equal utf8 encode_rune
clear = (
  (λ e. refl),
  (
    (λ e. absurd (entry_differs e)),
    tt,
    ((λ e. absurd (command_differs e)), tt, ((λ e. refl), tt, tt)),
  ),
  tt,
)

abbrev inner_path : List Bytes
inner_path = root_id ∷ outer_id ∷ inner_id ∷ []

inner_found : find_folder_path tree inner_id ≡ some inner_path
unfolding find_folder_path equal utf8
inner_found = refl

find_folder_path_finds_example :
    (f : ContentNode) × (current_folder tree inner_path ≡ some f) × ((fields f).id ≡ inner_id)
find_folder_path_finds_example = find_folder_path_finds tree inner_id inner_path clear inner_found

inner_there : current_folder tree inner_path ≡ some inner
unfolding current_folder equal utf8
inner_there = refl

inner_named : equal (fields inner).id [] ≡ false
unfolding equal
inner_named = refl

no_more : (g : ContentNode) (id : Bytes) (ids : List Bytes) → descend inner (id ∷ ids) ≢ some g
unfolding child_in
no_more g id ids h =
    let (next, hit, later) = descend-first inner g id ids h in absurd (ground (arith, hit))

outer_only :
    (id : Bytes) (next : ContentNode) → direct_child tree id node_folder ≡ some next → next ≡ outer
unfolding child_in
outer_only id next h = ground (arith, h)

inner_only :
    (id : Bytes) (next : ContentNode) → direct_child outer id node_folder ≡ some next → next ≡ inner
unfolding child_in equal utf8 encode_rune
inner_only id next h = ground (arith, h)

-- The folder that a path leads to is the one that it leads to.
leads_to :
    (f g h : ContentNode)
    → some f ≡ some g
    → (fields g).id ≡ (fields inner).id
    → f ≡ h
    → (fields h).id ≡ (fields inner).id
leads_to f g h e same this = let one : f ≡ g = cc in ap (λ n. (fields n).id) (sym this ∙ one) ∙ same

outer_differs : (fields outer).id ≢ (fields inner).id
outer_differs e = ground (arith, e)

root_differs : (fields tree).id ≢ (fields inner).id
unfolding utf8 encode_rune
root_differs e = ground (arith, e)

inner-IsUnique : IsUnique tree inner
unfolding descend utf8 encode_rune
inner-IsUnique path g h same =
    let (root, ids, e, leads) = current_folder-root tree path g h in go ids leads
  where
    deeper :
        (next : ContentNode) (ids : List Bytes)
        → next ≡ inner
        → descend next ids ≡ some g
        → g ≡ inner
    deeper next [] e leads = cc
    deeper next (id ∷ ids) e leads =
        absurd (no_more g id ids (subst (λ k. descend k (id ∷ ids) ≡ some g) e leads))

    under :
        (next : ContentNode) (ids : List Bytes)
        → next ≡ outer
        → descend next ids ≡ some g
        → g ≡ inner
    under next [] e leads = absurd (outer_differs (leads_to next g outer leads same e))
    under next (id ∷ ids) e leads =
        let (n, hit, later) =
          descend-first outer g id ids (subst (λ k. descend k (id ∷ ids) ≡ some g) e leads) in
        deeper n ids (inner_only id n hit) later

    go : (ids : List Bytes) → descend tree ids ≡ some g → g ≡ inner
    go [] leads = absurd (root_differs (leads_to tree g tree leads same refl))
    go (id ∷ ids) leads =
        let (next, hit, later) = descend-first tree g id ids leads in
        under next ids (outer_only id next hit) later

find_folder_path_complete_example :
    (found : List Bytes) × (find_folder_path tree inner_id ≡ some found)
    × (current_folder tree found ≡ some inner)
find_folder_path_complete_example =
    find_folder_path_complete tree inner inner_path clear inner_there inner_named inner-IsUnique

restore_folder-IsValidNav_example :
    IsValidNav tree (restore_folder tree entry_id (root_id ∷ outer_id ∷ []))
restore_folder-IsValidNav_example =
    restore_folder-IsValidNav tree entry_id (root_id ∷ outer_id ∷ []) rooted clear
