-- ===== src/Nav/Paths.antt =====
-- internal/nav/nav.go: folders that paths lead to.
use fallout_terminal.Common.{
  true, ◌&&◌, some, List, [], ◌∷◌, ◌++◌, Bytes, equal, equal_iff, equal_refl, ◌≡◌, inl, inr, refl,
  sym, ap, subst, ◌∙◌, arith, Option-cases, Bool-cases, and-eq-true,
}
use fallout_terminal.Domain.Tree.{ContentNode, Children, leaf, child, fields, node_folder}
use fallout_terminal.Nav.{
  matches, child_in, direct_child, descend, is_root, current_folder, drop_last, root_id,
}

pub child_in-named :
    (cs : Children) (id kind : Bytes) (n : ContentNode)
    → child_in cs id kind ≡ some n
    → ((fields n).id ≡ id) × ((fields n).kind ≡ kind)
unfolding child_in
child_in-named leaf id kind n h = ground arith
child_in-named (child m rest) id kind n h = elim (Bool-cases (matches m id kind)) [
  | inl hit ↦
      let both = and-eq-true (equal (fields m).id id) (equal (fields m).kind kind) hit in
      let same : m ≡ n = ground (arith, h, hit) in
      subst (λ k. ((fields k).id ≡ id) × ((fields k).kind ≡ kind)) same
        ((equal_iff (fields m).id id).0 both.0, (equal_iff (fields m).kind kind).0 both.1)
  | inr miss ↦ child_in-named rest id kind n (ground (arith, h, miss))
]

pub current_folder-root :
    (tree : ContentNode) (path : List Bytes) (f : ContentNode)
    → current_folder tree path ≡ some f
    → (is_root tree ≡ true)
      × (ids : List Bytes) × (path ≡ root_id ∷ ids)
      × (descend tree ids ≡ some f)
unfolding current_folder
current_folder-root tree [] f h = ground arith
current_folder-root tree (first ∷ ids) f h =
    elim (Bool-cases (equal first root_id && is_root tree)) [
      | inl hit ↦
          let both = and-eq-true (equal first root_id) _ hit in
          (
            both.1,
            ids,
            ap (λ x. x ∷ ids) ((equal_iff first root_id).0 both.0),
            ground (arith, h, hit),
          )
      | inr miss ↦ ground (arith, h, miss)
    ]

pub current_folder-at :
    (tree : ContentNode) (ids : List Bytes)
    → is_root tree ≡ true
    → current_folder tree (root_id ∷ ids) ≡ descend tree ids
unfolding current_folder
current_folder-at tree ids h = ground (arith, h, equal_refl root_id)

pub descend-step :
    (c next : ContentNode) (id : Bytes) (ids : List Bytes)
    → direct_child c id node_folder ≡ some next
    → descend c (id ∷ ids) ≡ descend next ids
unfolding descend
descend-step c next id ids hit = ground (arith, hit)

-- A path that leads somewhere starts with a child folder.
pub descend-first :
    (c f : ContentNode) (id : Bytes) (ids : List Bytes)
    → descend c (id ∷ ids) ≡ some f
    → (next : ContentNode) × (direct_child c id node_folder ≡ some next)
      × (descend next ids ≡ some f)
unfolding descend
descend-first c f id ids h = elim (Option-cases (direct_child c id node_folder)) [
  | inl miss ↦ ground (arith, h, miss)
  | inr (next, hit) ↦ (next, hit, sym (descend-step c next id ids hit) ∙ h)
]

pub descend-append :
    (c f n : ContentNode) (ids : List Bytes) (id : Bytes)
    → descend c ids ≡ some f
    → direct_child f id node_folder ≡ some n
    → descend c (ids ++ (id ∷ [])) ≡ some n
unfolding descend
descend-append c f n [] id h found = ground (arith, h, found)
descend-append c f n (x ∷ ids) id h found =
    let (next, hit, later) = descend-first c f x ids h in
    descend-step c next x (ids ++ (id ∷ [])) hit ∙ descend-append next f n ids id later found

pub descend-drop_last :
    (c f : ContentNode) (id : Bytes) (ids : List Bytes)
    → descend c (id ∷ ids) ≡ some f
    → (g : ContentNode) × (descend c (drop_last (id ∷ ids)) ≡ some g)
unfolding descend drop_last
descend-drop_last c f id [] h = (c, refl)
descend-drop_last c f id (other ∷ ids) h =
    let (next, hit, later) = descend-first c f id (other ∷ ids) h in
    let (g, found) = descend-drop_last next f other ids later in
    (g, descend-step c next id (drop_last (other ∷ ids)) hit ∙ found)
