-- ===== src/Nav/Search.antt =====
-- internal/nav/nav.go: the search for a folder by its ID.
use mathlib.Core.List.{append-nil, append_assoc}
use fallout_terminal.Common.{
  false, none, some, List, [], ◌∷◌, ◌++◌, Bytes, equal, equal_iff, equal_refl, ◌≡◌, refl, sym, ap,
  ◌∙◌, arith, Option-cases, Bool-cases, inl, inr,
}
use fallout_terminal.Domain.Tree.{ContentNode, node, Children, leaf, child, fields, node_folder}
use fallout_terminal.Nav.Paths.{descend-step, descend-first}
use fallout_terminal.Nav.{matches, child_in, descend, visit, visit_children}

-- Every folder is the one that its ID leads to: no sibling folder in front of it has its ID.
unfoldable mutual
  pub IsClear : ContentNode → Type 0
  IsClear (node f children) = AllClear children children

  pub AllClear : Children → Children → Type 0
  AllClear all leaf = Unit
  AllClear all (child n rest) =
      ((fields n).kind ≡ node_folder → child_in all (fields n).id node_folder ≡ some n)
      × IsClear n
      × AllClear all rest

-- What a search below a folder finds.
pub record IsFound (c : ContentNode) (folder_id : Bytes) (path found : List Bytes) : Type 0 where
  pub ids : List Bytes
  pub folder : ContentNode
  pub below : found ≡ path ++ ids
  pub leads : descend c ids ≡ some folder
  pub same : (fields folder).id ≡ folder_id

pub record IsFoundIn (all : Children) (folder_id : Bytes) (path found : List Bytes) : Type 0 where
  pub id : Bytes
  pub next : ContentNode
  pub hit : child_in all id node_folder ≡ some next
  pub under : IsFound next folder_id (path ++ (id ∷ [])) found

visit_children-hit :
    (folder_id : Bytes) (n : ContentNode) (rest : Children) (path found : List Bytes)
    → (fields n).kind ≡ node_folder
    → visit folder_id n (path ++ ((fields n).id ∷ [])) ≡ some found
    → visit_children folder_id (child n rest) path ≡ some found
unfolding visit
visit_children-hit folder_id n rest path found kind h =
    ground (arith, h, (equal_iff (fields n).kind node_folder).1 kind)

visit_children-other :
    (folder_id : Bytes) (n : ContentNode) (rest : Children) (path : List Bytes)
    → equal (fields n).kind node_folder ≡ false
    → visit_children folder_id (child n rest) path ≡ visit_children folder_id rest path
unfolding visit
visit_children-other folder_id n rest path h = ground (arith, h)

visit_children-miss :
    (folder_id : Bytes) (n : ContentNode) (rest : Children) (path : List Bytes)
    → visit folder_id n (path ++ ((fields n).id ∷ [])) ≡ none
    → visit_children folder_id (child n rest) path ≡ visit_children folder_id rest path
unfolding visit
visit_children-miss folder_id n rest path h = ground (arith, h)

mutual
  unfolding visit IsClear descend

  pub visit-IsFound :
      (folder_id : Bytes) (n : ContentNode) (path found : List Bytes)
      → IsClear n
      → visit folder_id n path ≡ some found
      → IsFound n folder_id path found
  visit-IsFound folder_id (node f children) path found clear h =
      elim (Bool-cases (equal f.id folder_id)) [
        | inl here ↦ record {
          ids = [];
          folder = node f children;
          below = ground (arith, h, here, append-nil path);
          leads = refl;
          same = (equal_iff f.id folder_id).0 here;
        }
        | inr deeper ↦
            let r =
              visit_children-IsFoundIn folder_id children children path found clear
                (ground (arith, h, deeper)) in
            record {
              ids = r.id ∷ r.under.ids;
              folder = r.under.folder;
              below = r.under.below ∙ append_assoc path (r.id ∷ []) r.under.ids;
              leads = descend-step (node f children) r.next r.id r.under.ids r.hit ∙ r.under.leads;
              same = r.under.same;
            }
      ]

  visit_children-IsFoundIn :
      (folder_id : Bytes) (all cs : Children) (path found : List Bytes)
      → AllClear all cs
      → visit_children folder_id cs path ≡ some found
      → IsFoundIn all folder_id path found
  visit_children-IsFoundIn folder_id all leaf path found clear h = ground (arith, h)
  visit_children-IsFoundIn folder_id all (child n rest) path found (first, clear, others) h =
      let below = visit-IsFound folder_id n (path ++ ((fields n).id ∷ [])) in
      let later = visit_children-IsFoundIn folder_id all rest path found others in
      elim (Bool-cases (equal (fields n).kind node_folder)) [
        | inl kind ↦
            let is_folder = (equal_iff (fields n).kind node_folder).0 kind in
            elim (Option-cases (visit folder_id n (path ++ ((fields n).id ∷ [])))) [
              | inl miss ↦ later (sym (visit_children-miss folder_id n rest path miss) ∙ h)
              | inr (p, hit) ↦ record {
                id = (fields n).id;
                next = n;
                hit = first is_folder;
                under =
                    below found clear
                      (hit ∙ sym (visit_children-hit folder_id n rest path p is_folder hit) ∙ h);
              }
            ]
        | inr other ↦ later (sym (visit_children-other folder_id n rest path other) ∙ h)
      ]

visit_children_finds :
    (folder_id id : Bytes) (cs : Children) (next : ContentNode) (path : List Bytes)
    → child_in cs id node_folder ≡ some next
    → ((path : List Bytes) → (found : List Bytes) × (visit folder_id next path ≡ some found))
    → (found : List Bytes) × (visit_children folder_id cs path ≡ some found)
unfolding child_in
visit_children_finds folder_id id leaf next path h finds = ground (arith, h)
visit_children_finds folder_id id (child m rest) next path h finds =
    elim (Option-cases (visit folder_id m (path ++ ((fields m).id ∷ [])))) [
      | inl miss ↦ elim (Bool-cases (matches m id node_folder)) [
        | inl this ↦
            let same : m ≡ next = ground (arith, h, this) in
            let (found, hit) = finds (path ++ ((fields m).id ∷ [])) in
            ground
              (arith, miss, hit, ap (λ k. visit folder_id k (path ++ ((fields m).id ∷ []))) same)
        | inr other ↦
            let (found, hit) =
              visit_children_finds folder_id id rest next path (ground (arith, h, other)) finds in
            (found, visit_children-miss folder_id m rest path miss ∙ hit)
      ]
      | inr (p, hit) ↦ elim (Bool-cases (equal (fields m).kind node_folder)) [
        | inl kind ↦ (
          p,
          visit_children-hit folder_id m rest path p
              ((equal_iff (fields m).kind node_folder).0 kind) hit,
        )
        | inr other ↦
            let (found, again) =
              visit_children_finds folder_id id rest next path (ground (arith, h, other)) finds in
            (found, visit_children-other folder_id m rest path other ∙ again)
      ]
    ]

pub visit_finds :
    (folder_id : Bytes) (n f : ContentNode) (ids path : List Bytes)
    → descend n ids ≡ some f
    → (fields f).id ≡ folder_id
    → (found : List Bytes) × (visit folder_id n path ≡ some found)
unfolding visit descend
visit_finds folder_id (node nf cs) f [] path h same =
    (path, ground (arith, h, same, equal_refl folder_id))
visit_finds folder_id (node nf cs) f (id ∷ ids) path h same =
    let (next, hit, later) = descend-first (node nf cs) f id ids h in
    let (found, below) =
      visit_children_finds folder_id id cs next path hit
        (λ p. visit_finds folder_id next f ids p later same) in
    elim (Bool-cases (equal nf.id folder_id)) [
      | inl here ↦ (path, ground (arith, here))
      | inr deeper ↦ (found, ground (arith, deeper, below))
    ]
