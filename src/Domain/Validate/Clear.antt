-- ===== src/Domain/Validate/Clear.antt =====
-- internal/domain/validate.go: what a validated tree means for navigation.
use fallout_terminal.Common.{
  ℕ, ◌+◌, Bool, true, false, none, some, [], Bytes, equal, equal_iff, equal_refl, lookup, ◌≡◌, ◌≢◌,
  refl, sym, inl, inr, arith, Option-cases, Bool-cases, subst, ◌⊎◌, if◌then◌else◌,
}
use fallout_terminal.Domain.Tree.{
  ContentNode, node, Children, leaf, child, NodeFields, fields, node_folder,
}
use fallout_terminal.Domain.Validate.{
  TreeError, Checked, refused, checked, Visited, first_error, entry_tests, kind_tests, enter, visit,
  visit_children, validate_tree,
}
use fallout_terminal.Nav.Search.{IsClear, AllClear}
use fallout_terminal.Nav.{matches, child_in}

-- No child has this ID.
IsUnnamed : Bytes → Children → Type 0
IsUnnamed id leaf = Unit
IsUnnamed id (child n rest) = ((fields n).id ≢ id) × IsUnnamed id rest

child_in-first :
    (n : ContentNode) (rest : Children)
    → (fields n).kind ≡ node_folder
    → child_in (child n rest) (fields n).id node_folder ≡ some n
unfolding child_in
child_in-first n rest e =
    ground (arith, equal_refl (fields n).id, (equal_iff (fields n).kind node_folder).1 e)

AllClear-child :
    (m : ContentNode) (all cs : Children)
    → IsUnnamed (fields m).id cs
    → AllClear all cs
    → AllClear (child m all) cs
unfolding IsUnnamed IsClear child_in
AllClear-child m all leaf others clear = tt
AllClear-child m all (child n rest) (differs, others) (first, inner, later) = (
  (λ e. elim (Bool-cases (matches m (fields n).id node_folder)) [
    | inl same ↦
        absurd (differs (sym ((equal_iff (fields m).id (fields n).id).0 (ground (arith, same)))))
    | inr other ↦ rw other (first e)
  ]),
  inner,
  AllClear-child m all rest others later,
)

-- What a visit that succeeds has seen.
record HasVisited (n : ContentNode) (seen next : Visited) : Type 0 where
  fresh : lookup (fields n).id seen.nodes_by_id ≡ none
  marked : lookup (fields n).id next.nodes_by_id ≢ none
  keeps : (id : Bytes) → lookup id next.nodes_by_id ≡ none → lookup id seen.nodes_by_id ≡ none
  clear : IsClear n

record HasVisitedAll (cs : Children) (seen next : Visited) : Type 0 where
  keeps : (id : Bytes) → lookup id next.nodes_by_id ≡ none → lookup id seen.nodes_by_id ≡ none
  apart : (id : Bytes) → lookup id seen.nodes_by_id ≢ none → IsUnnamed id cs
  clear : AllClear cs cs

Checked-cases :
    (c : Checked)
    → ((error : TreeError) × (c ≡ refused error)) ⊎ ((next : Visited) × (c ≡ checked next))
Checked-cases (refused error) = inl (error, refl)
Checked-cases (checked next) = inr (next, refl)

module _ (json_valid : Bytes → Bool) where
  -- What a visit goes on with once the tests of the node have passed.
  onward : NodeFields → Children → ℕ → Visited → Checked
  onward f cs depth seen =
      let entered = enter json_valid f cs seen in
      if equal f.kind node_folder
      then visit_children json_valid cs (depth + 1) entered
      else checked entered

  visit-passed :
      (f : NodeFields) (cs : Children) (depth : ℕ) (seen next : Visited)
      → visit json_valid (node f cs) depth seen ≡ checked next
      → (first_error (entry_tests json_valid f depth seen) ≡ none)
        × (first_error (kind_tests f cs) ≡ none)
        × (onward f cs depth seen ≡ checked next)
  unfolding visit onward
  visit-passed f cs depth seen next h =
      elim (Option-cases (first_error (entry_tests json_valid f depth seen))) [
        | inr (error, fails) ↦ ground (arith, h, fails)
        | inl passed ↦ elim (Option-cases (first_error (kind_tests f cs))) [
          | inr (error, fails) ↦ ground (arith, h, passed, fails)
          | inl fits ↦ (passed, fits, ground (arith, h, passed, fits))
        ]
      ]

  visit_children-passed :
      (n : ContentNode) (rest : Children) (depth : ℕ) (seen next : Visited)
      → visit_children json_valid (child n rest) depth seen ≡ checked next
      → (mid : Visited) × (visit json_valid n depth seen ≡ checked mid)
        × (visit_children json_valid rest depth mid ≡ checked next)
  unfolding visit
  visit_children-passed n rest depth seen next h =
      elim (Checked-cases (visit json_valid n depth seen)) [
        | inl (error, fails) ↦ ground (arith, h, fails)
        | inr (mid, passed) ↦ (mid, passed, ground (arith, h, passed))
      ]

  entry_tests-fresh :
      (f : NodeFields) (depth : ℕ) (seen : Visited)
      → first_error (entry_tests json_valid f depth seen) ≡ none
      → lookup f.id seen.nodes_by_id ≡ none
  unfolding first_error entry_tests
  entry_tests-fresh f depth seen h = elim (Option-cases (lookup f.id seen.nodes_by_id)) [
    | inl fresh ↦ fresh
    | inr (n, known) ↦ ground (arith, h, known)
  ]

  kind_tests-leaf :
      (f : NodeFields) (cs : Children)
      → equal f.kind node_folder ≡ false
      → first_error (kind_tests f cs) ≡ none
      → cs ≡ leaf
  unfolding first_error kind_tests
  kind_tests-leaf f leaf other h = refl
  kind_tests-leaf f (child n rest) other h = ground (arith, h, other)

  enter-marks :
      (f : NodeFields) (cs : Children) (seen : Visited)
      → lookup f.id (enter json_valid f cs seen).nodes_by_id ≢ none
  unfolding enter lookup
  enter-marks f cs seen h = ground (arith, h, equal_refl f.id)

  enter-keeps :
      (f : NodeFields) (cs : Children) (seen : Visited) (id : Bytes)
      → lookup id (enter json_valid f cs seen).nodes_by_id ≡ none
      → lookup id seen.nodes_by_id ≡ none
  unfolding enter lookup
  enter-keeps f cs seen id h = ground (arith, h)

  onward-folder :
      (f : NodeFields) (cs : Children) (depth : ℕ) (seen next : Visited)
      → equal f.kind node_folder ≡ true
      → onward f cs depth seen ≡ checked next
      → visit_children json_valid cs (depth + 1) (enter json_valid f cs seen) ≡ checked next
  unfolding onward
  onward-folder f cs depth seen next folder h = ground (arith, h, folder)

  onward-other :
      (f : NodeFields) (cs : Children) (depth : ℕ) (seen next : Visited)
      → equal f.kind node_folder ≡ false
      → onward f cs depth seen ≡ checked next
      → enter json_valid f cs seen ≡ next
  unfolding onward
  onward-other f cs depth seen next other h = ground (arith, h, other)

  visit_children-end :
      (depth : ℕ) (seen next : Visited)
      → visit_children json_valid leaf depth seen ≡ checked next
      → seen ≡ next
  unfolding visit
  visit_children-end depth seen next h = ground (arith, h)

  IsClear-leaf : (f : NodeFields) (cs : Children) → cs ≡ leaf → IsClear (node f cs)
  unfolding IsClear
  IsClear-leaf f cs e = rw e tt

  HasVisited-entered :
      (f : NodeFields) (cs : Children) (seen next : Visited)
      → lookup f.id seen.nodes_by_id ≡ none
      → ((id : Bytes)
          → lookup id next.nodes_by_id ≡ none
          → lookup id (enter json_valid f cs seen).nodes_by_id ≡ none)
      → IsClear (node f cs)
      → HasVisited (node f cs) seen next
  HasVisited-entered f cs seen next fresh later clear = record {
    fresh = fresh;
    marked = λ h. enter-marks f cs seen (later f.id h);
    keeps = λ id h. enter-keeps f cs seen id (later id h);
    clear = clear;
  }

  mutual
    unfolding IsClear IsUnnamed

    visit-HasVisited :
        (n : ContentNode) (depth : ℕ) (seen next : Visited)
        → visit json_valid n depth seen ≡ checked next
        → HasVisited n seen next
    visit-HasVisited (node f cs) depth seen next h =
        let (passed, fits, on) = visit-passed f cs depth seen next h in
        let fresh = entry_tests-fresh f depth seen passed in
        elim (Bool-cases (equal f.kind node_folder)) [
          | inl folder ↦
              let below =
                visit_children-HasVisitedAll cs (depth + 1) (enter json_valid f cs seen) next
                  (onward-folder f cs depth seen next folder on) in
              HasVisited-entered f cs seen next fresh below.keeps below.clear
          | inr other ↦
              let same = onward-other f cs depth seen next other on in
              HasVisited-entered f cs seen next fresh
                (λ id h. subst (λ (v : Visited). lookup id v.nodes_by_id ≡ none) (sym same) h)
                (IsClear-leaf f cs (kind_tests-leaf f cs other fits))
        ]

    visit_children-HasVisitedAll :
        (cs : Children) (depth : ℕ) (seen next : Visited)
        → visit_children json_valid cs depth seen ≡ checked next
        → HasVisitedAll cs seen next
    visit_children-HasVisitedAll leaf depth seen next h =
        let same = visit_children-end depth seen next h in
        record {
          keeps = λ id h. subst (λ (v : Visited). lookup id v.nodes_by_id ≡ none) (sym same) h;
          apart = λ id h. tt;
          clear = tt;
        }
    visit_children-HasVisitedAll (child n rest) depth seen next h =
        let (mid, first, others) = visit_children-passed n rest depth seen next h in
        let here = visit-HasVisited n depth seen mid first in
        let later = visit_children-HasVisitedAll rest depth mid next others in
        record {
          keeps = λ id h. here.keeps id (later.keeps id h);
          apart = λ id known. (
            (λ e. known (subst (λ k. lookup k seen.nodes_by_id ≡ none) e here.fresh)),
            later.apart id (λ h. known (here.keeps id h)),
          );
          clear = (
            (λ e. child_in-first n rest e),
            here.clear,
            AllClear-child n rest rest (later.apart (fields n).id here.marked) later.clear,
          );
        }

-- In a tree that passes validation, every folder is the one that its ID leads to.
pub validate_tree-IsClear :
    (json_valid : Bytes → Bool) (root : ContentNode) (seen : Visited)
    → validate_tree json_valid root ≡ checked seen
    → IsClear root
unfolding validate_tree
validate_tree-IsClear json_valid root seen h =
    (visit-HasVisited json_valid root 1 (record { count = 0; nodes_by_id = []; references = [] })
      seen h).clear
