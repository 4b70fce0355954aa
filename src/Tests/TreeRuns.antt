-- ===== src/Tests/TreeRuns.antt =====
-- The validation of a tree.
use fallout_terminal.Common.{[], Bytes, true, ◌≡◌, refl}
use fallout_terminal.Domain.Validate.Clear.{validate_tree-IsClear}
use fallout_terminal.Domain.Validate.{Visited, Checked, refused, checked, validate_tree}
use fallout_terminal.Nav.Search.{IsClear}
use fallout_terminal.Tests.Samples.{tree}
use fallout_terminal.Common.{is_blank}
use fallout_terminal.Common.{utf8}
use fallout_terminal.Common.{equal}

abbrev visited : Checked → Visited
visited (refused error) = record { count = 0; nodes_by_id = []; references = [] }
visited (checked seen) = seen

tree_passes :
    validate_tree (λ value. true) tree ≡ checked (visited (validate_tree (λ value. true) tree))
unfolding validate_tree fallout_terminal.Common.is_blank fallout_terminal.Common.utf8
    fallout_terminal.Common.equal
tree_passes = refl

validate_tree-IsClear_example : IsClear tree
validate_tree-IsClear_example =
    validate_tree-IsClear (λ value. true) tree (visited (validate_tree (λ value. true) tree))
      tree_passes
