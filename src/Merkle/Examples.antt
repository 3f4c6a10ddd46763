-- ===== src/Merkle/Examples.antt =====
-- The theorems on libs/merkle at concrete trees, with a hash that keeps what it is given.
use obtools.Common.{ℕ, ◌+◌, ◌≡◌, List, [], ◌∷◌, Bool, some}
use obtools.Merkle.{
  Node, leaf, branch, left_branch, Functions, traverse_preorder, traverse_breadth_first,
}
use obtools.Merkle.Visiting.{count, size, traverse_breadth_first_lem}

data Digest : Type 0 where
  of_leaf : ℕ → Digest
  of_nodes : Digest → Digest → Digest

abbrev number_of : Digest → ℕ
number_of (of_leaf n) = n
number_of (of_nodes a b) = 0

abbrev left_of : Digest → Digest
left_of (of_leaf n) = of_leaf n
left_of (of_nodes a b) = a

abbrev right_of : Digest → Digest
right_of (of_leaf n) = of_leaf n
right_of (of_nodes a b) = b

-- The sums of numbers, with the hash of a single child passed through.
abbrev keeping : Functions Digest ℕ ℕ
keeping = record {
  leaf_hash = of_leaf;
  leaf_data = λ n. n;
  branch_hash = λ a b. of_nodes a.0 b.0;
  single_hash = λ a. a.0;
  branch_data = λ a b. a.1 + b.1;
}

abbrev three : List ℕ
three = 7 ∷ 8 ∷ 9 ∷ []

abbrev root : Node ℕ
root = branch 0 (branch 1 (leaf 3 7) (leaf 4 8)) (left_branch 2 (leaf 5 9))

traverse_breadth_first_lem_example :
    (nodes : List (Node ℕ)) × (traverse_breadth_first (size root) root ≡ some nodes)
    × ((test : Node ℕ → Bool) → count test nodes ≡ count test (traverse_preorder root))
traverse_breadth_first_lem_example = traverse_breadth_first_lem root
