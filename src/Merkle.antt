-- ===== src/Merkle.antt =====
-- Merkle trees: libs/merkle/ot-merkle.h. The functions on hashes and data are the arguments of the
-- template; of a node they read its hash and its data.
pub mod Building
pub mod Binding
pub mod Visiting
mod Examples
use obtools.Common.{
  ℕ, zero, suc, ◌+◌, ◌*◌, ◌%◌, ◌^◌, List, [], ◌∷◌, ◌++◌, map, Option, none, some, length, ltb,
  if◌then◌else◌,
}

-- A leaf, and a branch of two nodes or of a left one alone, each with its index.
pub data Node (L : Type 0) : Type 0 where
  leaf : ℕ → L → Node L
  branch : ℕ → Node L → Node L → Node L
  left_branch : ℕ → Node L → Node L

pub record Functions (H D L : Type 0) : Type 0 where
  pub leaf_hash : L → H
  pub leaf_data : L → D
  pub branch_hash : H × D → H × D → H
  pub single_hash : H × D → H
  pub branch_data : H × D → H × D → D

module _ {H D L : Type 0} (f : Functions H D L) where
  unfoldable pub seen : Node L → H × D
  seen (leaf i l) = (f.leaf_hash l, f.leaf_data l)
  seen (branch i left right) =
      let a = seen left in let b = seen right in (f.branch_hash a b, f.branch_data a b)
  seen (left_branch i left) = let a = seen left in (f.single_hash a, a.1)

  unfoldable pub get_hash : Node L → H
  get_hash n = (seen n).0

  unfoldable pub get_data : Node L → D
  get_data n = (seen n).1

module _ {L : Type 0} where
  -- The nodes in the order in which they are handed to the callback.
  unfoldable pub traverse_preorder : Node L → List (Node L)
  traverse_preorder (leaf i l) = leaf i l ∷ []
  traverse_preorder (branch i left right) =
      branch i left right ∷ (traverse_preorder left ++ traverse_preorder right)
  traverse_preorder (left_branch i left) = left_branch i left ∷ traverse_preorder left

  unfoldable pub push_children : List (Node L) → Node L → List (Node L)
  push_children queue (leaf i l) = queue
  push_children queue (branch i left right) = queue ++ (left ∷ right ∷ [])
  push_children queue (left_branch i left) = queue ++ (left ∷ [])

  unfoldable pub set_index : ℕ → Node L → Node L
  set_index index (leaf i l) = leaf index l
  set_index index (branch i left right) =
      branch index (set_index ((2 * index + 1) % 2 ^ 64) left)
        (set_index ((2 * index + 2) % 2 ^ 64) right)
  set_index index (left_branch i left) =
      left_branch index (set_index ((2 * index + 1) % 2 ^ 64) left)

  unfoldable pub get_parent_nodes : List (Node L) → List (Node L)
  get_parent_nodes [] = []
  get_parent_nodes (a ∷ []) = left_branch 0 a ∷ []
  get_parent_nodes (a ∷ b ∷ rest) = branch 0 a b ∷ get_parent_nodes rest

  -- `none` is a run that is not over, or a first node of no nodes.
  unfoldable pub build_loop : ℕ → List (Node L) → Option (Node L)
  build_loop fuel [] = none
  build_loop fuel (a ∷ []) = some a
  build_loop zero (a ∷ b ∷ rest) = none
  build_loop (suc fuel) (a ∷ b ∷ rest) = build_loop fuel (get_parent_nodes (a ∷ b ∷ rest))

  unfoldable pub leaf_nodes : List L → List (Node L)
  leaf_nodes [] = []
  leaf_nodes (l ∷ ls) = leaf 0 l ∷ leaf_nodes ls

  unfoldable pub build_tree : ℕ → List L → Option (Node L)
  build_tree fuel leaves = build_loop fuel (leaf_nodes leaves)

  abbrev pub indexed : Option (Node L) → Option (Node L)
  indexed none = none
  indexed (some root) = some (set_index 0 root)

  -- The constructor of the tree.
  unfoldable pub make_tree : ℕ → List L → Option (Node L)
  make_tree fuel leaves = indexed (build_tree fuel leaves)

  abbrev pub with_first : Node L → Option (List (Node L)) → Option (List (Node L))
  with_first node none = none
  with_first node (some nodes) = some (node ∷ nodes)

  -- `none` is a run that is not over.
  unfoldable pub breadth_first_loop : ℕ → List (Node L) → Option (List (Node L))
  breadth_first_loop fuel [] = some []
  breadth_first_loop zero (node ∷ queue) = none
  breadth_first_loop (suc fuel) (node ∷ queue) =
      with_first node (breadth_first_loop fuel (push_children queue node))

  unfoldable pub traverse_breadth_first : ℕ → Node L → Option (List (Node L))
  traverse_breadth_first fuel root = breadth_first_loop fuel (root ∷ [])
