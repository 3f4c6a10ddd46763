-- ===== src/Merkle/Visiting.antt =====
-- The two orders in which libs/merkle/ot-merkle.h visits the nodes of a tree.
use obtools.Common.{
  ℕ, zero, suc, ◌+◌, ◌≤◌, ◌≡◌, refl, ap, ◌∙◌, List, [], ◌∷◌, ◌++◌, Bool, some, if◌then◌else◌, arith,
}
use obtools.Merkle.{
  Node, leaf, branch, left_branch, traverse_preorder, push_children, with_first, breadth_first_loop,
  traverse_breadth_first,
}

module _ {L : Type 0} where
  -- How many of the nodes pass a test.
  abbrev pub count : (Node L → Bool) → List (Node L) → ℕ
  count test [] = 0
  count test (n ∷ ns) = (if test n then 1 else 0) + count test ns

  abbrev below : List (Node L) → List (Node L)
  below [] = []
  below (n ∷ ns) = traverse_preorder n ++ below ns

  count-append :
      (test : Node L → Bool) (xs ys : List (Node L))
      → count test (xs ++ ys) ≡ count test xs + count test ys
  count-append test [] ys = omega arith
  count-append test (x ∷ xs) ys = omega (arith, count-append test xs ys)

  below-append-count :
      (test : Node L → Bool) (xs ys : List (Node L))
      → count test (below (xs ++ ys)) ≡ count test (below xs) + count test (below ys)
  below-append-count test [] ys = omega arith
  below-append-count test (x ∷ xs) ys = omega (
    arith,
    count-append test (traverse_preorder x) (below (xs ++ ys)),
    count-append test (traverse_preorder x) (below xs),
    below-append-count test xs ys,
  )

  -- The number of the nodes of a tree, and of the trees of a row.
  abbrev pub size : Node L → ℕ
  size (leaf i l) = 1
  size (branch i left right) = 1 + size left + size right
  size (left_branch i left) = 1 + size left

  abbrev total : List (Node L) → ℕ
  total [] = 0
  total (n ∷ ns) = size n + total ns

  total-append : (xs ys : List (Node L)) → total (xs ++ ys) ≡ total xs + total ys
  total-append [] ys = omega arith
  total-append (x ∷ xs) ys = omega (arith, total-append xs ys)

  total-push_children :
      (queue : List (Node L)) (n : Node L)
      → suc (total (push_children queue n)) ≡ size n + total queue
  unfolding push_children
  total-push_children queue (leaf i l) = omega arith
  total-push_children queue (branch i a b) = omega (arith, total-append queue (a ∷ b ∷ []))
  total-push_children queue (left_branch i a) = omega (arith, total-append queue (a ∷ []))

  count-push_children :
      (test : Node L → Bool) (queue : List (Node L)) (n : Node L)
      → (if test n then 1 else 0) + count test (below (push_children queue n))
        ≡ count test (below (n ∷ queue))
  unfolding push_children traverse_preorder
  count-push_children test queue (leaf i l) = omega arith
  count-push_children test queue (branch i a b) = omega (
    arith,
    below-append-count test queue (a ∷ b ∷ []),
    count-append test (traverse_preorder a) (traverse_preorder b ++ []),
    count-append test (traverse_preorder b) [],
    count-append test (traverse_preorder a ++ traverse_preorder b) (below queue),
    count-append test (traverse_preorder a) (traverse_preorder b),
  )
  count-push_children test queue (left_branch i a) = omega (
    arith,
    below-append-count test queue (a ∷ []),
    count-append test (traverse_preorder a) [],
    count-append test (traverse_preorder a) (below queue),
  )

  breadth_first_loop_lem :
      (fuel : ℕ) (queue : List (Node L))
      → total queue ≤ fuel
      → (nodes : List (Node L)) × (breadth_first_loop fuel queue ≡ some nodes)
        × ((test : Node L → Bool) → count test nodes ≡ count test (below queue))
  unfolding breadth_first_loop
  breadth_first_loop_lem fuel [] h = ([], refl, λ test. refl)
  breadth_first_loop_lem zero (n ∷ queue) h = absurd (omega (arith, total-push_children queue n))
  breadth_first_loop_lem (suc fuel) (n ∷ queue) h =
      let (nodes, e, c) =
        breadth_first_loop_lem fuel (push_children queue n)
          (omega (arith, total-push_children queue n)) in
      (
        n ∷ nodes,
        ap (with_first n) e,
        λ test. ap (λ k. (if test n then 1 else 0) + k) (c test) ∙ count-push_children test queue n,
      )

  -- Breadth first, in as many turns as the tree has nodes, the same nodes are visited as in preorder,
  -- each as often: whatever test is applied to them, as many pass it.
  pub traverse_breadth_first_lem :
      (root : Node L)
      → (nodes : List (Node L)) × (traverse_breadth_first (size root) root ≡ some nodes)
        × ((test : Node L → Bool) → count test nodes ≡ count test (traverse_preorder root))
  unfolding traverse_breadth_first
  traverse_breadth_first_lem root =
      let (nodes, e, c) = breadth_first_loop_lem (size root) (root ∷ []) (omega arith) in
      (nodes, e, λ test. omega (arith, c test, count-append test (traverse_preorder root) []))
