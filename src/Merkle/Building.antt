-- ===== src/Merkle/Building.antt =====
-- The tree that libs/merkle/ot-merkle.h builds over a row of leaves.
use obtools.Common.{ℕ, zero, suc, ◌+◌, ◌*◌, ◌%◌, ◌^◌, ◌≡◌, refl, ap₂, List, [], ◌∷◌, ◌++◌}
use obtools.Merkle.{Node, leaf, branch, left_branch, set_index}

module _ {L : Type 0} where
  abbrev pub leaves_of : Node L → List L
  leaves_of (leaf i l) = l ∷ []
  leaves_of (branch i left right) = leaves_of left ++ leaves_of right
  leaves_of (left_branch i left) = leaves_of left

  abbrev leaves_of_all : List (Node L) → List L
  leaves_of_all [] = []
  leaves_of_all (n ∷ ns) = leaves_of n ++ leaves_of_all ns

  -- All leaves are at the same depth.
  abbrev pub Level : ℕ → Node L → Type 0
  Level zero (leaf i l) = Unit {0}
  Level zero (branch i left right) = ⊥
  Level zero (left_branch i left) = ⊥
  Level (suc k) (leaf i l) = ⊥
  Level (suc k) (branch i left right) = Level k left × Level k right
  Level (suc k) (left_branch i left) = Level k left

  -- The indexes of a tree whose root has the index `i`.
  abbrev pub Numbered : ℕ → Node L → Type 0
  Numbered i (leaf j l) = j ≡ i
  Numbered i (branch j left right) =
      (j ≡ i) × Numbered ((2 * i + 1) % 2 ^ 64) left × Numbered ((2 * i + 2) % 2 ^ 64) right
  Numbered i (left_branch j left) = (j ≡ i) × Numbered ((2 * i + 1) % 2 ^ 64) left

  pub leaves_of-set_index : (i : ℕ) (n : Node L) → leaves_of (set_index i n) ≡ leaves_of n
  unfolding set_index
  leaves_of-set_index i (leaf j l) = refl
  leaves_of-set_index i (branch j left right) =
      ap₂ (λ u v. u ++ v) (leaves_of-set_index ((2 * i + 1) % 2 ^ 64) left)
        (leaves_of-set_index ((2 * i + 2) % 2 ^ 64) right)
  leaves_of-set_index i (left_branch j left) = leaves_of-set_index ((2 * i + 1) % 2 ^ 64) left
