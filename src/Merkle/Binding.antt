-- ===== src/Merkle/Binding.antt =====
-- What the root hash of libs/merkle/ot-merkle.h says of the leaves.
use obtools.Common.{◌≡◌, List, [], ◌∷◌, Option, none, some}
use obtools.Merkle.{Node, leaf, branch, left_branch, Functions}
use obtools.Merkle.Building.{leaves_of}

-- Hash functions under which different inputs have different hashes.
pub record CollisionFree {H D L : Type 0} (f : Functions H D L) : Type 0 where
  pub leaf_apart : (a b : L) → f.leaf_hash a ≡ f.leaf_hash b → a ≡ b
  pub branch_apart :
      (a b c d : H × D) → f.branch_hash a b ≡ f.branch_hash c d → (a.0 ≡ c.0) × (b.0 ≡ d.0)
  pub single_apart : (a b : H × D) → f.single_hash a ≡ f.single_hash b → a.0 ≡ b.0

module _ {L : Type 0} where
  -- Trees of one shape.
  abbrev Alike : Node L → Node L → Type 0
  Alike (leaf i l) (leaf j m) = Unit {0}
  Alike (branch i a b) (branch j c d) = Alike a c × Alike b d
  Alike (left_branch i a) (left_branch j c) = Alike a c
  Alike t u = ⊥

  abbrev AllAlike : List (Node L) → List (Node L) → Type 0
  AllAlike [] [] = Unit {0}
  AllAlike (t ∷ ts) (u ∷ us) = Alike t u × AllAlike ts us
  AllAlike ts us = ⊥

  abbrev BothAlike : Option (Node L) → Option (Node L) → Type 0
  BothAlike none none = Unit {0}
  BothAlike (some t) (some u) = Alike t u
  BothAlike t u = ⊥

  abbrev leaves_in : Option (Node L) → List L
  leaves_in none = []
  leaves_in (some t) = leaves_of t
