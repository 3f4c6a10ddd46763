-- ===== src/Huffman.antt =====
-- Huffman trees: libs/huffman (Value and Node of ot-huffman.h, node.cc, Tree of tree.cc). A value's
-- flags are its constructor, and a pointer to a node is the node.
pub mod Paths
pub mod Decoding
mod Examples
use obtools.Common.{
  ℕ, zero, suc, List, [], ◌∷◌, Bool, true, false, Option, none, some, ◌==◌, if◌then◌else◌,
}
use obtools.Channel.{Error, Action, Outcome, returned, thrown, return, Reader}
use obtools.Channel.BitStream.{BitReader, read_bit}

pub data Special : Type 0 where
  start : Special
  stop : Special
  escape : Special

pub data Value : Type 0 where
  not_set : Value
  byte_value : ℕ → Value
  special_value : Special → Value

-- A null pointer, or a node: whether it is a leaf, its value, and where the bits 0 and 1 lead.
pub data Node : Type 0 where
  nowhere : Node
  node : Bool → Value → Node → Node → Node

abbrev pub new_node : Node
new_node = node false (byte_value 0) nowhere nowhere

-- ensure_node on a sequence, and set_value on what it finds or makes.
unfoldable pub set_at : List Bool → Value → Node → Node
set_at [] v nowhere = node true v nowhere nowhere
set_at [] v (node leaf value z o) = node true v z o
set_at (false ∷ bs) v nowhere = node false (byte_value 0) (set_at bs v nowhere) nowhere
set_at (true ∷ bs) v nowhere = node false (byte_value 0) nowhere (set_at bs v nowhere)
set_at (false ∷ bs) v (node leaf value z o) = node leaf value (set_at bs v z) o
set_at (true ∷ bs) v (node leaf value z o) = node leaf value z (set_at bs v o)

pub record Mapping : Type 0 where
  pub sequence : List Bool
  pub value : Value

unfoldable pub add_mapping : Mapping → Node → Node
add_mapping m root = set_at m.sequence m.value root

-- A tree to which mappings are added, one after the other.
unfoldable pub populate : List Mapping → Node → Node
populate [] root = root
populate (m ∷ ms) root = populate ms (add_mapping m root)

-- The node at the end of a sequence, and its value.
unfoldable pub get_node : Node → List Bool → Node
get_node nowhere bs = nowhere
get_node (node leaf value z o) [] = node leaf value z o
get_node (node leaf value z o) (false ∷ bs) = get_node z bs
get_node (node leaf value z o) (true ∷ bs) = get_node o bs

abbrev pub value_of : Node → Option Value
value_of nowhere = none
value_of (node leaf value z o) = some value

unfoldable pub read_sequence : Node → List Bool → Option Value
read_sequence root bs = value_of (get_node root bs)

-- An error of the channel is caught, and the answer is false.
abbrev pub caught :
    {S A B : Type 0} → Outcome S A → (A → Action S (Option B)) → Outcome S (Option B)
caught (returned a s) f = f a s
caught (thrown e s) f = returned none s

-- What follows the step to a node: an end where there is none, its value if it is a leaf.
abbrev pub at_node : {S : Type 0} → Node → Action S (Option Value) → Action S (Option Value)
at_node nowhere go_on = return none
at_node (node true value z o) go_on = return (some value)
at_node (node false value z o) go_on = go_on

unfoldable pub read_value : {S : Type 0} → Reader S → Node → Action (BitReader S) (Option Value)
read_value r nowhere b = returned none b
read_value r (node leaf value z o) b = caught (read_bit r b) (λ bit.
    if bit == 0 then at_node z (λ b'. read_value r z b') else at_node o (λ b'. read_value r o b'))
