-- ===== src/Huffman/Decoding.antt =====
-- Reading a value bit by bit through a Huffman tree: Tree::read_value of libs/huffman/tree.cc.
use obtools.Common.{ℕ, ◌≡◌, refl, ap, ◌∙◌, List, [], ◌∷◌, ◌++◌, Bool, true, false, some}
use obtools.Channel.{Action, return, Reader}
use obtools.Channel.Streams.{Stream}
use obtools.Channel.BitStream.{BitReader}
use obtools.Channel.BitStream.Waiting.{BitValid, waiting, Gives, read_bit_lem}
use obtools.Huffman.{Value, Node, nowhere, node, new_node, Mapping, populate, at_node, read_value}
use obtools.Huffman.Paths.{IsLeaf, IsInner, Leads, ApartAll, populate-Leads_added}

abbrev pub bits_of_sequence : List Bool → List ℕ
bits_of_sequence [] = []
bits_of_sequence (false ∷ bs) = 0 ∷ bits_of_sequence bs
bits_of_sequence (true ∷ bs) = 1 ∷ bits_of_sequence bs

at_leaf :
    {S : Type 0} (n : Node) (v : Value) (go_on : Action S _)
    → IsLeaf v n
    → at_node n go_on ≡ return (some v)
at_leaf nowhere v go_on h = absurd h
at_leaf (node true value z o) v go_on h = ap (λ u. return (some u)) h
at_leaf (node false value z o) v go_on h = absurd h

at_inner : {S : Type 0} (n : Node) (go_on : Action S _) → IsInner n → at_node n go_on ≡ go_on
at_inner nowhere go_on h = absurd h
at_inner (node true value z o) go_on h = absurd h
at_inner (node false value z o) go_on h = refl

module _ {S : Type 0} {r : Reader S} (stream : Stream r) where
  read_value-Leads :
      (n : Node) (bs : List Bool) (v : Value) (tl : List ℕ) (b : BitReader S)
      → Leads n bs v
      → BitValid stream b
      → waiting stream b ≡ bits_of_sequence bs ++ tl
      → Gives stream (read_value r n b) (some v) tl
  unfolding read_value
  read_value-Leads n [] v tl b h valid e = absurd h
  read_value-Leads nowhere (c ∷ []) v tl b h valid e = absurd h
  read_value-Leads nowhere (c ∷ d ∷ bs) v tl b h valid e = absurd h.0
  read_value-Leads (node l w z o) (false ∷ []) v tl b h valid e =
      let (b1, e1, v1, w1) = read_bit_lem stream 0 tl b valid e in
      (b1, rw e1 (ap (λ f. f b1) (at_leaf z v _ h)), v1, w1)
  read_value-Leads (node l w z o) (true ∷ []) v tl b h valid e =
      let (b1, e1, v1, w1) = read_bit_lem stream 1 tl b valid e in
      (b1, rw e1 (ap (λ f. f b1) (at_leaf o v _ h)), v1, w1)
  read_value-Leads (node l w z o) (false ∷ c ∷ bs) v tl b h valid e =
      let (b1, e1, v1, w1) = read_bit_lem stream 0 (bits_of_sequence (c ∷ bs) ++ tl) b valid e in
      let (b2, e2, v2, w2) = read_value-Leads z (c ∷ bs) v tl b1 h.1 v1 w1 in
      (b2, rw e1 (ap (λ f. f b1) (at_inner z (λ b'. read_value r z b') h.0) ∙ e2), v2, w2)
  read_value-Leads (node l w z o) (true ∷ c ∷ bs) v tl b h valid e =
      let (b1, e1, v1, w1) = read_bit_lem stream 1 (bits_of_sequence (c ∷ bs) ++ tl) b valid e in
      let (b2, e2, v2, w2) = read_value-Leads o (c ∷ bs) v tl b1 h.1 v1 w1 in
      (b2, rw e1 (ap (λ f. f b1) (at_inner o (λ b'. read_value r o b') h.0) ∙ e2), v2, w2)

-- In a tree of mappings no value is lost: if a sequence parts from those of the mappings added before
-- and after it, a reader whose bits begin with it reads its value, and leaves the bits after it.
pub read_value-populate :
    {S : Type 0} {r : Reader S} (stream : Stream r) (xs ys : List Mapping) (c : Bool)
    (bs : List Bool) (v : Value) (tl : List ℕ) (b : BitReader S)
    → ApartAll (c ∷ bs) xs
    → ApartAll (c ∷ bs) ys
    → BitValid stream b
    → waiting stream b ≡ bits_of_sequence (c ∷ bs) ++ tl
    → Gives stream
        (read_value r (populate (xs ++ record { sequence = c ∷ bs; value = v } ∷ ys) new_node) b)
        (some v)
        tl
read_value-populate stream xs ys c bs v tl b before behind valid e =
    read_value-Leads stream (populate (xs ++ record { sequence = c ∷ bs; value = v } ∷ ys) new_node)
      (c ∷ bs) v tl b (populate-Leads_added xs ys c bs v before behind) valid e
