-- ===== src/Huffman/Paths.antt =====
-- Where the mappings of a Huffman tree of libs/huffman lead.
use obtools.Common.{◌≡◌, refl, List, [], ◌∷◌, ◌++◌, Bool, true, false, All}
use obtools.Huffman.{Value, Node, nowhere, node, new_node, set_at, Mapping, add_mapping, populate}

abbrev pub child : Bool → Node → Node
child b nowhere = nowhere
child false (node leaf value z o) = z
child true (node leaf value z o) = o

-- Not a leaf: nothing, or a node on the way.
abbrev Open : Node → Type 0
Open nowhere = Unit {0}
Open (node true value z o) = ⊥
Open (node false value z o) = Unit {0}

abbrev pub IsLeaf : Value → Node → Type 0
IsLeaf v nowhere = ⊥
IsLeaf v (node true value z o) = value ≡ v
IsLeaf v (node false value z o) = ⊥

abbrev pub IsInner : Node → Type 0
IsInner nowhere = ⊥
IsInner (node true value z o) = ⊥
IsInner (node false value z o) = Unit {0}

-- A sequence leads from a node through inner nodes to a leaf with the value.
abbrev pub Leads : Node → List Bool → Value → Type 0
Leads n [] v = ⊥
Leads n (b ∷ []) v = IsLeaf v (child b n)
Leads n (b ∷ c ∷ bs) v = IsInner (child b n) × Leads (child b n) (c ∷ bs) v

-- No leaf stands on the way of a sequence, before its end.
abbrev Clear : Node → List Bool → Type 0
Clear n [] = ⊥
Clear n (b ∷ []) = Unit {0}
Clear n (b ∷ c ∷ bs) = Open (child b n) × Clear (child b n) (c ∷ bs)

-- The sequences part before either ends.
abbrev pub Apart : List Bool → List Bool → Type 0
Apart [] cs = ⊥
Apart (b ∷ bs) [] = ⊥
Apart (false ∷ bs) (false ∷ cs) = Apart bs cs
Apart (false ∷ bs) (true ∷ cs) = Unit {0}
Apart (true ∷ bs) (false ∷ cs) = Unit {0}
Apart (true ∷ bs) (true ∷ cs) = Apart bs cs

set_at-IsLeaf : (v : Value) (n : Node) → IsLeaf v (set_at [] v n)
unfolding set_at
set_at-IsLeaf v nowhere = refl
set_at-IsLeaf v (node leaf value z o) = refl

set_at-IsInner :
    (b : Bool) (bs : List Bool) (v : Value) (n : Node) → Open n → IsInner (set_at (b ∷ bs) v n)
unfolding set_at
set_at-IsInner false bs v nowhere h = tt
set_at-IsInner true bs v nowhere h = tt
set_at-IsInner b bs v (node true value z o) h = absurd h
set_at-IsInner false bs v (node false value z o) h = tt
set_at-IsInner true bs v (node false value z o) h = tt

child-set_at :
    (b : Bool) (bs : List Bool) (v : Value) (n : Node)
    → child b (set_at (b ∷ bs) v n) ≡ set_at bs v (child b n)
unfolding set_at
child-set_at false bs v nowhere = refl
child-set_at true bs v nowhere = refl
child-set_at false bs v (node leaf value z o) = refl
child-set_at true bs v (node leaf value z o) = refl

set_at-Leads : (bs : List Bool) (v : Value) (n : Node) → Clear n bs → Leads (set_at bs v n) bs v
set_at-Leads [] v n h = absurd h
set_at-Leads (b ∷ []) v n h = rw (child-set_at b [] v n) (set_at-IsLeaf v (child b n))
set_at-Leads (b ∷ c ∷ bs) v n h =
    rw (child-set_at b (c ∷ bs) v n)
      (set_at-IsInner c bs v (child b n) h.0, set_at-Leads (c ∷ bs) v (child b n) h.1)

IsInner-Open : (n : Node) → IsInner n → Open n
IsInner-Open nowhere h = tt
IsInner-Open (node true value z o) h = absurd h
IsInner-Open (node false value z o) h = tt

child_zero :
    (cs : List Bool) (w : Value) (n : Node) → child false (set_at (true ∷ cs) w n) ≡ child false n
unfolding set_at
child_zero cs w nowhere = refl
child_zero cs w (node leaf value z o) = refl

child_one :
    (cs : List Bool) (w : Value) (n : Node) → child true (set_at (false ∷ cs) w n) ≡ child true n
unfolding set_at
child_one cs w nowhere = refl
child_one cs w (node leaf value z o) = refl

-- A mapping changes nothing of a sequence that parts from its own.
Leads-set_at :
    (bs cs : List Bool) (v w : Value) (n : Node)
    → Apart bs cs
    → Leads n bs v
    → Leads (set_at cs w n) bs v
Leads-set_at [] cs v w n a h = absurd h
Leads-set_at (b ∷ bs) [] v w n a h = absurd a
Leads-set_at (false ∷ []) (false ∷ cs) v w n a h = absurd a
Leads-set_at (true ∷ []) (true ∷ cs) v w n a h = absurd a
Leads-set_at (false ∷ []) (true ∷ cs) v w n a h = rw (child_zero cs w n) h
Leads-set_at (true ∷ []) (false ∷ cs) v w n a h = rw (child_one cs w n) h
Leads-set_at (false ∷ c ∷ bs) (true ∷ cs) v w n a h = rw (child_zero cs w n) h
Leads-set_at (true ∷ c ∷ bs) (false ∷ cs) v w n a h = rw (child_one cs w n) h
Leads-set_at (false ∷ c ∷ bs) (false ∷ []) v w n a h = absurd a
Leads-set_at (true ∷ c ∷ bs) (true ∷ []) v w n a h = absurd a
Leads-set_at (false ∷ c ∷ bs) (false ∷ d ∷ cs) v w n a h = rw (child-set_at false (d ∷ cs) w n) (
  set_at-IsInner d cs w (child false n) (IsInner-Open (child false n) h.0),
  Leads-set_at (c ∷ bs) (d ∷ cs) v w (child false n) a h.1,
)
Leads-set_at (true ∷ c ∷ bs) (true ∷ d ∷ cs) v w n a h = rw (child-set_at true (d ∷ cs) w n) (
  set_at-IsInner d cs w (child true n) (IsInner-Open (child true n) h.0),
  Leads-set_at (c ∷ bs) (d ∷ cs) v w (child true n) a h.1,
)

Clear-set_at :
    (bs cs : List Bool) (w : Value) (n : Node) → Apart bs cs → Clear n bs → Clear (set_at cs w n) bs
Clear-set_at [] cs w n a h = absurd h
Clear-set_at (b ∷ bs) [] w n a h = absurd a
Clear-set_at (b ∷ []) (c ∷ cs) w n a h = tt
Clear-set_at (false ∷ c ∷ bs) (true ∷ cs) w n a h = rw (child_zero cs w n) h
Clear-set_at (true ∷ c ∷ bs) (false ∷ cs) w n a h = rw (child_one cs w n) h
Clear-set_at (false ∷ c ∷ bs) (false ∷ []) w n a h = absurd a
Clear-set_at (true ∷ c ∷ bs) (true ∷ []) w n a h = absurd a
Clear-set_at (false ∷ c ∷ bs) (false ∷ d ∷ cs) w n a h = rw (child-set_at false (d ∷ cs) w n) (
  IsInner-Open _ (set_at-IsInner d cs w (child false n) h.0),
  Clear-set_at (c ∷ bs) (d ∷ cs) w (child false n) a h.1,
)
Clear-set_at (true ∷ c ∷ bs) (true ∷ d ∷ cs) w n a h = rw (child-set_at true (d ∷ cs) w n) (
  IsInner-Open _ (set_at-IsInner d cs w (child true n) h.0),
  Clear-set_at (c ∷ bs) (d ∷ cs) w (child true n) a h.1,
)

-- The sequence parts from those of all the mappings.
abbrev pub ApartAll : List Bool → List Mapping → Type 0
ApartAll bs ms = All (λ m. Apart bs m.sequence) ms

populate-Leads :
    (ms : List Mapping) (bs : List Bool) (v : Value) (n : Node)
    → ApartAll bs ms
    → Leads n bs v
    → Leads (populate ms n) bs v
unfolding populate add_mapping
populate-Leads [] bs v n a h = h
populate-Leads (m ∷ ms) bs v n a h =
    populate-Leads ms bs v (set_at m.sequence m.value n) a.1
      (Leads-set_at bs m.sequence v m.value n a.0 h)

populate-Clear :
    (ms : List Mapping) (bs : List Bool) (n : Node)
    → ApartAll bs ms
    → Clear n bs
    → Clear (populate ms n) bs
unfolding populate add_mapping
populate-Clear [] bs n a h = h
populate-Clear (m ∷ ms) bs n a h =
    populate-Clear ms bs (set_at m.sequence m.value n) a.1
      (Clear-set_at bs m.sequence m.value n a.0 h)

populate-append :
    (xs ys : List Mapping) (n : Node) → populate (xs ++ ys) n ≡ populate ys (populate xs n)
unfolding populate
populate-append [] ys n = refl
populate-append (m ∷ xs) ys n = populate-append xs ys (add_mapping m n)

Clear-nowhere : (b : Bool) (bs : List Bool) → Clear nowhere (b ∷ bs)
Clear-nowhere b [] = tt
Clear-nowhere b (c ∷ bs) = (tt, Clear-nowhere c bs)

Clear-new_node : (b : Bool) (bs : List Bool) → Clear new_node (b ∷ bs)
Clear-new_node b [] = tt
Clear-new_node false (c ∷ bs) = (tt, Clear-nowhere c bs)
Clear-new_node true (c ∷ bs) = (tt, Clear-nowhere c bs)

pub populate-Leads_added :
    (xs ys : List Mapping) (b : Bool) (bs : List Bool) (v : Value)
    → ApartAll (b ∷ bs) xs
    → ApartAll (b ∷ bs) ys
    → Leads (populate (xs ++ record { sequence = b ∷ bs; value = v } ∷ ys) new_node) (b ∷ bs) v
unfolding populate add_mapping
populate-Leads_added xs ys b bs v a c =
    rw (populate-append xs (record { sequence = b ∷ bs; value = v } ∷ ys) new_node) (
      populate-Leads ys (b ∷ bs) v (set_at (b ∷ bs) v (populate xs new_node)) c (
        set_at-Leads (b ∷ bs) v (populate xs new_node)
          (populate-Clear xs (b ∷ bs) new_node a (Clear-new_node b bs))))
