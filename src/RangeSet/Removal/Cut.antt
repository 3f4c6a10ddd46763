-- ===== src/RangeSet/Removal/Cut.antt =====
-- Taking a range out of ranges in order, as a plain recursion: what `RangeSet::remove` of
-- libs/misc/ot-misc.h is held against.
use obtools.Common.{
  ℕ, ◌+◌, ◌-◌, ◌≤◌, ◌≡◌, refl, ap, ◌∙◌, Bool, List, [], ◌∷◌, ◌++◌, leb, ltb, ◌&&◌, ◌||◌, not, arith,
  min, max, if◌then◌else◌, Bool-cases, inl, inr,
}
use obtools.RangeSet.{Range}
use obtools.RangeSet.Order.{covers, covered, Fits, Ordered, Ordered-weaken}

-- What is left of `q` before `r` and after it.
abbrev pub left_of : Range → Range → List Range
left_of r q =
    if ltb q.start r.start
    then record { start = q.start; length = min (q.start + q.length) r.start - q.start } ∷ []
    else []

abbrev pub right_of : Range → Range → List Range
right_of r q =
    if ltb (r.start + r.length) (q.start + q.length)
    then record {
      start = max q.start (r.start + r.length);
      length = q.start + q.length - max q.start (r.start + r.length);
    }
      ∷ []
    else []

unfoldable pub cut : Range → List Range → List Range
cut r [] = []
cut r (q ∷ qs) = left_of r q ++ (right_of r q ++ cut r qs)

pub record IsCut (lo : ℕ) (r : Range) (qs out : List Range) : Type 0 where
  pub ordered : Ordered lo out
  pub same : (x : ℕ) → covered out x ≡ (covered qs x && not (covers r x))

-- One range before those of which nothing or all is cut.
cut_one-Ordered :
    (lo : ℕ) (r q : Range) (rest : List Range)
    → Fits r
    → lo ≤ q.start
    → Fits q
    → Ordered (q.start + q.length + 1) rest
    → Ordered lo (left_of r q ++ (right_of r q ++ rest))
cut_one-Ordered lo r q rest f h g o =
    let tail = λ (k : ℕ) (p : k ≤ q.start + q.length + 1). Ordered-weaken _ k rest p o in
    elim (Bool-cases (ltb q.start r.start)) [
      | inl a ↦ elim (Bool-cases (ltb (r.start + r.length) (q.start + q.length))) [
        | inl b ↦ rw (a, b) (h, ground arith, (ground arith, ground arith, tail _ (ground arith)))
        | inr b ↦ rw (a, b) (h, ground arith, tail _ (ground arith))
      ]
      | inr a ↦ elim (Bool-cases (ltb (r.start + r.length) (q.start + q.length))) [
        | inl b ↦ rw (a, b) (ground arith, ground arith, tail _ (ground arith))
        | inr b ↦ rw (a, b) (tail _ (ground arith))
      ]
    ]

-- The same two steps for what is covered.
covered-right :
    (r q : Range) (rest : List Range) (x : ℕ)
    → covered (right_of r q ++ rest) x
      ≡ ((covers q x && leb (r.start + r.length) x) || covered rest x)
covered-right r q rest x = elim (Bool-cases (ltb (r.start + r.length) (q.start + q.length))) [
  | inl b ↦ rw b (ground arith)
  | inr b ↦ rw b (ground arith)
]

covered-left :
    (r q : Range) (rest : List Range) (x : ℕ)
    → covered (left_of r q ++ rest) x ≡ ((covers q x && ltb x r.start) || covered rest x)
covered-left r q rest x = elim (Bool-cases (ltb q.start r.start)) [
  | inl a ↦ rw a (ground arith)
  | inr a ↦ rw a (ground arith)
]

outside :
    (r : Range) (q b c : Bool) (x : ℕ)
    → c ≡ (b && not (covers r x))
    → ((q && ltb x r.start) || ((q && leb (r.start + r.length) x) || c))
      ≡ ((q || b) && not (covers r x))
outside r q b c x h = ground arith

pub cut-IsCut :
    (lo : ℕ) (r : Range) (qs : List Range) → Fits r → Ordered lo qs → IsCut lo r qs (cut r qs)
unfolding cut
cut-IsCut lo r [] f o = record { ordered = tt; same = λ x. refl }
cut-IsCut lo r (q ∷ qs) f o =
    let ih = cut-IsCut (q.start + q.length + 1) r qs f o.2 in
    record {
      ordered = cut_one-Ordered lo r q (cut r qs) f o.0 o.1 ih.ordered;
      same = λ x.
          covered-left r q (right_of r q ++ cut r qs) x
          ∙ ap (λ b. (covers q x && ltb x r.start) || b) (covered-right r q (cut r qs) x)
          ∙ outside r (covers q x) (covered qs x) (covered (cut r qs) x) x (ih.same x);
    }
