-- ===== src/RangeSet/Order.antt =====
-- The state of a range set in libs/misc/ot-misc.h that its operations rely on ("no overlaps, no two
-- ranges touch", libs/misc/range.cc), and the offsets that it covers.
use obtools.Common.{
  ℕ, ◌+◌, ◌^◌, ◌≤◌, ◌<◌, ◌≡◌, Bool, false, List, [], ◌∷◌, leb, ltb, ◌&&◌, ◌||◌, arith, add64_fits,
  sub64_fits, min, max,
}
use obtools.RangeSet.{Range, end, merge, overlaps_with, contained_by}

-- The offsets of a range and of a list of ranges.
abbrev pub covers : Range → ℕ → Bool
covers r x = leb r.start x && ltb x (r.start + r.length)

abbrev pub covered : List Range → ℕ → Bool
covered [] x = false
covered (r ∷ rs) x = covers r x || covered rs x

abbrev pub Fits : Range → Type 0
Fits r = (0 < r.length) × (r.start + r.length < 2 ^ 64)

-- From `lo` on, in order, none empty, none beyond 64 bits, and a gap between each two.
abbrev pub Ordered : ℕ → List Range → Type 0
Ordered lo [] = Unit
Ordered lo (r ∷ rs) = (lo ≤ r.start) × Fits r × Ordered (r.start + r.length + 1) rs

pub Ordered-weaken : (lo lo' : ℕ) (rs : List Range) → lo' ≤ lo → Ordered lo rs → Ordered lo' rs
Ordered-weaken lo lo' [] h o = tt
Ordered-weaken lo lo' (r ∷ rs) h o = (omega arith, o.1, o.2)

pub end_lem : (r : Range) → Fits r → end r ≡ r.start + r.length
unfolding end
end_lem r f = add64_fits r.start r.length f.1

-- Merging two ranges that touch or overlap covers what the two cover.
pub merge_lem :
    (r q : Range)
    → Fits r
    → Fits q
    → r.start ≤ q.start + q.length
    → q.start ≤ r.start + r.length
    → ((merge r q).start ≡ min r.start q.start)
      × ((merge r q).start + (merge r q).length ≡ max (r.start + r.length) (q.start + q.length))
      × Fits (merge r q)
unfolding merge
merge_lem r q f g h k = ground (
  arith,
  end_lem r f,
  end_lem q g,
  sub64_fits (max (r.start + r.length) (q.start + q.length)) (min r.start q.start) (omega arith)
      (omega arith),
)

pub overlaps_iff :
    (q r : Range)
    → Fits q
    → Fits r
    → r.start ≤ q.start + q.length
    → overlaps_with q r ≡ leb q.start (r.start + r.length)
unfolding overlaps_with
overlaps_iff q r f g h = ground (arith, end_lem q f, end_lem r g)

pub contained_iff :
    (r q : Range)
    → Fits r
    → Fits q
    → contained_by r q ≡ (leb q.start r.start && leb (r.start + r.length) (q.start + q.length))
unfolding contained_by
contained_iff r q f g = rw (end_lem r f, end_lem q g)
