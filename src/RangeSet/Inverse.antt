-- ===== src/RangeSet/Inverse.antt =====
-- The holes of a range set of libs/misc/ot-misc.h.
use obtools.Common.{
  ℕ, ◌+◌, ◌-◌, ◌≤◌, ◌<◌, ◌≡◌, refl, List, [], ◌∷◌, ◌++◌, ltb, not, arith, if◌then◌else◌,
}
use obtools.RangeSet.{Range, RangeSet, set_insert}
use obtools.RangeSet.Order.{covered, Ordered}

-- The holes from `last` on.
holes : ℕ → ℕ → List Range → List Range
holes total last [] =
    if ltb last total then record { start = last; length = total - last } ∷ [] else []
holes total last (r ∷ rs) =
    let rest = holes total (r.start + r.length) rs in
    if ltb last r.start then record { start = last; length = r.start - last } ∷ rest else rest

-- All start before `lo`.
abbrev pub Before : ℕ → List Range → Type 0
Before lo [] = Unit
Before lo (r ∷ rs) = (r.start < lo) × Before lo rs

pub Before-weaken : (lo lo' : ℕ) (rs : List Range) → lo ≤ lo' → Before lo rs → Before lo' rs
Before-weaken lo lo' [] h b = tt
Before-weaken lo lo' (r ∷ rs) h b = (omega arith, Before-weaken lo lo' rs h b.1)

pub Before-last :
    (lo lo' : ℕ) (r : Range) (rs : List Range)
    → lo ≤ lo'
    → r.start < lo'
    → Before lo rs
    → Before lo' (rs ++ r ∷ [])
Before-last lo lo' r [] h k b = (k, tt)
Before-last lo lo' r (q ∷ qs) h k b = (omega arith, Before-last lo lo' r qs h k b.1)

pub Before-append :
    (lo : ℕ) (xs ys : List Range) → Before lo xs → Before lo ys → Before lo (xs ++ ys)
Before-append lo [] ys b c = c
Before-append lo (x ∷ xs) ys b c = (b.0, Before-append lo xs ys b.1 c)

pub set_insert_last :
    (r : Range) (rs : List Range) → Before r.start rs → set_insert r rs ≡ rs ++ r ∷ []
unfolding set_insert
set_insert_last r [] b = refl
set_insert_last r (q ∷ qs) b = ground (arith, set_insert_last r qs b.1)

record Complement (total last : ℕ) (rs hs : List Range) : Type 0 where
  ordered : Ordered last hs
  opposite : (x : ℕ) → last ≤ x → x < total → covered hs x ≡ not (covered rs x)
