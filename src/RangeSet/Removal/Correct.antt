-- ===== src/RangeSet/Removal/Correct.antt =====
-- Where `RangeSet::remove` of libs/misc/ot-misc.h takes out exactly the range that it is given.
use obtools.Common.{
  ℕ, zero, suc, ◌+◌, ◌-◌, ◌^◌, ◌≤◌, ◌<◌, ◌≡◌, ◌≢◌, ◌⊎◌, refl, sym, ap, ◌∙◌, Bool, true, false, List,
  [], ◌∷◌, ◌++◌, leb, ltb, ◌&&◌, ◌||◌, not, ◌==◌, arith, if◌then◌else◌, Option, some, none,
  Bool-cases, inl, inr, lt→ltb,
}
use obtools.Common
use obtools.RangeSet.{Range, RangeSet, Position, lower_bound, starts_after}
use obtools.RangeSet.Order.{covered, Fits, Ordered}
use obtools.RangeSet.Inverse.{Before}
use obtools.RangeSet.Insert.{lower_bound_none, starts_after_all}
use obtools.RangeSet.Removal.{remove_back, remove_position, remove_loop, remove}
use obtools.RangeSet.Removal.Cut.{cut, cut-IsCut}
use obtools.RangeSet.Removal.Loop.{Apart, Usable, cut_beyond, cut_before, remove_loop_lem}

-- Of each two neighbours, if the one ends before `r` starts and the other starts after that, the
-- other does not start inside `r`.
abbrev pub Anchored : Range → List Range → Type 0
Anchored r [] = Unit
Anchored r (p ∷ []) = Unit
Anchored r (p ∷ q ∷ qs) =
    (p.start + p.length < r.start → r.start < q.start → r.start + r.length ≤ q.start)
    × Anchored r (q ∷ qs)

three : (a b : ℕ) → (a < b) ⊎ ((a ≡ b) ⊎ (b < a))
three a b = grind arith

record Located (lo : ℕ) (r : Range) (rs : List Range) (p : Position) : Type 0 where
  joins : p.0 ++ cut r p.1 ≡ cut r rs
  bound : ℕ
  before : Before bound p.0
  ordered : Ordered bound p.1
  from : lo ≤ bound
  usable : Usable r p.1
  apart : Apart r p.1
  short : Common.length p.1 ≤ Common.length rs

Located-here :
    (lo : ℕ) (r : Range) (rs : List Range)
    → Ordered lo rs
    → Apart r rs
    → Usable r rs
    → Located lo r rs ([], rs)
Located-here lo r rs o a u = record {
  joins = refl;
  bound = lo;
  before = tt;
  ordered = o;
  from = omega arith;
  usable = u;
  apart = a;
  short = omega arith;
}

Located-cons :
    (lo : ℕ) (r q : Range) (rs : List Range) (p : Position)
    → Fits r
    → Fits q
    → lo ≤ q.start
    → q.start + q.length < r.start
    → Located (q.start + q.length + 1) r rs p
    → Located lo r (q ∷ rs) (q ∷ p.0, p.1)
Located-cons lo r q rs p f g h k l = record {
  joins = rw (cut_before r q rs f g k) (ap (λ t. q ∷ t) l.joins);
  bound = l.bound;
  before = (omega (arith, l.from), l.before);
  ordered = l.ordered;
  from = omega (arith, l.from);
  usable = l.usable;
  apart = l.apart;
  short = omega (arith, l.short);
}

remove_back_cons :
    (start : ℕ) (q p : Range) (ps after : List Range)
    → remove_back start (q ∷ p ∷ ps, after)
      ≡ (q ∷ (remove_back start (p ∷ ps, after)).0, (remove_back start (p ∷ ps, after)).1)
unfolding remove_back
remove_back_cons start q p ps after = elim (Bool-cases (starts_after start after)) [
  | inl t ↦ rw t
  | inr t ↦ rw t
]

remove_position_here :
    (start lo : ℕ) (q : Range) (qs : List Range)
    → start ≤ q.start
    → remove_position start (q ∷ qs) ≡ ([], q ∷ qs)
unfolding remove_position
remove_position_here start lo q qs h = let e : ltb q.start start ≡ false = ground arith in rw e

remove_position_back :
    (start : ℕ) (q : Range) (qs : List Range)
    → q.start < start
    → lower_bound start qs ≡ ([], qs)
    → starts_after start qs ≡ true
    → remove_position start (q ∷ qs) ≡ ([], q ∷ qs)
unfolding remove_position
remove_position_back start q qs h e t = rw (lt→ltb _ _ h, e, t)

remove_position_next :
    (start : ℕ) (q : Range) (qs : List Range)
    → q.start < start
    → lower_bound start qs ≡ ([], qs)
    → starts_after start qs ≡ false
    → remove_position start (q ∷ qs) ≡ (q ∷ [], qs)
unfolding remove_position
remove_position_next start q qs h e t = rw (lt→ltb _ _ h, e, t)

remove_position_cons :
    (start : ℕ) (q p : Range) (ps : List Range)
    → q.start < start
    → p.start < start
    → remove_position start (q ∷ p ∷ ps)
      ≡ (q ∷ (remove_position start (p ∷ ps)).0, (remove_position start (p ∷ ps)).1)
unfolding remove_position
remove_position_cons start q p ps h k =
    rw (lt→ltb _ _ h, lt→ltb _ _ k)
      (remove_back_cons start q p (lower_bound start ps).0 (lower_bound start ps).1)

Usable-first :
    (lo : ℕ) (r q : Range) (qs : List Range)
    → Fits r
    → Ordered lo (q ∷ qs)
    → Apart r (q ∷ qs)
    → Ordered (r.start + 1) qs
    → Anchored r (q ∷ qs)
    → Usable r (q ∷ qs)
Usable-first lo r q qs f o a above n = elim (Bool-cases (ltb (q.start + q.length) r.start)) [
  | inl e ↦ inr (ground arith, no_meet qs above (later (ground arith) qs above n))
  | inr e ↦ inl (ground arith)
]
  where
    no_meet :
        (ts : List Range)
        → Ordered (r.start + 1) ts
        → Ordered (r.start + r.length) ts
        → cut r ts ≡ ts
    no_meet ts o t = cut_beyond (r.start + r.length) r ts f (omega arith) t

    later :
        q.start + q.length < r.start
        → (ts : List Range) → Ordered (r.start + 1) ts
        → Anchored r (q ∷ ts)
        → Ordered (r.start + r.length) ts
    later e [] o n = tt
    later e (t ∷ ts) o n = (n.0 e (omega arith), o.1, o.2)

module _ (r : Range) (f : Fits r) where
  Located-back :
      (lo : ℕ) (q : Range) (qs : List Range)
      → q.start < r.start
      → Ordered lo (q ∷ qs)
      → Apart r (q ∷ qs)
      → Anchored r (q ∷ qs)
      → Ordered (r.start + 1) qs
      → Located lo r (q ∷ qs) (remove_position r.start (q ∷ qs))
  Located-back lo q qs h o a n above =
      rw
        (remove_position_back r.start q qs h
          (lower_bound_none r.start (r.start + 1) qs (omega arith) above)
          (starts_after_all r.start (r.start + 1) qs (omega arith) above))
        (Located-here lo r (q ∷ qs) o a (Usable-first lo r q qs f o a above n))

  Located-next :
      (lo : ℕ) (q p : Range) (ps : List Range)
      → p.start ≡ r.start
      → Ordered lo (q ∷ p ∷ ps)
      → Apart r (q ∷ p ∷ ps)
      → Located lo r (q ∷ p ∷ ps) (remove_position r.start (q ∷ p ∷ ps))
  Located-next lo q p ps e o a =
      rw
        (remove_position_next r.start q (p ∷ ps) (omega arith)
          (lower_bound_none r.start r.start (p ∷ ps) (omega arith) (omega arith, o.2.1, o.2.2))
          (unfold starts_after in ground arith))
        (Located-cons lo r q (p ∷ ps) ([], p ∷ ps) f o.1 o.0 (omega arith)
          (Located-here (q.start + q.length + 1) r (p ∷ ps) o.2 a.1 (inl (omega arith))))

  located :
      (lo : ℕ) (rs : List Range)
      → Ordered lo rs
      → Apart r rs
      → Anchored r rs
      → Located lo r rs (remove_position r.start rs)
  located lo [] o a n = unfold remove_position in Located-here lo r [] tt tt tt
  located lo (q ∷ []) o a n = elim (Bool-cases (ltb q.start r.start)) [
    | inl e ↦ Located-back lo q [] (ground arith) o a n tt
    | inr e ↦
        rw (remove_position_here r.start lo q [] (ground arith))
          (Located-here lo r (q ∷ []) o a (inl (ground arith)))
  ]
  located lo (q ∷ p ∷ ps) o a n = elim (three p.start r.start) [
    | inl lt ↦ rw (remove_position_cons r.start q p ps (omega arith) lt) (
        Located-cons lo r q (p ∷ ps) _ f o.1 o.0 (omega arith)
          (located (q.start + q.length + 1) (p ∷ ps) o.2 a.1 n.1))
    | inr (inl e) ↦ Located-next lo q p ps e o a
    | inr (inr gt) ↦ elim (Bool-cases (ltb q.start r.start)) [
      | inl e ↦ Located-back lo q (p ∷ ps) (ground arith) o a n (omega arith, o.2.1, o.2.2)
      | inr e ↦
          rw (remove_position_here r.start lo q (p ∷ ps) (ground arith))
            (Located-here lo r (q ∷ p ∷ ps) o a (inl (ground arith)))
    ]
  ]

  finish_lem :
      (rs : List Range) (p : Position) (fuel : ℕ)
      → Located 0 r rs p
      → Common.length rs < fuel
      → remove_loop fuel r p ≡ some (cut r rs)
  finish_lem rs p fuel l h =
      remove_loop_lem l.bound fuel r p.0 p.1 f l.before l.ordered l.apart l.usable
        (omega (arith, l.short))
      ∙ ap some l.joins

-- Removing a range that is not empty and fits 64 bits from a set in order ends with a result, which
-- is in order, covers the offsets of the set that are not in the range and no others, and has the
-- same end offset, provided that no range of the set touches the removed one without overlapping it
-- (`Apart`), and that the removed one does not begin in a hole and reach into the next range
-- (`Anchored`).
pub remove_lem :
    (start length : ℕ) (s : RangeSet)
    → 0 < length
    → start + length < 2 ^ 64
    → Ordered 0 s.ranges
    → Apart (record { start = start; length = length }) s.ranges
    → Anchored (record { start = start; length = length }) s.ranges
    → (t : RangeSet) × (remove start length s ≡ some t)
      × Ordered 0 t.ranges
      × ((x : ℕ)
          → covered t.ranges x
            ≡ (covered s.ranges x && not (leb start x && ltb x (start + length))))
      × (t.end_offset ≡ s.end_offset)
unfolding remove
remove_lem start length s h k o a n =
    let r : Range = record { start = start; length = length } in
    let c = cut-IsCut 0 r s.ranges (h, k) o in
    let e : (length == 0) ≡ false = ground arith in
    (
      record s { ranges = cut r s.ranges },
      rw (
        e,
        finish_lem r (h, k) s.ranges _ (suc (Common.length s.ranges))
            (located r (h, k) 0 s.ranges o a n) (omega arith),
      ),
      c.ordered,
      c.same,
      refl,
    )
