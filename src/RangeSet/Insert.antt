-- ===== src/RangeSet/Insert.antt =====
-- `RangeSet::insert` of libs/misc/ot-misc.h.
use obtools.Common.{
  ℕ, ◌+◌, ◌≤◌, ◌<◌, ◌≡◌, refl, ap, ◌∙◌, Bool, true, false, List, [], ◌∷◌, ◌++◌, leb, ltb, ◌||◌,
  arith, if◌then◌else◌, Bool-cases, inl, inr, lt→ltb,
}
use obtools.RangeSet.{
  Range, Position, merge, set_insert, lower_bound, step_back, starts_after, budge, insert_back,
  insert_position, absorb,
}
use obtools.RangeSet.Order.{
  covers, covered, Fits, Ordered, Ordered-weaken, end_lem, merge_lem, overlaps_iff,
}

-- What `absorb` makes of a range that no earlier range touches.
record Absorbed (lo : ℕ) (r : Range) (qs : List Range) (m : Range) (rest : List Range)
    : Type 0 where
  fits : Fits m
  from : lo ≤ m.start
  below : m.start ≤ r.start
  reaches : r.start + r.length ≤ m.start + m.length
  ordered : Ordered (m.start + m.length + 1) rest
  same : (x : ℕ) → (covers m x || covered rest x) ≡ (covers r x || covered qs x)

abbrev Reaches : ℕ → List Range → Type 0
Reaches start [] = Unit
Reaches start (q ∷ qs) = start ≤ q.start + q.length

covers-merge :
    (r q : Range) (x : ℕ) (b : Bool)
    → Fits r
    → Fits q
    → r.start ≤ q.start + q.length
    → q.start ≤ r.start + r.length
    → (covers (merge r q) x || b) ≡ (covers r x || (covers q x || b))
covers-merge r q x b f g h k = ground (arith, merge_lem r q f g h k)

Reaches-later : (s lo : ℕ) (qs : List Range) → s ≤ lo → Ordered lo qs → Reaches s qs
Reaches-later s lo [] h o = tt
Reaches-later s lo (q ∷ qs) h o = omega arith

absorb-Absorbed :
    (lo : ℕ) (r : Range) (qs : List Range)
    → Fits r
    → lo ≤ r.start
    → Ordered lo qs
    → Reaches r.start qs
    → Absorbed lo r qs (absorb r qs).0 (absorb r qs).1
unfolding absorb
absorb-Absorbed lo r [] f h o t = record {
  fits = f;
  from = h;
  below = omega arith;
  reaches = omega arith;
  ordered = tt;
  same = λ x. refl;
}
absorb-Absorbed lo r (q ∷ qs) f h o t = elim (Bool-cases (leb q.start (r.start + r.length))) [
  | inr apart ↦
      rw (overlaps_iff q r o.1 f t, apart)
        (record {
          fits = f;
          from = h;
          below = omega arith;
          reaches = omega arith;
          ordered = (ground arith, o.1, o.2);
          same = λ x. refl;
        })
  | inl touch ↦
      let near : q.start ≤ r.start + r.length = ground arith in
      let m = merge_lem r q f o.1 t near in
      let ih =
        absorb-Absorbed lo (merge r q) qs m.2 (omega arith)
          (Ordered-weaken _ lo qs (omega arith) o.2)
          (Reaches-later (merge r q).start (q.start + q.length + 1) qs (omega arith) o.2) in
      rw (overlaps_iff q r o.1 f t, touch)
        (record {
          fits = ih.fits;
          from = ih.from;
          below = omega (arith, ih.below);
          reaches = omega (arith, ih.reaches);
          ordered = ih.ordered;
          same = λ x. ih.same x ∙ covers-merge r q x (covered qs x) f o.1 t near;
        })
]

-- `insert_position` on a longer list.
abbrev cons_position : Range → Position → Position
cons_position q (before, after) = (q ∷ before, after)

budge_cons :
    (start : ℕ) (q : Range) (p : Position)
    → budge start (cons_position q p) ≡ cons_position q (budge start p)
unfolding budge
budge_cons start q (before, []) = refl
budge_cons start q (before, r ∷ rs) = ground arith

pub lower_bound_none :
    (start lo : ℕ) (qs : List Range) → start ≤ lo → Ordered lo qs → lower_bound start qs ≡ ([], qs)
unfolding lower_bound
lower_bound_none start lo [] h o = refl
lower_bound_none start lo (q ∷ qs) h o = ground arith

pub starts_after_all :
    (start lo : ℕ) (qs : List Range) → start < lo → Ordered lo qs → starts_after start qs ≡ true
unfolding starts_after
starts_after_all start lo [] h o = refl
starts_after_all start lo (q ∷ qs) h o = ground arith

-- A range that reaches `start` is the position.
position_here :
    (start lo : ℕ) (q : Range) (qs : List Range)
    → Ordered lo (q ∷ qs)
    → start ≤ q.start + q.length
    → insert_position start (q ∷ qs) ≡ ([], q ∷ qs)
unfolding insert_position
position_here start lo q qs o h =
    rw (lower_bound_none start (q.start + q.length + 1) qs (omega arith) o.2)
      (here (ltb q.start start) refl)
  where
    here :
        (b : Bool)
        → ltb q.start start ≡ b
        → insert_back start (if b then (q ∷ [], qs) else ([], q ∷ qs)) ≡ ([], q ∷ qs)
    here true e =
        rw (starts_after_all start (q.start + q.length + 1) qs (omega arith) o.2, end_lem q o.1)
          (ground arith)
    here false e = refl

back_cons :
    (start : ℕ) (q : Range) (before after : List Range)
    → q.start + q.length < start
    → Fits q
    → insert_back start (q ∷ before, after) ≡ cons_position q (insert_back start (before, after))
unfolding insert_back
back_cons start q [] after h f = elim (Bool-cases (starts_after start after)) [
  | inl t ↦ rw (t, end_lem q f, lt→ltb _ _ h)
  | inr t ↦ rw t
]
back_cons start q (p ∷ ps) after h f = elim (Bool-cases (starts_after start after)) [
  | inl t ↦ rw t (budge_cons start q (step_back (p ∷ ps) after))
  | inr t ↦ rw t
]

-- A range that ends before `start` lies before the position.
position_later :
    (start : ℕ) (q : Range) (qs : List Range)
    → q.start + q.length < start
    → Fits q
    → insert_position start (q ∷ qs) ≡ cons_position q (insert_position start qs)
unfolding insert_position
position_later start q qs h f =
    rw (lt→ltb q.start start (omega arith))
      (back_cons start q (lower_bound start qs).0 (lower_bound start qs).1 h f)

-- The ranges of an insertion, read off the list: what comes before, the new range, and the rest.
abbrev pub finish : Range → Position → List Range
finish r (before, after) = let (m, rest) = absorb r after in set_insert m (before ++ rest)

position-Ordered :
    (start lo : ℕ) (qs : List Range)
    → Ordered lo qs
    → Ordered lo (insert_position start qs).1 × Reaches start (insert_position start qs).1
position-Ordered start lo [] o = unfold insert_position in (tt, tt)
position-Ordered start lo (q ∷ qs) o = elim (Bool-cases (ltb (q.start + q.length) start)) [
  | inl t ↦
      let ih = position-Ordered start (q.start + q.length + 1) qs o.2 in
      rw (position_later start q qs (ground arith) o.1)
        (Ordered-weaken _ lo _ (omega arith) ih.0, ih.1)
  | inr t ↦ rw (position_here start lo q qs o (ground arith)) (o, ground arith)
]

set_insert_front :
    (m : Range) (rest : List Range)
    → Ordered (m.start + m.length + 1) rest
    → set_insert m rest ≡ m ∷ rest
unfolding set_insert
set_insert_front m [] o = refl
set_insert_front m (q ∷ qs) o = ground arith

-- What the ranges become: in order, with the offsets of the new range added.
pub record Inserted (lo : ℕ) (r : Range) (qs : List Range) (out : List Range) : Type 0 where
  pub ordered : Ordered lo out
  pub same : (x : ℕ) → covered out x ≡ (covers r x || covered qs x)

finish-cons :
    (lo : ℕ) (r q : Range) (before after : List Range)
    → q.start < (absorb r after).0.start
    → finish r (q ∷ before, after) ≡ q ∷ finish r (before, after)
unfolding set_insert
finish-cons lo r q before after h = rw (lt→ltb q.start (absorb r after).0.start h)

or_left_comm : (a b c : Bool) → (a || (b || c)) ≡ (b || (a || c))
or_left_comm a b c = ground arith

pub finish-Inserted :
    (lo : ℕ) (r : Range) (qs : List Range)
    → Fits r
    → lo ≤ r.start
    → Ordered lo qs
    → Inserted lo r qs (finish r (insert_position r.start qs))
finish-Inserted lo r [] f h o =
    unfold insert_position absorb set_insert in record { ordered = (h, f, tt); same = λ x. refl }
finish-Inserted lo r (q ∷ qs) f h o = elim (Bool-cases (ltb (q.start + q.length) r.start)) [
  | inl t ↦
      let before : q.start + q.length < r.start = ground arith in
      let ih = finish-Inserted (q.start + q.length + 1) r qs f (omega arith) o.2 in
      let p = position-Ordered r.start (q.start + q.length + 1) qs o.2 in
      let a = absorb-Absorbed (q.start + q.length + 1) r _ f (omega arith) p.0 p.1 in
      rw
        (
          position_later r.start q qs before o.1,
          finish-cons lo r q (insert_position r.start qs).0 (insert_position r.start qs).1
              (omega (arith, a.from)),
        )
        (record {
          ordered = (o.0, o.1, ih.ordered);
          same = λ x.
              ap (λ b. covers q x || b) (ih.same x)
              ∙ or_left_comm (covers q x) (covers r x) (covered qs x);
        })
  | inr t ↦
      let reach : r.start ≤ q.start + q.length = ground arith in
      let a = absorb-Absorbed lo r (q ∷ qs) f h o reach in
      rw
        (
          position_here r.start lo q qs o reach,
          set_insert_front (absorb r (q ∷ qs)).0 (absorb r (q ∷ qs)).1 a.ordered,
        )
        (record { ordered = (a.from, a.fits, a.ordered); same = a.same })
]
