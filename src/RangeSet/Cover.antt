-- ===== src/RangeSet/Cover.antt =====
-- What the ranges in order cover, and that they are the only such ranges (libs/misc/ot-misc.h).
use obtools.Common.{
  ℕ, ◌+◌, ◌^◌, ◌≤◌, ◌<◌, ◌≡◌, refl, sym, ap₂, true, false, List, [], ◌∷◌, arith, ◌↔◌, Bool-cases,
  inl, inr,
}
use obtools.RangeSet.{Range, RangeSet, contained_by, contains_in, contains}
use obtools.RangeSet.Order.{covered, Fits, Ordered, Ordered-weaken, contained_iff}

pub covered_below : (lo x : ℕ) (rs : List Range) → Ordered lo rs → x < lo → covered rs x ≡ false
covered_below lo x [] o h = refl
covered_below lo x (r ∷ rs) o h =
    ground (arith, covered_below (r.start + r.length + 1) x rs o.2 (omega arith))

-- The end of a range in order is not covered.
pub covered_at_end :
    (lo : ℕ) (q : Range) (qs : List Range)
    → Ordered lo (q ∷ qs)
    → covered (q ∷ qs) (q.start + q.length) ≡ false
covered_at_end lo q qs o =
    ground (arith, covered_below (q.start + q.length + 1) (q.start + q.length) qs o.2 (omega arith))

module _ (lo : ℕ) (q r : Range) (qs rs : List Range) (o : Ordered lo (q ∷ qs))
    (p : Ordered lo (r ∷ rs)) (h : (x : ℕ) → covered (q ∷ qs) x ≡ covered (r ∷ rs) x) where
  start-le : r.start ≤ q.start
  start-le = ground (arith, h q.start, covered_below (r.start + r.length + 1) q.start rs p.2)

  end-le : r.start ≤ q.start → q.start ≤ r.start → r.start + r.length ≤ q.start + q.length
  end-le a b = ground (arith, h (q.start + q.length), covered_at_end lo q qs o)

  tail_same : q.start ≡ r.start → q.length ≡ r.length → (x : ℕ) → covered qs x ≡ covered rs x
  tail_same e f x = ground (
    arith,
    h x,
    covered_below (q.start + q.length + 1) x qs o.2,
    covered_below (r.start + r.length + 1) x rs p.2,
  )

-- Two lists in order that cover the same offsets are the same list.
pub covered-injective :
    (lo : ℕ) (xs ys : List Range)
    → Ordered lo xs
    → Ordered lo ys
    → ((x : ℕ) → covered xs x ≡ covered ys x)
    → xs ≡ ys
covered-injective lo [] [] o p h = refl
covered-injective lo [] (r ∷ rs) o p h = ground (arith, h r.start)
covered-injective lo (q ∷ qs) [] o p h = ground (arith, h q.start)
covered-injective lo (q ∷ qs) (r ∷ rs) o p h =
    let a = start-le lo q r qs rs o p h in
    let b = start-le lo r q rs qs p o (λ x. sym (h x)) in
    let c = end-le lo q r qs rs o p h a b in
    let d = end-le lo r q rs qs p o (λ x. sym (h x)) b a in
    let es : q.start ≡ r.start = omega arith in
    let el : q.length ≡ r.length = omega arith in
    let t =
      covered-injective (r.start + r.length + 1) qs rs
        (Ordered-weaken _ (r.start + r.length + 1) qs (omega arith) o.2) p.2
        (tail_same lo q r qs rs o p h es el) in
    ap₂ (λ (x : Range) l. x ∷ l) (λ i. record { start = es i; length = el i }) t

module _ (lo : ℕ) (r q : Range) (qs : List Range) (f : Fits r) (o : Ordered lo (q ∷ qs))
    (all : (x : ℕ) → r.start ≤ x → x < r.start + r.length → covered (q ∷ qs) x ≡ true) where
  -- A covered range that the first range does not contain lies beyond it.
  beyond : contained_by r q ≡ false → q.start + q.length < r.start
  beyond e = ground (
    arith,
    contained_iff r q f o.1,
    all r.start,
    all (q.start + q.length),
    covered_at_end lo q qs o,
    covered_below (q.start + q.length + 1) r.start qs o.2,
  )

  covered_later :
      contained_by r q ≡ false
      → (x : ℕ) → r.start ≤ x
      → x < r.start + r.length
      → covered qs x ≡ true
  covered_later e x a b = ground (arith, beyond e, all x a b)

-- All of a range is covered exactly when one of the ranges contains it.
contains_in_iff :
    (lo : ℕ) (r : Range) (qs : List Range)
    → Fits r
    → Ordered lo qs
    → (contains_in r qs ≡ true)
      ↔ ((x : ℕ) → r.start ≤ x → x < r.start + r.length → covered qs x ≡ true)
unfolding contains_in
contains_in_iff lo r [] f o = (λ e x a b. e, λ all. all r.start (omega arith) (omega arith))
contains_in_iff lo r (q ∷ qs) f o =
    let ih = contains_in_iff (q.start + q.length + 1) r qs f o.2 in
    elim (Bool-cases (contained_by r q)) [
      | inl c ↦ (λ e x a b. ground (arith, contained_iff r q f o.1, c), λ all. rw c)
      | inr c ↦ (
        λ e x a b. let e' : contains_in r qs ≡ true = rw c at e in ground (arith, ih.0 e' x a b),
        λ all. rw c (ih.1 (covered_later lo r q qs f o all c)),
      )
    ]

-- In a set in order, `contains` answers true for a range that is not empty and fits 64 bits exactly
-- when every offset of it is covered.
pub contains_iff :
    (start length : ℕ) (s : RangeSet)
    → 0 < length
    → start + length < 2 ^ 64
    → Ordered 0 s.ranges
    → (contains start length s ≡ true)
      ↔ ((x : ℕ) → start ≤ x → x < start + length → covered s.ranges x ≡ true)
unfolding contains
contains_iff start length s h k o =
    contains_in_iff 0 (record { start = start; length = length }) s.ranges (h, k) o
