-- ===== src/RangeSet/Union.antt =====
-- Insertion into a range set of libs/misc/ot-misc.h as a whole, and the union of two.
use obtools.Common.{
  ℕ, ◌+◌, ◌^◌, ◌<◌, ◌≡◌, refl, false, List, [], ◌∷◌, leb, ltb, ◌&&◌, ◌||◌, ◌==◌, arith, Bool-cases,
  inl, inr,
}
use obtools.RangeSet.{Range, RangeSet, insert_position, insert, insert_all, set_union}
use obtools.RangeSet.Order.{covered, Ordered}
use obtools.RangeSet.Insert.{finish, finish-Inserted}
use obtools.RangeSet.Cover.{covered-injective}

abbrev range : ℕ → ℕ → Range
range start length = record { start = start; length = length }

ranges-insert :
    (start length : ℕ) (s : RangeSet)
    → (length == 0) ≡ false
    → (insert start length s).ranges ≡ finish (range start length) (insert_position start s.ranges)
unfolding insert
ranges-insert start length s e = rw e

-- Inserting a range, empty or not, that fits 64 bits into a set in order gives a set in order, which
-- covers the offsets of the range and those that the set covered, and no others.
pub insert_lem :
    (start length : ℕ) (s : RangeSet)
    → start + length < 2 ^ 64
    → Ordered 0 s.ranges
    → Ordered 0 (insert start length s).ranges
      × ((x : ℕ)
          → covered (insert start length s).ranges x
            ≡ ((leb start x && ltb x (start + length)) || covered s.ranges x))
insert_lem start length s h o = elim (Bool-cases (length == 0)) [
  | inl e ↦ unfold insert in rw e (o, λ x. ground arith)
  | inr e ↦
      let r = finish-Inserted 0 (range start length) s.ranges (ground arith, h) (omega arith) o in
      rw (ranges-insert start length s e) (r.ordered, r.same)
]

-- Whatever two ranges are inserted into a set in order, the order of the insertions does not matter.
pub insert_comm :
    (start length start' length' : ℕ) (s : RangeSet)
    → start + length < 2 ^ 64
    → start' + length' < 2 ^ 64
    → Ordered 0 s.ranges
    → (insert start length (insert start' length' s)).ranges
      ≡ (insert start' length' (insert start length s)).ranges
insert_comm a n b m s h k o =
    let p = insert_lem b m s k o in
    let p' = insert_lem a n (insert b m s) h p.0 in
    let q = insert_lem a n s h o in
    let q' = insert_lem b m (insert a n s) k q.0 in
    covered-injective 0 _ _ p'.0 q'.0 λ x. ground (arith, p'.1 x, p.1 x, q'.1 x, q.1 x)

insert_all_lem :
    (lo : ℕ) (rs : List Range) (s : RangeSet)
    → Ordered lo rs
    → Ordered 0 s.ranges
    → Ordered 0 (insert_all rs s).ranges
      × ((x : ℕ) → covered (insert_all rs s).ranges x ≡ (covered rs x || covered s.ranges x))
unfolding insert_all
insert_all_lem lo [] s p o = (o, λ x. refl)
insert_all_lem lo (r ∷ rs) s p o =
    let a = insert_lem r.start r.length s p.1.1 o in
    let ih = insert_all_lem (r.start + r.length + 1) rs (insert r.start r.length s) p.2 a.0 in
    (ih.0, λ x. ground (arith, ih.1 x, a.1 x))

-- The union of two sets in order is in order and covers what one of them covers.
pub set_union_lem :
    (s o : RangeSet)
    → Ordered 0 s.ranges
    → Ordered 0 o.ranges
    → Ordered 0 (set_union s o).ranges
      × ((x : ℕ) → covered (set_union s o).ranges x ≡ (covered s.ranges x || covered o.ranges x))
unfolding set_union
set_union_lem s o p q = let a = insert_all_lem 0 o.ranges s q p in (a.0, λ x. ground (arith, a.1 x))
