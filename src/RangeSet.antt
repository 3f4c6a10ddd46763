-- ===== src/RangeSet.antt =====
-- libs/misc/ot-misc.h: `RangeSet<uint64_t, uint64_t>`, the base of `UInt64RangeSet`.
-- The `set<Range>`, which is ordered by `start` alone, is a list in that order; an iterator into it
-- is the list of the elements before it and the list from it on. Offsets wrap at 64 bits.
pub mod Order
pub mod Cover
pub mod Insert
pub mod Union
pub mod Inverse
pub mod Removal
mod Examples
use obtools.Common.{
  ℕ, zero, suc, ◌+◌, ◌-◌, ◌^◌, ◌≤◌, ◌<◌, Bool, true, false, List, [], ◌∷◌, ◌++◌, leb, ltb, ◌==◌,
  ◌&&◌, ◌||◌, not, if◌then◌else◌, add64, sub64, min, max, Option, none, some, length,
}

pub record Range : Type 0 where
  pub start : ℕ
  pub length : ℕ

-- One past the end.
pub end : Range → ℕ
end r = add64 r.start r.length

pub merge : Range → Range → Range
merge r b =
    let e = end r in
    let s = min r.start b.start in record { start = s; length = sub64 (max e (end b)) s }

pub remove_from_start : Range → Range → Range
remove_from_start r b =
    let e = end r in let s = max r.start (end b) in record { start = s; length = sub64 e s }

pub remove_from_end : Range → Range → Range
remove_from_end r b = record r { length = sub64 (min (end r) b.start) r.start }

-- The range that is left before `b`, and the new range after it.
pub remove_from_middle : Range → Range → Range × Range
remove_from_middle r b = (
  record r { length = sub64 b.start r.start },
  record { start = end b; length = sub64 (end r) (end b) },
)

pub overlaps_with : Range → Range → Bool
overlaps_with r b =
    let e = end r in
    let b_e = end b in
    (leb r.start b.start && leb b.start e)
    || (leb r.start b_e && leb b_e e)
    || (leb b.start r.start && leb e b_e)

pub contained_by : Range → Range → Bool
contained_by r b = leb b.start r.start && leb (end r) (end b)

pub start_overlapped_by : Range → Range → Bool
start_overlapped_by r b = leb b.start r.start && ltb r.start (end b)

pub end_overlapped_by : Range → Range → Bool
end_overlapped_by r b = ltb b.start (end r) && leb (end r) (end b)

pub record RangeSet : Type 0 where
  pub ranges : List Range
  pub end_offset : ℕ

abbrev pub Position : Type 0
Position = List Range × List Range

-- `set::insert`: in order, and nothing if an element with this start is there.
pub set_insert : Range → List Range → List Range
set_insert r [] = r ∷ []
set_insert r (q ∷ qs) =
    if ltb q.start r.start
    then q ∷ set_insert r qs
    else if q.start == r.start
    then q ∷ qs
    else r ∷ q ∷ qs

-- `set::lower_bound`: the first element that does not start before `start`.
pub lower_bound : ℕ → List Range → Position
lower_bound start [] = ([], [])
lower_bound start (q ∷ qs) =
    let (before, after) = lower_bound start qs in
    if ltb q.start start then (q ∷ before, after) else ([], q ∷ qs)

-- `--it`
pub step_back : List Range → List Range → Position
step_back [] after = ([], after)
step_back (q ∷ []) after = ([], q ∷ after)
step_back (q ∷ p ∷ ps) after =
    let (before, after') = step_back (p ∷ ps) after in (q ∷ before, after')

-- `it == end || it->start > start`
pub starts_after : ℕ → List Range → Bool
starts_after start [] = true
starts_after start (q ∷ qs) = ltb start q.start

-- `++it` if the element ends before `start`
pub budge : ℕ → Position → Position
budge start (before, []) = (before, [])
budge start (before, q ∷ qs) =
    if ltb (end q) start then (before ++ q ∷ [], qs) else (before, q ∷ qs)

insert_back : ℕ → Position → Position
unfolding step_back starts_after budge
insert_back start ([], after) = ([], after)
insert_back start (p ∷ ps, after) =
    if starts_after start after then budge start (step_back (p ∷ ps) after) else (p ∷ ps, after)

-- Where `insert` begins to look for ranges that overlap.
pub insert_position : ℕ → List Range → Position
unfolding insert_back lower_bound
insert_position start rs = insert_back start (lower_bound start rs)

-- `while (it != ranges.end() && it->overlaps_with(range))`: the new range, and what is left.
pub absorb : Range → List Range → Range × List Range
absorb range [] = (range, [])
absorb range (q ∷ qs) =
    let rest = absorb (merge range q) qs in if overlaps_with q range then rest else (range, q ∷ qs)

pub insert : ℕ → ℕ → RangeSet → RangeSet
unfolding insert_position
insert start length s =
    if length == 0
    then s
    else let (before, after) = insert_position start s.ranges in
      let (range, rest) = absorb (record { start = start; length = length }) after in
      record {
        ranges = set_insert range (before ++ rest);
        end_offset = if ltb s.end_offset (end range) then end range else s.end_offset;
      }

-- `insert(const RangeSet& o)`, and `set_union`
pub insert_all : List Range → RangeSet → RangeSet
insert_all [] s = s
insert_all (r ∷ rs) s = insert_all rs (insert r.start r.length s)

pub set_union : RangeSet → RangeSet → RangeSet
set_union s o = insert_all o.ranges s

pub contains_in : Range → List Range → Bool
contains_in range [] = false
contains_in range (q ∷ qs) = contained_by range q || contains_in range qs

pub contains : ℕ → ℕ → RangeSet → Bool
unfolding contains_in
contains start length s = contains_in (record { start = start; length = length }) s.ranges

pub sum_lengths : ℕ → List Range → ℕ
sum_lengths sum [] = sum
sum_lengths sum (q ∷ qs) = sum_lengths (add64 sum q.length) qs

pub coverage : RangeSet → ℕ
unfolding sum_lengths
coverage s = sum_lengths 0 s.ranges

pub is_complete : RangeSet → Bool
is_complete s = s.end_offset == 0 || contains 0 s.end_offset s

-- The walk of `inverse`: `last` is the range before, if any.
gap_before : Option Range → Range → List Range → List Range
gap_before (some last) r inv =
    set_insert (record { start = end last; length = sub64 r.start (end last) }) inv
gap_before none r inv =
    if ltb 0 r.start then set_insert (record { start = 0; length = r.start }) inv else inv

last_gap : ℕ → Option Range → List Range → List Range
last_gap total (some last) inv =
    if ltb (end last) total
    then set_insert (record { start = end last; length = sub64 total (end last) }) inv
    else inv
last_gap total none inv =
    if ltb 0 total then set_insert (record { start = 0; length = total }) inv else inv

inverse_walk : ℕ → Option Range → List Range → List Range → List Range
inverse_walk total last inv [] = last_gap total last inv
inverse_walk total last inv (r ∷ rs) = inverse_walk total (some r) (gap_before last r inv) rs

pub inverse : RangeSet → RangeSet
inverse s = record {
  ranges = inverse_walk s.end_offset none [] s.ranges;
  end_offset = s.end_offset;
}
