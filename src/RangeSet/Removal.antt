-- ===== src/RangeSet/Removal.antt =====
-- Removal from a range set: `RangeSet::remove`, `difference` and `intersection` of
-- libs/misc/ot-misc.h.
pub mod Cut
pub mod Loop
pub mod Correct
pub mod Faults
use obtools.Common.{
  ℕ, zero, suc, ◌==◌, ltb, Bool, true, false, List, [], ◌∷◌, ◌++◌, Option, none, some,
  length as list_length, if◌then◌else◌,
}
use obtools.RangeSet.{
  Range, RangeSet, Position, end, remove_from_start, remove_from_end, remove_from_middle,
  overlaps_with, contained_by, start_overlapped_by, end_overlapped_by, set_insert, lower_bound,
  step_back, starts_after, inverse,
}

remove_back : ℕ → Position → Position
unfolding step_back starts_after
remove_back start ([], after) = ([], after)
remove_back start (p ∷ ps, after) =
    if starts_after start after then step_back (p ∷ ps) after else (p ∷ ps, after)

-- Where `remove` begins to look for ranges that overlap.
pub remove_position : ℕ → List Range → Position
unfolding remove_back lower_bound
remove_position start rs = remove_back start (lower_bound start rs)

-- `ranges.insert(r)` while the iterator stands at the head of the second list: an element that comes
-- before it in the order is not visited, a later one is.
pub insert_beside : Range → Position → Position
unfolding set_insert
insert_beside r (before, []) = (set_insert r before, [])
insert_beside r (before, q ∷ qs) =
    if ltb r.start q.start then (set_insert r before, q ∷ qs) else (before, set_insert r (q ∷ qs))

-- The body of the loop: `q` is erased, and what is left of it inserted.
pub remove_one : Range → Range → Position → Position
unfolding insert_beside
remove_one range q p =
    if contained_by q range
    then p
    else if start_overlapped_by q range
    then insert_beside (remove_from_start q range) p
    else if end_overlapped_by q range
    then insert_beside (remove_from_end q range) p
    else let (r, r2) = remove_from_middle q range in insert_beside r2 (insert_beside r p)

-- `while (it != ranges.end() && it->overlaps_with(range))`; `none` when the fuel runs out.
pub remove_loop : ℕ → Range → Position → Option (List Range)
remove_loop fuel range (before, []) = some before
remove_loop zero range (before, q ∷ qs) = none
remove_loop (suc fuel) range (before, q ∷ qs) =
    let rest = remove_loop fuel range (remove_one range q (before, qs)) in
    if overlaps_with q range then rest else some (before ++ q ∷ qs)

with_ranges : RangeSet → Option (List Range) → Option RangeSet
with_ranges s none = none
with_ranges s (some rs) = some (record s { ranges = rs })

-- Each round erases a range, so one round more than there are ranges is enough where the ranges that
-- are left over lie before the iterator.
pub remove : ℕ → ℕ → RangeSet → Option RangeSet
unfolding with_ranges
remove start length s =
    if length == 0
    then some s
    else with_ranges s (
        remove_loop (suc (list_length s.ranges)) (record { start = start; length = length })
          (remove_position start s.ranges))

-- `remove(const RangeSet& o)`, and `difference`
pub remove_all : List Range → RangeSet → Option RangeSet
remove_all [] s = some s
remove_all (r ∷ rs) s = elim (remove r.start r.length s) [
  | none ↦ none
  | some s' ↦ remove_all rs s'
]

pub difference : RangeSet → RangeSet → Option RangeSet
difference s o = remove_all o.ranges s

-- The other set is taken to extend as far as this one.
pub intersection : RangeSet → RangeSet → Option RangeSet
intersection s o = remove_all (inverse (record o { end_offset = s.end_offset })).ranges s
