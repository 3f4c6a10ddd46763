-- ===== src/RangeSet/Examples.antt =====
-- The theorems on the range sets of libs/misc/ot-misc.h at concrete inputs, and some runs.
use obtools.Common.{
  ℕ, ◌+◌, ◌≤◌, ◌<◌, ◌≡◌, ◌↔◌, refl, true, [], ◌∷◌, leb, ltb, ◌&&◌, ◌||◌, not, arith, some, add64,
  sub64,
}
use obtools.RangeSet.{
  RangeSet, insert, contains, insert_position, absorb, set_insert, overlaps_with, merge, end,
}
use obtools.RangeSet.Order.{covered, Ordered}
use obtools.RangeSet.Cover.{contains_iff}
use obtools.RangeSet.Union.{insert_lem}
use obtools.RangeSet.Removal.{remove}
use obtools.RangeSet.Removal.Correct.{remove_lem}

abbrev two : RangeSet
two = record {
  ranges = record { start = 10; length = 2 } ∷ record { start = 16; length = 5 } ∷ [];
  end_offset = 21;
}

-- TestRemove of libs/misc/test-range.cc
insert_run :
    insert 9 8 two ≡ record { ranges = record { start = 9; length = 12 } ∷ []; end_offset = 21 }
insert_run =
    unfold insert insert_position absorb set_insert overlaps_with merge end add64 sub64 in refl

insert_lem_example :
    Ordered 0 (insert 9 2 two).ranges
    × ((x : ℕ)
        → covered (insert 9 2 two).ranges x ≡ ((leb 9 x && ltb x (9 + 2)) || covered two.ranges x))
insert_lem_example = insert_lem 9 2 two (omega arith) (omega arith)

contains_iff_example :
    (contains 18 2 two ≡ true) ↔ ((x : ℕ) → 18 ≤ x → x < 18 + 2 → covered two.ranges x ≡ true)
contains_iff_example = contains_iff 18 2 two (omega arith) (omega arith) (omega arith)

remove_lem_example :
    (t : RangeSet) × (remove 17 2 two ≡ some t)
    × Ordered 0 t.ranges
    × ((x : ℕ) → covered t.ranges x ≡ (covered two.ranges x && not (leb 17 x && ltb x (17 + 2))))
    × (t.end_offset ≡ 21)
remove_lem_example =
    remove_lem 17 2 two (omega arith) (omega arith) (omega arith) (omega arith) (omega arith)
