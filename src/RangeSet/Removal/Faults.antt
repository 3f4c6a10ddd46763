-- ===== src/RangeSet/Removal/Faults.antt =====
-- Where `RangeSet::remove` of libs/misc/ot-misc.h does not take out the range that it is given.
use obtools.Common.{ℕ, ◌+◌, ◌-◌, ◌^◌, ◌<◌, ◌≡◌}
use obtools.RangeSet.{Range}
use obtools.RangeSet.Order.{Fits}

module _ (start length end_offset : ℕ) (h : 0 < length) (k : start + length < 2 ^ 64) where
  abbrev removed : Range
  removed = record { start = start; length = length }

  module _ (q : Range) (f : Fits q) (e : q.start ≡ start + length) where
    -- What the split makes of the range: a length that wraps, and a second range with the same start.
    wrapped : Range
    wrapped = record { start = q.start; length = 2 ^ 64 - length }
