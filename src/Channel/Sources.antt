-- ===== src/Channel/Sources.antt =====
-- The readers on memory and the limited reader keep the contract of a Reader.
use obtools.Common.{
  ℕ, zero, suc, ◌+◌, ◌-◌, ◌^◌, ◌≤◌, ◌<◌, ◌≡◌, refl, sym, ◌∙◌, ◌⊎◌, inl, inr, min, length,
  length-take, length-drop, take, drop, take-append-drop, drop-drop, ltb, if◌then◌else◌, arith,
  add64_fits, sub64_fits,
}
use obtools.Channel.{Bytes}
use obtools.Channel.Memory.{
  StringReader, string_basic_read, string_reader, BlockReader, block_basic_read, block_reader,
}
use obtools.Channel.Supply.{Supply}
use obtools.Channel.Streams.{
  Stream, base_try_read-exact, base_try_read-short, base_try_read-finished,
}

-- What a read of at most `count` takes where `room` are left.
pub bounded_min : (room count : ℕ) → (if ltb room count then room else count) ≡ min room count
bounded_min room count = ground arith

pub min_reads : (room count : ℕ) → (0 < min room count) ⊎ (count ≡ 0) ⊎ (room ≡ 0)
min_reads zero count = inr (inr refl)
min_reads (suc room) zero = inr (inl refl)
min_reads (suc room) (suc count) = inl (omega arith)

pub length-take-min :
    (bs : Bytes) (room count : ℕ)
    → room ≡ length bs
    → length (take (min room count) bs) ≡ min room count
length-take-min bs room count h = length-take (min room count) bs ∙ omega arith

abbrev pub StringValid : StringReader → Type 0
StringValid s = (s.offset ≤ length s.content) × (length s.content < 2 ^ 64)

unfoldable pub string_supply : Supply string_basic_read
unfolding string_basic_read
string_supply = record {
  Valid = StringValid;
  rest = λ s. drop s.offset s.content;
  reads = λ count s v.
      let room = length s.content - s.offset in
      let n = min room count in
      let len : length (drop s.offset s.content) ≡ room = length-drop s.offset s.content in
      let taken = length-take-min (drop s.offset s.content) room count (sym len) in
      (
        take n (drop s.offset s.content),
        record s { offset = s.offset + n },
        rw
            (
              sub64_fits (length s.content) s.offset v.0 v.1,
              bounded_min room count,
              add64_fits s.offset n (omega arith),
            )
            refl,
        (omega arith, v.1),
        rw (← drop-drop s.offset n s.content) (sym (take-append-drop n (drop s.offset s.content))),
        omega (arith, taken),
        rw (taken, len) (min_reads room count),
      );
}

unfoldable pub string_stream : Stream string_reader
unfolding string_reader
string_stream = record {
  supply = string_supply;
  exact = λ count s v pos h. base_try_read-exact string_supply count s v h;
  short = base_try_read-short string_supply;
  finished = base_try_read-finished string_supply;
}

-- A pointer that stands where the offset says, in a block of the given length.
abbrev pub BlockValid : BlockReader → Type 0
BlockValid s =
    (s.at ≡ s.offset) × (s.offset ≤ s.length) × (s.length ≡ length s.block) × (s.length < 2 ^ 64)

unfoldable pub block_supply : Supply block_basic_read
unfolding block_basic_read
block_supply = record {
  Valid = BlockValid;
  rest = λ s. drop s.at s.block;
  reads = λ count s v.
      let room = s.length - s.offset in
      let n = min room count in
      let len : length (drop s.at s.block) ≡ room =
        length-drop s.at s.block ∙ omega (arith, v.0, v.2) in
      let taken = length-take-min (drop s.at s.block) room count (sym len) in
      (
        take n (drop s.at s.block),
        record s { at = s.at + n; offset = s.offset + n },
        rw
            (
              sub64_fits s.length s.offset v.1 v.3,
              bounded_min room count,
              add64_fits s.offset n (omega arith),
              add64_fits s.at n (omega (arith, v.0)),
            )
            refl,
        (omega (arith, v.0), omega arith, v.2, v.3),
        rw (← drop-drop s.at n s.block) (sym (take-append-drop n (drop s.at s.block))),
        omega (arith, taken),
        rw (taken, len) (min_reads room count),
      );
}

unfoldable pub block_stream : Stream block_reader
unfolding block_reader
block_stream = record {
  supply = block_supply;
  exact = λ count s v pos h. base_try_read-exact block_supply count s v h;
  short = base_try_read-short block_supply;
  finished = base_try_read-finished block_supply;
}
