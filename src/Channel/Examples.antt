-- ===== src/Channel/Examples.antt =====
-- The theorems on the channels of libs/chan at concrete inputs.
use obtools.Common.{
  add64, ℕ, ◌+◌, ◌<◌, ◌≡◌, refl, ◌⊎◌, List, [], ◌∷◌, ◌++◌, length, take, drop, arith, if◌then◌else◌,
  ◌==◌, some, true,
}
use obtools.Channel.{Bytes, returned, thrown, block_overflowed, eof, ◌>>◌}
use obtools.Channel.Reading.{skip_to_eof}
use obtools.Channel.Memory.{
  StringReader, string_reader, string_skip, StringWriter, string_writer, BlockWriter,
  block_basic_write,
}
use obtools.Channel.Limited.{LimitedReader, limited_try_read, limited_skip_to_eof}
use obtools.Channel.Streams.{Ends, skip_to_eof_lem}
use obtools.Channel.Sources.{string_supply, string_stream}
use obtools.Channel.Sinks.{string_sink, BlockRoom}
use obtools.Channel.Fields.{Field, nbo_16, nbo_64, le_24}
use obtools.Channel.RoundTrip.{encode_all, values, write_all, read_all, write_all-read_all}
use obtools.Channel.Limits.{skip_to_eof_beyond}
use obtools.Channel.Blocks.{block_write_bounds}
use obtools.Channel.BitStream.{BitReader, BitWriter, flush}
use obtools.Channel.BitStream.RoundTrip.{
  write_rows, read_rows, fresh_writer, fresh_reader, write_rows-read_rows,
}

abbrev text : Bytes
text = 72 ∷ 101 ∷ 108 ∷ 108 ∷ 111 ∷ []

abbrev reading : StringReader
reading = record { content = text; offset = 2 }

abbrev empty_writer : StringWriter
empty_writer = record { content = []; offset = 0 }

abbrev header : List (Field × ℕ)
header = (nbo_16, 0xcafe) ∷ (le_24, 0x010203) ∷ (nbo_64, 0xfedcba9876543210) ∷ []

write_all-read_all_example :
    (s : StringWriter) × (t : StringReader) × (write_all string_writer header empty_writer
      ≡ returned tt s)
    × (s.content ≡ [] ++ encode_all header)
    × (read_all string_reader header (record { content = encode_all header ++ text; offset = 0 })
        ≡ returned (values header) t)
    × (drop t.offset t.content ≡ text)
unfolding string_sink string_stream string_supply
write_all-read_all_example =
    write_all-read_all string_sink string_stream header text empty_writer
      (record { content = encode_all header ++ text; offset = 0 })
      (omega arith, (omega arith, (omega arith, tt))) (omega arith) (omega arith, omega arith) refl

abbrev open_string : Bytes → StringReader
open_string bs = record { content = bs; offset = 0 }

write_rows-read_rows_example :
    (b : BitWriter StringWriter) × (c : BitReader StringReader) × ((write_rows string_writer
            ((3, 5) ∷ (13, 4097) ∷ [])
          >> flush string_writer)
        (fresh_writer empty_writer)
      ≡ returned tt b)
    × (read_rows string_reader
          ((3, 5) ∷ (13, 4097) ∷ [])
          (fresh_reader (open_string ((b.writer).content)))
        ≡ returned (5 ∷ 4097 ∷ []) c)
unfolding string_sink string_stream string_supply
write_rows-read_rows_example =
    write_rows-read_rows string_sink string_stream ((3, 5) ∷ (13, 4097) ∷ []) empty_writer
      open_string ((omega arith, omega arith), ((omega arith, omega arith), tt)) refl (omega arith)
      (λ bs h. (omega arith, omega arith)) (λ bs. refl)

block_write_bounds_example :
    ((block_basic_write text (record { block = 0 ∷ 0 ∷ 0 ∷ []; at = 0; length = 3; offset = 0 })
        ≡ thrown block_overflowed
            (record { block = 0 ∷ 0 ∷ 0 ∷ []; at = 0; length = 3; offset = 0 }))
      × (3 < 0 + length text))
    ⊎ ((s' : BlockWriter) × (block_basic_write text
            (record { block = 0 ∷ 0 ∷ 0 ∷ []; at = 0; length = 3; offset = 0 })
          ≡ returned tt s')
        × BlockRoom 0 s'
        × (s'.at ≡ 0 + length text)
        × (take s'.at s'.block ≡ take 0 (0 ∷ 0 ∷ 0 ∷ []) ++ text)
        × (drop s'.at s'.block ≡ drop s'.at (0 ∷ 0 ∷ 0 ∷ [])))
block_write_bounds_example =
    block_write_bounds text (record { block = 0 ∷ 0 ∷ 0 ∷ []; at = 0; length = 3; offset = 0 })
      (refl, omega arith, refl, omega arith)

skip_to_eof_lem_example :
    Ends string_supply
      (skip_to_eof string_reader 1 reading)
      (λ s'. if 3 == 0 then returned true s' else thrown eof s')
unfolding string_stream string_supply
skip_to_eof_lem_example =
    skip_to_eof_lem string_stream 1 0 3 reading (omega arith, omega arith) refl (omega arith)
      (omega arith)

skip_to_eof_beyond_example :
    (l : LimitedReader StringReader) × ((limited_skip_to_eof string_reader
          >> limited_try_read string_reader 1)
        (record { reader = record { content = text; offset = 0 }; left = 2; offset = 0 })
      ≡ returned (some (take 1 (drop 2 text))) l)
unfolding string_supply string_stream string_reader string_skip add64
skip_to_eof_beyond_example =
    skip_to_eof_beyond string_stream 1
      (record { reader = record { content = text; offset = 0 }; left = 2; offset = 0 })
      (record { content = text; offset = 2 }) ((omega arith, omega arith), omega arith) refl
      (omega arith, omega arith) refl (omega arith) (omega arith) (omega arith)
