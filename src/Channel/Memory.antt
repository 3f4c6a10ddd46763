-- ===== src/Channel/Memory.antt =====
-- Channels on memory: libs/chan/string-chan.cc and block-chan.cc. A block is the memory from the
-- pointer that the constructor was given, and `at` is how far the pointer has moved since.
use obtools.Common.{
  ℕ, ◌+◌, ◌-◌, ◌++◌, length, take, drop, replicate, leb, ltb, if◌then◌else◌, add64, sub64,
}
use obtools.Channel.{
  Bytes, skip_beyond_end, rewound_too_far, block_overflowed, block_overflowed_in_skip, Action,
  returned, thrown, Reader, Writer,
}
use obtools.Channel.Reading.{base_try_read, base_try_read_string}

pub record StringReader : Type 0 where
  pub content : Bytes
  pub offset : ℕ

unfoldable pub string_basic_read : ℕ → Action StringReader Bytes
string_basic_read count s =
    let available = sub64 (length s.content) s.offset in
    let n = if ltb available count then available else count in
    returned (take n (drop s.offset s.content)) (record s { offset = add64 s.offset n })

unfoldable pub string_skip : ℕ → Action StringReader (Unit {0})
string_skip n s =
    if ltb (length s.content) (add64 s.offset n)
    then thrown skip_beyond_end s
    else returned tt (record s { offset = add64 s.offset n })

unfoldable pub string_rewind : ℕ → Action StringReader (Unit {0})
string_rewind n s =
    if leb n s.offset
    then returned tt (record s { offset = s.offset - n })
    else thrown rewound_too_far s

unfoldable pub string_reader : Reader StringReader
string_reader = record {
  basic_read = string_basic_read;
  try_read = base_try_read string_basic_read;
  try_read_string = base_try_read_string string_basic_read;
  skip = string_skip;
  offset = λ s. s.offset;
}

pub record BlockReader : Type 0 where
  pub block : Bytes
  pub at : ℕ
  pub length : ℕ
  pub offset : ℕ

unfoldable pub block_basic_read : ℕ → Action BlockReader Bytes
block_basic_read count s =
    let available = sub64 s.length s.offset in
    let n = if ltb available count then available else count in
    returned (take n (drop s.at s.block))
      (record s { at = add64 s.at n; offset = add64 s.offset n })

unfoldable pub block_skip : ℕ → Action BlockReader (Unit {0})
block_skip n s =
    if ltb s.length (add64 s.offset n)
    then thrown skip_beyond_end s
    else returned tt (record s { at = add64 s.at n; offset = add64 s.offset n })

unfoldable pub block_rewind : ℕ → Action BlockReader (Unit {0})
block_rewind n s =
    if leb n s.offset
    then returned tt (record s { at = sub64 s.at n; offset = s.offset - n })
    else thrown rewound_too_far s

unfoldable pub block_reader : Reader BlockReader
block_reader = record {
  basic_read = block_basic_read;
  try_read = base_try_read block_basic_read;
  try_read_string = base_try_read_string block_basic_read;
  skip = block_skip;
  offset = λ s. s.offset;
}

pub record StringWriter : Type 0 where
  pub content : Bytes
  pub offset : ℕ

unfoldable pub string_basic_write : Bytes → Action StringWriter (Unit {0})
string_basic_write bs s =
    returned tt (record { content = s.content ++ bs; offset = add64 s.offset (length bs) })

unfoldable pub string_write_skip : ℕ → Action StringWriter (Unit {0})
string_write_skip n s =
    returned tt (record { content = s.content ++ replicate n 0; offset = add64 s.offset n })

unfoldable pub string_write_rewind : ℕ → Action StringWriter (Unit {0})
string_write_rewind n s =
    if leb n s.offset
    then returned tt (record { content = take (s.offset - n) s.content; offset = s.offset - n })
    else thrown rewound_too_far s

unfoldable pub string_writer : Writer StringWriter
string_writer = record {
  basic_write = string_basic_write;
  skip = string_write_skip;
  offset = λ s. s.offset;
}

pub record BlockWriter : Type 0 where
  pub block : Bytes
  pub at : ℕ
  pub length : ℕ
  pub offset : ℕ

-- memcpy and memset at the pointer.
unfoldable pub store : ℕ → Bytes → Bytes → Bytes
store at bs block = take at block ++ (bs ++ drop (at + length bs) block)

unfoldable pub block_basic_write : Bytes → Action BlockWriter (Unit {0})
block_basic_write bs s =
    if leb (length bs) (sub64 s.length s.offset)
    then returned tt (record s {
      block = store s.at bs s.block;
      at = add64 s.at (length bs);
      offset = add64 s.offset (length bs);
    })
    else thrown block_overflowed s

unfoldable pub block_write_skip : ℕ → Action BlockWriter (Unit {0})
block_write_skip n s =
    if leb (add64 s.offset n) s.length
    then returned tt (record s {
      block = store s.at (replicate n 0) s.block;
      at = add64 s.at n;
      offset = add64 s.offset n;
    })
    else thrown block_overflowed_in_skip s

unfoldable pub block_write_rewind : ℕ → Action BlockWriter (Unit {0})
block_write_rewind n s =
    if leb n s.offset
    then returned tt (record s { at = sub64 s.at n; offset = s.offset - n })
    else thrown rewound_too_far s

unfoldable pub block_writer : Writer BlockWriter
block_writer = record {
  basic_write = block_basic_write;
  skip = block_write_skip;
  offset = λ s. s.offset;
}
