-- ===== src/Gather/Examples.antt =====
-- The theorems on the gather buffers of libs/gather at a concrete memory and buffer.
use obtools.Common.{◌+◌, ◌*◌, ◌≤◌, ◌≡◌, [], ◌∷◌, ◌++◌, length, some, arith}
use obtools.Gather.{
  Memory, Buffer, external, fresh_segment, used_segments, span, copy, add, get_flat_data,
}
use obtools.Gather.Data.{bytes}
use obtools.Gather.Copying.{copy_lem}
use obtools.Gather.Adding.{add-bytes}
use obtools.Gather.Flattening.{found, get_flat_data_lem}

-- Each byte is twice its address.
abbrev doubles : Memory
doubles address = address * 2

abbrev parts : Buffer
parts = record {
  segments = external 10 2 ∷ external 50 0 ∷ external 30 3 ∷ fresh_segment ∷ [];
  count = 3;
}

copy_lem_example : copy doubles 1 3 parts ≡ 22 ∷ 60 ∷ 62 ∷ []
copy_lem_example = copy_lem doubles 1 3 parts (omega arith) (omega arith)

add-bytes_example :
    (b : Buffer) × (add (external 7 1) parts ≡ some b)
    × (b.count ≡ 3 + 1)
    × (b.count ≤ length b.segments)
    × (bytes doubles (used_segments b) ≡ bytes doubles (used_segments parts) ++ span doubles 7 1)
add-bytes_example = add-bytes doubles (external 7 1) parts (omega arith) (omega arith)

get_flat_data_lem_example :
    found doubles 3 (get_flat_data doubles 1 3 parts) ≡ some (22 ∷ 60 ∷ 62 ∷ [])
get_flat_data_lem_example = get_flat_data_lem doubles 1 3 parts (omega arith) (omega arith)
