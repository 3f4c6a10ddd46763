-- ===== src/Gather.antt =====
-- The gather buffer of libs/gather: ot-gather.h, segment.cc and buffer.cc. A pointer is an address of
-- a memory that maps addresses to bytes, and 0 is the null pointer.
pub mod Data
pub mod Limiting
pub mod Copying
pub mod Adding
pub mod Flattening
mod Examples
use obtools.Common.{
  ℕ, zero, suc, ◌+◌, ◌-◌, ◌*◌, ◌%◌, ◌^◌, List, [], ◌∷◌, ◌++◌, map, Option, none, some, Bool, length,
  take, drop, replicate, set, ltb, leb, ◌==◌, if◌then◌else◌, ◌&&◌, add64, sub64,
}

abbrev pub Memory : Type 0
Memory = ℕ → ℕ

pub record Segment : Type 0 where
  pub owned_data : ℕ
  pub data_start : ℕ
  pub length : ℕ

abbrev pub fresh_segment : Segment
fresh_segment = record { owned_data = 0; data_start = 0; length = 0 }

-- A segment of external data.
abbrev pub external : ℕ → ℕ → Segment
external address n = record { owned_data = 0; data_start = address; length = n }

unfoldable pub consume_segment : ℕ → Segment → Segment
consume_segment n seg = record seg {
  data_start = add64 seg.data_start n;
  length = sub64 seg.length n;
}

unfoldable pub reset_segment : ℕ → Segment → Segment
reset_segment n seg = if n == 0 then fresh_segment else record seg { length = n }

unfoldable pub destroy : Segment → Segment
destroy seg = record seg { owned_data = 0 }

-- The allocated segments, of which the first `count` are used.
pub record Buffer : Type 0 where
  pub segments : List Segment
  pub count : ℕ

abbrev pub used_segments : Buffer → List Segment
used_segments b = take b.count b.segments

unfoldable pub make : ℕ → Buffer
make n = record { segments = replicate n fresh_segment; count = 0 }

unfoldable pub total_length : ℕ → List Segment → ℕ
total_length total [] = total
total_length total (seg ∷ segs) = total_length (add64 total seg.length) segs

unfoldable pub get_length : Buffer → ℕ
get_length b = total_length 0 (used_segments b)

-- `none` is a call of abort().
unfoldable pub resize : ℕ → Buffer → Option Buffer
resize new_size b =
    if ltb new_size b.count
    then none
    else some
        (record b { segments = used_segments b ++ replicate (new_size - b.count) fresh_segment })

unfoldable pub extend : Buffer → Option Buffer
extend b =
    let size = length b.segments in
    if leb size b.count then resize (if size == 0 then 1 else size * 2 % 2 ^ 32) b else some b

abbrev pub put_at_end : Segment → Option Buffer → Option Buffer
put_at_end seg none = none
put_at_end seg (some b) =
    some (record { segments = set b.segments b.count seg; count = (b.count + 1) % 2 ^ 32 })

unfoldable pub add : Segment → Buffer → Option Buffer
add seg b = put_at_end seg (extend b)

unfoldable pub reset : Buffer → Buffer
reset b = record { segments = map destroy (used_segments b) ++ drop b.count b.segments; count = 0 }

-- The bytes from an address.
abbrev pub span : Memory → ℕ → ℕ → List ℕ
span m at zero = []
span m at (suc n) = m at ∷ span m (at + 1) n

-- How much of a segment is copied where `wanted` bytes are left to copy.
abbrev pub part : ℕ → ℕ → ℕ → ℕ
part wanted start len = if ltb (len - start) wanted then len - start else wanted

-- `offset` and `len` are those of the call; `gathered` and `got` are the loop's.
unfoldable pub copy_loop : Memory → ℕ → ℕ → ℕ → ℕ → List Segment → List ℕ
copy_loop m offset len gathered got [] = []
copy_loop m offset len gathered got (seg ∷ segs) =
    let next = add64 gathered seg.length in
    let here = ltb offset next in
    let start = if ltb offset gathered then 0 else offset - gathered in
    let amount = if here then part (len - got) start seg.length else 0 in
    let rest = copy_loop m offset len next (got + amount) segs in
    span m (seg.data_start + start) amount ++ (if here && leb len (got + amount) then [] else rest)

-- The bytes that Buffer::copy puts into the caller's block; it returns how many.
unfoldable pub copy : Memory → ℕ → ℕ → Buffer → List ℕ
copy m offset len b = copy_loop m offset len 0 0 (used_segments b)

-- The entries of the iovec array, or `none` where it overflows and size+1 is returned.
unfoldable pub fill_loop : ℕ → ℕ → List Segment → Option (List (ℕ × ℕ))
fill_loop n size [] = some []
fill_loop n size (seg ∷ segs) =
    let rest = fill_loop (if seg.length == 0 then n else n + 1) size segs in
    if seg.length == 0
    then rest
    else if leb size n
    then none
    else entry (seg.data_start, seg.length) rest
  where
    entry : ℕ × ℕ → Option (List (ℕ × ℕ)) → Option (List (ℕ × ℕ))
    entry e none = none
    entry e (some es) = some (e ∷ es)

unfoldable pub fill : ℕ → Buffer → Option (List (ℕ × ℕ))
fill size b = fill_loop 0 size (used_segments b)

-- The segments after the loop of Buffer::limit, how many stay in use, and what is returned.
pub record Limit : Type 0 where
  pub segments : List Segment
  pub kept : ℕ
  pub total : ℕ

unfoldable pub limit_loop : ℕ → ℕ → List Segment → Limit
limit_loop bound total [] = record { segments = []; kept = 0; total = total }
limit_loop bound total (seg ∷ segs) =
    let sum = add64 total seg.length in
    let rest = limit_loop bound sum segs in
    if leb bound sum
    then record {
      segments = record seg { length = sub64 seg.length (sub64 sum bound) } ∷ map destroy segs;
      kept = 1;
      total = bound;
    }
    else record { segments = seg ∷ rest.segments; kept = suc rest.kept; total = rest.total }

unfoldable pub limit : ℕ → Buffer → Buffer × ℕ
limit bound b =
    let l = limit_loop bound 0 (used_segments b) in
    (record { segments = l.segments ++ drop b.count b.segments; count = l.kept }, l.total)

-- An empty segment takes nothing off `n`.
unfoldable pub consume_loop : ℕ → List Segment → List Segment
consume_loop n [] = []
consume_loop n (seg ∷ segs) =
    let rest = consume_loop (n - seg.length) segs in
    if seg.length == 0
    then seg ∷ rest
    else if ltb n seg.length
    then consume_segment n seg ∷ segs
    else reset_segment 0 seg ∷ rest

unfoldable pub consume : ℕ → Buffer → Buffer
consume n b = record b { segments = consume_loop n (used_segments b) ++ drop b.count b.segments }

-- What get_flat_data returns: a pointer into a segment, or the caller's block with its bytes.
pub data Flat : Type 0 where
  direct : ℕ → Flat
  temp_buf : List ℕ → Flat

unfoldable pub flatten : Memory → ℕ → List ℕ → List Segment → Option Flat
flatten m wanted copied [] = if ltb (length copied) wanted then none else some (temp_buf copied)
flatten m wanted copied (seg ∷ segs) =
    let rest =
      flatten m wanted
        (copied ++ span m seg.data_start (part (wanted - length copied) 0 seg.length)) segs in
    if ltb (length copied) wanted then rest else some (temp_buf copied)

unfoldable pub get_flat_data_multi : Memory → ℕ → ℕ → List Segment → Option Flat
get_flat_data_multi m offset wanted [] = none
get_flat_data_multi m offset wanted (seg ∷ segs) =
    let rest = get_flat_data_multi m (offset - seg.length) wanted segs in
    if ltb offset seg.length
    then (if ltb (add64 offset wanted) seg.length
        then some (direct (seg.data_start + offset))
        else flatten m wanted (span m (seg.data_start + offset) (seg.length - offset)) segs)
    else rest

unfoldable pub get_flat_data_single : ℕ → ℕ → List Segment → Option Flat
get_flat_data_single offset wanted [] = none
get_flat_data_single offset wanted (seg ∷ segs) =
    if ltb seg.length (add64 offset wanted) then none else some (direct (seg.data_start + offset))

unfoldable pub get_flat_data : Memory → ℕ → ℕ → Buffer → Option Flat
get_flat_data m offset wanted b =
    if b.count == 1
    then get_flat_data_single offset wanted b.segments
    else get_flat_data_multi m offset wanted (used_segments b)
