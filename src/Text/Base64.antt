-- ===== src/Text/Base64.antt =====
-- Base64: libs/text/base64.cc. A block is the list of the bytes in it, a string the list of its
-- characters.
pub mod Kinds
pub mod Grouping
pub mod Silence
pub mod Writing
pub mod Groups
pub mod Reading
pub mod Loop
pub mod RoundTrip
mod Examples
use obtools.Common.{
  ℕ, zero, suc, ◌+◌, ◌-◌, ◌*◌, ◌/◌, ◌%◌, ◌^◌, List, [], ◌∷◌, ◌++◌, Bool, true, false, not, ◌&&◌,
  Option, none, some, length, get_or, drop, ltb, leb, ◌==◌, if◌then◌else◌,
}

abbrev pub Text : Type 0
Text = List ℕ

-- The characters for padding, or 0 for none, and for 62 and 63.
pub record Base64 : Type 0 where
  pub pad : ℕ
  pub extra_62 : ℕ
  pub extra_63 : ℕ

abbrev pub base64_chars : Text
base64_chars =
    65 ∷ 66 ∷ 67 ∷ 68 ∷ 69 ∷ 70 ∷ 71 ∷ 72 ∷ 73 ∷ 74 ∷ 75 ∷ 76 ∷ 77 ∷ 78 ∷ 79 ∷ 80 ∷ 81 ∷ 82 ∷ 83
    ∷ 84 ∷ 85 ∷ 86 ∷ 87 ∷ 88 ∷ 89 ∷ 90 ∷ 97 ∷ 98 ∷ 99 ∷ 100 ∷ 101 ∷ 102 ∷ 103 ∷ 104 ∷ 105 ∷ 106
    ∷ 107 ∷ 108 ∷ 109 ∷ 110 ∷ 111 ∷ 112 ∷ 113 ∷ 114 ∷ 115 ∷ 116 ∷ 117 ∷ 118 ∷ 119 ∷ 120 ∷ 121 ∷ 122
    ∷ 48 ∷ 49 ∷ 50 ∷ 51 ∷ 52 ∷ 53 ∷ 54 ∷ 55 ∷ 56 ∷ 57 ∷ []

-- What a character is to the decoder.
pub data Kind : Type 0 where
  digit : ℕ → Kind
  stop : Kind
  ignored : Kind

unfoldable pub top_bytes : ℕ → ℕ → List ℕ
top_bytes zero n = []
top_bytes (suc count) n = n / 2 ^ 56 ∷ top_bytes count (n * 256 % 2 ^ 64)

module _ (b64 : Base64) where
  unfoldable pub index_char : ℕ → ℕ
  index_char index =
      if ltb index 62
      then get_or base64_chars index 0
      else if index == 62
      then b64.extra_62
      else b64.extra_63

  -- Up to four 6-bit indexes from the top of 24 bits.
  unfoldable pub run_out : ℕ → ℕ → Text
  run_out zero n = []
  run_out (suc count) n = index_char (n / 2 ^ 18 % 64) ∷ run_out count (n * 64 % 2 ^ 32)

  -- `turns` turns are left of the loop, `i` are done. The low byte of `n` is free for what is or-ed in.
  unfoldable pub encode_loop : ℕ → List ℕ → ℕ → Text → ℕ → ℕ → ℕ → ℕ → Text → Text
  encode_loop zero block split line_end i n count chars base64 = base64
  encode_loop (suc turns) block split line_end i n count chars base64 =
      let more = ltb i (length block) in
      let n' = if more then n * 256 % 2 ^ 32 + get_or block i 0 else n * 256 % 2 ^ 32 in
      let count' = if more then count + 1 else count in
      let chars' = chars + count' in
      let line = if not (split == 0) && (chars' % split == 0) then line_end else [] in
      let next = encode_loop turns block split line_end (i + 1) n' count' chars base64 in
      let cleared =
        encode_loop turns block split line_end (i + 1) 0 1 chars'
          (base64 ++ (run_out count' n' ++ line)) in
      if i % 3 == 2 then cleared else next

  unfoldable pub padding : ℕ → Text
  padding zero = []
  padding (suc n) = b64.pad ∷ padding n

  unfoldable pub encode : List ℕ → ℕ → Text → Text
  encode block split line_end =
      let rlength = 3 * ((length block + 2) / 3) in
      let base64 = encode_loop rlength block split line_end 0 0 1 0 [] in
      if b64.pad == 0 then base64 else base64 ++ padding (rlength - length block)

  -- A number of 64 bits, or its low 32 bits where the high ones are 0.
  unfoldable pub encode_number : ℕ → Text
  encode_number n =
      if n / 2 ^ 32 == 0
      then encode (top_bytes 4 (n * 2 ^ 32 % 2 ^ 64)) 0 (13 ∷ 10 ∷ [])
      else encode (top_bytes 8 n) 0 (13 ∷ 10 ∷ [])

  unfoldable pub kind : ℕ → Kind
  kind c =
      if leb 65 c && leb c 90
      then digit (c - 65)
      else if leb 97 c && leb c 122
      then digit (26 + c - 97)
      else if leb 48 c && leb c 57
      then digit (52 + c - 48)
      else if c == b64.extra_62
      then digit 62
      else if c == b64.extra_63
      then digit 63
      else if c == b64.pad
      then stop
      else ignored

-- The bytes written to the block, and the length that is returned.
pub record Decoded : Type 0 where
  pub written : List ℕ
  pub result : ℕ

-- The top bytes of 24 bits, while there is room: what is written in all, and whether it was.
unfoldable pub write_out : ℕ → ℕ → ℕ → List ℕ → List ℕ × Bool
write_out max_length zero n written = (written, true)
write_out max_length (suc count) n written =
    let rest = write_out max_length count (n * 256 % 2 ^ 32) (written ++ (n / 2 ^ 16 % 256 ∷ [])) in
    if ltb (length written) max_length then rest else (written, false)

abbrev pub finished : ℕ → List ℕ × Bool → Decoded
finished max_length (written, true) = record { written = written; result = length written }
finished max_length (written, false) = record { written = written; result = max_length + 1 }

unfoldable pub left_over : ℕ → ℕ → ℕ → List ℕ → Decoded
left_over max_length n i written =
    if i % 4 == 0
    then finished max_length (written, true)
    else finished max_length
        (write_out max_length (i % 4 - 1) (n * 2 ^ (6 * (4 - i % 4)) % 2 ^ 32) written)

abbrev pub if_room : ℕ → List ℕ × Bool → (List ℕ → Decoded) → Decoded
if_room max_length (written, true) next = next written
if_room max_length (written, false) next = finished max_length (written, false)

abbrev pub accumulate : List ℕ → ℕ → ℕ
accumulate [] n = n
accumulate (b ∷ bs) n = accumulate bs (n * 256 % 2 ^ 64 + b)

abbrev pub on_kind : Kind → Decoded → Decoded → (ℕ → Decoded) → Decoded
on_kind (digit cn) stopped skipped go = go cn
on_kind stop stopped skipped go = stopped
on_kind ignored stopped skipped go = skipped

module _ (b64 : Base64) where
  unfoldable pub decode_loop : ℕ → Text → ℕ → ℕ → List ℕ → Decoded
  decode_loop max_length [] n i written = left_over max_length n i written
  decode_loop max_length (c ∷ cs) n i written =
      let skipped = decode_loop max_length cs n i written in
      on_kind (kind b64 c) (left_over max_length n i written) skipped (λ cn.
        let n' = n * 64 % 2 ^ 32 + cn in
        let next = decode_loop max_length cs n' (i + 1) written in
        if (i + 1) % 4 == 0
        then if_room max_length (write_out max_length 3 n' written)
            (λ written'. decode_loop max_length cs 0 (i + 1) written')
        else next)

  unfoldable pub decode : Text → ℕ → Decoded
  decode base64 max_length = decode_loop max_length base64 0 0 []

  unfoldable pub binary_length : Text → ℕ
  binary_length base64 = (length base64 * 3 + 3) / 4

  -- The forms for a string and for a vector: what is appended to, or none for a failure.
  unfoldable pub decode_string : Text → List ℕ → Option (List ℕ)
  decode_string base64 binary =
      let max_length = binary_length base64 in
      let d = decode base64 max_length in
      if ltb max_length d.result then none else some (binary ++ d.written)

  unfoldable pub decode_number : Text → Option ℕ
  decode_number base64 =
      let d = decode base64 8 in if ltb 8 d.result then none else some (accumulate d.written 0)
