-- ===== src/Text/Base64/RoundTrip.antt =====
-- The encoder and the decoder of libs/text/base64.cc together.
use obtools.Common.{
  ℕ, zero, suc, ◌+◌, ◌*◌, ◌/◌, ◌%◌, ◌^◌, ◌≤◌, ◌<◌, ◌≡◌, refl, ap, ◌∙◌, inl, inr, List, [], ◌∷◌,
  ◌++◌, some, true, false, length, ltb, leb, ◌==◌, ==→≡, Bool-cases, All, arith,
}
use obtools.Text.Base64.{
  Text, Base64, encode, decode, binary_length, decode_string, top_bytes, encode_number,
  decode_number, accumulate,
}
use obtools.Text.Base64.Grouping.{indexes, unpack, Byte, unpack-pack, length-unpack, length-indexes}
use obtools.Text.Base64.Kinds.{Proper}
use obtools.Text.Base64.Silence.{Silent}
use obtools.Text.Base64.Reading.{outcome}
use obtools.Text.Base64.Loop.{decode_lem}
use obtools.Text.Base64.Groups.{indexes-encode}

-- What the encoder makes of a block of bytes is decoded to the same bytes, whatever the length of
-- the lines, if the ends of lines are of characters that the decoder passes over and the special
-- characters differ from each other, from the letters and from the numerals. A block with too
-- little room gets the first bytes and the sign of failure.
pub decode-encode :
    (b64 : Base64) (block : List ℕ) (split : ℕ) (line_end : Text) (max_length : ℕ)
    → Proper b64
    → Silent b64 line_end
    → All Byte block
    → decode b64 (encode b64 block split line_end) max_length ≡ outcome max_length block
decode-encode b64 block split line_end max_length p s b =
    decode_lem b64 (encode b64 block split line_end) max_length
    ∙ ap (λ u. outcome max_length (unpack u)) (indexes-encode b64 block split line_end p s b)
    ∙ ap (outcome max_length) (unpack-pack block b)

-- The estimate of the length is always enough: the form for strings never fails, on any text, and
-- appends all that the digits before the padding stand for.
pub decode_string_lem :
    (b64 : Base64) (base64 : Text) (binary : List ℕ)
    → decode_string b64 base64 binary ≡ some (binary ++ unpack (indexes b64 base64))
unfolding decode_string binary_length
decode_string_lem b64 base64 binary =
    let bytes = unpack (indexes b64 base64) in
    let max_length = (length base64 * 3 + 3) / 4 in
    let room : length bytes ≤ max_length =
      omega (arith, length-unpack (indexes b64 base64), length-indexes b64 base64) in
    let t : leb (length bytes) max_length ≡ true = ground arith in
    let f : ltb max_length (length bytes) ≡ false = ground arith in
    rw (decode_lem b64 base64 max_length, t, f) refl

top_bytes-Byte : (count n : ℕ) → n < 2 ^ 64 → All Byte (top_bytes count n)
unfolding top_bytes
top_bytes-Byte zero n h = tt
top_bytes-Byte (suc count) n h =
    (omega arith, top_bytes-Byte count (n * 256 % 2 ^ 64) (omega arith))

accumulate_eight : (n : ℕ) → n < 2 ^ 64 → accumulate (top_bytes 8 n) 0 ≡ n
unfolding top_bytes
accumulate_eight n h = omega arith

accumulate_four : (n : ℕ) → n < 2 ^ 32 → accumulate (top_bytes 4 (n * 2 ^ 32 % 2 ^ 64)) 0 ≡ n
unfolding top_bytes
accumulate_four n h = omega arith

length-top_bytes : (count n : ℕ) → length (top_bytes count n) ≡ count
unfolding top_bytes
length-top_bytes zero n = refl
length-top_bytes (suc count) n = omega (arith, length-top_bytes count (n * 256 % 2 ^ 64))

decode_number-bytes :
    (b64 : Base64) (base64 : Text) (bs : List ℕ)
    → decode b64 base64 8 ≡ outcome 8 bs
    → length bs ≤ 8
    → decode_number b64 base64 ≡ some (accumulate bs 0)
unfolding decode_number
decode_number-bytes b64 base64 bs e h =
    let t : leb (length bs) 8 ≡ true = ground arith in
    let f : ltb 8 (length bs) ≡ false = ground arith in rw (e, t, f) refl

-- A number of 64 bits is encoded, in four bytes or in eight, to a text that is decoded to it, if the
-- special characters are apart and none of them is a carriage return or a line feed.
pub decode_number-encode_number :
    (b64 : Base64) (n : ℕ)
    → Proper b64
    → Silent b64 (13 ∷ 10 ∷ [])
    → n < 2 ^ 64
    → decode_number b64 (encode_number b64 n) ≡ some n
unfolding encode_number
decode_number-encode_number b64 n p s h = elim (Bool-cases (n / 2 ^ 32 == 0)) [
  | inl t ↦
      (let z = ==→≡ (n / 2 ^ 32) 0 t in
        let bs = top_bytes 4 (n * 2 ^ 32 % 2 ^ 64) in
        rw t (
          decode_number-bytes b64 (encode b64 bs 0 (13 ∷ 10 ∷ [])) bs
            (decode-encode b64 bs 0 (13 ∷ 10 ∷ []) 8 p s
              (top_bytes-Byte 4 (n * 2 ^ 32 % 2 ^ 64) (omega arith)))
            (omega (arith, length-top_bytes 4 (n * 2 ^ 32 % 2 ^ 64)))
          ∙ ap (λ k. some k) (accumulate_four n (omega arith))))
  | inr f ↦
      (let bs = top_bytes 8 n in
        rw f (
          decode_number-bytes b64 (encode b64 bs 0 (13 ∷ 10 ∷ [])) bs
            (decode-encode b64 bs 0 (13 ∷ 10 ∷ []) 8 p s (top_bytes-Byte 8 n h))
            (omega (arith, length-top_bytes 8 n))
          ∙ ap (λ k. some k) (accumulate_eight n h)))
]
