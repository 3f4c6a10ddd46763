-- ===== src/Text/Examples.antt =====
-- The theorem on libs/text/base36.cc and base16alpha.cc at a concrete number.
use obtools.Common.{ℕ, ◌≡◌, List, some, arith}
use obtools.Text.Radix.{encode_36, decode_36, encode_16, decode_16}
use obtools.Text.Radix.RoundTrip.{decode-encode_number}

decode-encode_number_example :
    ((text : List ℕ) × (encode_36 13 0xfedcba9876543210 ≡ some text)
      × (decode_36 text ≡ some 0xfedcba9876543210))
    × ((text : List ℕ) × (encode_16 16 0xfedcba9876543210 ≡ some text)
        × (decode_16 text ≡ some 0xfedcba9876543210))
decode-encode_number_example = decode-encode_number 0xfedcba9876543210 (omega arith)
