-- ===== src/Text/Base64/Examples.antt =====
-- The theorems on libs/text/base64.cc at concrete inputs.
use obtools.Common.{◌≡◌, refl, [], ◌∷◌, ◌++◌, some, arith}
use obtools.Text.Base64.{
  Text, Base64, kind, encode, encode_loop, run_out, index_char, padding, decode, decode_string,
  encode_number, decode_number,
}
use obtools.Text.Base64.Grouping.{indexes, unpack}
use obtools.Text.Base64.Kinds.{Proper}
use obtools.Text.Base64.Reading.{outcome}
use obtools.Text.Base64.Loop.{decode_lem}
use obtools.Text.Base64.RoundTrip.{decode-encode, decode_string_lem, decode_number-encode_number}

abbrev standard : Base64
standard = record { pad = 61; extra_62 = 43; extra_63 = 47 }

standard-Proper : Proper standard
standard-Proper = record {
  plain_62 = refl;
  plain_63 = refl;
  plain_pad = refl;
  apart = λ e. omega arith;
  apart_62 = λ e. omega arith;
  apart_63 = λ e. omega arith;
}

-- "Zm9vYg==", with a space in it.
abbrev foob : Text
foob = 90 ∷ 109 ∷ 57 ∷ 118 ∷ 32 ∷ 89 ∷ 103 ∷ 61 ∷ 61 ∷ []

encode-foob : encode standard (102 ∷ 111 ∷ 111 ∷ 98 ∷ []) 4 (32 ∷ []) ≡ foob
unfolding encode encode_loop run_out index_char padding
encode-foob = refl

decode_lem_example : decode standard foob 3 ≡ outcome 3 (unpack (indexes standard foob))
decode_lem_example = decode_lem standard foob 3

decode-encode_example :
    decode standard (encode standard (0 ∷ 255 ∷ 7 ∷ 250 ∷ []) 4 (13 ∷ 10 ∷ [])) 4
    ≡ outcome 4 (0 ∷ 255 ∷ 7 ∷ 250 ∷ [])
unfolding kind
decode-encode_example =
    decode-encode standard (0 ∷ 255 ∷ 7 ∷ 250 ∷ []) 4 (13 ∷ 10 ∷ []) 4 standard-Proper
      (refl, (refl, tt)) (omega arith, (omega arith, (omega arith, (omega arith, tt))))

decode_string_lem_example :
    decode_string standard foob (1 ∷ []) ≡ some ((1 ∷ []) ++ unpack (indexes standard foob))
decode_string_lem_example = decode_string_lem standard foob (1 ∷ [])

decode_number-encode_number_example :
    decode_number standard (encode_number standard 0x123456789abcdef0) ≡ some 0x123456789abcdef0
unfolding kind
decode_number-encode_number_example =
    decode_number-encode_number standard 0x123456789abcdef0 standard-Proper (refl, (refl, tt))
      (omega arith)
