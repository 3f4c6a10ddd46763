-- ===== src/Json/Examples.antt =====
-- The theorems on libs/json at concrete inputs.
use obtools.Common.{
  ◌-◌, ◌^◌, ◌≤◌, ◌<◌, ◌≡◌, ◌≢◌, refl, ◌⊎◌, [], ◌∷◌, ◌++◌, some, length, drop, arith,
}
use obtools.Channel.{Bytes, Error, eof, returned, thrown}
use obtools.Channel.Memory.{StringReader, string_reader, StringWriter, string_writer}
use obtools.Channel.Sources.{string_supply, string_stream}
use obtools.Channel.Sinks.{string_sink}
use obtools.Channel.Texts.{string_texts}
use obtools.Channel.Fields.{Takes}
use obtools.Json.{
  Value, null, number, integer, string, object, array, true_value, Values, no_values, value,
  Members, no_members, member, before, put, find,
}
use obtools.Json.CborWriter.{encode}
use obtools.Json.CborReader.{decode}
use obtools.Json.Form.{form, head, Encodable}
use obtools.Json.Ending.{decode_ends}
use obtools.Json.RoundTrip.{encode-decode, write_indefinite, indefinite_form, indefinite-decode}
use obtools.Json.Objects.{Ascending, put_lem}
use obtools.Json.Faults.{decode_loses_sign, number_lost}

abbrev names : Members
names = member (97 ∷ []) (integer (2 ^ 64 - 500)) (member (98 ∷ []) null no_members)

abbrev items : Values
items = value (integer 70000) (value (object names) (value (string (104 ∷ 105 ∷ [])) no_values))

abbrev open_string : Bytes → StringReader
open_string bs = record { content = bs; offset = 0 }

abbrev empty_writer : StringWriter
empty_writer = record { content = []; offset = 0 }

encode-decode_example :
    (s : StringWriter) × (t : StringReader) × (encode string_writer (array items) empty_writer
      ≡ returned tt s)
    × (s.content ≡ [] ++ form (array items))
    × (decode string_reader 100 (open_string (form (array items) ++ (7 ∷ [])))
        ≡ returned (some (array items)) t)
    × (drop t.offset t.content ≡ 7 ∷ [])
unfolding string_sink string_stream string_supply form Encodable before
encode-decode_example =
    encode-decode string_sink string_stream string_texts (array items) 100 (7 ∷ []) empty_writer
      (open_string (form (array items) ++ (7 ∷ [])))
      (
        omega arith,
        (
          omega arith,
          (
            (omega arith, (omega arith, (refl, tt), omega arith, (omega arith, tt, tt, tt))),
            (omega arith, tt),
          ),
        ),
      )
      (omega arith) (omega arith) (omega arith, omega arith) refl

abbrev pair : Values
pair = value (integer 70000) (value true_value no_values)

indefinite-decode_example :
    (s : StringWriter) × (t : StringReader) × (write_indefinite string_writer pair empty_writer
      ≡ returned tt s)
    × (s.content ≡ [] ++ indefinite_form pair)
    × (decode string_reader 100 (open_string (indefinite_form pair ++ (7 ∷ [])))
        ≡ returned (some (array pair)) t)
    × (drop t.offset t.content ≡ 7 ∷ [])
unfolding string_sink string_stream string_supply form Encodable
indefinite-decode_example =
    indefinite-decode string_sink string_stream string_texts pair 100 (7 ∷ []) empty_writer
      (open_string (indefinite_form pair ++ (7 ∷ []))) (omega arith, (tt, tt)) (omega arith)
      (omega arith) (omega arith, omega arith) refl

-- An array that claims four elements and has two.
abbrev cut_off : StringReader
cut_off = open_string (0x84 ∷ 1 ∷ 2 ∷ [])

decode_ends_example :
    ((v : Value) × (s' : StringReader) × (decode string_reader 7 cut_off ≡ returned (some v) s')
      × ((s'.offset ≤ length s'.content) × (length s'.content < 2 ^ 64))
      × (length (drop s'.offset s'.content) < 3))
    ⊎ ((e : Error) × (s' : StringReader) × (decode string_reader 7 cut_off ≡ thrown e s')
        × ((s'.offset ≤ length s'.content) × (length s'.content < 2 ^ 64)))
unfolding string_stream string_supply
decode_ends_example =
    decode_ends string_stream string_texts 7 cut_off (omega arith, omega arith) (omega arith)

put_lem_example :
    Ascending (put (97 ∷ 97 ∷ []) true_value names)
    × (find (97 ∷ 97 ∷ []) (put (97 ∷ 97 ∷ []) true_value names) ≡ true_value)
    × ((j : Bytes) → j ≢ 97 ∷ 97 ∷ [] → find j (put (97 ∷ 97 ∷ []) true_value names) ≡ find j names)
unfolding before
put_lem_example = put_lem (97 ∷ 97 ∷ []) true_value names ((refl, tt), (tt, tt))

decode_loses_sign_example :
    Takes string_stream
      (decode string_reader 1 (open_string (head 1 (2 ^ 64 - 3) ++ [])))
      (some (integer (2 ^ 64 - 1 - (2 ^ 64 - 3))))
      []
    × (2 ^ 64 - 1 - (2 ^ 64 - 3) < 2 ^ 63)
unfolding string_stream string_supply
decode_loses_sign_example =
    decode_loses_sign string_stream (2 ^ 64 - 3) 0 [] (open_string (head 1 (2 ^ 64 - 3) ++ []))
      (omega arith) (omega arith) (omega arith, omega arith) refl

number_lost_example :
    (s' : StringWriter) × (t' : StringReader) × (encode string_writer
        (array (value (number 0) no_values))
        empty_writer
      ≡ returned tt s')
    × (s'.content ≡ [] ++ head 4 1)
    × (decode string_reader 3 (open_string (head 4 1)) ≡ thrown eof t')
unfolding string_sink string_stream string_supply
number_lost_example =
    number_lost string_sink string_stream 0 0 empty_writer (open_string (head 4 1)) (omega arith)
      (omega arith, omega arith) refl
