-- ===== src/Huffman/Examples.antt =====
-- Trees of three values, and bytes read through them: libs/huffman.
use obtools.Common.{◌≡◌, refl, [], ◌∷◌, true, false, some, none, arith}
use obtools.Channel.Memory.{StringReader, string_reader}
use obtools.Channel.Sources.{string_supply, string_stream}
use obtools.Channel.BitStream.{BitReader}
use obtools.Channel.BitStream.Waiting.{Gives}
use obtools.Huffman.{
  byte_value, special_value, stop, new_node, Node, set_at, Mapping, add_mapping, populate, get_node,
  read_value, read_sequence,
}
use obtools.Huffman.Decoding.{read_value-populate}

abbrev letter_a : Mapping
letter_a = record { sequence = false ∷ []; value = byte_value 97 }

abbrev letter_b : Mapping
letter_b = record { sequence = true ∷ false ∷ []; value = byte_value 98 }

abbrev ending : Mapping
ending = record { sequence = true ∷ true ∷ []; value = special_value stop }

abbrev three_values : Node
three_values = populate (letter_a ∷ letter_b ∷ ending ∷ []) new_node

-- The bits 10110100, none of them read yet.
abbrev one_byte : BitReader StringReader
one_byte = record {
  reader = record { content = 180 ∷ []; offset = 0 };
  bits_valid = 0;
  current_byte = 0;
}

unread_sequence : read_sequence three_values (true ∷ true ∷ true ∷ []) ≡ none
unfolding read_sequence populate get_node add_mapping set_at
unread_sequence = refl

known_sequence : read_sequence three_values (true ∷ true ∷ []) ≡ some (special_value stop)
unfolding read_sequence populate get_node add_mapping set_at
known_sequence = refl

read_value-populate_example :
    Gives string_stream
      (read_value string_reader three_values one_byte)
      (some (byte_value 98))
      (1 ∷ 1 ∷ 0 ∷ 1 ∷ 0 ∷ 0 ∷ [])
unfolding string_stream string_supply
read_value-populate_example =
    read_value-populate string_stream (letter_a ∷ []) (ending ∷ []) true (false ∷ [])
      (byte_value 98) (1 ∷ 1 ∷ 0 ∷ 1 ∷ 0 ∷ 0 ∷ []) one_byte (tt, tt) (tt, tt)
      record { few = omega arith; valid = (omega arith, omega arith) } refl
