-- ===== src/Json/CborWriter.antt =====
-- The CBOR encoder: libs/json/cbor-writer.cc, and Value::cbor of value.cc.
use obtools.Common.{ℕ, ◌+◌, ◌-◌, ◌*◌, ◌^◌, [], length, ltb, if◌then◌else◌, sub64}
use obtools.Channel.{Bytes, Action, Outcome, returned, thrown, ◌>>◌, return, Writer}
use obtools.Channel.Writing.{write, write_byte, write_nbo_16, write_nbo_32, write_nbo_64}
use obtools.Channel.Memory.{StringWriter, string_writer}
use obtools.Json.{
  Value, undefined, null, number, integer, string, object, array, true_value, false_value, binary,
  break_value, Values, no_values, value, Members, no_members, member, array_size, object_size,
}

module _ {S : Type 0} (w : Writer S) where
  -- The low five bits of the first byte are free for what is or-ed in.
  unfoldable pub write_int : ℕ → ℕ → Action S (Unit {0})
  write_int v major_type =
      let first_byte = major_type * 32 in
      if ltb v 24
      then write_byte w (first_byte + v)
      else if ltb v 256
      then write_byte w (first_byte + 0x18) >> write_byte w v
      else if ltb v 65536
      then write_byte w (first_byte + 0x19) >> write_nbo_16 w v
      else if ltb v 0x100000000
      then write_byte w (first_byte + 0x1a) >> write_nbo_32 w v
      else write_byte w (first_byte + 0x1b) >> write_nbo_64 w v

  unfoldable pub write_text : ℕ → Bytes → Action S (Unit {0})
  write_text major_type s = write_int (length s) major_type >> write w s

  -- An int64_t is negative from 2 ^ 63 on, and -1 is 2 ^ 64 - 1. A key is
  -- encoded as the string value of it.
  unfoldable mutual
    pub encode : Value → Action S (Unit {0})
    encode undefined = write_byte w 0xf7
    encode null = write_byte w 0xf6
    encode (number f) = return tt
    encode (integer n) =
        if ltb n (2 ^ 63) then write_int n 0 else write_int (sub64 (2 ^ 64 - 1) n) 1
    encode (string s) = write_text 3 s
    encode (object ms) = write_int (object_size ms) 5 >> encode_members ms
    encode (array vs) = write_int (array_size vs) 4 >> encode_values vs
    encode true_value = write_byte w 0xf5
    encode false_value = write_byte w 0xf4
    encode (binary s) = write_text 2 s
    encode break_value = return tt

    pub encode_values : Values → Action S (Unit {0})
    encode_values no_values = return tt
    encode_values (value v vs) = encode v >> encode_values vs

    pub encode_members : Members → Action S (Unit {0})
    encode_members no_members = return tt
    encode_members (member k v ms) = write_text 3 k >> encode v >> encode_members ms

  unfoldable pub open_indefinite_array : Action S (Unit {0})
  open_indefinite_array = write_byte w 0x9f

  unfoldable pub close_indefinite_array : Action S (Unit {0})
  close_indefinite_array = write_byte w 0xff

abbrev pub written_string : Outcome StringWriter (Unit {0}) → Bytes
written_string (returned a s) = s.content
written_string (thrown e s) = s.content

-- A StringWriter starts at the size of the string that it adds to.
unfoldable pub cbor : Value → Bytes
cbor v = written_string (encode string_writer v (record { content = []; offset = 0 }))
