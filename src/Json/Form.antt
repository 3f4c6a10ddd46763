-- ===== src/Json/Form.antt =====
-- The CBOR form of a value, and the values that have one: what libs/json/cbor-writer.cc writes.
use obtools.Common.{
  ℕ, ◌+◌, ◌-◌, ◌*◌, ◌/◌, ◌%◌, ◌^◌, ◌<◌, ◌≡◌, [], ◌∷◌, ◌++◌, true, length, ltb, if◌then◌else◌, arith,
}
use obtools.Channel.{Bytes}
use obtools.Channel.Fields.{big_endian}
use obtools.Json.{
  Value, undefined, null, number, integer, string, object, array, true_value, false_value, binary,
  break_value, Values, no_values, value, Members, no_members, member, array_size, object_size,
  before,
}

-- The first byte of a number's form, and the bytes after it.
abbrev pub additional : ℕ → ℕ
additional n =
    if ltb n 24
    then n
    else if ltb n (2 ^ 8)
    then 24
    else if ltb n (2 ^ 16)
    then 25
    else if ltb n (2 ^ 32)
    then 26
    else 27

abbrev pub trailing : ℕ → Bytes
trailing n =
    if ltb n 24
    then []
    else if ltb n (2 ^ 8)
    then n ∷ []
    else if ltb n (2 ^ 16)
    then big_endian 2 n
    else if ltb n (2 ^ 32)
    then big_endian 4 n
    else big_endian 8 n

abbrev pub head : ℕ → ℕ → Bytes
head major n = (major * 32 + additional n) ∷ trailing n

unfoldable mutual
  pub form : Value → Bytes
  form undefined = 0xf7 ∷ []
  form null = 0xf6 ∷ []
  form (number f) = []
  form (integer n) = if ltb n (2 ^ 63) then head 0 n else head 1 (2 ^ 64 - 1 - n)
  form (string s) = head 3 (length s) ++ s
  form (object ms) = head 5 (object_size ms) ++ form_members ms
  form (array vs) = head 4 (array_size vs) ++ form_values vs
  form true_value = 0xf5 ∷ []
  form false_value = 0xf4 ∷ []
  form (binary s) = head 2 (length s) ++ s
  form break_value = []

  pub form_values : Values → Bytes
  form_values no_values = []
  form_values (value v vs) = form v ++ form_values vs

  pub form_members : Members → Bytes
  form_members no_members = []
  form_members (member k v ms) = (head 3 (length k) ++ k) ++ (form v ++ form_members ms)

-- Every key of `ms` is behind `k`.
abbrev pub AllAfter : Bytes → Members → Type 0
AllAfter k no_members = Unit {0}
AllAfter k (member k' v ms) = (before k k' ≡ true) × AllAfter k ms

-- A value without floating-point numbers and break marks, with arrays and objects of less than 2 ^ 32
-- elements, and objects in order, as a map has them.
unfoldable mutual
  pub Encodable : Value → Type 0
  Encodable undefined = Unit {0}
  Encodable null = Unit {0}
  Encodable (number f) = ⊥
  Encodable (integer n) = n < 2 ^ 64
  Encodable (string s) = length s < 2 ^ 64
  Encodable (object ms) = (object_size ms < 2 ^ 32) × EncodableMembers ms
  Encodable (array vs) = (array_size vs < 2 ^ 32) × EncodableValues vs
  Encodable true_value = Unit {0}
  Encodable false_value = Unit {0}
  Encodable (binary s) = length s < 2 ^ 64
  Encodable break_value = ⊥

  pub EncodableValues : Values → Type 0
  EncodableValues no_values = Unit {0}
  EncodableValues (value v vs) = Encodable v × EncodableValues vs

  pub EncodableMembers : Members → Type 0
  EncodableMembers no_members = Unit {0}
  EncodableMembers (member k v ms) =
      (length k < 2 ^ 64) × AllAfter k ms × Encodable v × EncodableMembers ms

pub additional_below : (n : ℕ) → additional n < 32
additional_below n = ground arith

pub first_byte_below : (major n : ℕ) → major < 8 → major * 32 + additional n < 256
first_byte_below major n h = omega (arith, additional_below n)

pub first_byte_major : (major n : ℕ) → (major * 32 + additional n) / 32 ≡ major
first_byte_major major n = omega (arith, additional_below n)

pub first_byte_additional : (major n : ℕ) → (major * 32 + additional n) % 32 ≡ additional n
first_byte_additional major n = omega (arith, additional_below n)
