-- ===== src/Json/CborReader.antt =====
-- The CBOR decoder: libs/json/cbor-reader.cc.
use obtools.Common.{
  ℕ, zero, suc, ◌+◌, ◌-◌, ◌/◌, ◌%◌, ◌^◌, Bool, true, false, Option, none, some, ltb, ◌==◌,
  if◌then◌else◌, sub64,
}
use obtools.Channel.{
  Bytes, Action, ◌>>=◌, return, throw, Reader, unknown_additional_information,
  unhandled_simple_type, bad_object_key, unhandled_tag_type,
}
use obtools.Channel.Reading.{read_string, read_byte, read_nbo_16, read_nbo_32, read_nbo_64}
use obtools.Text.{itos}
use obtools.Json.{
  Value, undefined, null, integer, string, object, array, true_value, false_value, binary,
  break_value, Values, no_values, Members, no_members, push_back, put,
}
use obtools.Json.CborWriter.{cbor}

-- `none` is a run that is not over after its turns.
abbrev pub given : {S A B : Type 0} → (A → Action S (Option B)) → Option A → Action S (Option B)
given f none = return none
given f (some a) = f a

infixl 5 ◌>>?◌
abbrev pub ◌>>?◌ :
    {S A B : Type 0} → Action S (Option A) → (A → Action S (Option B)) → Action S (Option B)
m >>? f = m >>= given f

abbrev pub is_break : Value → Bool
is_break break_value = true
is_break v = false

-- The key of an object, from the value that stands for it.
abbrev pub with_key : {S B : Type 0} → Value → (Bytes → Action S (Option B)) → Action S (Option B)
with_key (string s) f = f s
with_key (integer n) f = f (itos n)
with_key v f = throw bad_object_key

abbrev pub decode_simple : {S : Type 0} → ℕ → Action S (Option Value)
decode_simple n =
    if n == 20
    then return (some false_value)
    else if n == 21
    then return (some true_value)
    else if n == 22
    then return (some null)
    else if n == 23
    then return (some undefined)
    else if n == 31
    then return (some break_value)
    else throw (unhandled_simple_type n)

module _ {S : Type 0} (r : Reader S) where
  unfoldable pub read_int : ℕ → Action S ℕ
  read_int initial_byte =
      let ai = initial_byte % 32 in
      if ltb ai 24
      then return ai
      else if ai == 24
      then read_byte r
      else if ai == 25
      then read_nbo_16 r
      else if ai == 26
      then read_nbo_32 r
      else if ai == 27
      then read_nbo_64 r
      else throw (unknown_additional_information ai)

  unfoldable pub read_text : (Bytes → Value) → ℕ → Action S (Option Value)
  read_text make initial_byte = do
    len ← read_int initial_byte
    s ← read_string r len
    return (some (make s))

  unfoldable pub tag_type : ℕ → Action S ℕ
  tag_type initial_byte =
      let type = initial_byte % 32 in if ltb 23 type then read_byte r else return type

  -- Every call takes a turn. The counters of the definite forms are unsigned ints of 32 bits.
  unfoldable mutual
    pub decode : ℕ → Action S (Option Value)
    decode zero = return none
    decode (suc fuel) = read_byte r >>= λ initial_byte.
        let major_type = initial_byte / 32 in
        if major_type == 0
        then (do n ← read_int initial_byte; return (some (integer n)))
        else if major_type == 1
        then (do n ← read_int initial_byte; return (some (integer (sub64 (2 ^ 64 - 1) n))))
        else if major_type == 2
        then read_text binary initial_byte
        else if major_type == 3
        then read_text string initial_byte
        else if major_type == 4
        then ((if initial_byte == 0x9f
              then decode_until_break fuel no_values
              else (do len ← read_int initial_byte; decode_values fuel 0 len no_values))
            >>? λ vs. return (some (array vs)))
        else if major_type == 5
        then ((if initial_byte == 0xbf
              then decode_members_until_break fuel no_members
              else (do len ← read_int initial_byte; decode_members fuel 0 len no_members))
            >>? λ ms. return (some (object ms)))
        else if major_type == 6
        then (do
          type ← tag_type initial_byte
          if type == 24
              then (decode fuel >>? λ v. return (some (binary (cbor v))))
              else throw (unhandled_tag_type type))
        else decode_simple (initial_byte % 32)

    pub decode_until_break : ℕ → Values → Action S (Option Values)
    decode_until_break zero vs = return none
    decode_until_break (suc fuel) vs = decode fuel >>? λ v.
        if is_break v then return (some vs) else decode_until_break fuel (push_back vs v)

    pub decode_values : ℕ → ℕ → ℕ → Values → Action S (Option Values)
    decode_values zero i len vs = return none
    decode_values (suc fuel) i len vs =
        if ltb i len
        then (decode fuel >>? λ v. decode_values fuel ((i + 1) % 2 ^ 32) len (push_back vs v))
        else return (some vs)

    pub decode_members_until_break : ℕ → Members → Action S (Option Members)
    decode_members_until_break zero ms = return none
    decode_members_until_break (suc fuel) ms = decode fuel >>? λ key.
        if is_break key
        then return (some ms)
        else with_key key (λ k. decode fuel >>? λ v. decode_members_until_break fuel (put k v ms))

    pub decode_members : ℕ → ℕ → ℕ → Members → Action S (Option Members)
    decode_members zero i len ms = return none
    decode_members (suc fuel) i len ms =
        if ltb i len
        then (decode fuel >>? λ key.
            with_key key
              (λ k. decode fuel >>? λ v. decode_members fuel ((i + 1) % 2 ^ 32) len (put k v ms)))
        else return (some ms)

  unfoldable pub read_open_indefinite_array : Action S Bool
  read_open_indefinite_array = do b ← read_byte r; return (b == 0x9f)
