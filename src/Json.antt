-- ===== src/Json.antt =====
-- The values of libs/json: Value of libs/json/ot-json.h and value.cc.
pub mod CborWriter
pub mod CborReader
pub mod Form
pub mod Encoding
pub mod Joining
pub mod Decoding
pub mod Calls
pub mod Ending
pub mod RoundTrip
pub mod Objects
pub mod Faults
mod Examples
use obtools.Common.{ℕ, zero, suc, [], ◌∷◌, Bool, true, false, ltb, if◌then◌else◌}
use obtools.Channel.{Bytes}

-- An int64_t is its 64 bits, and a double is its bit pattern. An object's map stands in ascending
-- order of keys.
mutual
  pub data Value : Type 0 where
    undefined : Value
    null : Value
    number : ℕ → Value
    integer : ℕ → Value
    string : Bytes → Value
    object : Members → Value
    array : Values → Value
    true_value : Value
    false_value : Value
    binary : Bytes → Value
    break_value : Value

  pub data Values : Type 0 where
    no_values : Values
    value : Value → Values → Values

  pub data Members : Type 0 where
    no_members : Members
    member : Bytes → Value → Members → Members

abbrev pub array_size : Values → ℕ
array_size no_values = 0
array_size (value v vs) = suc (array_size vs)

abbrev pub object_size : Members → ℕ
object_size no_members = 0
object_size (member k v ms) = suc (object_size ms)

unfoldable pub push_back : Values → Value → Values
push_back no_values v = value v no_values
push_back (value w ws) v = value w (push_back ws v)

-- The order of strings.
unfoldable pub before : Bytes → Bytes → Bool
before xs [] = false
before [] (y ∷ ys) = true
before (x ∷ xs) (y ∷ ys) = if ltb x y then true else if ltb y x then false else before xs ys

unfoldable pub put : Bytes → Value → Members → Members
put k v no_members = member k v no_members
put k v (member k' v' ms) =
    let rest = put k v ms in
    if before k k'
    then member k v (member k' v' ms)
    else if before k' k
    then member k' v' rest
    else member k' v ms

unfoldable pub find : Bytes → Members → Value
find k no_members = undefined
find k (member k' v ms) =
    let rest = find k ms in if before k k' then undefined else if before k' k then rest else v

unfoldable pub get_property : Value → Bytes → Value
get_property (object ms) k = find k ms
get_property v k = undefined

unfoldable pub value_at : Values → ℕ → Value
value_at no_values i = undefined
value_at (value v vs) zero = v
value_at (value v vs) (suc i) = value_at vs i

unfoldable pub get_index : Value → ℕ → Value
get_index (array vs) i = value_at vs i
get_index v i = undefined
