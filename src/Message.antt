-- ===== src/Message.antt =====
-- readPrimitiveValue and readPrimitiveArray of pkg/mcap_ros2/message_reader.go, over the CDR
-- reader. A size in a message definition is a natural number.
pub mod Bounded
mod Tests
use co_scout.Prelude.{
  ℕ, Bool, true, false, ◌&&◌, List, [], ◌∷◌, map, Option, none, some, is_some, ltb, if◌then◌else◌,
  Text, text_eq, codes,
}
use co_scout.Prelude.Int.{ℤ}
use co_scout.Cdr.{
  M, CdrReader, failed, ◌>>=◌, return, boolean, uint8, int8, int16, uint16, int32, uint32, int64,
  uint64, float32, float64, string, boolean_array, uint8_array, int8_array, int16_array,
  uint16_array, int32_array, uint32_array, int64_array, uint64_array, float32_array, float64_array,
  string_array,
}

-- Go's interface value. Floats are their bits.
pub data Value : Type 0 where
  bool_value : Bool → Value
  natural_value : ℕ → Value
  integer_value : ℤ → Value
  float32_value float64_value : ℕ → Value
  string_value : Text → Value

pub record FieldType : Type 0 where
  pub pkg_name : Text
  pub base_type : Text
  pub is_array : Bool
  pub array_size : Option ℕ
  pub is_upper_bound : Bool

-- The typed results as the interface's values.
abbrev pub one {ℓ} : {A : Type ℓ} → (A → Value) → M A → M Value
one f m = m >>= (λ a. return (f a))

abbrev pub many {ℓ} : {A : Type ℓ} → (A → Value) → M (List A) → M (List Value)
many f m = m >>= (λ xs. return (map f xs))

unfoldable pub read_primitive_value : Text → M Value
read_primitive_value ty =
    if text_eq ty (codes "bool")
    then one bool_value boolean
    else if text_eq ty (codes "byte")
    then one natural_value uint8
    else if text_eq ty (codes "uint8")
    then one natural_value uint8
    else if text_eq ty (codes "char")
    then one integer_value int8
    else if text_eq ty (codes "int8")
    then one integer_value int8
    else if text_eq ty (codes "int16")
    then one integer_value int16
    else if text_eq ty (codes "uint16")
    then one natural_value uint16
    else if text_eq ty (codes "int32")
    then one integer_value int32
    else if text_eq ty (codes "uint32")
    then one natural_value uint32
    else if text_eq ty (codes "int64")
    then one integer_value int64
    else if text_eq ty (codes "uint64")
    then one natural_value uint64
    else if text_eq ty (codes "float32")
    then one float32_value float32
    else if text_eq ty (codes "float64")
    then one float64_value float64
    else if text_eq ty (codes "string")
    then one string_value string
    else failed

-- The switch of `readPrimitiveArray`, at the length of the array.
unfoldable pub read_elements : Text → ℕ → M (List Value)
read_elements ty n =
    if text_eq ty (codes "bool")
    then many bool_value (boolean_array n)
    else if text_eq ty (codes "byte")
    then many natural_value (uint8_array n)
    else if text_eq ty (codes "uint8")
    then many natural_value (uint8_array n)
    else if text_eq ty (codes "char")
    then many integer_value (int8_array n)
    else if text_eq ty (codes "int8")
    then many integer_value (int8_array n)
    else if text_eq ty (codes "int16")
    then many integer_value (int16_array n)
    else if text_eq ty (codes "uint16")
    then many natural_value (uint16_array n)
    else if text_eq ty (codes "int32")
    then many integer_value (int32_array n)
    else if text_eq ty (codes "uint32")
    then many natural_value (uint32_array n)
    else if text_eq ty (codes "int64")
    then many integer_value (int64_array n)
    else if text_eq ty (codes "uint64")
    then many natural_value (uint64_array n)
    else if text_eq ty (codes "float32")
    then many float32_value (float32_array n)
    else if text_eq ty (codes "float64")
    then many float64_value (float64_array n)
    else if text_eq ty (codes "string")
    then many string_value (string_array n)
    else failed

-- The cut of a length that was read to the upper bound.
cut : Bool → Option ℕ → ℕ → ℕ
cut is_upper_bound none n = n
cut is_upper_bound (some size) n = if is_upper_bound && ltb size n then size else n

unfoldable pub array_length : Bool → Option ℕ → M ℕ
unfolding cut
array_length is_upper_bound (some size) = return size
array_length is_upper_bound none = uint32 >>= (λ n. return (cut is_upper_bound none n))

unfoldable pub read_primitive_array : FieldType → M (List Value)
unfolding array_length read_elements
read_primitive_array ftype =
    array_length ftype.is_upper_bound ftype.array_size >>= (λ n. read_elements ftype.base_type n)
