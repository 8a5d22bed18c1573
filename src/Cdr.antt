-- ===== src/Cdr.antt =====
-- pkg/mcap_ros2/cdr_reader.go: values read from the CDR encoding of ROS 2 messages. A reader is
-- explicit state, and a call ends with a value, with Go's error, or with a panic: a slice bound
-- past the capacity, or an index into the nil slice that a failed read returns.
pub mod Words
pub mod Signed
pub mod Scalars
pub mod RoundTrip
pub mod Strings
mod Tests
use mathlib.Core.List.{reverse}
use co_scout.Prelude.{
  ℕ, zero, suc, ◌+◌, ◌-◌, ◌*◌, ◌/◌, ◌%◌, ◌^◌, Bool, true, false, not, ◌&&◌, List, [], ◌∷◌, ◌++◌,
  ltb, leb, ◌==◌, if◌then◌else◌, length, get_elem?, take, drop, Option, none, some, codes,
}
use co_scout.Prelude
use co_scout.Prelude.Int.{ℤ, pos, ◌-ℤ◌}

-- `spare` holds the bytes of the backing array between the slice's length and its capacity:
-- slicing may reach into these.
pub record CdrReader : Type 0 where
  pub data_bytes : List ℕ
  pub spare : List ℕ
  pub offset : ℕ
  pub little_endian : Bool

pub data Outcome {ℓ} (A : Type ℓ) : Type ℓ where
  ok : A → CdrReader → Outcome A
  failed : CdrReader → Outcome A
  panic : Outcome A

-- A method of the reader.
abbrev pub M {ℓ} : Type ℓ → Type ℓ
M A = CdrReader → Outcome A

-- `if err != nil { return …, err }` behind each call.
infixl 5 ◌>>=◌
abbrev pub ◌>>=◌ {ℓ κ} : {A : Type ℓ} {B : Type κ} → M A → (A → M B) → M B
◌>>=◌ m f r = elim (m r) [ ok a r' ↦ f a r' | failed r' ↦ failed r' | panic ↦ panic ]

abbrev pub return {ℓ} : {A : Type ℓ} → A → M A
return a r = ok a r

odd_byte : Option ℕ → Bool
odd_byte none = false
odd_byte (some b) = b % 2 == 1

-- No reader: the data is shorter than its header.
unfoldable pub new_cdr_reader : List ℕ → List ℕ → Option CdrReader
unfolding odd_byte
new_cdr_reader bytes spare =
    if ltb (length bytes) 4
    then none
    else some (record {
      data_bytes = bytes;
      spare = spare;
      offset = 4;
      little_endian = odd_byte (get_elem? bytes 1);
    })

unfoldable pub decoded_bytes : CdrReader → ℕ
decoded_bytes r = r.offset

unfoldable pub byte_length : CdrReader → ℕ
byte_length r = length r.data_bytes

unfoldable pub align : CdrReader → ℕ → CdrReader
align r size =
    let alignment = (r.offset - 4) % size in
    if ltb 0 alignment then record r { offset = r.offset + (size - alignment) } else r

-- `r.data[r.offset : r.offset+length]` and `r.offset += length`: the upper bound is checked
-- against the capacity.
unfoldable pub uint8_array : ℕ → M (List ℕ)
uint8_array n r =
    let backing = r.data_bytes ++ r.spare in
    if ltb (length backing) (r.offset + n)
    then panic
    else ok (take n (drop r.offset backing)) (record r { offset = r.offset + n })

unfoldable pub read : ℕ → M (List ℕ)
unfolding align uint8_array
read size r =
    if ltb (length r.data_bytes) (r.offset + size)
    then failed r
    else uint8_array size (if ltb 1 size then align r size else r)

-- What the callers of `read` do with its result before they look at the error: they index it,
-- which panics on the nil slice of a failed read.
unfoldable pub index_read {ℓ} : {A : Type ℓ} → ℕ → (CdrReader → List ℕ → A) → M A
unfolding read
index_read size f r = elim (read size r) [
  | ok bytes r' ↦ ok (f r' bytes) r'
  | failed r' ↦ panic
  | panic ↦ panic
]

-- `binary.LittleEndian.Uint…` and `binary.BigEndian.Uint…`.
unfoldable pub from_little : List ℕ → ℕ
from_little [] = 0
from_little (b ∷ bs) = b + 256 * from_little bs

unfoldable pub byte_order : CdrReader → List ℕ → ℕ
unfolding from_little
byte_order r bytes = if r.little_endian then from_little bytes else from_little (reverse bytes)

unfoldable pub uint8 : M ℕ
unfolding index_read from_little
uint8 = index_read 1 (λ r bytes. from_little bytes)

unfoldable pub uint16 : M ℕ
unfolding index_read byte_order
uint16 = index_read 2 byte_order

unfoldable pub uint32 : M ℕ
unfolding index_read byte_order
uint32 = index_read 4 byte_order

unfoldable pub uint64 : M ℕ
unfolding index_read byte_order
uint64 = index_read 8 byte_order

-- `val != 0` and the error of `Uint8`.
unfoldable pub boolean : M Bool
unfolding uint8
boolean = do b ← uint8; return (not (b == 0))

-- `int8(val[0])` is the value with the same bits.
unfoldable pub uint8_to_int8 : ℕ → ℤ
uint8_to_int8 u = if ltb u 128 then pos u else pos u -ℤ pos 256

-- `u & math.MaxInt16` is `u % 2 ^ 15` and `u >> 15` is `u / 2 ^ 15`; the difference lies in the
-- range of an int16, so it does not wrap. So for the other widths.
unfoldable pub uint16_to_int16 : ℕ → ℤ
uint16_to_int16 u = pos (u % 2 ^ 15) -ℤ pos (u / 2 ^ 15 * (2 ^ 15 - 1))

unfoldable pub uint32_to_int32 : ℕ → ℤ
uint32_to_int32 u = pos (u % 2 ^ 31) -ℤ pos (u / 2 ^ 31 * (2 ^ 31 - 1))

unfoldable pub uint64_to_int64 : ℕ → ℤ
uint64_to_int64 u = pos (u % 2 ^ 63) -ℤ pos (u / 2 ^ 63 * (2 ^ 63 - 1))

unfoldable pub int8 : M ℤ
unfolding uint8 uint8_to_int8
int8 = do b ← uint8; return (uint8_to_int8 b)

unfoldable pub int16 : M ℤ
unfolding uint16 uint16_to_int16
int16 = do u ← uint16; return (uint16_to_int16 u)

unfoldable pub int32 : M ℤ
unfolding uint32 uint32_to_int32
int32 = do u ← uint32; return (uint32_to_int32 u)

unfoldable pub int64 : M ℤ
unfolding uint64 uint64_to_int64
int64 = do u ← uint64; return (uint64_to_int64 u)

-- A float is its bits, which `math.Float32frombits` reinterprets.
unfoldable pub float32 : M ℕ
unfolding uint32
float32 = uint32

unfoldable pub float64 : M ℕ
unfolding uint64
float64 = uint64

unfoldable pub string_raw : ℕ → M (List ℕ)
unfolding uint8_array
string_raw n = uint8_array n

skip : ℕ → M (Unit {0})
skip n r = ok tt (record r { offset = r.offset + n })

-- The rest of a string whose length field, which counts the terminator, is `n`.
string_body : ℕ → M (List ℕ)
unfolding string_raw skip
string_body n =
    if leb n 1
    then (skip n >>= λ _. return [])
    else (string_raw (n - 1) >>= λ str. skip 1 >>= λ _. return str)

unfoldable pub string : M (List ℕ)
unfolding uint32 string_body
string = do n ← uint32; string_body n

unfoldable pub sequence_length : M ℕ
unfolding uint32
sequence_length = uint32

-- The loop of the array methods: `n` rounds of one scalar method, stopped by the first error.
unfoldable pub array {ℓ} : {A : Type ℓ} → M A → ℕ → M (List A)
array m zero = return []
array m (suc n) = do x ← m; xs ← array m n; return (x ∷ xs)

unfoldable pub boolean_array : ℕ → M (List Bool)
unfolding array boolean
boolean_array = array boolean

unfoldable pub int8_array : ℕ → M (List ℤ)
unfolding array int8
int8_array = array int8

unfoldable pub int16_array : ℕ → M (List ℤ)
unfolding array int16
int16_array = array int16

unfoldable pub uint16_array : ℕ → M (List ℕ)
unfolding array uint16
uint16_array = array uint16

unfoldable pub int32_array : ℕ → M (List ℤ)
unfolding array int32
int32_array = array int32

unfoldable pub uint32_array : ℕ → M (List ℕ)
unfolding array uint32
uint32_array = array uint32

unfoldable pub int64_array : ℕ → M (List ℤ)
unfolding array int64
int64_array = array int64

unfoldable pub uint64_array : ℕ → M (List ℕ)
unfolding array uint64
uint64_array = array uint64

unfoldable pub float32_array : ℕ → M (List ℕ)
unfolding array float32
float32_array = array float32

unfoldable pub float64_array : ℕ → M (List ℕ)
unfolding array float64
float64_array = array float64

unfoldable pub string_array : ℕ → M (List (List ℕ))
unfolding array string
string_array = array string

-- `MarshalJSON` of a float64 by its bits, with `json.Marshal` for the finite values as `marshal`.
unfoldable pub marshal_json_float64 : (ℕ → Prelude.Text) → ℕ → Prelude.Text
marshal_json_float64 marshal bits =
    let exponent = bits / 2 ^ 52 % 2 ^ 11 in
    let fraction = bits % 2 ^ 52 in
    if exponent == 2047 && fraction == 0 && ltb bits (2 ^ 63)
    then codes "\"+Inf\""
    else if exponent == 2047 && fraction == 0
    then codes "\"-Inf\""
    else if exponent == 2047
    then codes "\"NaN\""
    else marshal bits

unfoldable pub marshal_json_float32 : (ℕ → Prelude.Text) → ℕ → Prelude.Text
marshal_json_float32 marshal bits =
    let exponent = bits / 2 ^ 23 % 2 ^ 8 in
    let fraction = bits % 2 ^ 23 in
    if exponent == 255 && fraction == 0 && ltb bits (2 ^ 31)
    then codes "\"+Inf\""
    else if exponent == 255 && fraction == 0
    then codes "\"-Inf\""
    else if exponent == 255
    then codes "\"NaN\""
    else marshal bits
