-- ===== src/Message/Bounded.antt =====
-- Arrays of a message (readPrimitiveArray of pkg/mcap_ros2/message_reader.go): what the upper bound
-- does, and a sequence that is read back.
use co_scout.Prelude.{
  ℕ, ◌+◌, ◌-◌, ◌*◌, ◌%◌, ◌^◌, ◌≤◌, ◌<◌, ◌≡◌, refl, ap, subst, Bool, List, ◌++◌, map, Option, none,
  some, All, length, codes, arith, text_eq,
}
use co_scout.Cdr.{CdrReader, ok, ◌>>=◌, return, uint32, uint32_array}
use co_scout.Cdr.Words.{to_bytes, length-to_bytes}
use co_scout.Cdr.RoundTrip.{
  Stands, advance, Stands-front, Stands-advance, index_read-to_bytes, encoded, array-encoded,
}
use co_scout.Message.{natural_value, FieldType, array_length, read_elements, read_primitive_array}

array_length_ignores : (size : Option ℕ) (b c : Bool) → array_length b size ≡ array_length c size
unfolding array_length
array_length_ignores none b c = refl
array_length_ignores (some n) b c = refl

-- Whether the size of an array in a message definition is an upper bound makes no difference to
-- what is read: the branch that would cut the length is never reached.
pub upper_bound_ignored :
    (t : FieldType) (b c : Bool) (r : CdrReader)
    → read_primitive_array (record t { is_upper_bound = b }) r
      ≡ read_primitive_array (record t { is_upper_bound = c }) r
unfolding read_primitive_array
upper_bound_ignored t b c r = rw (array_length_ignores t.array_size b c) refl

read_elements_uint32 :
    (n : ℕ) (r : CdrReader)
    → read_elements (codes "uint32") n r
      ≡ (uint32_array n >>= (λ xs. return (map natural_value xs))) r
unfolding read_elements text_eq
read_elements_uint32 n r = refl

read_counted :
    (bound : Bool) (n : ℕ) (r r' : CdrReader)
    → uint32 r ≡ ok n r'
    → (array_length bound none >>= read_elements (codes "uint32")) r
      ≡ (uint32_array n >>= (λ xs. return (map natural_value xs))) r'
unfolding array_length
read_counted bound n r r' e = rw (◌>>=◌, e, ◌>>=◌) (read_elements_uint32 n r')

read_primitive_array-uint32 :
    (t : FieldType) (n : ℕ) (r r' : CdrReader)
    → t.base_type ≡ codes "uint32"
    → t.array_size ≡ none
    → uint32 r ≡ ok n r'
    → read_primitive_array t r ≡ (uint32_array n >>= (λ xs. return (map natural_value xs))) r'
unfolding read_primitive_array
read_primitive_array-uint32 t n r r' ty size e =
    rw (ty, size) (read_counted t.is_upper_bound n r r' e)

-- A sequence of the base type uint32 without a fixed size, of fewer than 2^32 unsigned 32-bit
-- numbers, aligned to 4 behind the header and in the reader's byte order, is read back, and the
-- reader then stands behind it.
pub sequence-encoded :
    (t : FieldType) (vs : List ℕ) (r : CdrReader) (post : List ℕ)
    → t.base_type ≡ codes "uint32"
    → t.array_size ≡ none
    → 4 ≤ r.offset
    → (r.offset - 4) % 4 ≡ 0
    → length vs < 256 ^ 4
    → All (λ v. v < 256 ^ 4) vs
    → Stands r (to_bytes r.little_endian 4 (length vs) ++ encoded r.little_endian 4 vs) post
    → read_primitive_array t r ≡ ok (map natural_value vs) (advance r (4 + length vs * 4))
unfolding uint32 uint32_array
sequence-encoded t vs r post ty size o a short h s =
    let count : List ℕ = to_bytes r.little_endian 4 (length vs) in
    let rest : List ℕ = encoded r.little_endian 4 vs in
    let first =
      index_read-to_bytes r 4 (length vs) (rest ++ post) short a
        (Stands-front r count rest post s) in
    let aligned : (r.offset + 4 - 4) % 4 ≡ 0 = ground (arith, a) in
    let s' : Stands (advance r 4) rest post =
      subst (λ n. Stands (advance r n) rest post) (length-to_bytes r.little_endian 4 (length vs))
        (Stands-advance r count rest post s) in
    let all : uint32_array (length vs) (advance r 4)
        ≡ ok vs (advance (advance r 4) (length vs * 4)) =
      array-encoded 4 vs (advance r 4) post (omega arith) aligned h s' in
    let total : r.offset + 4 + length vs * 4 ≡ r.offset + (4 + length vs * 4) = omega arith in
    rw (read_primitive_array-uint32 t (length vs) r (advance r 4) ty size first, ◌>>=◌, all)
      (ap (λ n. ok (map natural_value vs) (record r { offset = n })) total)
