-- ===== src/Message/Tests.antt =====
-- Primitive values and arrays of messages at concrete bytes (pkg/mcap_ros2/message_reader.go).
use co_scout.Prelude.{◌+◌, ◌*◌, ◌≡◌, refl, true, false, [], ◌∷◌, ◌++◌, map, none, codes, arith}
use co_scout.Cdr.{CdrReader, ok}
use co_scout.Cdr.RoundTrip.{Stands, advance, encoded}
use co_scout.Cdr.Words.{to_bytes, to_little}
use co_scout.Message.{natural_value, FieldType, read_primitive_array}
use co_scout.Message.Bounded.{sequence-encoded}

abbrev numbers : FieldType
numbers = record {
  pkg_name = [];
  base_type = codes "uint32";
  is_array = true;
  array_size = none;
  is_upper_bound = false;
}

-- Two numbers behind their count.
abbrev reader : CdrReader
reader = record {
  data_bytes = 0 ∷ 1 ∷ 0 ∷ 0 ∷ 2 ∷ 0 ∷ 0 ∷ 0 ∷ 7 ∷ 0 ∷ 0 ∷ 0 ∷ 9 ∷ 1 ∷ 0 ∷ 0 ∷ [];
  spare = [];
  offset = 4;
  little_endian = true;
}

reader-Stands : Stands reader (to_bytes true 4 2 ++ encoded true 4 (7 ∷ 265 ∷ [])) []
unfolding to_little encoded
reader-Stands = record { pre = 0 ∷ 1 ∷ 0 ∷ 0 ∷ []; at_offset = refl; split = refl }

sequence-encoded_example :
    read_primitive_array numbers reader
    ≡ ok (map natural_value (7 ∷ 265 ∷ [])) (advance reader (4 + 2 * 4))
sequence-encoded_example =
    sequence-encoded numbers (7 ∷ 265 ∷ []) reader [] refl refl (omega arith) (omega arith)
      (omega arith) ((omega arith), ((omega arith), tt)) reader-Stands
