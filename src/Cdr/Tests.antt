-- ===== src/Cdr/Tests.antt =====
-- pkg/mcap_ros2/cdr_reader.go at concrete data, and its theorems there.
use co_scout.Prelude.{
  ℕ, ◌+◌, ◌≤◌, ◌<◌, ◌≡◌, ◌↔◌, refl, true, some, List, [], ◌∷◌, ◌++◌, codes, arith, length, take,
  drop,
}
use co_scout.Prelude.Int.{pos, ◌-ℤ◌}
use co_scout.Cdr.{
  CdrReader, new_cdr_reader, ok, failed, panic, read, index_read, byte_order, string,
  uint16_to_int16, uint32,
}
use co_scout.Cdr.Scalars.{read_cases}
use co_scout.Cdr.RoundTrip.{Stands, advance, encoded, index_read-to_bytes}
use co_scout.Cdr.Words.{to_bytes, to_little}

abbrev at : ℕ → List ℕ → CdrReader
at offset bytes = record { data_bytes = bytes; spare = []; offset = offset; little_endian = true }

abbrev header : List ℕ
header = 0 ∷ 1 ∷ 0 ∷ 0 ∷ []

little_endian_header : new_cdr_reader header [] ≡ some (at 4 header)
unfolding new_cdr_reader
little_endian_header = refl

-- The bits of -1 are read as 0.
minus_one : uint16_to_int16 0xffff ≡ pos 0
unfolding uint16_to_int16 ◌-ℤ◌
minus_one = refl

-- One byte, then a uint32 whose padding is missing: the unaligned length passes the check, and
-- the aligned slice lies past the end.
truncated_panics : uint32 (at 5 (0 ∷ 1 ∷ 0 ∷ 0 ∷ 9 ∷ 1 ∷ 2 ∷ 3 ∷ 4 ∷ [])) ≡ panic
unfolding uint32
truncated_panics = refl

abbrev greeting : List ℕ
greeting = 0 ∷ 1 ∷ 0 ∷ 0 ∷ 3 ∷ 0 ∷ 0 ∷ 0 ∷ b'h' ∷ b'i' ∷ 0 ∷ 7 ∷ []

greeting_read : string (at 4 greeting) ≡ ok (codes "hi") (at 11 greeting)
unfolding string byte_order
greeting_read = refl

read_cases_example :
    let r = at 5 greeting in
    let backing = greeting ++ [] in
    ((read 4 r ≡ failed r) ↔ (length greeting < 5 + 4))
    × ((read 4 r ≡ panic) ↔ ((5 + 4 ≤ length greeting) × (length backing < 8 + 4)))
    × ((read 4 r ≡ ok (take 4 (drop 8 backing)) (record r { offset = 8 + 4 }))
        ↔ ((5 + 4 ≤ length greeting) × (8 + 4 ≤ length backing)))
read_cases_example =
    read_cases (at 5 greeting) 4 8 (omega arith) (omega arith) (omega arith) (omega arith) refl

word_at_four : Stands (at 4 greeting) (to_bytes true 4 3) (b'h' ∷ b'i' ∷ 0 ∷ 7 ∷ [])
unfolding to_little
word_at_four = record { pre = header; at_offset = refl; split = refl }

index_read-to_bytes_example :
    index_read 4 byte_order (at 4 greeting) ≡ ok 3 (advance (at 4 greeting) 4)
index_read-to_bytes_example =
    index_read-to_bytes (at 4 greeting) 4 3 (b'h' ∷ b'i' ∷ 0 ∷ 7 ∷ []) (omega arith) refl
      word_at_four

abbrev sequence : List ℕ
sequence = 0 ∷ 1 ∷ 0 ∷ 0 ∷ 5 ∷ 0 ∷ 44 ∷ 1 ∷ []

sequence-at_four : Stands (at 4 sequence) (encoded true 2 (5 ∷ 300 ∷ [])) []
unfolding encoded to_little
sequence-at_four = record { pre = header; at_offset = refl; split = refl }

string_at_four :
    Stands
      (at 4 greeting)
      (to_bytes true 4 (length (codes "hi") + 1) ++ (codes "hi" ++ 0 ∷ []))
      (7 ∷ [])
unfolding to_little
string_at_four = record { pre = header; at_offset = refl; split = refl }
