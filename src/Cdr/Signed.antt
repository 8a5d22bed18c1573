-- ===== src/Cdr/Signed.antt =====
-- The conversions to signed integers of pkg/mcap_ros2/cdr_reader.go beside two's complement.
use co_scout.Prelude.{ℕ, ◌-◌, ◌^◌, ◌<◌, ◌≡◌, arith, if◌then◌else◌, ltb}
use co_scout.Prelude.Int.{ℤ, pos, ◌+ℤ◌, ◌-ℤ◌}
use co_scout.Cdr.{uint8_to_int8, uint16_to_int16, uint32_to_int32, uint64_to_int64}

-- The signed integer whose two's complement of `w` bits is `u`.
abbrev pub twos_complement : ℕ → ℕ → ℤ
twos_complement w u = if ltb u (2 ^ (w - 1)) then pos u else pos u -ℤ pos (2 ^ w)

-- An int8 is read as the two's complement says.
pub uint8_to_int8_lem : (u : ℕ) → u < 2 ^ 8 → uint8_to_int8 u ≡ twos_complement 8 u
unfolding uint8_to_int8
uint8_to_int8_lem u h = ground arith

-- The conversion of 16 bits is right on the numbers below half the range. On all others, those that
-- stand for negative numbers, the result is greater by one than what the bits stand for.
pub uint16_to_int16_lem :
    (u : ℕ)
    → u < 2 ^ 16
    → uint16_to_int16 u
      ≡ (if ltb u (2 ^ 15) then twos_complement 16 u else twos_complement 16 u +ℤ pos 1)
unfolding uint16_to_int16 ◌+ℤ◌ ◌-ℤ◌
uint16_to_int16_lem u h = ground arith

pub uint32_to_int32_lem :
    (u : ℕ)
    → u < 2 ^ 32
    → uint32_to_int32 u
      ≡ (if ltb u (2 ^ 31) then twos_complement 32 u else twos_complement 32 u +ℤ pos 1)
unfolding uint32_to_int32 ◌+ℤ◌ ◌-ℤ◌
uint32_to_int32_lem u h = ground arith

pub uint64_to_int64_lem :
    (u : ℕ)
    → u < 2 ^ 64
    → uint64_to_int64 u
      ≡ (if ltb u (2 ^ 63) then twos_complement 64 u else twos_complement 64 u +ℤ pos 1)
unfolding uint64_to_int64 ◌+ℤ◌ ◌-ℤ◌
uint64_to_int64_lem u h = ground arith
