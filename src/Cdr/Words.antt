-- ===== src/Cdr/Words.antt =====
-- Words of bytes, lowest byte first or last, as pkg/mcap_ros2/cdr_reader.go reads them.
use mathlib.Core.List.{reverse, reverse-reverse, reverse-cons}
use native.Mathlib.Nat.{pow-suc}
use co_scout.Prelude.{
  ℕ, zero, suc, ◌/◌, ◌%◌, ◌^◌, ◌<◌, ◌≡◌, refl, Bool, true, false, List, [], ◌∷◌, arith, length,
  length-append, if◌then◌else◌, ap,
}
use co_scout.Cdr.{CdrReader, from_little, byte_order}

-- The `w` bytes of a number, lowest first.
unfoldable pub to_little : ℕ → ℕ → List ℕ
to_little zero v = []
to_little (suc w) v = (v % 256) ∷ to_little w (v / 256)

-- The bytes of a number as a writer of that byte order puts them.
abbrev pub to_bytes : Bool → ℕ → ℕ → List ℕ
to_bytes little w v = if little then to_little w v else reverse (to_little w v)

pub length-to_little : (w v : ℕ) → length (to_little w v) ≡ w
unfolding to_little
length-to_little zero v = refl
length-to_little (suc w) v = ap suc (length-to_little w (v / 256))

length-reverse : (xs : List ℕ) → length (reverse xs) ≡ length xs
length-reverse [] = refl
length-reverse (x ∷ xs) =
    omega
      (arith, ap length (reverse-cons x xs), length-append (reverse xs) (x ∷ []), length-reverse xs)

pub length-to_bytes : (little : Bool) (w v : ℕ) → length (to_bytes little w v) ≡ w
length-to_bytes true w v = length-to_little w v
length-to_bytes false w v = omega (arith, length-reverse (to_little w v), length-to_little w v)

pub from_little-to_little : (w v : ℕ) → v < 256 ^ w → from_little (to_little w v) ≡ v
unfolding from_little to_little
from_little-to_little zero v h = omega arith
from_little-to_little (suc w) v h =
    omega (arith, from_little-to_little w (v / 256) (omega (arith, pow-suc 256 w)))

pub byte_order-to_bytes :
    (r : CdrReader) (w v : ℕ) → v < 256 ^ w → byte_order r (to_bytes r.little_endian w v) ≡ v
unfolding byte_order
byte_order-to_bytes r w v h =
    ground (arith, from_little-to_little w v h, reverse-reverse (to_little w v))
