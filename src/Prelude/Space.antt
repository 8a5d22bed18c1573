-- ===== src/Prelude/Space.antt =====
-- `strings.TrimSpace` on the bytes of UTF-8 text: the white space of `unicode.IsSpace`.
use Prim.Native.Nat.{ℕ, zero, suc}
use mathlib.Core.Bool.{Bool, true, false, ◌&&◌, ◌||◌}
use mathlib.Core.List.{[], ◌∷◌, reverse}
use co_scout.Prelude.Tests.{◌==◌, leb, if◌then◌else◌}
use co_scout.Prelude.Lists.{length, drop}
use co_scout.Prelude.Strings.{Text}

-- '\t' to '\r', and the space.
is_ascii_space : ℕ → Bool
is_ascii_space c = leb 9 c && leb c 13 || c == 32

-- U+0085 and U+00A0, by their bytes.
is_space2 : ℕ → ℕ → Bool
is_space2 a b = a == 0xc2 && (b == 0x85 || b == 0xa0)

-- U+1680, U+2000 to U+200A, U+2028, U+2029, U+202F, U+205F and U+3000.
is_space3 : ℕ → ℕ → ℕ → Bool
is_space3 a b c =
    a == 0xe1 && (b == 0x9a && c == 0x80)
    || a == 0xe2
      && (b == 0x80 && (leb 0x80 c && leb c 0x8a || c == 0xa8 || c == 0xa9 || c == 0xaf)
          || b == 0x81 && c == 0x9f)
    || a == 0xe3 && (b == 0x80 && c == 0x80)

-- The bytes of the white space that a text begins with, 0 if it begins with none.
leading_space : Text → ℕ
leading_space [] = 0
leading_space (a ∷ []) = if is_ascii_space a then 1 else 0
leading_space (a ∷ b ∷ []) = if is_ascii_space a then 1 else if is_space2 a b then 2 else 0
leading_space (a ∷ b ∷ c ∷ s) =
    if is_ascii_space a then 1 else if is_space2 a b then 2 else if is_space3 a b c then 3 else 0

-- The same from the end, on the reversed text.
trailing_space : Text → ℕ
trailing_space [] = 0
trailing_space (a ∷ []) = if is_ascii_space a then 1 else 0
trailing_space (a ∷ b ∷ []) = if is_ascii_space a then 1 else if is_space2 b a then 2 else 0
trailing_space (a ∷ b ∷ c ∷ s) =
    if is_ascii_space a then 1 else if is_space2 b a then 2 else if is_space3 c b a then 3 else 0

-- Each round drops a byte at least, so the text's length is fuel enough.
drop_spaces : (Text → ℕ) → ℕ → Text → Text
drop_spaces count zero s = s
drop_spaces count (suc fuel) s =
    let n = count s in let rest = drop_spaces count fuel (drop n s) in if n == 0 then s else rest

unfoldable pub trim_space : Text → Text
unfolding is_ascii_space is_space2 is_space3 leading_space trailing_space drop_spaces
trim_space s =
    let t = drop_spaces leading_space (length s) s in
    reverse (drop_spaces trailing_space (length t) (reverse t))

-- `strings.TrimSpace(s) == ""`.
unfoldable pub is_blank : Text → Bool
unfolding trim_space
is_blank s = elim (trim_space s) [ [] ↦ true | c ∷ cs ↦ false ]
