-- ===== src/Prelude/Strings.antt =====
-- Go strings as lists of bytes, their comparison, and Go maps with such keys.
use Prim.Native.Nat.{ℕ}
use Prim.Native.Char.{code}
use Prim.Native.String.{String}
use mathlib.Core.Path.{◌≡◌, refl}
use mathlib.Core.Logic.{◌↔◌, ◌≢◌}
use mathlib.Core.Bool.{Bool, true, false, ◌&&◌}
use mathlib.Core.List.{List, [], ◌∷◌, ◌++◌}
use mathlib.Core.Option.{Option}
use native.Mathlib.Omega.{arith}
use co_scout.Prelude.Tests.{◌==◌, if◌then◌else◌}

abbrev pub Text : Type 0
Text = List ℕ

-- The bytes of an ASCII literal.
abbrev pub codes : String → Text
codes String.[] = []
codes (String.◌∷◌ c s) = code c ∷ codes s

unfoldable pub text_eq : Text → Text → Bool
text_eq [] [] = true
text_eq [] (y ∷ ys) = false
text_eq (x ∷ xs) [] = false
text_eq (x ∷ xs) (y ∷ ys) = x == y && text_eq xs ys

pub text_eq_refl : (xs : Text) → text_eq xs xs ≡ true
unfolding text_eq
text_eq_refl [] = refl
text_eq_refl (x ∷ xs) = ground (arith, text_eq_refl xs)

text_eq→eq : (xs ys : Text) → text_eq xs ys ≡ true → xs ≡ ys
unfolding text_eq
text_eq→eq [] [] h = refl
text_eq→eq [] (y ∷ ys) h = cc
text_eq→eq (x ∷ xs) [] h = cc
text_eq→eq (x ∷ xs) (y ∷ ys) h = ground (arith, text_eq→eq xs ys)

eq→text_eq : (xs ys : Text) → xs ≡ ys → text_eq xs ys ≡ true
eq→text_eq xs ys e = rw e (text_eq_refl ys)

pub text_eq_iff : (xs ys : Text) → (text_eq xs ys ≡ true) ↔ (xs ≡ ys)
text_eq_iff xs ys = (text_eq→eq xs ys, eq→text_eq xs ys)

-- `strings.HasPrefix` and `strings.TrimPrefix`.
unfoldable pub has_prefix : Text → Text → Bool
has_prefix xs [] = true
has_prefix [] (p ∷ ps) = false
has_prefix (x ∷ xs) (p ∷ ps) = x == p && has_prefix xs ps

pub has_prefix_append : (ps xs : Text) → has_prefix (ps ++ xs) ps ≡ true
unfolding has_prefix
has_prefix_append [] [] = refl
has_prefix_append [] (x ∷ xs) = refl
has_prefix_append (p ∷ ps) xs = ground (arith, has_prefix_append ps xs)

-- A Go map or `sync.Map`: a key that is absent has no value.
abbrev pub Map {ℓ} : Type ℓ → Type ℓ
Map V = Text → Option V

module _ {ℓ} {V : Type ℓ} where
  -- `m[k] = v` for `some v`, and `delete(m, k)` for `none`.
  unfoldable pub put : Map V → Text → Option V → Map V
  put m k v j = if text_eq k j then v else m j

  pub put_self : (m : Map V) (k : Text) (v : Option V) → put m k v k ≡ v
  unfolding put
  put_self m k v = rw (text_eq_refl k)

  pub put_ne : (m : Map V) (k j : Text) (v : Option V) → k ≢ j → put m k v j ≡ m j
  unfolding put
  put_ne m k j v h = ground (arith, text_eq_iff k j)
