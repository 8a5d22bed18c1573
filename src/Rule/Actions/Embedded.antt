-- ===== src/Rule/Actions/Embedded.antt =====
-- What a text with embedded expressions evaluates to (compileEmbeddedExpr of
-- pkg/rule_engine/action.go).
use co_scout.Prelude.{
  ℕ, ◌≡◌, refl, Bool, false, ◌||◌, List, [], ◌∷◌, ◌++◌, Option, some, ◌==◌, Text, text_eq, codes,
  arith,
}
use co_scout.Rule.Actions.{
  Val, Match, double, trim_left, trim_right, trim_zeros, has_newline, format_value,
}

-- A piece of a text: as it stands, or an expression in braces.
pub data Piece : Type 0 where
  literal expression : Text → Piece

braced : Text → Text
braced e = 123 ∷ e ++ 125 ∷ []

unfoldable pub render : List Piece → Text
unfolding braced
render [] = []
render (literal s ∷ ps) = s ++ render ps
render (expression e ∷ ps) = braced e ++ render ps

unfoldable pub has_char : ℕ → Text → Bool
has_char c [] = false
has_char c (x ∷ xs) = x == c || has_char c xs

group_of : Text → Text
group_of e = trim_right (trim_left e)

match_of : Text → Match
match_of e = record { full = braced e; group = group_of e }

unfoldable expressions : List Piece → List Match
expressions [] = []
expressions (literal s ∷ ps) = expressions ps
expressions (expression e ∷ ps) = match_of e ∷ expressions ps

-- A literal has no opening brace; an expression no closing one, and no line break within.
abbrev pub IsPlain : Piece → Type 0
IsPlain (literal s) = has_char 123 s ≡ false
IsPlain (expression e) = (has_char 125 e ≡ false) × (has_newline (trim_right (trim_left e)) ≡ false)

module _ {ℓ} {Activation : Type ℓ} (compile : Text → Option (Activation → Option Val))
    (a : Activation) (program : Text → Activation → Option Val) (value : Text → Val) where
  -- The expression compiles to the program, which gives the value, and the value's text has no
  -- opening brace.
  abbrev pub Evaluates : Piece → Type ℓ
  Evaluates (literal s) = Unit {ℓ}
  Evaluates (expression e) =
      (compile (trim_right (trim_left e)) ≡ some (program e))
      × (program e a ≡ some (value e))
      × (has_char 123 (format_value (value e)) ≡ false)

  -- The text with the values' texts in the expressions' places.
  unfoldable pub substituted : List Piece → Text
  substituted [] = []
  substituted (literal s ∷ ps) = s ++ substituted ps
  substituted (expression e ∷ ps) = format_value (value e) ++ substituted ps

  programs_of : List Piece → List (Text × (Activation → Option Val))
  programs_of [] = []
  programs_of (literal s ∷ ps) = programs_of ps
  programs_of (expression e ∷ ps) = (braced e, program e) ∷ programs_of ps

trim_zeros-zero : (s : Text) → trim_zeros (s ++ codes "0") ≡ trim_zeros s
unfolding trim_zeros text_eq
trim_zeros-zero [] = refl
trim_zeros-zero (c ∷ s) = ground (arith, trim_zeros-zero s)

-- Numbers whose texts differ by zeros at their ends, such as 10 and 100, are embedded as the same
-- text, whether or not the zeros stand behind a decimal point.
pub format_value-zero :
    (s v w : Text) → format_value (double (s ++ codes "0") v) ≡ format_value (double s w)
unfolding format_value
format_value-zero s v w = trim_zeros-zero s
