-- ===== src/Rule/Actions/Tests.antt =====
-- Embedded expressions at concrete texts.
use co_scout.Prelude.{
  ◌≡◌, refl, true, List, [], ◌∷◌, Option, some, Text, codes, insert, text_eq, has_prefix,
}
use co_scout.Rule.Actions.{Val, double, str, run, new_action, format_value, is_space}
use co_scout.Rule.Actions.Embedded.{Piece, literal, expression}
use co_scout.Rule.Engine.Kwargs.{◌>>=◌, text}

-- Every expression is its own text.
abbrev compile : Text → Option (Text → Option Val)
compile e = some (λ a. some (str e))

abbrev pieces : List Piece
pieces = literal (codes "at ") ∷ expression (codes " ts ") ∷ literal (codes "s") ∷ []

-- The built-in argument, at a time of 1700000000 seconds.
built_in_time :
    (new_action
        (λ (e : Text). some (λ (a : Text). some (double (codes "1700000000") (codes "1.7e+09"))))
        true
        []
      >>= λ kwargs.
          run
            (λ (e : Text).
              some (λ (a : Text). some (double (codes "1700000000") (codes "1.7e+09"))))
            kwargs
            []
            [])
    ≡ some ((codes "ts", text (codes "17")) ∷ [])
unfolding new_action run insert text_eq has_prefix format_value is_space
built_in_time = refl
