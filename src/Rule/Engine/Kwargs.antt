-- ===== src/Rule/Engine/Kwargs.antt =====
-- The arguments of an action and their type assertions (internal/mod/rule/engine.go).
use co_scout.Prelude.{Bool, List, [], ◌∷◌, Option, none, some, Text}
use co_scout.Prelude.Int.{ℤ}
use co_scout.Rule.Engine.{NamedRule}

-- The limits of resources.UploadLimit that are set; a nil has none.
pub record UploadLimit : Type 0 where
  pub device : Option ℤ
  pub global : Option ℤ

-- A value of an argument, as far as the actions tell them apart. An entry of a map that is no text
-- is nothing.
pub data Value : Type 0 where
  text : Text → Value
  texts : List Text → Value
  flag : Bool → Value
  dict : List (Text × Option Text) → Value
  upload_limit : UploadLimit → Value
  diagnosis_rule : NamedRule → Value
  other_value : Value

abbrev pub Kwargs : Type 0
Kwargs = List (Text × Value)

unfoldable pub as_text : Option Value → Option Text
as_text none = none
as_text (some v) = elim v [
  | text s ↦ some s
  | texts ss ↦ none
  | flag b ↦ none
  | dict d ↦ none
  | upload_limit l ↦ none
  | diagnosis_rule r ↦ none
  | other_value ↦ none
]

unfoldable pub as_texts : Option Value → Option (List Text)
as_texts none = none
as_texts (some v) = elim v [
  | text s ↦ none
  | texts ss ↦ some ss
  | flag b ↦ none
  | dict d ↦ none
  | upload_limit l ↦ none
  | diagnosis_rule r ↦ none
  | other_value ↦ none
]

unfoldable pub as_flag : Option Value → Option Bool
as_flag none = none
as_flag (some v) = elim v [
  | text s ↦ none
  | texts ss ↦ none
  | flag b ↦ some b
  | dict d ↦ none
  | upload_limit l ↦ none
  | diagnosis_rule r ↦ none
  | other_value ↦ none
]

unfoldable pub as_dict : Option Value → Option (List (Text × Option Text))
as_dict none = none
as_dict (some v) = elim v [
  | text s ↦ none
  | texts ss ↦ none
  | flag b ↦ none
  | dict d ↦ some d
  | upload_limit l ↦ none
  | diagnosis_rule r ↦ none
  | other_value ↦ none
]

unfoldable pub as_upload_limit : Option Value → Option UploadLimit
as_upload_limit none = none
as_upload_limit (some v) = elim v [
  | text s ↦ none
  | texts ss ↦ none
  | flag b ↦ none
  | dict d ↦ none
  | upload_limit l ↦ some l
  | diagnosis_rule r ↦ none
  | other_value ↦ none
]

unfoldable pub as_rule : Option Value → Option NamedRule
as_rule none = none
as_rule (some v) = elim v [
  | text s ↦ none
  | texts ss ↦ none
  | flag b ↦ none
  | dict d ↦ none
  | upload_limit l ↦ none
  | diagnosis_rule r ↦ some r
  | other_value ↦ none
]

-- The entries of a map that are texts.
unfoldable pub text_entries : List (Text × Option Text) → List (Text × Text)
text_entries [] = []
text_entries ((k, o) ∷ d) =
    let rest = text_entries d in elim o [ none ↦ rest | some s ↦ (k, s) ∷ rest ]

infixl 5 ◌>>=◌
abbrev pub ◌>>=◌ {ℓ κ} : {A : Type ℓ} {B : Type κ} → Option A → (A → Option B) → Option B
none >>= f = none
some a >>= f = f a
