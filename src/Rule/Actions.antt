-- ===== src/Rule/Actions.antt =====
-- pkg/rule_engine/action.go: the arguments of an action with their embedded expressions. CEL is a
-- parameter: a text compiles to a program or does not, and a program gives a value or fails.
-- strconv.FormatFloat and `%v` are part of a value as the texts that they give for it. A map that
-- holds a map, which is refused, does not occur in the arguments of the API's rules.
pub mod Embedded
mod Tests
use co_scout.Prelude.{
  ℕ, zero, suc, Bool, true, false, not, ◌&&◌, ◌||◌, List, [], ◌∷◌, ◌++◌, Option, none, some, ◌==◌,
  if◌then◌else◌, Text, codes, text_eq, length, drop, has_prefix, insert,
}
use co_scout.Rule.Engine.Kwargs.{
  ◌>>=◌, Value, Kwargs, text, texts, flag, dict, upload_limit, diagnosis_rule, other_value,
}

-- What a program gives: a float64 by its two texts, a string, a list with the texts of its items,
-- a []string, or another value by its text.
pub data Val : Type 0 where
  double : Text → Text → Val
  str : Text → Val
  items strs : List Text → Val
  other_val : Text → Val

-- `\s` of package regexp.
unfoldable pub is_space : ℕ → Bool
is_space c = c == 32 || c == 9 || c == 10 || c == 12 || c == 13

unfoldable pub trim_left : Text → Text
trim_left [] = []
trim_left (c ∷ cs) = let rest = trim_left cs in if is_space c then rest else c ∷ cs

-- A character is kept if something is kept behind it, or if it is no space.
unfoldable pub trim_right : Text → Text
trim_right [] = []
trim_right (c ∷ cs) =
    let rest = trim_right cs in if is_space c && text_eq rest [] then [] else c ∷ rest

unfoldable pub has_newline : Text → Bool
has_newline [] = false
has_newline (c ∷ cs) = c == 10 || has_newline cs

-- What is before the first closing brace, and behind it.
unfoldable pub to_brace : Text → Option (Text × Text)
to_brace [] = none
to_brace (c ∷ cs) =
    let found = to_brace cs in
    if c == 125
    then some ([], cs)
    else elim found [ none ↦ none | some (a, rest) ↦ some (c ∷ a, rest) ]

-- A match of `\{\s*(.*?)\s*}` and its group.
pub record Match : Type 0 where
  pub full : Text
  pub group : Text

-- A match behind an opening brace, with the rest of the text.
unfoldable pub match_at : Text → Option (Match × Text)
unfolding to_brace trim_left trim_right has_newline
match_at s = elim (to_brace s) [
  | none ↦ none
  | some (content, rest) ↦
      let group = trim_right (trim_left content) in
      if has_newline group
      then none
      else some (record { full = 123 ∷ content ++ 125 ∷ []; group = group }, rest)
]

-- `FindAllStringSubmatch`: the fuel is at least the length of the text.
unfoldable pub find_all : ℕ → Text → List Match
unfolding match_at
find_all zero s = []
find_all (suc n) [] = []
find_all (suc n) (c ∷ cs) =
    let skipped = find_all n cs in
    if not (c == 123)
    then skipped
    else elim (match_at cs) [ none ↦ skipped | some (m, rest) ↦ m ∷ find_all n rest ]

-- `strings.Replace(s, old, new, 1)`, where the old text is not empty.
unfoldable pub replace_first : Text → Text → Text → Text
replace_first [] old new = []
replace_first (c ∷ cs) old new =
    let rest = replace_first cs old new in
    if has_prefix (c ∷ cs) old then new ++ drop (length old) (c ∷ cs) else c ∷ rest

-- `strings.TrimRight(s, "0")`.
unfoldable pub trim_zeros : Text → Text
trim_zeros [] = []
trim_zeros (c ∷ cs) =
    let rest = trim_zeros cs in if c == 48 && text_eq rest [] then [] else c ∷ rest

-- `fmt.Sprintf("%v", v)` of a list.
list_text : List Text → Text
list_text [] = []
list_text (s ∷ []) = s
list_text (s ∷ t ∷ ts) = s ++ (codes " " ++ list_text (t ∷ ts))

-- The text of a value that is embedded in a text.
unfoldable pub format_value : Val → Text
unfolding trim_zeros list_text
format_value (double f v) = trim_zeros f
format_value (str s) = s
format_value (items ss) = codes "[" ++ (list_text ss ++ codes "]")
format_value (strs ss) = codes "[" ++ (list_text ss ++ codes "]")
format_value (other_val s) = s

module _ {ℓ} {Activation : Type ℓ} (compile : Text → Option (Activation → Option Val)) where
  unfoldable pub compile_matches : List Match → Option (List (Text × (Activation → Option Val)))
  compile_matches [] = some []
  compile_matches (m ∷ ms) = do
    program ← compile m.group
    programs ← compile_matches ms
    some ((m.full, program) ∷ programs)

  unfoldable pub compile_embedded_expr : Text → Option (List (Text × (Activation → Option Val)))
  unfolding compile_matches find_all
  compile_embedded_expr expr = compile_matches (find_all (length expr) expr)

  -- The text that stands for what a program gives.
  unfoldable pub shown : Option Val → Text
  unfolding format_value
  shown none = codes "{ ERROR }"
  shown (some v) = format_value v

  -- The loop of the evaluator, from the text so far.
  unfoldable pub evaluate_embedded :
      List (Text × (Activation → Option Val)) → Activation → Text → Text
  unfolding shown replace_first
  evaluate_embedded [] a result = result
  evaluate_embedded ((full, program) ∷ programs) a result =
      evaluate_embedded programs a (replace_first result full (shown (program a)))

  -- What one element of an array is compiled to: a constant, one expression, or a text with some.
  pub data Element : Type ℓ where
    constant : Text → Element
    pure : (Activation → Option Val) → Element
    mixed : Text → List (Text × (Activation → Option Val)) → Element

  compile_element : Text → List Match → Option Element
  unfolding compile_matches
  compile_element element [] = some (constant element)
  compile_element element (m ∷ []) =
      if text_eq m.full element
      then (compile m.group >>= λ program. some (pure program))
      else (compile_matches (m ∷ []) >>= λ programs. some (mixed element programs))
  compile_element element (m ∷ n ∷ ms) =
      compile_matches (m ∷ n ∷ ms) >>= λ programs. some (mixed element programs)

  unfoldable pub compile_array_expr : List Text → Option (List Element)
  unfolding compile_element find_all
  compile_array_expr [] = some []
  compile_array_expr (element ∷ arr) = do
    first ← compile_element element (find_all (length element) element)
    rest ← compile_array_expr arr
    some (first ∷ rest)

  one_text : Text → List Text
  one_text [] = []
  one_text (c ∷ cs) = (c ∷ cs) ∷ []

  texts_of : Val → List Text
  unfolding one_text
  texts_of (double f v) = one_text v
  texts_of (str s) = one_text s
  texts_of (items ss) = ss
  texts_of (strs ss) = ss
  texts_of (other_val s) = one_text s

  -- Nothing: the error of an expression that stands alone.
  evaluate_element : Element → Activation → Option (List Text)
  unfolding texts_of evaluate_embedded
  evaluate_element (constant s) a = some (one_text s)
  evaluate_element (pure program) a = elim (program a) [ none ↦ none | some v ↦ some (texts_of v) ]
  evaluate_element (mixed s programs) a = some (one_text (evaluate_embedded programs a s))

  unfoldable pub evaluate_array : List Element → Activation → Option (List Text)
  unfolding evaluate_element
  evaluate_array [] a = some []
  evaluate_array (element ∷ arr) a = do
    first ← evaluate_element element a
    rest ← evaluate_array arr a
    some (first ++ rest)

  -- What an argument is compiled to. An entry of a map that is no text stays as it is.
  pub data Evaluator : Type ℓ where
    embedded : Text → List (Text × (Activation → Option Val)) → Evaluator
    array : List Element → Evaluator
    entries : List (Text × Option (Text × List (Text × (Activation → Option Val)))) → Evaluator
    fixed : Value → Evaluator

  compile_entry : Option Text → Option (Option (Text × List (Text × (Activation → Option Val))))
  unfolding compile_embedded_expr
  compile_entry none = some none
  compile_entry (some s) = compile_embedded_expr s >>= λ programs. some (some (s, programs))

  unfoldable pub compile_dict_expr :
      List (Text × Option Text)
      → Option (List (Text × Option (Text × List (Text × (Activation → Option Val)))))
  unfolding compile_entry
  compile_dict_expr [] = some []
  compile_dict_expr ((k, v) ∷ d) = do
    first ← compile_entry v
    rest ← compile_dict_expr d
    some ((k, first) ∷ rest)

  unfoldable pub compile_value : Value → Option Evaluator
  unfolding compile_embedded_expr compile_array_expr compile_dict_expr
  compile_value (text s) = compile_embedded_expr s >>= λ programs. some (embedded s programs)
  compile_value (texts ss) = compile_array_expr ss >>= λ arr. some (array arr)
  compile_value (dict d) = compile_dict_expr d >>= λ es. some (entries es)
  compile_value (flag b) = some (fixed (flag b))
  compile_value (upload_limit l) = some (fixed (upload_limit l))
  compile_value (diagnosis_rule r) = some (fixed (diagnosis_rule r))
  compile_value other_value = some (fixed other_value)

  unfoldable pub compile_kwargs : Kwargs → Option (List (Text × Evaluator))
  unfolding compile_value
  compile_kwargs [] = some []
  compile_kwargs ((k, v) ∷ kwargs) = do
    first ← compile_value v
    rest ← compile_kwargs kwargs
    some ((k, first) ∷ rest)

  -- `NewAction` behind the check of the implementation: the built-in argument is added.
  unfoldable pub new_action : Bool → Kwargs → Option (List (Text × Evaluator))
  unfolding compile_kwargs
  new_action has_impl raw_kwargs =
      if has_impl
      then compile_kwargs (insert (codes "ts") (text (codes "{ts}")) raw_kwargs)
      else none

  evaluate_entries :
      List (Text × Option (Text × List (Text × (Activation → Option Val))))
      → Activation
      → List (Text × Option Text)
  unfolding evaluate_embedded
  evaluate_entries [] a = []
  evaluate_entries ((k, none) ∷ es) a = (k, none) ∷ evaluate_entries es a
  evaluate_entries ((k, some (s, programs)) ∷ es) a =
      (k, some (evaluate_embedded programs a s)) ∷ evaluate_entries es a

  unfoldable pub evaluate : Evaluator → Activation → Option Value
  unfolding evaluate_embedded evaluate_array evaluate_entries
  evaluate (embedded s programs) a = some (text (evaluate_embedded programs a s))
  evaluate (array arr) a = evaluate_array arr a >>= λ ss. some (texts ss)
  evaluate (entries es) a = some (dict (evaluate_entries es a))
  evaluate (fixed v) a = some v

  unfoldable pub evaluate_kwargs : List (Text × Evaluator) → Activation → Option Kwargs
  unfolding evaluate
  evaluate_kwargs [] a = some []
  evaluate_kwargs ((k, e) ∷ kwargs) a = do
    first ← evaluate e a
    rest ← evaluate_kwargs kwargs a
    some ((k, first) ∷ rest)

  add_all : Kwargs → Kwargs → Kwargs
  add_all [] kwargs = kwargs
  add_all ((k, v) ∷ additional) kwargs = add_all additional (insert k v kwargs)

  -- `Run`: the arguments, with the additional ones in their place, that the implementation is
  -- called with; nothing: an error before the call.
  unfoldable pub run : List (Text × Evaluator) → Activation → Kwargs → Option Kwargs
  unfolding evaluate_kwargs add_all
  run kwargs a additional =
      evaluate_kwargs kwargs a >>= λ evaluated. some (add_all additional evaluated)

  unfoldable pub run_direct : List (Text × Evaluator) → Activation → Option Kwargs
  unfolding run
  run_direct kwargs a = run kwargs a []
