-- ===== src/Rule/Validate.antt =====
-- ValidateApiRule of pkg/rule_engine/integration.go. Parameters stand for CEL (whether a
-- condition's text, or an action's arguments, compile), for Go's `%q` and for the ISO 8601 duration
-- parser.
pub mod Outcome
pub mod Accepted
mod Tests
use co_scout.Prelude.{
  ℕ, zero, suc, ◌+◌, Bool, true, false, not, ◌&&◌, List, [], ◌∷◌, ◌++◌, map, Option, none, some,
  if◌then◌else◌, Text, text_eq, codes,
}
use co_scout.Prelude.Int.{ℤ}
use co_scout.Rule.Errors.{
  ErrorSection, condition_section, action_section, Location, ValidationError, ValidationResult,
}

-- The enumerations of the API; a number without a name is `…_unknown`.
pub data ConditionType : Type 0 where
  string_type int_type uint_type double_type bool_type type_unspecified type_unknown : ConditionType

pub data ConditionOp : Type 0 where
  contains_op equal_op op_unspecified op_unknown : ConditionOp

pub data ConditionValue : Type 0 where
  predefined user_input : Text → ConditionValue
  no_value : ConditionValue

pub record StructuredCondition : Type 0 where
  pub path : Text
  pub condition_type : ConditionType
  pub op : ConditionOp
  pub value : ConditionValue

pub data ConditionSpec : Type 0 where
  raw : Text → ConditionSpec
  structured : StructuredCondition → ConditionSpec
  no_condition : ConditionSpec

pub record UploadSpec : Type 0 where
  pub pre_trigger : ℕ
  pub post_trigger : ℕ
  pub title : Text
  pub description : Text
  pub labels : List Text
  pub extra_files : List Text
  pub white_list : List Text
  pub device_upload_limit : ℕ

pub record MomentSpec : Type 0 where
  pub title : Text
  pub description : Text
  pub create_task : Bool
  pub sync_task : Bool
  pub assignee : Text
  pub custom_fields : List (Text × Text)

pub data ActionSpec : Type 0 where
  upload : UploadSpec → ActionSpec
  create_moment : MomentSpec → ActionSpec
  no_action : ActionSpec

pub record ApiRule : Type 0 where
  pub version : Text
  pub condition_specs : List ConditionSpec
  pub action_specs : List ActionSpec
  pub each : List (List (Text × Text))
  pub active_topics : Text
  pub debounce_duration : Text

-- The arguments of an action: the texts of a list that are empty are left out.
pub record Action : Type 0 where
  pub name : Text
  pub kwargs : ActionSpec

pub record Rule : Type 0 where
  pub conditions : List Text
  pub actions : List Action
  pub scope : List (Text × Text)
  pub topics : List Text
  pub debounce_time : ℤ

abbrev pub allowed_versions : List Text
allowed_versions = codes "VERSION_2" ∷ []

unfoldable pub contains : List Text → Text → Bool
contains [] v = false
contains (x ∷ xs) v = if text_eq x v then true else contains xs v

-- The name of the type in CEL; nothing for the unspecified one.
type_name : ConditionType → Option Text
type_name string_type = some (codes "string")
type_name int_type = some (codes "int")
type_name uint_type = some (codes "uint")
type_name double_type = some (codes "double")
type_name bool_type = some (codes "bool")
type_name type_unspecified = none
type_name type_unknown = some []

op_name : ConditionOp → Option Text
op_name contains_op = some (codes "contains")
op_name equal_op = some (codes "==")
op_name op_unspecified = none
op_name op_unknown = some []

module _ (quote : Text → Text) where
  value_text : ConditionValue → Text
  value_text (predefined s) = s
  value_text (user_input s) = quote s
  value_text no_value = []

  -- The CEL text of a structured condition.
  structured_text : Text → Text → Text → Text → Text
  structured_text ty op path value =
      if text_eq op (codes "contains")
      then ty
        ++ (codes "("
            ++ (path ++ (codes ").contains(" ++ (ty ++ (codes "(" ++ (value ++ codes "))"))))))
      else ty
        ++ (codes "("
            ++ (path
                ++ (codes ") "
                    ++ (op ++ (codes " " ++ (ty ++ (codes "(" ++ (value ++ codes ")"))))))))

  structured_parts : StructuredCondition → Option Text → Option Text → Option Text
  unfolding value_text structured_text
  structured_parts sc none op = none
  structured_parts sc (some ty) none = none
  structured_parts sc (some ty) (some op) =
      some (structured_text ty op sc.path (value_text sc.value))

  -- Nothing: the type or the operator is unspecified, and the validation ends at once.
  unfoldable pub condition_text : ConditionSpec → Option Text
  unfolding structured_parts type_name op_name
  condition_text (raw s) = some s
  condition_text (structured sc) = structured_parts sc (type_name sc.condition_type) (op_name sc.op)
  condition_text no_condition = some []

error_at : ErrorSection → ℕ → ValidationError
error_at s i = record {
  location = some (record { error_section = s; item_index = i });
  unexpected_version = none;
  syntax_error = true;
  empty_section = false;
}

empty_at : ErrorSection → ValidationError
empty_at s = record {
  location = some (record { error_section = s; item_index = 0 });
  unexpected_version = none;
  syntax_error = false;
  empty_section = true;
}

-- The state of a loop over the specifications: it ended at once with one error, or with the errors
-- so far and what was accepted.
pub data Collected (A : Type 0) : Type 0 where
  at_once : ValidationError → Collected A
  collected : List ValidationError → List A → Collected A

empty_errors {ℓ} : {A : Type ℓ} → ErrorSection → List A → List ValidationError
unfolding empty_at
empty_errors s [] = empty_at s ∷ []
empty_errors s (x ∷ xs) = []

unfoldable pub non_empty_texts : List Text → List Text
non_empty_texts [] = []
non_empty_texts ([] ∷ xs) = non_empty_texts xs
non_empty_texts ((c ∷ cs) ∷ xs) = (c ∷ cs) ∷ non_empty_texts xs

unfoldable pub action_of : ActionSpec → Action
unfolding non_empty_texts
action_of (upload u) = record {
  name = codes "upload";
  kwargs = upload (record u {
    extra_files = non_empty_texts u.extra_files;
    white_list = non_empty_texts u.white_list;
  });
}
action_of (create_moment m) = record { name = codes "create_moment"; kwargs = create_moment m }
action_of no_action = record { name = []; kwargs = no_action }

unfoldable pub topics_of : Text → List Text
topics_of [] = []
topics_of (c ∷ cs) = (c ∷ cs) ∷ []

unfoldable pub scopes_of : List (List (Text × Text)) → List (List (Text × Text))
scopes_of [] = [] ∷ []
scopes_of (s ∷ ss) = s ∷ ss

-- The map of action implementations, which has at most these two names in it.
pub record ActionImpls : Type 0 where
  pub upload_impl : Bool
  pub create_moment_impl : Bool

has_impl : ActionImpls → ActionSpec → Bool
has_impl impls (upload u) = impls.upload_impl
has_impl impls (create_moment m) = impls.create_moment_impl
has_impl impls no_action = false

failure : List ValidationError → List Rule × ValidationResult
failure errors = ([], record { success = false; errors = errors })

version_error : ValidationError
version_error = record {
  location = none;
  unexpected_version = some allowed_versions;
  syntax_error = false;
  empty_section = false;
}

module _ (quote : Text → Text) (compiles : Text → Bool) (action_compiles : Action → Bool)
    (duration_of : Text → ℤ) where
  -- `NewCondition`, and the step of the first loop.
  add_condition : ℕ → Option Text → Collected Text → Collected Text
  unfolding error_at
  add_condition i text (at_once e) = at_once e
  add_condition i none (collected errors conditions) = at_once (error_at condition_section i)
  add_condition i (some s) (collected errors conditions) =
      if compiles s
      then collected errors (conditions ++ s ∷ [])
      else collected (errors ++ error_at condition_section i ∷ []) conditions

  unfoldable pub collect_conditions : ℕ → List ConditionSpec → Collected Text → Collected Text
  unfolding add_condition
  collect_conditions i [] so_far = so_far
  collect_conditions i (spec ∷ specs) so_far =
      collect_conditions (suc i) specs (add_condition i (condition_text quote spec) so_far)

  -- `NewAction`: it fails without an implementation, or if the arguments do not compile.
  unfoldable pub action_ok : ActionImpls → ActionSpec → Bool
  unfolding has_impl action_of
  action_ok impls spec = has_impl impls spec && action_compiles (action_of spec)

  unfoldable pub collect_actions :
      ActionImpls
      → ℕ
      → List ActionSpec
      → List ValidationError
      → List Action
      → List ValidationError × List Action
  unfolding action_ok error_at
  collect_actions impls i [] errors actions = (errors, actions)
  collect_actions impls i (spec ∷ specs) errors actions =
      collect_actions impls (suc i) specs
        (if action_ok impls spec then errors else errors ++ error_at action_section i ∷ [])
        (if action_ok impls spec then actions ++ action_of spec ∷ [] else actions)

  unfoldable pub rules_of : ApiRule → List Text → List Action → List Rule
  unfolding scopes_of topics_of
  rules_of api conditions actions =
      map
        (λ scope. record {
          conditions = conditions;
          actions = actions;
          scope = scope;
          topics = topics_of api.active_topics;
          debounce_time = duration_of api.debounce_duration;
        })
        (scopes_of api.each)

  finish : ApiRule → List Text → List ValidationError × List Action → List Rule × ValidationResult
  unfolding rules_of failure
  finish api conditions ([], actions) =
      (rules_of api conditions actions, record { success = true; errors = [] })
  finish api conditions (e ∷ es, actions) = failure (e ∷ es)

  after_conditions : ActionImpls → ApiRule → Collected Text → List Rule × ValidationResult
  unfolding finish collect_actions empty_errors
  after_conditions impls api (at_once e) = failure (e ∷ [])
  after_conditions impls api (collected errors conditions) = finish api conditions (
      collect_actions impls 0 api.action_specs
        (errors ++ empty_errors action_section api.action_specs) [])

  unfoldable pub validate_api_rule : ActionImpls → ApiRule → List Rule × ValidationResult
  unfolding after_conditions collect_conditions version_error
  validate_api_rule impls api =
      if not (contains allowed_versions api.version)
      then failure (version_error ∷ [])
      else after_conditions impls api (
          collect_conditions 0 api.condition_specs
            (collected (empty_errors condition_section api.condition_specs) []))

  -- `ValidateRuleSpecStr` behind the parser of the API's JSON, which gives no rule if it fails.
  unfoldable pub validate_rule_spec_str : Option ApiRule → List Rule × ValidationResult
  unfolding failure
  validate_rule_spec_str none = failure (
      record {
        location = none;
        unexpected_version = none;
        syntax_error = true;
        empty_section = false;
      }
      ∷ [])
  validate_rule_spec_str (some api) =
      validate_api_rule (record { upload_impl = true; create_moment_impl = true }) api
