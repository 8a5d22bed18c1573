-- ===== src/Rule/Validate/Tests.antt =====
-- Validations at concrete rules (pkg/rule_engine/integration.go).
use co_scout.Prelude.{◌≡◌, refl, true, some, inl, inr, [], ◌∷◌, codes, Text, Bool, text_eq}
use co_scout.Prelude.Int.{ℤ, pos}
use co_scout.Rule.Validate.{
  ApiRule, Rule, ActionImpls, Action, UploadSpec, StructuredCondition, raw, structured, upload,
  string_type, contains_op, user_input, condition_text, validate_api_rule,
}
use co_scout.Rule.Validate.Outcome.{Refused, validate_api_rule_refuses}

abbrev quote : Text → Text
quote s = s

abbrev compiles : Text → Bool
compiles s = true

abbrev action_compiles : Action → Bool
action_compiles a = true

abbrev duration_of : Text → ℤ
duration_of s = pos 0

abbrev upload_spec : UploadSpec
upload_spec = record {
  pre_trigger = 1;
  post_trigger = 2;
  title = codes "t";
  description = [];
  labels = [];
  extra_files = [] ∷ codes "/a" ∷ [];
  white_list = [];
  device_upload_limit = 0;
}

abbrev api : ApiRule
api = record {
  version = codes "VERSION_2";
  condition_specs = raw (codes "true") ∷ [];
  action_specs = upload upload_spec ∷ [];
  each = ((codes "k", codes "v") ∷ []) ∷ [] ∷ [];
  active_topics = codes "/t";
  debounce_duration = [];
}

abbrev impls : ActionImpls
impls = record { upload_impl = true; create_moment_impl = true }

abbrev mentions_error : StructuredCondition
mentions_error = record {
  path = codes "msg.m";
  condition_type = string_type;
  op = contains_op;
  value = user_input (codes "'e'");
}

structured_reads :
    condition_text quote (structured mentions_error)
    ≡ some (codes "string(msg.m).contains(string('e'))")
unfolding condition_text text_eq
structured_reads = refl

abbrev no_conditions : ApiRule
no_conditions = record api { condition_specs = [] }

validate_api_rule_refuses_example :
    Refused quote compiles action_compiles duration_of
      (validate_api_rule quote compiles action_compiles duration_of impls no_conditions)
validate_api_rule_refuses_example =
    validate_api_rule_refuses quote compiles action_compiles duration_of impls no_conditions
      (inr (inl (inl refl)))
