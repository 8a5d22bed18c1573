-- ===== src/Rule/Engine/Tests.antt =====
-- The theorems about the rule engine at concrete rules, items and drafts.
use co_scout.Prelude.{
  insert, ℕ, ◌≡◌, refl, true, false, List, [], ◌∷◌, Option, none, some, Text, codes, lookup, All,
  text_eq, arith,
}
use co_scout.Prelude.Int.{ℤ, pos, ◌-ℤ◌}
use co_scout.CollectInfo.{load_draft, draft_file_path}
use co_scout.Rule.Validate.{
  ApiRule, UploadSpec, upload, raw, contains, condition_text, validate_api_rule,
}
use co_scout.Rule.Debounce.{Evaluated, eval_conditions, boolean, active_times}
use co_scout.Rule.Debounce.Spacing.{Spaced}
use co_scout.Rule.Engine.{
  NamedRule, RuleName, EngineRule, Engine, has_upload, update_rules, active_topic_set,
}
use co_scout.Rule.Engine.Topics.{any_wildcard, any_names, update_rules_lem}
use co_scout.Rule.Engine.Consume.{
  RuleItem, Activation, Consuming, previous, debounce_key, compiled, consume_rules, takes,
  consume_next, cleanup_debounce_time, settle, evaluation,
}
use co_scout.Rule.Engine.Filter.{consume_rules-inactive}
use co_scout.Rule.Engine.Shows.{times_of}
use co_scout.Rule.Engine.Isolation.{
  consume_items, activations_of, Unforgotten, consume_items-times_of, consume_items-Spaced,
}
use co_scout.Rule.Engine.Upload.{UploadArgs, MomentArgs, Disk, run_upload, run_create_moment}
use co_scout.Rule.Engine.Drafts.{run_upload-run_create_moment}

abbrev upload_spec : UploadSpec
upload_spec = record {
  pre_trigger = 1;
  post_trigger = 1;
  title = [];
  description = [];
  labels = [];
  extra_files = [];
  white_list = [];
  device_upload_limit = 0;
}

abbrev api_rule : ApiRule
api_rule = record {
  version = codes "VERSION_2";
  condition_specs = raw (codes "true") ∷ [];
  action_specs = upload upload_spec ∷ [];
  each = [];
  active_topics = codes "/a";
  debounce_duration = [];
}

abbrev named_rule : NamedRule
named_rule = record { name = codes "r1"; display_name = codes "Rule"; api_rule = api_rule }

abbrev rule_name : Text → Option RuleName
rule_name name = some (record { project = codes "p"; name = name })

abbrev engine : Engine
engine = record {
  device_name = codes "d";
  rules = [];
  active_topics = none;
  rule_debounce_time = [];
}

abbrev program : Text → Activation → Evaluated
program text a = boolean true

abbrev marshal : List (Text × Text) → Option Text
marshal scope = none

abbrev ids : ℕ → Text
ids n = n ∷ []

abbrev item_at : Text → ℤ → RuleItem
item_at topic ts = record { msg = []; topic = topic; ts = ts; source = codes "http" }

abbrev rule_called : Text → EngineRule
rule_called name = record {
  rule = record {
    conditions = [];
    actions = [];
    scope = [];
    topics = codes "/a" ∷ [];
    debounce_time = pos 10;
  };
  metadata = record {
    project_name = [];
    rule_name = name;
    rule_code = [];
    rule_display_name = [];
    rule = named_rule;
  };
}

abbrev start : Consuming
start = record { debounce_time = (codes "r1", some (pos 0)) ∷ []; next_id = 0; events = [] }

abbrev items : List (ℤ × RuleItem)
items =
    (pos 6, item_at (codes "/a") (pos 5))
    ∷ (pos 17, item_at (codes "/a") (pos 16))
    ∷ (pos 21, item_at (codes "/b") (pos 20))
    ∷ []

abbrev two_rules : Engine
two_rules = record engine {
  rules = rule_called (codes "r0") ∷ rule_called (codes "r1") ∷ [];
  rule_debounce_time = (codes "r1", some (pos 0)) ∷ [];
}

updated : Engine
updated =
    update_rules (λ q. q) (λ c. true) (λ a. true) (λ d. pos 0) rule_name (named_rule ∷ [])
      (codes "/a" ∷ codes "/b" ∷ []) engine

update_rules_lem_example :
    All (λ (r : EngineRule). has_upload r.rule.actions ≡ true) updated.rules
    × (contains (active_topic_set updated) (codes "/a") ≡ true)
unfolding updated update_rules any_wildcard any_names contains text_eq validate_api_rule has_upload
    condition_text
update_rules_lem_example =
    update_rules_lem (λ q. q) (λ c. true) (λ a. true) (λ d. pos 0) rule_name (named_rule ∷ [])
      (codes "/a" ∷ codes "/b" ∷ []) engine (codes "/a")

consume_rules-inactive_example :
    consume_rules program marshal ids (item_at (codes "/b") (pos 5)) updated.rules start ≡ start
unfolding updated contains active_topic_set update_rules validate_api_rule text_eq condition_text
consume_rules-inactive_example =
    consume_rules-inactive program marshal ids (λ q. q) (λ c. true) (λ a. true) (λ d. pos 0)
      rule_name (named_rule ∷ []) (codes "/a" ∷ codes "/b" ∷ []) engine
      (item_at (codes "/b") (pos 5)) start (codes "/a") refl refl refl

none_forgotten : Unforgotten program marshal ids (codes "r1") items (two_rules, 0, [])
unfolding cleanup_debounce_time consume_next takes contains text_eq settle evaluation
    eval_conditions previous compiled lookup insert ◌-ℤ◌
none_forgotten = (refl, (refl, (refl, tt)))

consume_items-times_of_example :
    times_of program marshal ids
      (codes "r1")
      (consume_items program marshal ids items (two_rules, 0, [])).2
    ≡ pos 16 ∷ []
unfolding debounce_key text_eq times_of activations_of active_times compiled previous lookup takes
    contains ◌-ℤ◌
consume_items-times_of_example =
    consume_items-times_of program marshal ids (rule_called (codes "r0") ∷ [])
      (rule_called (codes "r1")) [] items two_rules 0 [] refl refl (refl, tt) tt none_forgotten

consume_items-Spaced_example : Spaced (pos 10) (pos 0) (
    times_of program marshal ids
      (codes "r1")
      (consume_items program marshal ids items (two_rules, 0, [])).2)
unfolding debounce_key text_eq previous lookup
consume_items-Spaced_example =
    consume_items-Spaced program marshal ids (rule_called (codes "r0") ∷ [])
      (rule_called (codes "r1")) [] items two_rules 0 (pos 0) refl refl (refl, tt) tt none_forgotten
      (refl, (refl, (refl, tt))) (omega arith) refl

abbrev disk : Disk
disk = record { fails = λ step. false; temp = codes "t"; fresh = codes "f"; folder = codes "d" }

abbrev upload_args : UploadArgs
upload_args = record {
  before = pos 1;
  after = pos 1;
  title = [];
  description = [];
  labels = [];
  extra_files = [];
  white_list = [];
  trigger_ts = pos 7;
  project_name = [];
  rule_name = [];
  rule_display_name = [];
  collect_info_id = codes "x";
  limit = record { device = none; global = none };
  rule = named_rule;
}

abbrev moment_args : MomentArgs
moment_args = record {
  collect_info_id = codes "x";
  title = codes "m";
  description = [];
  create_task = true;
  sync_task = false;
  assignee = [];
  custom_fields = [];
  rule_code = [];
  trigger_ts = pos 7;
}

run_upload-run_create_moment_example :
    load_draft
      (codes "d")
      (run_create_moment
        (λ d. none)
        (λ t. none)
        (λ f. pos f)
        (λ t. 0)
        disk
        moment_args
        (run_upload
          (λ d. none)
          (λ t. none)
          (λ f. pos f)
          (λ t. 0)
          disk
          (λ r d. none)
          []
          upload_args
          ([], [])).0.0).0
      (codes "x")
    ≡ load_draft
        (codes "d")
        (run_upload
          (λ d. none)
          (λ t. none)
          (λ f. pos f)
          (λ t. 0)
          disk
          (λ r d. none)
          []
          upload_args
          (
            (run_create_moment (λ d. none) (λ t. none) (λ f. pos f) (λ t. 0) disk moment_args []).0,
            [],
          )).0.0
        (codes "x")
unfolding draft_file_path text_eq lookup
run_upload-run_create_moment_example =
    run_upload-run_create_moment (λ d. none) (λ t. none) (λ f. pos f) (λ t. 0) disk (λ r d. none) []
      upload_args moment_args [] []
      (record { sound = λ step. refl; other = λ e. ground arith; unused = refl }) refl refl
