-- ===== src/Rule/Engine.antt =====
-- The rule engine of internal/mod/rule/engine.go: its rules and active topics. Parameters stand for
-- what validation stands on (see Rule/Validate.antt) and for the parser of resource names. The
-- mapset sets are lists of which only the membership is read.
pub mod Topics
pub mod Cleanup
pub mod Consume
pub mod Filter
pub mod Shows
pub mod Isolation
pub mod Kwargs
pub mod Upload
pub mod Drafts
mod Tests
use co_scout.Prelude.{
  ℕ, Bool, true, false, not, ◌&&◌, ◌||◌, List, [], ◌∷◌, ◌++◌, Option, none, some, if◌then◌else◌,
  Text, text_eq, codes, lookup,
}
use co_scout.Prelude.Int.{ℤ}
use co_scout.Rule.Errors.{ValidationResult}
use co_scout.Rule.Validate.{ApiRule, Action, Rule, ActionImpls, contains, validate_api_rule}

-- A rule of the API with its resource name and its display name.
pub record NamedRule : Type 0 where
  pub name : Text
  pub display_name : Text
  pub api_rule : ApiRule

-- The resource name of a rule, as texts: its own and that of its project.
pub record RuleName : Type 0 where
  pub project : Text
  pub name : Text

pub record Metadata : Type 0 where
  pub project_name : Text
  pub rule_name : Text
  pub rule_code : Text
  pub rule_display_name : Text
  pub rule : NamedRule

-- A validated rule with its metadata.
pub record EngineRule : Type 0 where
  pub rule : Rule
  pub metadata : Metadata

-- `active_topics` is nothing before the first update; the debounce times may hold a nil.
pub record Engine : Type 0 where
  pub device_name : Text
  pub rules : List EngineRule
  pub active_topics : Option (List Text)
  pub rule_debounce_time : List (Text × Option ℤ)

unfoldable pub has_upload : List Action → Bool
has_upload [] = false
has_upload (a ∷ rest) = text_eq a.name (codes "upload") || has_upload rest

or_empty : Option Text → Text
or_empty none = []
or_empty (some s) = s

-- The rule of the API with the current scope as its only one.
with_scope : NamedRule → List (Text × Text) → NamedRule
with_scope r scope = record r { api_rule = record r.api_rule { each = scope ∷ [] } }

pub metadata_of : NamedRule → RuleName → Rule → Metadata
unfolding or_empty with_scope
metadata_of r n rule = record {
  project_name = n.project;
  rule_name = n.name;
  rule_code = or_empty (lookup (codes "code") rule.scope);
  rule_display_name = r.display_name;
  rule = with_scope r rule.scope;
}

-- What the loops of UpdateRules have gathered.
pub record Gathered : Type 0 where
  pub rules : List EngineRule
  pub active_topics : List Text
  pub has_wildcard_topic_rule : Bool

unfoldable pub add_topics : List Text → Gathered → Gathered
add_topics [] g = record g { has_wildcard_topic_rule = true }
add_topics (t ∷ ts) g = record g { active_topics = g.active_topics ++ t ∷ ts }

unfoldable pub add_rule : NamedRule → RuleName → Rule → Gathered → Gathered
unfolding add_topics has_upload
add_rule r n rule g =
    if has_upload rule.actions
    then add_topics rule.topics (record g {
      rules = g.rules ++ record { rule = rule; metadata = metadata_of r n rule } ∷ [];
    })
    else g

unfoldable pub add_rules : NamedRule → RuleName → List Rule → Gathered → Gathered
unfolding add_rule
add_rules r n [] g = g
add_rules r n (rule ∷ rules) g = add_rules r n rules (add_rule r n rule g)

unfoldable pub intersect : List Text → List Text → List Text
unfolding contains
intersect [] ys = []
intersect (x ∷ xs) ys = let rest = intersect xs ys in if contains ys x then x ∷ rest else rest

abbrev pub external_log : Text
external_log = codes "/external_log"

unfoldable pub active_of : Gathered → List Text → List Text
unfolding intersect
active_of g config_topics =
    if g.has_wildcard_topic_rule then [] else intersect g.active_topics config_topics

module _ (quote : Text → Text) (compiles : Text → Bool) (action_compiles : Action → Bool)
    (duration_of : Text → ℤ) (new_diagnosis_rule : Text → Option RuleName) where
  unfoldable pub add_validated :
      NamedRule → List Rule × ValidationResult → Option RuleName → Gathered → Gathered
  unfolding add_rules
  add_validated r (rules, result) n g =
      if not result.success then g else elim n [ none ↦ g | some m ↦ add_rules r m rules g ]

  -- The step of the outer loop.
  unfoldable pub add_api_rule : NamedRule → Gathered → Gathered
  unfolding add_validated
  add_api_rule r g =
      add_validated r
        (validate_api_rule quote compiles action_compiles duration_of
          (record { upload_impl = true; create_moment_impl = true }) r.api_rule)
        (new_diagnosis_rule r.name) g

  unfoldable pub add_api_rules : List NamedRule → Gathered → Gathered
  unfolding add_api_rule
  add_api_rules [] g = g
  add_api_rules (r ∷ rs) g = add_api_rules rs (add_api_rule r g)

  unfoldable pub update_rules : List NamedRule → List Text → Engine → Engine
  unfolding add_api_rules active_of
  update_rules api_rules config_topics e =
      let g =
        add_api_rules api_rules
          (record { rules = []; active_topics = []; has_wildcard_topic_rule = false }) in
      record e {
        rules = g.rules;
        active_topics = some (active_of g (config_topics ++ external_log ∷ []));
      }

-- `ActiveTopics` and `activeTopicSet`.
unfoldable pub active_topic_set : Engine → List Text
active_topic_set e = elim e.active_topics [ none ↦ [] | some topics ↦ topics ]

unfoldable pub set_device_name : Text → Engine → Engine
set_device_name name e = record e { device_name = name }
