-- ===== src/Rule/Engine/Topics.antt =====
-- The topics that the rule engine takes, against those of its rules (internal/mod/rule/engine.go).
use co_scout.Prelude.{
  ◌≡◌, refl, ◌∙◌, sym, Bool, true, false, not, ◌&&◌, ◌||◌, List, [], ◌∷◌, ◌++◌, Option, none, some,
  Text, text_eq, text_eq_iff, arith, Bool-cases, inl, inr, All,
}
use co_scout.Prelude.Int.{ℤ}
use co_scout.Rule.Errors.{ValidationResult}
use co_scout.Rule.Validate.{Action, Rule, contains, validate_api_rule}
use co_scout.Rule.Engine.{
  NamedRule, RuleName, EngineRule, Engine, Gathered, has_upload, add_topics, add_rule, add_rules,
  add_api_rule, add_api_rules, add_validated, metadata_of, intersect, active_of, external_log,
  update_rules, active_topic_set,
}

-- Whether a rule takes every topic.
unfoldable pub is_wildcard : Rule → Bool
is_wildcard rule = elim rule.topics [ [] ↦ true | t ∷ ts ↦ false ]

unfoldable pub any_wildcard : List EngineRule → Bool
unfolding is_wildcard
any_wildcard [] = false
any_wildcard (r ∷ rs) = is_wildcard r.rule || any_wildcard rs

-- Whether a topic is one of those that some rule names.
unfoldable pub any_names : List EngineRule → Text → Bool
unfolding contains
any_names [] topic = false
any_names (r ∷ rs) topic = contains r.rule.topics topic || any_names rs topic

any_wildcard-append :
    (xs ys : List EngineRule) → any_wildcard (xs ++ ys) ≡ any_wildcard xs || any_wildcard ys
unfolding any_wildcard
any_wildcard-append [] ys = refl
any_wildcard-append (x ∷ xs) ys = ground (arith, any_wildcard-append xs ys)

any_names-append :
    (xs ys : List EngineRule) (t : Text) → any_names (xs ++ ys) t ≡ any_names xs t || any_names ys t
unfolding any_names
any_names-append [] ys t = refl
any_names-append (x ∷ xs) ys t = ground (arith, any_names-append xs ys t)

contains-append :
    (xs ys : List Text) (t : Text) → contains (xs ++ ys) t ≡ contains xs t || contains ys t
unfolding contains
contains-append [] ys t = refl
contains-append (x ∷ xs) ys t = ground (arith, contains-append xs ys t)

contains-intersect :
    (xs ys : List Text) (t : Text) → contains (intersect xs ys) t ≡ contains xs t && contains ys t
unfolding contains intersect
contains-intersect [] ys t = refl
contains-intersect (x ∷ xs) ys t = ground (arith, contains-intersect xs ys t, text_eq_iff x t)

-- What is gathered stands for the rules that are gathered; each of them has an upload action.
pub record IsSound (g : Gathered) : Type 0 where
  pub wildcard : g.has_wildcard_topic_rule ≡ any_wildcard g.rules
  pub names : (t : Text) → contains g.active_topics t ≡ any_names g.rules t
  pub uploads : All (λ (r : EngineRule). has_upload r.rule.actions ≡ true) g.rules

All-append_one :
    (xs : List EngineRule) (x : EngineRule)
    → All (λ (r : EngineRule). has_upload r.rule.actions ≡ true) xs
    → has_upload x.rule.actions ≡ true
    → All (λ (r : EngineRule). has_upload r.rule.actions ≡ true) (xs ++ x ∷ [])
All-append_one [] x h p = (p, tt)
All-append_one (y ∷ xs) x h p = (h.0, All-append_one xs x h.1 p)

add_topics-IsSound :
    (topics : List Text) (new : EngineRule) (g : Gathered)
    → new.rule.topics ≡ topics
    → has_upload new.rule.actions ≡ true
    → IsSound g
    → IsSound (add_topics topics (record g { rules = g.rules ++ new ∷ [] }))
unfolding add_topics any_wildcard any_names contains
add_topics-IsSound [] new g same u h = record {
  wildcard = sym (any_wildcard-append g.rules (new ∷ []) ∙ rw same (ground arith));
  names = λ t. h.names t ∙ sym (any_names-append g.rules (new ∷ []) t ∙ rw same (ground arith));
  uploads = All-append_one g.rules new h.uploads u;
}
add_topics-IsSound (s ∷ ss) new g same u h = record {
  wildcard = h.wildcard ∙ sym (any_wildcard-append g.rules (new ∷ []) ∙ rw same (ground arith));
  names = λ t.
      contains-append g.active_topics (s ∷ ss) t
      ∙ rw (h.names t) (sym (any_names-append g.rules (new ∷ []) t ∙ rw same (ground arith)));
  uploads = All-append_one g.rules new h.uploads u;
}

add_rule-IsSound :
    (r : NamedRule) (n : RuleName) (rule : Rule) (g : Gathered)
    → IsSound g
    → IsSound (add_rule r n rule g)
unfolding add_rule
add_rule-IsSound r n rule g h = elim (Bool-cases (has_upload rule.actions)) [
  | inr e ↦ rw e h
  | inl e ↦ rw e (
      add_topics-IsSound rule.topics (record { rule = rule; metadata = metadata_of r n rule }) g
        refl e h)
]

add_rules-IsSound :
    (r : NamedRule) (n : RuleName) (rules : List Rule) (g : Gathered)
    → IsSound g
    → IsSound (add_rules r n rules g)
unfolding add_rules
add_rules-IsSound r n [] g h = h
add_rules-IsSound r n (rule ∷ rules) g h =
    add_rules-IsSound r n rules (add_rule r n rule g) (add_rule-IsSound r n rule g h)

active_of_lem :
    (g : Gathered) (config_topics : List Text) (t : Text)
    → IsSound g
    → contains (active_of g (config_topics ++ external_log ∷ [])) t
      ≡ not (any_wildcard g.rules)
        && any_names g.rules t
        && (contains config_topics t || text_eq external_log t)
unfolding active_of contains
active_of_lem g config_topics t h = ground (
  arith,
  contains-intersect g.active_topics (config_topics ++ external_log ∷ []) t,
  contains-append config_topics (external_log ∷ []) t,
  h.wildcard,
  h.names t,
)

module _ (quote : Text → Text) (compiles : Text → Bool) (action_compiles : Action → Bool)
    (duration_of : Text → ℤ) (new_diagnosis_rule : Text → Option RuleName) where
  add_validated-IsSound :
      (r : NamedRule) (v : List Rule × ValidationResult) (n : Option RuleName) (g : Gathered)
      → IsSound g
      → IsSound
          (add_validated quote compiles action_compiles duration_of new_diagnosis_rule r v n g)
  unfolding add_validated
  add_validated-IsSound r (rules, result) n g h = elim (Bool-cases result.success) [
    | inr e ↦ rw e h
    | inl e ↦ rw e (named n)
  ]
    where
      named : (o : Option RuleName) → IsSound (elim o [ none ↦ g | some m ↦ add_rules r m rules g ])
      named none = h
      named (some m) = add_rules-IsSound r m rules g h

  add_api_rules-IsSound :
      (rs : List NamedRule) (g : Gathered)
      → IsSound g
      → IsSound (add_api_rules quote compiles action_compiles duration_of new_diagnosis_rule rs g)
  unfolding add_api_rules add_api_rule
  add_api_rules-IsSound [] g h = h
  add_api_rules-IsSound (r ∷ rs) g h =
      add_api_rules-IsSound rs
        (add_api_rule quote compiles action_compiles duration_of new_diagnosis_rule r g)
        (add_validated-IsSound r
          (validate_api_rule quote compiles action_compiles duration_of
            (record { upload_impl = true; create_moment_impl = true }) r.api_rule)
          (new_diagnosis_rule r.name) g h)

  -- After an update every rule of the engine has an upload action, and a topic is active just if
  -- no rule takes all topics, some rule names it, and it is configured or that of external logs.
  pub update_rules_lem :
      (api_rules : List NamedRule) (config_topics : List Text) (e : Engine) (t : Text)
      → let e' =
          update_rules quote compiles action_compiles duration_of new_diagnosis_rule api_rules
            config_topics e in
        All (λ (r : EngineRule). has_upload r.rule.actions ≡ true) e'.rules
        × (contains (active_topic_set e') t
            ≡ not (any_wildcard e'.rules)
              && any_names e'.rules t
              && (contains config_topics t || text_eq external_log t))
  unfolding update_rules active_topic_set any_wildcard any_names
  update_rules_lem api_rules config_topics e t =
      (sound.uploads, active_of_lem gathered config_topics t sound)
    where
      empty : Gathered
      empty = record { rules = []; active_topics = []; has_wildcard_topic_rule = false }

      gathered : Gathered
      gathered =
          add_api_rules quote compiles action_compiles duration_of new_diagnosis_rule api_rules
            empty

      sound : IsSound gathered
      sound =
          add_api_rules-IsSound api_rules empty
            (record { wildcard = refl; names = λ s. refl; uploads = tt })
