-- ===== src/Rule/Engine/Filter.antt =====
-- What the engine does with an item that the reading of files leaves out by the active topics
-- (internal/mod/rule/engine.go).
use co_scout.Prelude.{
  ℕ, ◌≡◌, refl, Bool, true, false, ◌||◌, List, [], ◌∷◌, Option, Text, text_eq, arith,
}
use co_scout.Prelude.Int.{ℤ}
use co_scout.Rule.Validate.{Action, contains}
use co_scout.Rule.Debounce.{Evaluated}
use co_scout.Rule.Engine.{
  NamedRule, RuleName, EngineRule, Engine, external_log, update_rules, active_topic_set,
}
use co_scout.Rule.Engine.Topics.{is_wildcard, any_wildcard, any_names, update_rules_lem}
use co_scout.Rule.Engine.Consume.{
  RuleItem, Activation, Consuming, takes, consume_rule, consume_rules,
}

module _ (program : Text → Activation → Evaluated) (marshal : List (Text × Text) → Option Text)
    (ids : ℕ → Text) where
  takes_not :
      (rule : EngineRule) (item : RuleItem)
      → is_wildcard rule.rule ≡ false
      → contains rule.rule.topics item.topic ≡ false
      → takes program marshal ids rule item ≡ false
  unfolding takes is_wildcard
  takes_not rule item w c = go rule.rule.topics w c
    where
      go :
          (topics : List Text)
          → elim topics [ [] ↦ true | t ∷ ts ↦ false ] ≡ false
          → contains topics item.topic ≡ false
          → elim topics [ [] ↦ true | t ∷ ts ↦ contains (t ∷ ts) item.topic ] ≡ false
      go [] w c = absurd (ground arith)
      go (t ∷ ts) w c = c

  consume_rules-not_named :
      (rules : List EngineRule) (item : RuleItem) (s : Consuming)
      → any_wildcard rules ≡ false
      → any_names rules item.topic ≡ false
      → consume_rules program marshal ids item rules s ≡ s
  unfolding consume_rules consume_rule any_wildcard any_names
  consume_rules-not_named [] item s w n = refl
  consume_rules-not_named (rule ∷ rules) item s w n =
      rw (takes_not rule item (ground arith) (ground arith))
        (consume_rules-not_named rules item s (ground arith) (ground arith))

  module _ (quote : Text → Text) (compiles : Text → Bool) (action_compiles : Action → Bool)
      (duration_of : Text → ℤ) (new_diagnosis_rule : Text → Option RuleName) where
    -- Where an update leaves some topic active, an item on a configured topic that is not active,
    -- or on that of external logs, is one that no rule takes: leaving it out changes nothing.
    pub consume_rules-inactive :
        (api_rules : List NamedRule) (config_topics : List Text) (e : Engine) (item : RuleItem)
        (s : Consuming) (active : Text)
        → let e' =
            update_rules quote compiles action_compiles duration_of new_diagnosis_rule api_rules
              config_topics e in
          contains (active_topic_set e') active ≡ true
          → contains (active_topic_set e') item.topic ≡ false
          → contains config_topics item.topic || text_eq external_log item.topic ≡ true
          → consume_rules program marshal ids item e'.rules s ≡ s
    consume_rules-inactive api_rules config_topics e item s active some_active inactive configured =
        let e' =
          update_rules quote compiles action_compiles duration_of new_diagnosis_rule api_rules
            config_topics e in
        let has =
          (update_rules_lem quote compiles action_compiles duration_of new_diagnosis_rule api_rules
            config_topics e active).1 in
        let has_not =
          (update_rules_lem quote compiles action_compiles duration_of new_diagnosis_rule api_rules
            config_topics e item.topic).1 in
        let w : any_wildcard e'.rules ≡ false = ground arith in
        consume_rules-not_named e'.rules item s w (ground arith)
