-- ===== src/Rule/Engine/Consume.antt =====
-- ConsumeNext and cleanupDebounceTime of internal/mod/rule/engine.go. Parameters stand for the CEL
-- programs of the conditions, the encoding of a scope in JSON, and uuid.New, which gives the
-- identifiers of a sequence. A run of an action and a publication are told in a trace; what they do
-- is in Rule/Engine/Upload.antt and CollectInfo.antt. Times are in nanoseconds.
use co_scout.Prelude.{
  ℕ, suc, Bool, true, false, not, List, [], ◌∷◌, ◌++◌, Option, none, some, ltb, if◌then◌else◌, Text,
  codes, map, length, lookup, insert, delete,
}
use co_scout.Prelude.Int.{ℤ, pos, ◌-ℤ◌, ltb_ℤ}
use co_scout.Rule.Validate.{Action, contains}
use co_scout.Rule.Debounce.{Rule, Evaluated, eval_conditions}
use co_scout.Rule.Engine.{EngineRule, Engine}

-- rule_engine.RuleItem: the message is its text, the time of a float64 is in nanoseconds.
pub record RuleItem : Type 0 where
  pub msg : Text
  pub topic : Text
  pub ts : ℤ
  pub source : Text

-- The activation of a rule by an item.
pub record Activation : Type 0 where
  pub item : RuleItem
  pub scope : List (Text × Text)

-- An action of a rule is run for an item, or the collect info with an identifier is published.
pub data Event : Type 0 where
  ran : Text → EngineRule → RuleItem → Action → Event
  published : Text → EngineRule → RuleItem → Event

abbrev pub Debounces : Type 0
Debounces = List (Text × Option ℤ)

-- The state of the loop over the rules.
pub record Consuming : Type 0 where
  pub debounce_time : Debounces
  pub next_id : ℕ
  pub events : List Event

-- A nil of the map is as good as no entry, and the empty key is none.
unfoldable pub previous : Text → Debounces → Option ℤ
previous [] m = none
previous (c ∷ cs) m = elim (lookup (c ∷ cs) m) [ none ↦ none | some time ↦ time ]

unfoldable pub remember : Text → Option ℤ → Debounces → Debounces
remember [] time m = m
remember (c ∷ cs) time m = insert (c ∷ cs) time m

unfoldable pub fired : Text → EngineRule → RuleItem → List Event
fired id rule item = map (ran id rule item) rule.rule.actions ++ published id rule item ∷ []

abbrev pub debounce_max_duration : ℤ
debounce_max_duration = pos 86400000000000

unfoldable pub is_expired : ℤ → Option ℤ → Bool
is_expired now none = false
is_expired now (some ts) = ltb_ℤ debounce_max_duration (now -ℤ ts)

unfoldable pub expired_keys : ℤ → Debounces → List Text
unfolding is_expired
expired_keys now [] = []
expired_keys now ((k, time) ∷ m) =
    let rest = expired_keys now m in if is_expired now time then k ∷ rest else rest

unfoldable pub delete_keys : List Text → Debounces → Debounces
delete_keys [] m = m
delete_keys ([] ∷ ks) m = delete_keys ks m
delete_keys ((c ∷ cs) ∷ ks) m = delete_keys ks (delete (c ∷ cs) m)

unfoldable pub cleanup_debounce_time : ℤ → Debounces → Debounces
unfolding expired_keys delete_keys
cleanup_debounce_time now m = if ltb 1000 (length m) then delete_keys (expired_keys now m) m else m

module _ (program : Text → Activation → Evaluated) (marshal : List (Text × Text) → Option Text)
    (ids : ℕ → Text) where
  unfoldable pub debounce_key : EngineRule → Text
  debounce_key rule = elim rule.metadata.rule_name [
    | [] ↦ []
    | c ∷ cs ↦ elim rule.rule.scope [
      | [] ↦ c ∷ cs
      | e ∷ es ↦ elim (marshal (e ∷ es)) [
        | none ↦ c ∷ cs
        | some text ↦ c ∷ cs ++ (codes "|" ++ text)
      ]
    ]
  ]

  -- The rule with its conditions' programs.
  unfoldable pub compiled : EngineRule → Rule Activation
  compiled rule = record {
    conditions = map program rule.rule.conditions;
    debounce_time = rule.rule.debounce_time;
  }

  -- What EvalConditions answers for a rule and an item.
  unfoldable pub evaluation : EngineRule → RuleItem → Option ℤ → Bool × Option ℤ
  evaluation rule item prev =
      eval_conditions (λ a. some a.item.source) (compiled rule)
        (record { item = item; scope = rule.rule.scope }) prev item.ts

  -- What is left to do with the answer.
  unfoldable pub settle : EngineRule → RuleItem → Bool × Option ℤ → Consuming → Consuming
  unfolding remember fired debounce_key
  settle rule item (active, time) s =
      let remembered = record s {
        debounce_time = remember (debounce_key rule) time s.debounce_time;
      } in
      if active
      then record remembered {
        next_id = suc s.next_id;
        events = s.events ++ fired (ids s.next_id) rule item;
      }
      else remembered

  -- Whether the item is one for the rule.
  unfoldable pub takes : EngineRule → RuleItem → Bool
  takes rule item = elim rule.rule.topics [ [] ↦ true | t ∷ ts ↦ contains (t ∷ ts) item.topic ]

  unfoldable pub consume_rule : RuleItem → EngineRule → Consuming → Consuming
  consume_rule item rule s =
      if not (takes rule item)
      then s
      else settle rule item (evaluation rule item (previous (debounce_key rule) s.debounce_time)) s

  unfoldable pub consume_rules : RuleItem → List EngineRule → Consuming → Consuming
  unfolding consume_rule
  consume_rules item [] s = s
  consume_rules item (rule ∷ rules) s = consume_rules item rules (consume_rule item rule s)

  -- The engine with the number of identifiers that are used and the trace so far.
  unfoldable pub consume_next : ℤ → RuleItem → Engine × ℕ × List Event → Engine × ℕ × List Event
  unfolding consume_rules cleanup_debounce_time
  consume_next now item (e, next_id, events) =
      let s =
        consume_rules item e.rules
          (record { debounce_time = e.rule_debounce_time; next_id = next_id; events = events }) in
      (
        record e { rule_debounce_time = cleanup_debounce_time now s.debounce_time },
        s.next_id,
        s.events,
      )
