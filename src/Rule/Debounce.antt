-- ===== src/Rule/Debounce.antt =====
-- EvalConditions of pkg/rule_engine/rule.go with Evaluate of condition.go. Times and durations are
-- integers, in nanoseconds. A condition's program is a parameter: its evaluation fails, or has a
-- value, which is a Boolean or is not.
pub mod Spacing
mod Tests
use co_scout.Prelude.{
  ◌≡◌, refl, Bool, true, false, not, ◌&&◌, ◌||◌, List, [], ◌∷◌, Option, none, some, if◌then◌else◌,
  Text, text_eq, codes, arith, ◌⊎◌, ◌↔◌, All, inl, inr,
}
use co_scout.Prelude.Int.{ℤ, pos, ◌-ℤ◌, ◌≤ℤ◌, ◌<ℤ◌, ltb_ℤ, -ℤ_parts}

-- What `program.Eval` gives.
pub data Evaluated : Type 0 where
  eval_failed : Evaluated
  boolean : Bool → Evaluated
  other_value : Evaluated

unfoldable pub evaluate : Evaluated → Bool
evaluate eval_failed = false
evaluate (boolean b) = b
evaluate other_value = false

-- The fields that EvalConditions reads; the conditions are their programs, on an activation.
pub record Rule {ℓ} (Activation : Type ℓ) : Type ℓ where
  pub conditions : List (Activation → Evaluated)
  pub debounce_time : ℤ

abbrev pub rule_source_http : Text
rule_source_http = codes "http"

-- `activation["source"].(string)` is the constant RuleSourceHTTP.
unfoldable pub is_http : Option Text → Bool
is_http none = false
is_http (some source) = text_eq source rule_source_http

-- The loop over the conditions.
unfoldable pub all_met {ℓ} :
    {Activation : Type ℓ} → List (Activation → Evaluated) → Activation → Bool
unfolding evaluate
all_met [] a = true
all_met (c ∷ cs) a = evaluate (c a) && all_met cs a

-- The switch of the debouncing.
debounce : Option Text → ℤ → Option ℤ → ℤ → Bool × Option ℤ
unfolding is_http
debounce source debounce_time none ts = (true, some ts)
debounce source debounce_time (some prev) ts =
    if ltb_ℤ ts prev
    then (if is_http source then (false, some prev) else (true, some ts))
    else if ltb_ℤ debounce_time (ts -ℤ prev)
    then (true, some ts)
    else (false, some ts)

module _ {ℓ} {Activation : Type ℓ} (source : Activation → Option Text) where
  -- Go's (isActive, activationTime).
  unfoldable pub eval_conditions : Rule Activation → Activation → Option ℤ → ℤ → Bool × Option ℤ
  unfolding all_met debounce
  eval_conditions rule activation prev_activation_time ts =
      if not (all_met rule.conditions activation)
      then (false, prev_activation_time)
      else if not (ltb_ℤ (pos 0) rule.debounce_time)
      then (true, some ts)
      else debounce (source activation) rule.debounce_time prev_activation_time ts

  -- What ConsumeNext does with the messages of one rule: the activation time of each is the
  -- previous one of the next. The times at which the rule was active come out, in order.
  unfoldable pub active_times : Rule Activation → Option ℤ → List (Activation × ℤ) → List ℤ
  unfolding eval_conditions
  active_times rule prev [] = []
  active_times rule prev ((a, ts) ∷ items) =
      let (active, prev') = eval_conditions rule a prev ts in
      let rest = active_times rule prev' items in if active then ts ∷ rest else rest
