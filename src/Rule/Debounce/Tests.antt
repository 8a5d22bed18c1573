-- ===== src/Rule/Debounce/Tests.antt =====
-- Runs of EvalConditions (pkg/rule_engine/rule.go).
use co_scout.Prelude.{◌≡◌, refl, true, some, none, [], ◌∷◌, codes, Text, Option, text_eq, ℕ}
use co_scout.Prelude.Int.{pos, ◌-ℤ◌}
use co_scout.Rule.Debounce.{Rule, boolean, all_met, active_times, is_http}

-- An activation is a number here, from the live source, and the rule's condition is met.
abbrev live : ℕ → Option Text
live a = some (codes "http")

abbrev rule : Rule ℕ
rule = record { conditions = (λ a. boolean true) ∷ []; debounce_time = pos 10 }

-- The message at 25 keeps the debouncing going.
sliding :
    active_times live rule none ((0, pos 20) ∷ (0, pos 25) ∷ (0, pos 31) ∷ (0, pos 42) ∷ [])
    ≡ pos 20 ∷ pos 42 ∷ []
unfolding active_times all_met ◌-ℤ◌
sliding = refl

live_is_http : is_http (some (codes "http")) ≡ true
unfolding is_http text_eq
live_is_http = refl
