-- ===== src/Rule/Debounce/Spacing.antt =====
-- When a rule of pkg/rule_engine/rule.go is active, and how its activations are spaced.
use co_scout.Prelude.{
  ◌≡◌, ◌↔◌, ◌⊎◌, inl, inr, true, false, not, List, [], ◌∷◌, Option, none, some, Text, All, arith,
  ◌&&◌, Bool-cases,
}
use co_scout.Prelude.Int.{ℤ, pos, ◌+ℤ◌, ◌-ℤ◌, ◌≤ℤ◌, ◌<ℤ◌, ltb_ℤ, -ℤ_parts, +ℤ_parts}
use co_scout.Rule.Debounce.{Rule, all_met, is_http, debounce, eval_conditions, active_times}

-- When an earlier activation at `prev` lets a message at `ts` through.
abbrev pub Passes : Option Text → ℤ → Option ℤ → ℤ → Type 0
Passes s debounce_time none ts = Unit {0}
Passes s debounce_time (some prev) ts =
    ((ts <ℤ prev) × (is_http s ≡ false)) ⊎ ((prev ≤ℤ ts) × (debounce_time <ℤ ts -ℤ prev))

debounce_lem :
    (s : Option Text) (debounce_time : ℤ) (prev : Option ℤ) (ts : ℤ)
    → pos 0 <ℤ debounce_time
    → ((debounce s debounce_time prev ts).0 ≡ true) ↔ Passes s debounce_time prev ts
unfolding debounce
debounce_lem s debounce_time none ts h = ground arith
debounce_lem s debounce_time (some prev) ts h = ground arith

-- The times grow by more than `gap` each, from `last` on.
abbrev pub Spaced : ℤ → ℤ → List ℤ → Type 0
Spaced gap last [] = Unit {0}
Spaced gap last (t ∷ ts) = (last +ℤ gap <ℤ t) × Spaced gap t ts

Spaced-mono :
    (gap last last' : ℤ) (ts : List ℤ) → last ≤ℤ last' → Spaced gap last' ts → Spaced gap last ts
Spaced-mono gap last last' [] h s = tt
Spaced-mono gap last last' (t ∷ ts) h s =
    (omega (arith, s.0, +ℤ_parts last gap, +ℤ_parts last' gap), s.1)

module _ {ℓ} {Activation : Type ℓ} (source : Activation → Option Text) where
  -- A rule is active exactly if all conditions are met and the debouncing lets the message pass:
  -- there is no debounce time, or none was met before, or the message is from a file and earlier
  -- than the last, or it is later than the last by more than the debounce time.
  pub eval_conditions_lem :
      (rule : Rule Activation) (a : Activation) (prev : Option ℤ) (ts : ℤ)
      → ((eval_conditions source rule a prev ts).0 ≡ true) ↔ (
          (all_met rule.conditions a ≡ true)
          × ((rule.debounce_time ≤ℤ pos 0)
              ⊎ ((pos 0 <ℤ rule.debounce_time) × Passes (source a) rule.debounce_time prev ts)))
  unfolding eval_conditions
  eval_conditions_lem rule a none ts =
      ground (arith, debounce_lem (source a) rule.debounce_time none ts)
  eval_conditions_lem rule a (some prev) ts =
      ground (arith, debounce_lem (source a) rule.debounce_time (some prev) ts)

  abbrev pub FromHttp : Activation × ℤ → Type 0
  FromHttp (a, ts) = is_http (source a) ≡ true

  step_http :
      (rule : Rule Activation) (a : Activation) (prev ts : ℤ)
      → pos 0 <ℤ rule.debounce_time
      → is_http (source a) ≡ true
      → (p : ℤ) × ((eval_conditions source rule a (some prev) ts).1 ≡ some p)
        × (prev ≤ℤ p)
        × ((eval_conditions source rule a (some prev) ts).0 ≡ true
            → (prev +ℤ rule.debounce_time <ℤ ts) × (p ≡ ts))
  unfolding eval_conditions debounce
  step_http rule a prev ts d h =
      let gap = -ℤ_parts ts prev in
      let sum = +ℤ_parts prev rule.debounce_time in
      elim (Bool-cases (all_met rule.conditions a && not (ltb_ℤ ts prev))) [
        | inl kept ↦ (ts, ground arith, ground arith, ground (arith, gap, sum))
        | inr dropped ↦ (prev, ground arith, ground arith, ground arith)
      ]

  -- From the live source, with a debounce time and an earlier message that met the conditions at
  -- `prev`, the activations come at growing times: the first is later than `prev`, and each
  -- further one later than the one before it, by more than the debounce time, whatever the times
  -- of the messages are.
  pub active_times-Spaced :
      (rule : Rule Activation) (prev : ℤ) (items : List (Activation × ℤ))
      → pos 0 <ℤ rule.debounce_time
      → All FromHttp items
      → Spaced rule.debounce_time prev (active_times source rule (some prev) items)
  unfolding active_times
  active_times-Spaced rule prev [] d h = tt
  active_times-Spaced rule prev ((a, ts) ∷ items) d h =
      let (p, next, le, active) = step_http rule a prev ts d h.0 in
      let rest = active_times-Spaced rule p items d h.1 in
      elim (Bool-cases (eval_conditions source rule a (some prev) ts).0) [
        | inl yes_active ↦
            let (far, same) = active yes_active in
            rw (yes_active, next, same) (far, rw same at rest)
        | inr inactive ↦ rw (inactive, next) (Spaced-mono rule.debounce_time prev p _ le rest)
      ]
