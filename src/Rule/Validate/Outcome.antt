-- ===== src/Rule/Validate/Outcome.antt =====
-- When ValidateApiRule of pkg/rule_engine/integration.go succeeds, and with which rules.
use mathlib.Core.List.{append_assoc}
use co_scout.Prelude.{
  ℕ, suc, ◌≡◌, ◌≢◌, ◌⊎◌, inl, inr, refl, Bool, true, false, ◌&&◌, List, [], ◌∷◌, ◌++◌, map, Option,
  none, some, if◌then◌else◌, Text, append-nil, arith, Bool-cases,
}
use co_scout.Prelude.Int.{ℤ}
use co_scout.Rule.Errors.{
  ErrorSection, condition_section, action_section, ValidationError, ValidationResult,
}
use co_scout.Rule.Validate.{
  ApiRule, Rule, Action, ConditionSpec, ActionSpec, ActionImpls, Collected, at_once, collected,
  condition_text, error_at, empty_at, empty_errors, action_of, add_condition, collect_conditions,
  action_ok, collect_actions, rules_of, finish, after_conditions, failure, validate_api_rule,
  contains, allowed_versions,
}

-- Errors were found.
abbrev pub IsBad : Collected Text → Type 0
IsBad (at_once e) = Unit {0}
IsBad (collected errors conditions) = errors ≢ []

append_one-ne : (es : List ValidationError) (e : ValidationError) → es ++ e ∷ [] ≢ []
append_one-ne [] e h = cc
append_one-ne (x ∷ es) e h = cc

append-ne : (xs ys : List ValidationError) → xs ≢ [] → xs ++ ys ≢ []
append-ne [] ys h e = absurd (h refl)
append-ne (x ∷ xs) ys h e = cc

empty_errors_ne {ℓ} :
    {A : Type ℓ} (s : ErrorSection) (xs : List A) → xs ≢ [] → empty_errors s xs ≡ []
unfolding empty_errors
empty_errors_ne s [] h = absurd (h refl)
empty_errors_ne s (x ∷ xs) h = refl

cons_text : (Text → Bool) → Option Text → Option (List Text) → Option (List Text)
cons_text compiles none rest = none
cons_text compiles (some s) none = none
cons_text compiles (some s) (some ss) = if compiles s then some (s ∷ ss) else none

cons_text-some :
    (compiles : Text → Bool) (o : Option Text) (t : Option (List Text)) (ss : List Text)
    → cons_text compiles o t ≡ some ss
    → (s : Text) × (ss' : List Text) × (o ≡ some s)
      × (t ≡ some ss')
      × (compiles s ≡ true)
      × (s ∷ ss' ≡ ss)
unfolding cons_text
cons_text-some compiles none t ss h = cc
cons_text-some compiles (some s) none ss h = cc
cons_text-some compiles (some s) (some ss') ss h = (s, ss', refl, refl, ground arith, ground arith)

-- Why there are no texts: one is missing, one does not compile, or the rest has none.
data NoTexts (compiles : Text → Bool) (o : Option Text) (t : Option (List Text)) : Type 0 where
  missing : o ≡ none → NoTexts compiles o t
  broken : (s : Text) → o ≡ some s → compiles s ≡ false → NoTexts compiles o t
  later : (s : Text) → o ≡ some s → compiles s ≡ true → t ≡ none → NoTexts compiles o t

cons_text-none :
    (compiles : Text → Bool) (o : Option Text) (t : Option (List Text))
    → cons_text compiles o t ≡ none
    → NoTexts compiles o t
unfolding cons_text
cons_text-none compiles none t h = missing refl
cons_text-none compiles (some s) none h = elim (Bool-cases (compiles s)) [
  | inl good ↦ later s refl good refl
  | inr bad ↦ broken s refl bad
]
cons_text-none compiles (some s) (some ss) h = broken s refl (ground arith)

module _ (quote : Text → Text) (compiles : Text → Bool) (action_compiles : Action → Bool)
    (duration_of : Text → ℤ) where
  -- The texts of the conditions, if each has one and all compile.
  unfoldable pub texts : List ConditionSpec → Option (List Text)
  unfolding cons_text
  texts [] = some []
  texts (spec ∷ specs) = cons_text compiles (condition_text quote spec) (texts specs)

  -- Whether each action has an implementation and compiles.
  unfoldable pub actions_ok : ActionImpls → List ActionSpec → Bool
  actions_ok impls [] = true
  actions_ok impls (spec ∷ specs) =
      action_ok quote compiles action_compiles duration_of impls spec && actions_ok impls specs

  abbrev collect : ℕ → List ConditionSpec → Collected Text → Collected Text
  collect = collect_conditions quote compiles action_compiles duration_of

  add-IsBad :
      (i : ℕ) (t : Option Text) (c : Collected Text)
      → IsBad c
      → IsBad (add_condition quote compiles action_compiles duration_of i t c)
  unfolding add_condition
  add-IsBad i t (at_once e) h = tt
  add-IsBad i none (collected errors conditions) h = tt
  add-IsBad i (some s) (collected errors conditions) h =
      ground (arith, append_one-ne errors (error_at condition_section i))

  collect-IsBad :
      (i : ℕ) (specs : List ConditionSpec) (c : Collected Text)
      → IsBad c
      → IsBad (collect i specs c)
  unfolding collect_conditions
  collect-IsBad i [] c h = h
  collect-IsBad i (spec ∷ specs) c h =
      collect-IsBad (suc i) specs _ (add-IsBad i (condition_text quote spec) c h)

  -- The first loop, where all texts are fine.
  collect-some :
      (i : ℕ) (specs : List ConditionSpec) (errors : List ValidationError) (cs ss : List Text)
      → texts specs ≡ some ss
      → collect i specs (collected errors cs) ≡ collected errors (cs ++ ss)
  unfolding collect_conditions texts add_condition
  collect-some i [] errors cs ss h = ground (arith, append-nil cs)
  collect-some i (spec ∷ specs) errors cs ss h =
      let (s, ss', text, rest, good, e) =
        cons_text-some compiles (condition_text quote spec) (texts specs) ss h in
      rw (text, add_condition, good, ← e, ← append_assoc cs (s ∷ []) ss')
        (collect-some (suc i) specs errors (cs ++ s ∷ []) ss' rest)

  -- And where one is not.
  collect-none :
      (i : ℕ) (specs : List ConditionSpec) (errors : List ValidationError) (cs : List Text)
      → texts specs ≡ none
      → IsBad (collect i specs (collected errors cs))
  unfolding collect_conditions texts add_condition
  collect-none i [] errors cs h = cc
  collect-none i (spec ∷ specs) errors cs h =
      elim (cons_text-none compiles (condition_text quote spec) (texts specs) h) [
        | missing text ↦ collect-IsBad (suc i) specs _ (rw (text, add_condition) tt)
        | broken s text bad ↦
            collect-IsBad (suc i) specs _
              (rw (text, add_condition, bad) (append_one-ne errors (error_at condition_section i)))
        | later s text good rest ↦
            rw (text, add_condition, good) (collect-none (suc i) specs errors (cs ++ s ∷ []) rest)
      ]

  collect_actions_ok :
      (impls : ActionImpls) (i : ℕ) (specs : List ActionSpec) (errors : List ValidationError)
      (actions : List Action)
      → actions_ok impls specs ≡ true
      → collect_actions quote compiles action_compiles duration_of impls i specs errors actions
        ≡ (errors, actions ++ map action_of specs)
  unfolding collect_actions actions_ok
  collect_actions_ok impls i [] errors actions h = rw (append-nil actions)
  collect_actions_ok impls i (spec ∷ specs) errors actions h =
      let ok_here = action_ok quote compiles action_compiles duration_of impls spec in
      let good : ok_here ≡ true = ground arith in
      rw (good, ← append_assoc actions (action_of spec ∷ []) (map action_of specs))
        (collect_actions_ok impls (suc i) specs errors (actions ++ action_of spec ∷ [])
          (ground arith))

  collect_actions_bad :
      (impls : ActionImpls) (i : ℕ) (specs : List ActionSpec) (errors : List ValidationError)
      (actions : List Action)
      → (errors ≢ []) ⊎ (actions_ok impls specs ≡ false)
      → (collect_actions quote compiles action_compiles duration_of impls i specs errors actions).0
        ≢ []
  unfolding collect_actions actions_ok
  collect_actions_bad impls i [] errors actions (inl h) = h
  collect_actions_bad impls i [] errors actions (inr h) = cc
  collect_actions_bad impls i (spec ∷ specs) errors actions h =
      elim (Bool-cases (action_ok quote compiles action_compiles duration_of impls spec)) [
        | inl good ↦
            rw (good, collect_actions)
              (collect_actions_bad impls (suc i) specs errors (actions ++ action_of spec ∷ [])
                (ground arith))
        | inr bad ↦
            rw (bad, collect_actions)
              (collect_actions_bad impls (suc i) specs (errors ++ error_at action_section i ∷ [])
                actions (inl (append_one-ne errors (error_at action_section i))))
      ]

  abbrev pub Refused : List Rule × ValidationResult → Type 0
  Refused r = (r.0 ≡ []) × (r.1.success ≡ false) × (r.1.errors ≢ [])

  finish_bad :
      (api : ApiRule) (cs : List Text) (r : List ValidationError × List Action)
      → r.0 ≢ []
      → Refused (finish quote compiles action_compiles duration_of api cs r)
  unfolding finish
  finish_bad api cs ([], actions) h = absurd (h refl)
  finish_bad api cs (e ∷ es, actions) h = (refl, refl, λ x. cc)

  after_conditions_bad :
      (impls : ActionImpls) (api : ApiRule) (c : Collected Text)
      → IsBad c ⊎ ((api.action_specs ≡ []) ⊎ (actions_ok impls api.action_specs ≡ false))
      → Refused (after_conditions quote compiles action_compiles duration_of impls api c)
  unfolding after_conditions
  after_conditions_bad impls api (at_once e) h = (refl, refl, λ x. cc)
  after_conditions_bad impls api (collected errors cs) h =
      finish_bad api cs _ (collect_actions_bad impls 0 api.action_specs _ [] (found h))
    where
      found :
          (errors ≢ []) ⊎ ((api.action_specs ≡ []) ⊎ (actions_ok impls api.action_specs ≡ false))
          → (errors ++ empty_errors action_section api.action_specs ≢ [])
            ⊎ (actions_ok impls api.action_specs ≡ false)
      found (inl bad) = inl (append-ne errors _ bad)
      found (inr (inl e)) =
          inl (rw (e, empty_errors) (append_one-ne errors (empty_at action_section)))
      found (inr (inr bad)) = inr bad

  pub validate_api_rule_ok :
      (impls : ActionImpls) (api : ApiRule) (cs : List Text)
      → contains allowed_versions api.version ≡ true
      → api.condition_specs ≢ []
      → api.action_specs ≢ []
      → texts api.condition_specs ≡ some cs
      → actions_ok impls api.action_specs ≡ true
      → validate_api_rule quote compiles action_compiles duration_of impls api ≡ (
        rules_of quote compiles action_compiles duration_of api cs (map action_of api.action_specs),
        record { success = true; errors = [] },
      )
  unfolding validate_api_rule
  validate_api_rule_ok impls api cs v nc na t a = rw (
    v,
    empty_errors_ne condition_section api.condition_specs nc,
    collect-some 0 api.condition_specs [] [] cs t,
    after_conditions,
    empty_errors_ne action_section api.action_specs na,
    collect_actions_ok impls 0 api.action_specs [] [] a,
  )

  conditions-IsBad :
      (api : ApiRule)
      → (api.condition_specs ≡ []) ⊎ (texts api.condition_specs ≡ none)
      → IsBad (
          collect 0 api.condition_specs
            (collected (empty_errors condition_section api.condition_specs) []))
  unfolding empty_errors
  conditions-IsBad api (inl e) =
      collect-IsBad 0 api.condition_specs _ (rw (e, empty_errors) (λ x. cc))
  conditions-IsBad api (inr e) = collect-none 0 api.condition_specs _ [] e

  -- A rule of another version, or without conditions or actions, or with a condition whose type or
  -- operator is unspecified or that does not compile, or with an action that has no implementation
  -- or does not compile, is refused: with at least one error, and with no rule.
  pub validate_api_rule_refuses :
      (impls : ActionImpls) (api : ApiRule)
      → (contains allowed_versions api.version ≡ false)
        ⊎ (((api.condition_specs ≡ []) ⊎ (texts api.condition_specs ≡ none))
            ⊎ ((api.action_specs ≡ []) ⊎ (actions_ok impls api.action_specs ≡ false)))
      → Refused (validate_api_rule quote compiles action_compiles duration_of impls api)
  unfolding validate_api_rule
  validate_api_rule_refuses impls api (inl v) = rw (v, failure) (refl, refl, λ x. cc)
  validate_api_rule_refuses impls api (inr bad) =
      elim (Bool-cases (contains allowed_versions api.version)) [
        | inr v ↦ rw (v, failure) (refl, refl, λ x. cc)
        | inl v ↦ rw v (after_conditions_bad impls api _ (found bad))
      ]
    where
      found :
          ((api.condition_specs ≡ []) ⊎ (texts api.condition_specs ≡ none))
            ⊎ ((api.action_specs ≡ []) ⊎ (actions_ok impls api.action_specs ≡ false))
          → IsBad (
              collect 0 api.condition_specs
                (collected (empty_errors condition_section api.condition_specs) []))
            ⊎ ((api.action_specs ≡ []) ⊎ (actions_ok impls api.action_specs ≡ false))
      found (inl b) = inl (conditions-IsBad api b)
      found (inr b) = inr b
