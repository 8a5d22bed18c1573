-- ===== src/Rule/Validate/Accepted.antt =====
-- What the rules are that ValidateApiRule of pkg/rule_engine/integration.go gives for a rule that
-- it accepts.
use co_scout.Prelude.{◌≡◌, Bool, List, [], ◌∷◌, map, Text, codes}
use co_scout.Prelude.Int.{ℤ}
use co_scout.Rule.Validate.{
  ApiRule, Rule, Action, ActionSpec, upload, create_moment, no_action, action_of, topics_of,
}

-- The texts of a list that are not empty.
abbrev pub filled : List Text → List Text
filled [] = []
filled ([] ∷ ts) = filled ts
filled ((c ∷ cs) ∷ ts) = (c ∷ cs) ∷ filled ts

-- The action that a specification asks for.
abbrev pub Performs : ActionSpec → Action → Type 0
Performs (upload u) a =
    (a.name ≡ codes "upload")
    × (a.kwargs
        ≡ upload
            (record u { extra_files = filled u.extra_files; white_list = filled u.white_list }))
Performs (create_moment m) a = (a.name ≡ codes "create_moment") × (a.kwargs ≡ create_moment m)
Performs no_action a = a.name ≡ []

-- The actions are those of the specifications, in their order.
abbrev pub PerformsAll : List ActionSpec → List Action → Type 0
PerformsAll [] [] = Unit {0}
PerformsAll [] (a ∷ rest) = ⊥
PerformsAll (spec ∷ specs) [] = ⊥
PerformsAll (spec ∷ specs) (a ∷ rest) = Performs spec a × PerformsAll specs rest

-- The scopes to make a rule for.
abbrev pub each_scope : List (List (Text × Text)) → List (List (Text × Text))
each_scope [] = [] ∷ []
each_scope (s ∷ ss) = s ∷ ss

-- The topics of a rule: none stands for all.
abbrev pub each_topic : Text → List Text
each_topic [] = []
each_topic (c ∷ cs) = (c ∷ cs) ∷ []

module _ (quote : Text → Text) (compiles : Text → Bool) (action_compiles : Action → Bool)
    (duration_of : Text → ℤ) where
  -- A rule of the engine that is made from the rule of the interface, for one of its scopes.
  abbrev pub IsMade : ApiRule → List Text → Rule → Type 0
  IsMade api cs r =
      (r.conditions ≡ cs)
      × PerformsAll api.action_specs r.actions
      × (r.topics ≡ each_topic api.active_topics)
      × (r.debounce_time ≡ duration_of api.debounce_duration)

  made : ApiRule → List Text → List (Text × Text) → Rule
  made api cs scope = record {
    conditions = cs;
    actions = map action_of api.action_specs;
    scope = scope;
    topics = topics_of api.active_topics;
    debounce_time = duration_of api.debounce_duration;
  }
