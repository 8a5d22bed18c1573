-- ===== src/Rule/Engine/Isolation.antt =====
-- A rule among the others of the engine (ConsumeNext of internal/mod/rule/engine.go).
use co_scout.Prelude.{
  ℕ, ◌≡◌, refl, ap, ◌∙◌, sym, Bool, true, false, List, [], ◌∷◌, ◌++◌, append-nil, append_assoc,
  Option, some, if◌then◌else◌, Text, text_eq, text_eq_refl, arith, Bool-cases, inl, inr, All, map,
  subst,
}
use co_scout.Prelude.Int.{ℤ, pos, ◌<ℤ◌}
use co_scout.Rule.Debounce.{Evaluated, active_times, is_http, rule_source_http}
use co_scout.Rule.Debounce.Spacing.{Spaced, FromHttp, active_times-Spaced}
use co_scout.Rule.Engine.{EngineRule, Engine}
use co_scout.Rule.Engine.Consume.{
  RuleItem, Activation, Consuming, previous, debounce_key, evaluation, takes, compiled,
  consume_rule, consume_rules, consume_next, cleanup_debounce_time, Event,
}
use co_scout.Rule.Engine.Shows.{
  times_of, one_if, Shows, settle-Shows, Others, consume_rules-other, consume_rules-append,
}

module _ (program : Text → Activation → Evaluated) (marshal : List (Text × Text) → Option Text)
    (ids : ℕ → Text) where
  -- ConsumeNext for the items one after the other, each with the time at which it is cleaned up.
  unfoldable pub consume_items :
      List (ℤ × RuleItem) → Engine × ℕ × List Event → Engine × ℕ × List Event
  unfolding consume_next
  consume_items [] st = st
  consume_items ((now, item) ∷ items) st =
      consume_items items (consume_next program marshal ids now item st)

  -- What the loop over the rules leaves for an item, before the cleaning.
  abbrev pub looped : RuleItem → Engine × ℕ × List Event → Consuming
  looped item (e, next_id, events) =
      consume_rules program marshal ids item e.rules
        (record { debounce_time = e.rule_debounce_time; next_id = next_id; events = events })

  -- No cleaning of the run forgets the time that is remembered under the key.
  abbrev pub Unforgotten : Text → List (ℤ × RuleItem) → Engine × ℕ × List Event → Type 0
  Unforgotten k [] st = Unit {0}
  Unforgotten k ((now, item) ∷ items) st =
      (previous k (cleanup_debounce_time now (looped item st).debounce_time)
        ≡ previous k (looped item st).debounce_time)
      × Unforgotten k items (consume_next program marshal ids now item st)

  -- The activations of a rule by the items on its topics.
  unfoldable pub activations_of : EngineRule → List RuleItem → List (Activation × ℤ)
  activations_of rule [] = []
  activations_of rule (item ∷ items) =
      let rest = activations_of rule items in
      if takes program marshal ids rule item
      then (record { item = item; scope = rule.rule.scope }, item.ts) ∷ rest
      else rest

  abbrev pub source_of : Activation → Option Text
  source_of a = some a.item.source

  answered : EngineRule → RuleItem → Option ℤ → Bool × Option ℤ
  answered rule item prev =
      if takes program marshal ids rule item
      then evaluation program marshal ids rule item prev
      else (false, prev)

  consume_rule-own :
      (rule : EngineRule) (item : RuleItem) (s : Consuming)
      → let k = debounce_key program marshal ids rule in
        text_eq k [] ≡ false
        → Shows program marshal ids k
            (answered rule item (previous k s.debounce_time)).1
            (times_of program marshal ids k s.events
              ++ one_if program marshal ids
                  (answered rule item (previous k s.debounce_time)).0
                  item.ts)
            (consume_rule program marshal ids item rule s)
  unfolding consume_rule answered one_if
  consume_rule-own rule item s n = elim (Bool-cases (takes program marshal ids rule item)) [
    | inr e ↦ rw e (record { last = refl; activations = sym (append-nil _) })
    | inl e ↦
        let k = debounce_key program marshal ids rule in
        let answer = evaluation program marshal ids rule item (previous k s.debounce_time) in
        rw e (settle-Shows program marshal ids rule item k answer.0 answer.1 s n (text_eq_refl k))
  ]

  active_times-answered :
      (rule : EngineRule) (item : RuleItem) (items : List RuleItem) (prev : Option ℤ)
      → active_times source_of
          (compiled program marshal ids rule)
          prev
          (activations_of rule (item ∷ items))
        ≡ one_if program marshal ids (answered rule item prev).0 item.ts
          ++ active_times source_of
              (compiled program marshal ids rule)
              (answered rule item prev).1
              (activations_of rule items)
  unfolding activations_of active_times answered evaluation one_if
  active_times-answered rule item items prev =
      elim (Bool-cases (takes program marshal ids rule item)) [
        | inr e ↦ rw e refl
        | inl e ↦ rw e (ground arith)
      ]

  consume_rules-own :
      (before : List EngineRule) (rule : EngineRule) (after : List EngineRule) (item : RuleItem)
      (s : Consuming)
      → let k = debounce_key program marshal ids rule in
        text_eq k [] ≡ false
        → Others program marshal ids k before
        → Others program marshal ids k after
        → Shows program marshal ids k
            (answered rule item (previous k s.debounce_time)).1
            (times_of program marshal ids k s.events
              ++ one_if program marshal ids
                  (answered rule item (previous k s.debounce_time)).0
                  item.ts)
            (consume_rules program marshal ids item (before ++ rule ∷ after) s)
  unfolding consume_rules
  consume_rules-own before rule after item s n ob oa =
      let k = debounce_key program marshal ids rule in
      let s1 = consume_rules program marshal ids item before s in
      let s2 = consume_rule program marshal ids item rule s1 in
      let first = consume_rules-other program marshal ids before item k s n ob in
      let own = consume_rule-own rule item s1 n in
      let last = consume_rules-other program marshal ids after item k s2 n oa in
      rw (consume_rules-append program marshal ids before (rule ∷ after) item s) (record {
        last = last.last ∙ own.last ∙ ap (λ p. (answered rule item p).1) first.last;
        activations = last.activations ∙ own.activations ∙ rw (first.last, first.activations) refl;
      })

  -- A rule of the engine whose debounce key is not empty and is no other rule's is active, over any
  -- calls of ConsumeNext, for just those items on its topics for which it would be alone: the other
  -- rules, before it and after it, neither let an item through to it nor hold one back. That is as
  -- long as no cleaning, at the end of a call, forgets the time that is remembered for the rule;
  -- with more than a thousand remembered times, also of other rules, it forgets those more than a
  -- day back.
  pub consume_items-times_of :
      (before : List EngineRule) (rule : EngineRule) (after : List EngineRule)
      (items : List (ℤ × RuleItem)) (e : Engine) (next_id : ℕ) (events : List Event)
      → let k = debounce_key program marshal ids rule in
        e.rules ≡ before ++ rule ∷ after
        → text_eq k [] ≡ false
        → Others program marshal ids k before
        → Others program marshal ids k after
        → Unforgotten k items (e, next_id, events)
        → times_of program marshal ids k (consume_items items (e, next_id, events)).2
          ≡ times_of program marshal ids k events
            ++ active_times source_of
                (compiled program marshal ids rule)
                (previous k e.rule_debounce_time)
                (activations_of rule (map (λ x. x.1) items))
  unfolding consume_items activations_of active_times consume_next
  consume_items-times_of before rule after [] e next_id events all n ob oa un = sym (append-nil _)
  consume_items-times_of before rule after ((now, item) ∷ items) e next_id events all n ob oa un =
      let k = debounce_key program marshal ids rule in
      let s : Consuming = record {
        debounce_time = e.rule_debounce_time;
        next_id = next_id;
        events = events;
      } in
      let s1 = looped item (e, next_id, events) in
      let e1 : Engine = record e {
        rule_debounce_time = cleanup_debounce_time now s1.debounce_time;
      } in
      let prev = previous k e.rule_debounce_time in
      let own =
        subst
          (λ rules.
            Shows program marshal ids k (answered rule item prev).1
              (times_of program marshal ids k events
                ++ one_if program marshal ids (answered rule item prev).0 item.ts)
              (consume_rules program marshal ids item rules s))
          (sym all) (consume_rules-own before rule after item s n ob oa) in
      consume_items-times_of before rule after items e1 s1.next_id s1.events all n ob oa un.1
      ∙ rw (un.0, own.last, own.activations)
          (append_assoc (times_of program marshal ids k events)
            (one_if program marshal ids (answered rule item prev).0 item.ts)
            (active_times source_of (compiled program marshal ids rule) (answered rule item prev).1
              (activations_of rule (map (λ x. x.1) items))))
      ∙ ap (◌++◌ (times_of program marshal ids k events))
          (sym (active_times-answered rule item (map (λ x. x.1) items) prev))

  abbrev pub FromLive : RuleItem → Type 0
  FromLive item = text_eq item.source rule_source_http ≡ true

  activations_of-FromHttp :
      (rule : EngineRule) (items : List RuleItem)
      → All FromLive items
      → All (FromHttp source_of) (activations_of rule items)
  unfolding activations_of is_http
  activations_of-FromHttp rule [] h = tt
  activations_of-FromHttp rule (item ∷ items) h =
      elim (Bool-cases (takes program marshal ids rule item)) [
        | inr e ↦ rw e (activations_of-FromHttp rule items h.1)
        | inl e ↦ rw e (h.0, activations_of-FromHttp rule items h.1)
      ]

  -- What is published, by any calls of ConsumeNext, for a rule of the engine whose debounce key is
  -- not empty and is no other rule's, with a debounce time, from the live source, is spaced by more
  -- than the debounce time from the activation that the engine remembers on, as long as no cleaning
  -- at the end of a call forgets the time that is remembered for the rule.
  pub consume_items-Spaced :
      (before : List EngineRule) (rule : EngineRule) (after : List EngineRule)
      (items : List (ℤ × RuleItem)) (e : Engine) (next_id : ℕ) (prev : ℤ)
      → let k = debounce_key program marshal ids rule in
        e.rules ≡ before ++ rule ∷ after
        → text_eq k [] ≡ false
        → Others program marshal ids k before
        → Others program marshal ids k after
        → Unforgotten k items (e, next_id, [])
        → All FromLive (map (λ x. x.1) items)
        → pos 0 <ℤ rule.rule.debounce_time
        → previous k e.rule_debounce_time ≡ some prev
        → Spaced rule.rule.debounce_time prev
            (times_of program marshal ids k (consume_items items (e, next_id, [])).2)
  unfolding compiled times_of
  consume_items-Spaced before rule after items e next_id prev all n ob oa un live d last =
      rw (consume_items-times_of before rule after items e next_id [] all n ob oa un, last)
        (active_times-Spaced source_of (compiled program marshal ids rule) prev
          (activations_of rule (map (λ x. x.1) items)) d
          (activations_of-FromHttp rule (map (λ x. x.1) items) live))
