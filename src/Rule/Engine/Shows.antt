-- ===== src/Rule/Engine/Shows.antt =====
-- What the state of the engine's loop shows of the rules with a debounce key (ConsumeNext of
-- internal/mod/rule/engine.go).
use co_scout.Prelude.{
  ℕ, ◌≡◌, refl, ap, ◌∙◌, sym, Bool, true, false, List, [], ◌∷◌, ◌++◌, append-nil, Option,
  if◌then◌else◌, Text, text_eq, map, lookup-insert, arith, Bool-cases, inl, inr, All,
}
use co_scout.Prelude.Int.{ℤ}
use co_scout.Rule.Validate.{Action}
use co_scout.Rule.Debounce.{Evaluated}
use co_scout.Rule.Engine.{EngineRule}
use co_scout.Rule.Engine.Consume.{
  RuleItem, Activation, Event, ran, published, Debounces, Consuming, previous, remember, fired,
  debounce_key, evaluation, settle, takes, consume_rule, consume_rules,
}

pick : Text → Text → Option ℤ → Option ℤ → Option ℤ
pick j k a b = if text_eq j k then a else b

previous-remember :
    (j k : Text) (time : Option ℤ) (m : Debounces)
    → text_eq k [] ≡ false
    → previous k (remember j time m) ≡ (if text_eq j k then time else previous k m)
unfolding previous remember text_eq
previous-remember j [] time m h = cc
previous-remember [] (c ∷ cs) time m h = refl
previous-remember (b ∷ bs) (c ∷ cs) time m h =
    ground (arith, lookup-insert (b ∷ bs) (c ∷ cs) time m)

module _ (program : Text → Activation → Evaluated) (marshal : List (Text × Text) → Option Text)
    (ids : ℕ → Text) where
  -- The times of the items for which something of the rules with a key was published.
  unfoldable pub times_of : Text → List Event → List ℤ
  times_of k [] = []
  times_of k (ran id rule item a ∷ events) = times_of k events
  times_of k (published id rule item ∷ events) =
      let rest = times_of k events in
      if text_eq (debounce_key program marshal ids rule) k then item.ts ∷ rest else rest

  pub times_of-append :
      (k : Text) (xs ys : List Event) → times_of k (xs ++ ys) ≡ times_of k xs ++ times_of k ys
  unfolding times_of
  times_of-append k [] ys = refl
  times_of-append k (ran id rule item a ∷ xs) ys = times_of-append k xs ys
  times_of-append k (published id rule item ∷ xs) ys = ground (arith, times_of-append k xs ys)

  pub times_of-ran :
      (k id : Text) (rule : EngineRule) (item : RuleItem) (actions : List Action) (ys : List Event)
      → times_of k (map (ran id rule item) actions ++ ys) ≡ times_of k ys
  unfolding times_of
  times_of-ran k id rule item [] ys = refl
  times_of-ran k id rule item (a ∷ actions) ys = times_of-ran k id rule item actions ys

  unfoldable pub one_if : Bool → ℤ → List ℤ
  one_if true t = t ∷ []
  one_if false t = []

  pub times_of-fired :
      (k id : Text) (rule : EngineRule) (item : RuleItem)
      → times_of k (fired id rule item)
        ≡ one_if (text_eq (debounce_key program marshal ids rule) k) item.ts
  unfolding fired times_of one_if
  times_of-fired k id rule item =
      times_of-ran k id rule item rule.rule.actions (published id rule item ∷ []) ∙ ground arith

  -- What the engine's state says of the rules with a key.
  pub record Shows (k : Text) (prev : Option ℤ) (times : List ℤ) (s : Consuming) : Type 0 where
    pub last : previous k s.debounce_time ≡ prev
    pub activations : times_of k s.events ≡ times

  pub settle-Shows :
      (rule : EngineRule) (item : RuleItem) (k : Text) (active : Bool) (time : Option ℤ)
      (s : Consuming)
      → text_eq k [] ≡ false
      → text_eq (debounce_key program marshal ids rule) k ≡ true
      → Shows k time
          (times_of k s.events ++ one_if active item.ts)
          (settle program marshal ids rule item (active, time) s)
  unfolding settle one_if
  settle-Shows rule item k true time s n same = record {
    last =
        previous-remember (debounce_key program marshal ids rule) k time s.debounce_time n
        ∙ rw same refl;
    activations =
        times_of-append k s.events (fired (ids s.next_id) rule item)
        ∙ ap (◌++◌ (times_of k s.events))
            (times_of-fired k (ids s.next_id) rule item ∙ rw same refl);
  }
  settle-Shows rule item k false time s n same = record {
    last =
        previous-remember (debounce_key program marshal ids rule) k time s.debounce_time n
        ∙ rw same refl;
    activations = sym (append-nil (times_of k s.events));
  }

  pub settle-other :
      (rule : EngineRule) (item : RuleItem) (k : Text) (active : Bool) (time : Option ℤ)
      (s : Consuming)
      → text_eq k [] ≡ false
      → text_eq (debounce_key program marshal ids rule) k ≡ false
      → Shows k
          (previous k s.debounce_time)
          (times_of k s.events)
          (settle program marshal ids rule item (active, time) s)
  unfolding settle one_if
  settle-other rule item k true time s n other = record {
    last =
        previous-remember (debounce_key program marshal ids rule) k time s.debounce_time n
        ∙ rw other refl;
    activations =
        times_of-append k s.events (fired (ids s.next_id) rule item)
        ∙ ap (◌++◌ (times_of k s.events))
            (times_of-fired k (ids s.next_id) rule item ∙ rw other refl)
        ∙ append-nil (times_of k s.events);
  }
  settle-other rule item k false time s n other = record {
    last =
        previous-remember (debounce_key program marshal ids rule) k time s.debounce_time n
        ∙ rw other refl;
    activations = refl;
  }

  pub consume_rule-other :
      (rule : EngineRule) (item : RuleItem) (k : Text) (s : Consuming)
      → text_eq k [] ≡ false
      → text_eq (debounce_key program marshal ids rule) k ≡ false
      → Shows k
          (previous k s.debounce_time)
          (times_of k s.events)
          (consume_rule program marshal ids item rule s)
  unfolding consume_rule
  consume_rule-other rule item k s n other =
      elim (Bool-cases (takes program marshal ids rule item)) [
        | inr e ↦ rw e (record { last = refl; activations = refl })
        | inl e ↦
            let answer =
              evaluation program marshal ids rule item
                (previous (debounce_key program marshal ids rule) s.debounce_time) in
            rw e (settle-other rule item k answer.0 answer.1 s n other)
      ]

  abbrev pub Others : Text → List EngineRule → Type 0
  Others k rules =
      All (λ (r : EngineRule). text_eq (debounce_key program marshal ids r) k ≡ false) rules

  pub consume_rules-other :
      (rules : List EngineRule) (item : RuleItem) (k : Text) (s : Consuming)
      → text_eq k [] ≡ false
      → Others k rules
      → Shows k
          (previous k s.debounce_time)
          (times_of k s.events)
          (consume_rules program marshal ids item rules s)
  unfolding consume_rules
  consume_rules-other [] item k s n others = record { last = refl; activations = refl }
  consume_rules-other (rule ∷ rules) item k s n others =
      let one = consume_rule-other rule item k s n others.0 in
      let rest =
        consume_rules-other rules item k (consume_rule program marshal ids item rule s) n
          others.1 in
      record { last = rest.last ∙ one.last; activations = rest.activations ∙ one.activations }

  pub consume_rules-append :
      (xs ys : List EngineRule) (item : RuleItem) (s : Consuming)
      → consume_rules program marshal ids item (xs ++ ys) s
        ≡ consume_rules program marshal ids item ys (consume_rules program marshal ids item xs s)
  unfolding consume_rules
  consume_rules-append [] ys item s = refl
  consume_rules-append (x ∷ xs) ys item s =
      consume_rules-append xs ys item (consume_rule program marshal ids item x s)
