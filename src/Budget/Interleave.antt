-- ===== src/Budget/Interleave.antt =====
-- Any number of goroutines in the loops of `TryReserve` and `Release` on one budget
-- (internal/queuedbytes/budget.go): a goroutine's load and its compare-and-swap are separate steps.
use co_scout.Prelude.{
  ◌≡◌, Bool, true, false, ◌||◌, if◌then◌else◌, arith, ℕ, zero, suc, List, [], ◌∷◌, get_elem?, set,
  All, All-set, All-get_elem?, Option-cases, inl, inr, refl, none, some, ◌==◌,
}
use co_scout.Prelude.Int.{ℤ, pos, negsuc, ◌+ℤ◌, ◌-ℤ◌, ◌≤ℤ◌, ltb_ℤ, int_laws, parts_of_eq}
use co_scout.Budget.{Budget, try_reserve, release, is_zero}

pub data Operation : Type 0 where
  reserves releases : ℤ → Operation

-- Where a goroutine stands: before its guards, before the load, between the load (of the value
-- kept here) and the compare-and-swap, or behind the return of a result.
pub data Goroutine : Type 0 where
  starting loading : Operation → Goroutine
  swapping : Operation → ℤ → Goroutine
  returned : Operation → Bool → Goroutine

eqb_ℤ : ℤ → ℤ → Bool
eqb_ℤ (pos a) (pos b) = a == b
eqb_ℤ (negsuc a) (negsuc b) = a == b
eqb_ℤ (pos a) (negsuc b) = false
eqb_ℤ (negsuc a) (pos b) = false

eqb_ℤ_refl : (a : ℤ) → eqb_ℤ a a ≡ true
unfolding eqb_ℤ
eqb_ℤ_refl (pos a) = ground arith
eqb_ℤ_refl (negsuc a) = ground arith

-- One atomic step of a goroutine: the counter after it, and where the goroutine then stands.
unfoldable pub goroutine_step : ℤ → ℤ → Goroutine → ℤ × Goroutine
unfolding eqb_ℤ is_zero
goroutine_step limit queued (starting (reserves size)) =
    if ltb_ℤ size (pos 0) || ltb_ℤ limit size
    then (queued, returned (reserves size) false)
    else (queued, loading (reserves size))
goroutine_step limit queued (starting (releases size)) =
    if ltb_ℤ size (pos 0)
    then (queued, returned (releases size) false)
    else if is_zero size
    then (queued, returned (releases size) true)
    else (queued, loading (releases size))
goroutine_step limit queued (loading (reserves size)) =
    if ltb_ℤ (limit -ℤ size) queued
    then (queued, returned (reserves size) false)
    else (queued, swapping (reserves size) queued)
goroutine_step limit queued (loading (releases size)) =
    if ltb_ℤ queued size
    then (queued, returned (releases size) false)
    else (queued, swapping (releases size) queued)
goroutine_step limit queued (swapping (reserves size) loaded) =
    if eqb_ℤ queued loaded
    then (loaded +ℤ size, returned (reserves size) true)
    else (queued, loading (reserves size))
goroutine_step limit queued (swapping (releases size) loaded) =
    if eqb_ℤ queued loaded
    then (loaded -ℤ size, returned (releases size) true)
    else (queued, loading (releases size))
goroutine_step limit queued (returned op ok) = (queued, returned op ok)

pub record System : Type 0 where
  pub limit : ℤ
  pub queued : ℤ
  pub goroutines : List Goroutine

-- The scheduler picks the goroutine number `i`; a number with no goroutine changes nothing.
unfoldable pub system_step : System → ℕ → System
unfolding goroutine_step
system_step s i = elim (get_elem? s.goroutines i) [
  | none ↦ s
  | some g ↦
      let (queued', g') = goroutine_step s.limit s.queued g in
      record s { queued = queued'; goroutines = set s.goroutines i g' }
]

unfoldable pub run_schedule : System → List ℕ → System
run_schedule s [] = s
run_schedule s (i ∷ is) = run_schedule (system_step s i) is

-- The bytes that a goroutine's successful call added.
abbrev pub gained : Goroutine → ℤ
gained (returned (reserves size) true) = size
gained (returned (releases size) true) = pos 0 -ℤ size
gained _ = pos 0

pub balance : List Goroutine → ℤ
balance [] = pos 0
balance (g ∷ gs) = gained g +ℤ balance gs

-- A goroutine at its compare-and-swap has checked its size and the value that it loaded.
abbrev pub Checked : ℤ → Goroutine → Type 0
Checked limit (starting op) = Unit {0}
Checked limit (loading (reserves size)) = (pos 0 ≤ℤ size) × (size ≤ℤ limit)
Checked limit (loading (releases size)) = pos 0 ≤ℤ size
Checked limit (swapping (reserves size) loaded) =
    (pos 0 ≤ℤ size) × (size ≤ℤ limit) × (loaded +ℤ size ≤ℤ limit)
Checked limit (swapping (releases size) loaded) = (pos 0 ≤ℤ size) × (size ≤ℤ loaded)
Checked limit (returned op ok) = Unit {0}

pub record IsSafe (s : System) : Type 0 where
  pub nonneg : pos 0 ≤ℤ s.queued
  pub below : s.queued ≤ℤ s.limit
  pub checked : All (Checked s.limit) s.goroutines

record StepLaw (limit queued : ℤ) (g : Goroutine) (r : ℤ × Goroutine) : Type 0 where
  nonneg : pos 0 ≤ℤ r.0
  below : r.0 ≤ℤ limit
  checked : Checked limit r.1
  accounted : r.0 +ℤ gained g ≡ queued +ℤ gained r.1

goroutine_step_lem :
    (limit queued : ℤ) (g : Goroutine)
    → pos 0 ≤ℤ queued
    → queued ≤ℤ limit
    → Checked limit g
    → StepLaw limit queued g (goroutine_step limit queued g)
unfolding goroutine_step ◌+ℤ◌ ◌-ℤ◌
goroutine_step_lem limit queued (starting (reserves size)) lo hi h = ground arith
goroutine_step_lem limit queued (starting (releases size)) lo hi h = ground arith
goroutine_step_lem limit queued (loading (reserves size)) lo hi h = ground arith
goroutine_step_lem limit queued (loading (releases size)) lo hi h = ground arith
goroutine_step_lem limit queued (swapping (reserves size) loaded) lo hi h = ground arith
goroutine_step_lem limit queued (swapping (releases size) loaded) lo hi h = ground arith
goroutine_step_lem limit queued (returned op ok) lo hi h = ground arith

balance-set :
    (gs : List Goroutine) (i : ℕ) (g g' : Goroutine)
    → get_elem? gs i ≡ some g
    → balance (set gs i g') +ℤ gained g ≡ balance gs +ℤ gained g'
unfolding balance
balance-set [] i g g' h = cc
balance-set (x ∷ gs) zero g g' h = let e : x ≡ g = ground arith in rw (← e) (omega int_laws)
balance-set (x ∷ gs) (suc i) g g' h = omega (int_laws, parts_of_eq (balance-set gs i g g' h))

system_step-IsSafe : (s : System) (i : ℕ) → IsSafe s → IsSafe (system_step s i)
unfolding system_step
system_step-IsSafe s i v = elim (Option-cases (get_elem? s.goroutines i)) [
  | inl e ↦ rw (e, system_step) v
  | inr (g, e) ↦
      let law =
        goroutine_step_lem s.limit s.queued g v.nonneg v.below
          (All-get_elem? (Checked s.limit) s.goroutines i g v.checked e) in
      rw (e, system_step)
        (record {
          nonneg = law.nonneg;
          below = law.below;
          checked = All-set (Checked s.limit) s.goroutines i _ v.checked law.checked;
        })
]

-- From a safe system, whatever the scheduler does, the system stays safe: the counter is between 0
-- and the limit, and no goroutine is about to take it out of there.
pub run_schedule-IsSafe : (s : System) (is : List ℕ) → IsSafe s → IsSafe (run_schedule s is)
unfolding run_schedule
run_schedule-IsSafe s [] v = v
run_schedule-IsSafe s (i ∷ is) v =
    run_schedule-IsSafe (system_step s i) is (system_step-IsSafe s i v)

system_step-balance :
    (s : System) (i : ℕ)
    → IsSafe s
    → (system_step s i).queued +ℤ balance s.goroutines
      ≡ s.queued +ℤ balance (system_step s i).goroutines
unfolding system_step
system_step-balance s i v = elim (Option-cases (get_elem? s.goroutines i)) [
  | inl e ↦ rw (e, system_step) refl
  | inr (g, e) ↦
      let law =
        goroutine_step_lem s.limit s.queued g v.nonneg v.below
          (All-get_elem? (Checked s.limit) s.goroutines i g v.checked e) in
      rw (e, system_step)
        (omega (
          int_laws,
          parts_of_eq law.accounted,
          parts_of_eq (balance-set s.goroutines i g (goroutine_step s.limit s.queued g).1 e),
        ))
]

-- From a safe system, whatever the scheduler does, the counter changes by exactly the sizes of the
-- calls that returned true in between: plus those of `TryReserve`, minus those of `Release`.
pub run_schedule-balance :
    (s : System) (is : List ℕ)
    → IsSafe s
    → (run_schedule s is).queued +ℤ balance s.goroutines
      ≡ s.queued +ℤ balance (run_schedule s is).goroutines
unfolding run_schedule
run_schedule-balance s [] v = refl
run_schedule-balance s (i ∷ is) v = omega (
  int_laws,
  parts_of_eq (run_schedule-balance (system_step s i) is (system_step-IsSafe s i v)),
  parts_of_eq (system_step-balance s i v),
)

-- A goroutine that calls `TryReserve` and runs alone is done after three steps, with the counter
-- and the answer of the sequential definition.
pub try_reserve_alone :
    (b : Budget) (size : ℤ)
    → let r = try_reserve b size in
      run_schedule
        (record { limit = b.limit; queued = b.queued; goroutines = starting (reserves size) ∷ [] })
        (0 ∷ 0 ∷ 0 ∷ [])
      ≡ record {
        limit = b.limit;
        queued = r.0.queued;
        goroutines = returned (reserves size) r.1 ∷ [];
      }
unfolding run_schedule system_step try_reserve
try_reserve_alone b size = ground (arith, eqb_ℤ_refl b.queued)

-- A goroutine that calls `Release` and runs alone is done after three steps, with the counter and
-- the answer of the sequential definition.
pub release_alone :
    (b : Budget) (size : ℤ)
    → let r = release b size in
      run_schedule
        (record { limit = b.limit; queued = b.queued; goroutines = starting (releases size) ∷ [] })
        (0 ∷ 0 ∷ 0 ∷ [])
      ≡ record {
        limit = b.limit;
        queued = r.0.queued;
        goroutines = returned (releases size) r.1 ∷ [];
      }
unfolding run_schedule system_step release
release_alone b size = ground (arith, eqb_ℤ_refl b.queued)
