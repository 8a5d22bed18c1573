-- ===== src/Budget/Tests.antt =====
-- Runs of internal/queuedbytes/budget.go at concrete inputs, and its theorems there.
use co_scout.Prelude.{◌≡◌, refl, true, false, none, some, [], ◌∷◌, codes, arith, Text}
use co_scout.Prelude.Int.{pos, negsuc, ◌+ℤ◌, ◌-ℤ◌, ◌≤ℤ◌}
use co_scout.Budget.{Budget, try_reserve}
use co_scout.Budget.Bounds.{IsWithin}
use co_scout.Budget.Interleave.{
  System, run_schedule, system_step, IsSafe, balance, reserves, starting, returned,
  run_schedule-IsSafe, run_schedule-balance,
}
use co_scout.Budget.Body.{read_all, reserve_body, counting, read_all_bounded}

abbrev half_full : Budget
half_full = record { limit = pos 10; queued = pos 4; reservations = λ _. none }

abbrev contended : System
contended = record {
  limit = pos 10;
  queued = pos 4;
  goroutines = starting (reserves (pos 6)) ∷ starting (reserves (pos 5)) ∷ [];
}

-- Both load 4; the second swaps first, so the first loads again and is refused.
refused_late :
    (run_schedule contended (0 ∷ 1 ∷ 0 ∷ 1 ∷ 1 ∷ 0 ∷ 0 ∷ [])).goroutines
    ≡ returned (reserves (pos 6)) false ∷ returned (reserves (pos 5)) true ∷ []
unfolding run_schedule system_step ◌+ℤ◌ ◌-ℤ◌
refused_late = refl

half_full-IsWithin : IsWithin half_full
half_full-IsWithin = record { nonneg = omega arith; below = omega arith }

contended-IsSafe : IsSafe contended
contended-IsSafe = record { nonneg = omega arith; below = omega arith; checked = (tt, (tt, tt)) }

reserved_six : (try_reserve half_full (pos 6)).1 ≡ true
unfolding try_reserve ◌-ℤ◌
reserved_six = refl

run_schedule-IsSafe_example : IsSafe (run_schedule contended (0 ∷ 1 ∷ 1 ∷ 0 ∷ []))
run_schedule-IsSafe_example = run_schedule-IsSafe contended (0 ∷ 1 ∷ 1 ∷ 0 ∷ []) contended-IsSafe

run_schedule-balance_example :
    (run_schedule contended (0 ∷ 0 ∷ 0 ∷ [])).queued +ℤ balance contended.goroutines
    ≡ contended.queued +ℤ balance (run_schedule contended (0 ∷ 0 ∷ 0 ∷ [])).goroutines
run_schedule-balance_example = run_schedule-balance contended (0 ∷ 0 ∷ 0 ∷ []) contended-IsSafe

abbrev message : Text
message = codes "m-1"

unknown_length : (reserve_body half_full (negsuc 0)).1 ≡ some (counting (pos 0) false)
unfolding reserve_body
unknown_length = refl

read_all_bounded_example :
    let r = read_all half_full (counting (pos 0) false) ((2, none) ∷ (9, none) ∷ []) in
    (r.0.0 ≡ record half_full { queued = half_full.queued +ℤ pos r.1 })
    × (half_full.queued +ℤ pos r.1 ≤ℤ half_full.limit)
read_all_bounded_example =
    read_all_bounded half_full ((2, none) ∷ (9, none) ∷ []) half_full-IsWithin
