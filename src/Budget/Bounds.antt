-- ===== src/Budget/Bounds.antt =====
-- The counter of internal/queuedbytes/budget.go within its limit.
use co_scout.Prelude.{◌≡◌, true, false, arith, ◌↔◌}
use co_scout.Prelude.Int.{ℤ, pos, ◌+ℤ◌, ◌-ℤ◌, ◌≤ℤ◌, +ℤ_parts, -ℤ_parts, eq_of_parts}
use co_scout.Budget.{Budget, try_reserve, release}

pub record IsWithin (b : Budget) : Type 0 where
  pub nonneg : pos 0 ≤ℤ b.queued
  pub below : b.queued ≤ℤ b.limit

pub try_reserve-IsWithin : (b : Budget) (size : ℤ) → IsWithin b → IsWithin (try_reserve b size).0
unfolding try_reserve
try_reserve-IsWithin b size v = ground (arith, +ℤ_parts b.queued size, -ℤ_parts b.limit size)

pub release-IsWithin : (b : Budget) (size : ℤ) → IsWithin b → IsWithin (release b size).0
unfolding release
release-IsWithin b size v = ground (arith, -ℤ_parts b.queued size)

-- A reservation succeeds exactly when its size is not negative and the sum stays within the limit;
-- then the counter grows by the size, and otherwise the budget is unchanged.
pub try_reserve_lem :
    (b : Budget) (size : ℤ)
    → IsWithin b
    → (((try_reserve b size).1 ≡ true) ↔ ((pos 0 ≤ℤ size) × (b.queued +ℤ size ≤ℤ b.limit)))
      × (((try_reserve b size).1 ≡ true)
          → (try_reserve b size).0 ≡ record b { queued = b.queued +ℤ size })
      × (((try_reserve b size).1 ≡ false) → (try_reserve b size).0 ≡ b)
unfolding try_reserve
try_reserve_lem b size v = ground (arith, +ℤ_parts b.queued size, -ℤ_parts b.limit size)

-- In a budget within its bounds, releasing what was reserved succeeds and leaves the budget as it
-- was before the reservation.
pub release-try_reserve :
    (b : Budget) (size : ℤ)
    → IsWithin b
    → (try_reserve b size).1 ≡ true
    → ((release (try_reserve b size).0 size).0 ≡ b)
      × ((release (try_reserve b size).0 size).1 ≡ true)
unfolding try_reserve release
release-try_reserve b size v h = ground (
  arith,
  +ℤ_parts b.queued size,
  -ℤ_parts b.limit size,
  -ℤ_parts (b.queued +ℤ size) size,
  eq_of_parts (b.queued +ℤ size -ℤ size) b.queued,
)
