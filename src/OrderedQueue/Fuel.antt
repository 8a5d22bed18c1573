-- ===== src/OrderedQueue/Fuel.antt =====
-- The loops of container/heap end within the fuel that internal/log_reader/ordered_queue.go's heap
-- gives them: more fuel changes nothing.
use co_scout.Prelude.{
  ℕ, zero, suc, ◌+◌, ◌-◌, ◌*◌, ◌/◌, ◌≤◌, ◌<◌, ◌≡◌, refl, ◌&&◌, List, if◌then◌else◌, Bool-cases, inl,
  inr, ◌==◌, ltb, arith,
}
use co_scout.OrderedQueue.{Entry, less, swap, up, down}

-- From an index below the fuel, `up` has fuel enough.
up_enough : (fuel : ℕ) (h : List Entry) (j : ℕ) → j < fuel → up (suc fuel) h j ≡ up fuel h j
unfolding up
up_enough zero h j b = absurd (omega arith)
up_enough (suc fuel) h j b =
    let parent = (j - 1) / 2 in
    elim (Bool-cases (parent == j)) [
      | inl e ↦ rw e refl
      | inr e ↦ rw (up_enough fuel (swap h parent j) parent (ground arith)) refl
    ]

-- With fuel for the indices from `i` to `n`, `down` has fuel enough.
down_enough :
    (fuel : ℕ) (h : List Entry) (i n : ℕ) → n ≤ i + fuel → down (suc fuel) h i n ≡ down fuel h i n
unfolding down
down_enough zero h i n b = ground arith
down_enough (suc fuel) h i n b =
    let left = 2 * i + 1 in
    let child = if ltb (left + 1) n && less h (left + 1) left then left + 1 else left in
    let lower : left ≤ child = ground arith in
    rw (down_enough fuel (swap h i child) child n (omega arith)) refl
