-- ===== src/TimeWindow/Laws.antt =====
-- When pkg/upload/time_window.go accepts a window, and how that changes as time goes on.
use co_scout.Prelude.{◌≡◌, ◌↔◌, Option, none, some, arith}
use co_scout.Prelude.Int.{ℤ, pos, ◌+ℤ◌, ◌≤ℤ◌, ◌<ℤ◌, +ℤ_parts}
use co_scout.TimeWindow.{
  Time, Kind, invalid_time_window, time_window_not_ready, TimeWindowError, validate_time_window_at,
  future_start_tolerance, unwrap,
}

-- The kind of the answer.
abbrev pub kind_of : Option TimeWindowError → Option Kind
kind_of none = none
kind_of (some e) = some (unwrap e)

-- A window is accepted exactly if it does not end before it starts and starts at most the
-- tolerance after now; it is invalid exactly if it ends before it starts, whatever the time; and
-- otherwise it is not ready.
pub validate_time_window_at_lem :
    (start_time end_time : ℤ) (now : Time)
    → let answer = kind_of (validate_time_window_at start_time end_time now) in
      ((answer ≡ none)
        ↔ ((start_time ≤ℤ end_time) × (start_time ≤ℤ now.unix +ℤ pos future_start_tolerance)))
      × ((answer ≡ some invalid_time_window) ↔ (end_time <ℤ start_time))
      × ((answer ≡ some time_window_not_ready)
          ↔ ((start_time ≤ℤ end_time) × (now.unix +ℤ pos future_start_tolerance <ℤ start_time)))
unfolding validate_time_window_at unwrap
validate_time_window_at_lem start_time end_time now = ground arith

-- A window that is accepted is accepted at every later time.
pub validate_time_window_at_later :
    (start_time end_time : ℤ) (now later : Time)
    → now.unix ≤ℤ later.unix
    → validate_time_window_at start_time end_time now ≡ none
    → validate_time_window_at start_time end_time later ≡ none
unfolding validate_time_window_at
validate_time_window_at_later start_time end_time now later le h =
    ground (arith, +ℤ_parts now.unix (pos 300), +ℤ_parts later.unix (pos 300))

-- A window that is not ready is accepted from the tolerance before its start on.
pub validate_time_window_at_ready :
    (start_time end_time : ℤ) (now later : Time)
    → kind_of (validate_time_window_at start_time end_time now) ≡ some time_window_not_ready
    → (validate_time_window_at start_time end_time later ≡ none)
      ↔ (start_time ≤ℤ later.unix +ℤ pos future_start_tolerance)
unfolding validate_time_window_at unwrap
validate_time_window_at_ready start_time end_time now later h = ground arith
