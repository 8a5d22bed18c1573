-- ===== src/TimeWindow/Tests.antt =====
-- pkg/upload/time_window.go at concrete times.
use co_scout.Prelude.{◌≡◌, refl, none, some}
use co_scout.Prelude.Int.{pos, ◌+ℤ◌}
use co_scout.TimeWindow.{
  Time, invalid_time_window, time_window_not_ready, validate_time_window_at, future_start_tolerance,
}
use co_scout.TimeWindow.Laws.{kind_of}

abbrev noon : Time
noon = record { unix = pos 43200; nanos = 5 }

abbrev evening : Time
evening = record { unix = pos 64800; nanos = 0 }

accepted_at_noon : validate_time_window_at (pos 43500) (pos 99999) noon ≡ none
unfolding validate_time_window_at ◌+ℤ◌
accepted_at_noon = refl

not_ready_at_noon :
    kind_of (validate_time_window_at (pos 43501) (pos 99999) noon) ≡ some time_window_not_ready
unfolding validate_time_window_at ◌+ℤ◌ co_scout.TimeWindow.unwrap
not_ready_at_noon = refl
