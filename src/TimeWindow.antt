-- ===== src/TimeWindow.antt =====
-- pkg/upload/time_window.go: which upload time windows may be scanned. A `time.Time` is its Unix
-- time in seconds with the nanoseconds of the second, so adding whole seconds leaves those alone.
pub mod Laws
mod Tests
use co_scout.Prelude.{ℕ, Bool, Option, none, some, if◌then◌else◌}
use co_scout.Prelude.Int.{ℤ, pos, ◌+ℤ◌, ltb_ℤ}

pub record Time : Type 0 where
  pub unix : ℤ
  pub nanos : ℕ

-- FutureStartTolerance, five minutes, in seconds.
abbrev pub future_start_tolerance : ℕ
future_start_tolerance = 300

unfoldable pub add_seconds : Time → ℕ → Time
add_seconds t n = record t { unix = t.unix +ℤ pos n }

-- ErrInvalidTimeWindow and ErrTimeWindowNotReady.
pub data Kind : Type 0 where
  invalid_time_window time_window_not_ready : Kind

pub record TimeWindowError : Type 0 where
  pub start_time : ℤ
  pub end_time : ℤ
  pub now : ℤ
  pub kind : Kind

-- No error: the window is accepted.
unfoldable pub validate_time_window_at : ℤ → ℤ → Time → Option TimeWindowError
unfolding add_seconds
validate_time_window_at start_time end_time now =
    if ltb_ℤ end_time start_time
    then some (record {
      start_time = start_time;
      end_time = end_time;
      now = now.unix;
      kind = invalid_time_window;
    })
    else if ltb_ℤ (add_seconds now future_start_tolerance).unix start_time
    then some (record {
      start_time = start_time;
      end_time = end_time;
      now = now.unix;
      kind = time_window_not_ready;
    })
    else none

unfoldable pub unwrap : TimeWindowError → Kind
unwrap e = e.kind
