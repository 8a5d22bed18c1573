-- ===== src/Slave/Registry/Codes.antt =====
-- TaskResponsesTimeWindowErrorCode of internal/master/types.go. The map of responses is the list of
-- its values, in the order of one iteration over it.
use co_scout.Prelude.{
  ◌≡◌, refl, Bool, false, not, ◌&&◌, ◌||◌, List, [], ◌∷◌, Option, none, some, Text, text_eq, codes,
  arith, if◌then◌else◌,
}

pub record TaskResponse : Type 0 where
  pub task_id : Text
  pub success : Bool
  pub error_code : Text
  pub error : Text

abbrev pub invalid_time_window : Text
invalid_time_window = codes "INVALID_TIME_WINDOW"

abbrev pub time_window_not_ready : Text
time_window_not_ready = codes "TIME_WINDOW_NOT_READY"

-- The loop with the result so far. A response may be nil.
responses_loop : Text → List (Option TaskResponse) → Text
responses_loop result [] = result
responses_loop result (none ∷ rs) = responses_loop result rs
responses_loop result (some r ∷ rs) =
    let rest =
      responses_loop
        (if not r.success && text_eq r.error_code time_window_not_ready
          then time_window_not_ready
          else result)
        rs in
    if not r.success && text_eq r.error_code invalid_time_window then invalid_time_window else rest

unfoldable pub task_responses_time_window_error_code : List (Option TaskResponse) → Text
unfolding responses_loop
task_responses_time_window_error_code responses = responses_loop [] responses

-- Whether some slave failed with the code.
abbrev pub reports : Text → List (Option TaskResponse) → Bool
reports c [] = false
reports c (none ∷ rs) = reports c rs
reports c (some r ∷ rs) = not r.success && text_eq r.error_code c || reports c rs

responses_loop_lem :
    (result : Text) (rs : List (Option TaskResponse))
    → responses_loop result rs ≡ (
        if reports invalid_time_window rs
        then invalid_time_window
        else if reports time_window_not_ready rs
        then time_window_not_ready
        else result)
unfolding responses_loop
responses_loop_lem result [] = refl
responses_loop_lem result (none ∷ rs) = responses_loop_lem result rs
responses_loop_lem result (some r ∷ rs) =
    let late = not r.success && text_eq r.error_code time_window_not_ready in
    ground (arith, responses_loop_lem (if late then time_window_not_ready else result) rs)

-- The answer says whether some slave reported an invalid window, else whether some reported one
-- that is not ready, else nothing.
pub task_responses_time_window_error_code_lem :
    (rs : List (Option TaskResponse))
    → task_responses_time_window_error_code rs ≡ (
        if reports invalid_time_window rs
        then invalid_time_window
        else if reports time_window_not_ready rs
        then time_window_not_ready
        else [])
unfolding task_responses_time_window_error_code
task_responses_time_window_error_code_lem rs = responses_loop_lem [] rs
