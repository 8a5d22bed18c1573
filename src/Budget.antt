-- ===== src/Budget.antt =====
-- internal/queuedbytes/budget.go: the byte budget of the HTTP rule-message ingress. An `int64` is
-- an integer. The counter's two methods are here as one call without interference, and in
-- Budget/Interleave as the loads and compare-and-swaps of any number of goroutines.
pub mod Bounds
pub mod Interleave
pub mod Protocol
pub mod Body
mod Tests
use co_scout.Prelude.{
  Bool, true, false, ◌||◌, ◌&&◌, not, Option, none, some, ◌==◌, if◌then◌else◌, ℕ, Text, Map, put,
  is_some, List, [], ◌∷◌,
}
use co_scout.Prelude.Int.{ℤ, pos, negsuc, ◌+ℤ◌, ◌-ℤ◌, ltb_ℤ}

-- The constants `reservationOpen` to `reservationFinished`, in order.
pub data ReservationState : Type 0 where
  reservation_open reservation_claimed reservation_admitted : ReservationState
  reservation_aborted reservation_finished : ReservationState

pub record MessageReservation : Type 0 where
  pub size : ℤ
  pub state : ReservationState

pub record Budget : Type 0 where
  pub limit : ℤ
  pub queued : ℤ
  pub reservations : Map MessageReservation

unfoldable pub new_budget : ℤ → Budget
new_budget limit = record { limit = limit; queued = pos 0; reservations = λ _. none }

-- A call returns the budget after it and Go's result.
unfoldable pub try_reserve : Budget → ℤ → Budget × Bool
try_reserve b size =
    if ltb_ℤ size (pos 0) || ltb_ℤ b.limit size
    then (b, false)
    else if ltb_ℤ (b.limit -ℤ size) b.queued
    then (b, false)
    else (record b { queued = b.queued +ℤ size }, true)

is_zero : ℤ → Bool
is_zero (pos n) = n == 0
is_zero (negsuc n) = false

unfoldable pub release : Budget → ℤ → Budget × Bool
unfolding is_zero
release b size =
    if ltb_ℤ size (pos 0)
    then (b, false)
    else if is_zero size
    then (b, true)
    else if ltb_ℤ b.queued size
    then (b, false)
    else (record b { queued = b.queued -ℤ size }, true)

unfoldable pub track_message : Budget → Text → ℤ → Budget × Bool
track_message b message_id size =
    if is_empty message_id || not (ltb_ℤ (pos 0) size)
    then (b, false)
    else if is_some (b.reservations message_id)
    then (b, false)
    else (record b { reservations = put b.reservations message_id (some fresh) }, true)
  where
    is_empty : Text → Bool
    is_empty [] = true
    is_empty (c ∷ cs) = false

    fresh : MessageReservation
    fresh = record { size = size; state = reservation_open }

state_eq : ReservationState → ReservationState → Bool
state_eq reservation_open reservation_open = true
state_eq reservation_claimed reservation_claimed = true
state_eq reservation_admitted reservation_admitted = true
state_eq reservation_aborted reservation_aborted = true
state_eq reservation_finished reservation_finished = true
state_eq _ _ = false

-- `reservation.state.CompareAndSwap(from, to)` on the reservation `r` stored under `message_id`.
unfoldable pub swap_state :
    Budget → Text → MessageReservation → ReservationState → ReservationState → Budget × Bool
unfolding state_eq
swap_state b message_id r from to =
    if state_eq r.state from
    then (
      record b { reservations = put b.reservations message_id (some (record r { state = to })) },
      true,
    )
    else (b, false)

unfoldable pub claim_message : Budget → Text → Budget × (ℤ × Bool)
unfolding swap_state
claim_message b message_id = elim (b.reservations message_id) [
  | none ↦ (b, (pos 0, false))
  | some r ↦
      let (b', swapped) = swap_state b message_id r reservation_open reservation_claimed in
      if swapped then (b', (r.size, true)) else (b', (pos 0, false))
]

unfoldable pub transition_message :
    Budget → Text → ReservationState → ReservationState → Budget × Bool
unfolding swap_state
transition_message b message_id from to = elim (b.reservations message_id) [
  | none ↦ (b, false)
  | some r ↦ swap_state b message_id r from to
]

unfoldable pub admit_message : Budget → Text → Budget × Bool
unfolding transition_message
admit_message b message_id =
    transition_message b message_id reservation_claimed reservation_admitted

unfoldable pub abort_message : Budget → Text → Budget × Bool
unfolding transition_message
abort_message b message_id = transition_message b message_id reservation_claimed reservation_aborted

-- The subscriber's side: what other goroutines may do while the publisher is in `FinishMessage`.
pub data Call : Type 0 where
  claims admits aborts : Text → Call

unfoldable pub run_call : Budget → Call → Budget
unfolding claim_message admit_message abort_message
run_call b (claims m) = (claim_message b m).0
run_call b (admits m) = (admit_message b m).0
run_call b (aborts m) = (abort_message b m).0

unfoldable pub run_calls : Budget → List Call → Budget
unfolding run_call
run_calls b [] = b
run_calls b (c ∷ cs) = run_calls (run_call b c) cs

-- The pointer's state: that of the stored reservation, which only `FinishMessage` deletes.
state_of : Budget → Text → MessageReservation → ReservationState
state_of b message_id r = elim (b.reservations message_id) [ none ↦ r.state | some r' ↦ r'.state ]

-- `FinishMessage`, with the calls that run between its compare-and-swap and its load of the state.
-- The result is Go's (admitted, transferred).
unfoldable pub finish_message : Budget → Text → List Call → Budget × (Bool × Bool)
unfolding swap_state run_calls state_of
finish_message b message_id between = elim (b.reservations message_id) [
  | none ↦ (b, (false, false))
  | some r ↦
      let (b1, publisher_owns) = swap_state b message_id r reservation_open reservation_finished in
      let b2 = run_calls b1 between in
      let state = state_of b2 message_id r in
      let b3 : Budget = record b2 { reservations = put b2.reservations message_id none } in
      if publisher_owns then (b3, (false, false)) else (
        b3,
        (
          state_eq state reservation_admitted,
          state_eq state reservation_claimed
              || state_eq state reservation_admitted
              || state_eq state reservation_aborted,
        ),
      )
]
