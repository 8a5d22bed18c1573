-- ===== src/Budget/Protocol.antt =====
-- The ownership protocol of a tracked message in internal/queuedbytes/budget.go: the publisher
-- tracks and finishes it, and subscribers claim, admit and abort in any order in between.
use co_scout.Prelude.{
  ◌≡◌, Bool, true, false, ◌&&◌, not, none, some, ℕ, ◌+◌, Text, text_eq, List, [], ◌∷◌,
  if◌then◌else◌,
}
use co_scout.Budget.{
  Budget, MessageReservation, ReservationState, reservation_open, reservation_claimed,
  reservation_admitted, reservation_aborted, reservation_finished, Call, claims, admits, aborts,
  claim_message, swap_state, run_call,
}

-- The states in which a subscriber owns the bytes.
abbrev pub is_owned : ReservationState → Bool
is_owned reservation_claimed = true
is_owned reservation_admitted = true
is_owned reservation_aborted = true
is_owned reservation_open = false
is_owned reservation_finished = false

abbrev Stored : Budget → Text → MessageReservation → Type 0
Stored b m r = b.reservations m ≡ some r

claimed_from : ReservationState → ReservationState
claimed_from reservation_open = reservation_claimed
claimed_from s = s

settled_from : ReservationState → ReservationState → ReservationState
settled_from to reservation_claimed = to
settled_from to s = s

-- What a call does to the state of the message `m`.
next_state : Text → ReservationState → Call → ReservationState
unfolding claimed_from settled_from
next_state m s (claims k) = if text_eq k m then claimed_from s else s
next_state m s (admits k) = if text_eq k m then settled_from reservation_admitted s else s
next_state m s (aborts k) = if text_eq k m then settled_from reservation_aborted s else s

wins : Text → ReservationState → Call → ℕ
wins m reservation_open (claims k) = if text_eq k m then 1 else 0
wins m s c = 0

-- A claim of `m` that succeeds.
abbrev pub won : Budget → Text → Call → ℕ
won b m (claims k) = if text_eq k m && (claim_message b k).1.1 then 1 else 0
won b m (admits k) = 0
won b m (aborts k) = 0

-- How many claims of the message `m` succeed in a run.
pub claims_won : Budget → Text → List Call → ℕ
claims_won b m [] = 0
claims_won b m (c ∷ cs) = won b m c + claims_won (run_call b c) m cs

-- What a run does to the state `s` of a message, if it ends in `t` with `n` claims won.
record Ran (s t : ReservationState) (n : ℕ) : Type 0 where
  counted : n ≡ (if is_owned t && not (is_owned s) then 1 else 0)
  finished_kept : s ≡ reservation_finished → t ≡ reservation_finished
  open_to : t ≡ reservation_finished → s ≡ reservation_finished
  owned_kept : is_owned s ≡ true → is_owned t ≡ true

-- What the compare-and-swap of `FinishMessage` leaves.
abbrev pub after_swap : Budget → Text → Budget
after_swap b m = elim (b.reservations m) [
  | none ↦ b
  | some r ↦ (swap_state b m r reservation_open reservation_finished).0
]

swapped_from : ReservationState → ReservationState
swapped_from reservation_open = reservation_finished
swapped_from s = s
