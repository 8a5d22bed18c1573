-- ===== src/DedupQueue/Invariant.antt =====
-- What the operations of pkg/upload/queue.go keep, and when a push succeeds.
use co_scout.Prelude.{
  if◌then◌else◌, ◌≡◌, ◌≢◌, ◌↔◌, ◌≤◌, ◌<◌, true, false, List, [], ◌∷◌, ◌++◌, arith, length,
  length-append, Text, text_eq_iff, some,
}
use co_scout.Prelude.Int.{ℤ}
use co_scout.DedupQueue.{
  DedupQueue, new_dedup_queue, contains, push, pop, Operation, pushes, pops, clears, step, run,
}

-- No element stands twice, and none is the empty text.
abbrev pub Distinct : List Text → Type 0
Distinct [] = Unit {0}
Distinct (x ∷ xs) = (x ≢ []) × (contains xs x ≡ false) × Distinct xs

pub record IsValid (dq : DedupQueue) : Type 0 where
  pub bounded : length dq.elements ≤ dq.capacity
  pub distinct : Distinct dq.elements

contains-append_one :
    (xs : List Text) (x y : Text)
    → contains xs x ≡ false
    → y ≢ x
    → contains (xs ++ y ∷ []) x ≡ false
unfolding contains
contains-append_one [] x y h n = ground (arith, text_eq_iff y x)
contains-append_one (z ∷ xs) x y h n = ground (arith, contains-append_one xs x y)

Distinct-append_one :
    (xs : List Text) (y : Text)
    → Distinct xs
    → y ≢ []
    → contains xs y ≡ false
    → Distinct (xs ++ y ∷ [])
unfolding contains
Distinct-append_one [] y d n h = ground arith
Distinct-append_one (x ∷ xs) y d n h =
    ground (arith, text_eq_iff x y, contains-append_one xs x y, Distinct-append_one xs y)

push-IsValid : (dq : DedupQueue) (r : Text) → IsValid dq → IsValid (push dq r).0
unfolding push
push-IsValid dq r v =
    ground (arith, length-append dq.elements (r ∷ []), Distinct-append_one dq.elements r)

pop-IsValid : (dq : DedupQueue) → IsValid dq → IsValid (pop dq).0
unfolding pop
pop-IsValid dq v = ground arith

step-IsValid : (dq : DedupQueue) (op : Operation) → IsValid dq → IsValid (step dq op)
unfolding step
step-IsValid dq (pushes r) v = push-IsValid dq r v
step-IsValid dq pops v = pop-IsValid dq v
step-IsValid dq clears v = ground arith

-- Every history of a valid queue keeps it within its capacity, with no element twice and none
-- empty.
pub run-IsValid : (dq : DedupQueue) (ops : List Operation) → IsValid dq → IsValid (run dq ops)
unfolding run
run-IsValid dq [] v = v
run-IsValid dq (op ∷ ops) v = run-IsValid (step dq op) ops (step-IsValid dq op v)

pub new_dedup_queue-IsValid :
    (capacity : ℤ) (dq : DedupQueue) → new_dedup_queue capacity ≡ some dq → IsValid dq
unfolding new_dedup_queue
new_dedup_queue-IsValid capacity dq e = ground arith

-- A push succeeds exactly when there is room and the record is new and not empty; then the record
-- is at the end, and otherwise the queue is unchanged.
pub push_lem :
    (dq : DedupQueue) (r : Text)
    → (((push dq r).1 ≡ true)
        ↔ ((length dq.elements < dq.capacity) × (r ≢ []) × (contains dq.elements r ≡ false)))
      × ((push dq r).0
          ≡ (if (push dq r).1 then record dq { elements = dq.elements ++ r ∷ [] } else dq))
unfolding push
push_lem dq r = ground arith
