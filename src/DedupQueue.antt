-- ===== src/DedupQueue.antt =====
-- pkg/upload/queue.go: the bounded queue of records that wait for upload, without repetitions.
-- Every method holds the queue's lock throughout, so each is one step.
pub mod Invariant
pub mod Fifo
mod Tests
use co_scout.Prelude.{
  ℕ, zero, suc, Bool, true, false, List, [], ◌∷◌, ◌++◌, Option, none, some, leb, ◌==◌, ◌||◌, length,
  Text, text_eq, if◌then◌else◌,
}
use co_scout.Prelude.Int.{ℤ, pos, negsuc}

pub record DedupQueue : Type 0 where
  pub elements : List Text
  pub capacity : ℕ

-- No queue: Go's nil, for a capacity that is not positive.
unfoldable pub new_dedup_queue : ℤ → Option DedupQueue
new_dedup_queue (pos zero) = none
new_dedup_queue (pos (suc n)) = some (record { elements = []; capacity = suc n })
new_dedup_queue (negsuc n) = none

-- The loop of `Push` that looks for the record.
unfoldable pub contains : List Text → Text → Bool
contains [] record_name = false
contains (elem ∷ elems) record_name = text_eq elem record_name || contains elems record_name

is_empty_text : Text → Bool
is_empty_text [] = true
is_empty_text (c ∷ cs) = false

unfoldable pub push : DedupQueue → Text → DedupQueue × Bool
unfolding is_empty_text
push dq record_name =
    if leb dq.capacity (length dq.elements)
    then (dq, false)
    else if is_empty_text record_name
    then (dq, false)
    else if contains dq.elements record_name
    then (dq, false)
    else (record dq { elements = dq.elements ++ record_name ∷ [] }, true)

take_first : DedupQueue → List Text → DedupQueue × (Text × Bool)
take_first dq [] = (dq, ([], false))
take_first dq (elem ∷ elems) = (record dq { elements = elems }, (elem, true))

unfoldable pub pop : DedupQueue → DedupQueue × (Text × Bool)
unfolding take_first
pop dq = take_first dq dq.elements

unfoldable pub is_full : DedupQueue → Bool
is_full dq = leb dq.capacity (length dq.elements)

unfoldable pub size : DedupQueue → ℕ
size dq = length dq.elements

unfoldable pub is_empty : DedupQueue → Bool
is_empty dq = length dq.elements == 0

unfoldable pub clear : DedupQueue → DedupQueue
clear dq = record dq { elements = [] }

pub data Operation : Type 0 where
  pushes : Text → Operation
  pops clears : Operation

unfoldable pub step : DedupQueue → Operation → DedupQueue
unfolding push pop clear
step dq (pushes r) = (push dq r).0
step dq pops = (pop dq).0
step dq clears = clear dq

unfoldable pub run : DedupQueue → List Operation → DedupQueue
run dq [] = dq
run dq (op ∷ ops) = run (step dq op) ops
