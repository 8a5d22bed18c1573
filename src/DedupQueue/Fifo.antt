-- ===== src/DedupQueue/Fifo.antt =====
-- The order of pkg/upload/queue.go: what goes in leaves in the same order.
use co_scout.Prelude.{
  ◌≡◌, refl, sym, ◌∙◌, ap, List, [], ◌∷◌, ◌++◌, append-nil, append_assoc, Text, arith,
  if◌then◌else◌,
}
use co_scout.DedupQueue.{DedupQueue, push, pop, Operation, pushes, pops, clears, step, run}

-- The records that a step accepts.
abbrev pub taken_in : DedupQueue → Operation → List Text
taken_in dq (pushes r) = if (push dq r).1 then r ∷ [] else []
taken_in dq pops = []
taken_in dq clears = []

-- The records that leave by a step: one that Pop hands out, or all that Clear drops.
abbrev pub left_by : DedupQueue → Operation → List Text
left_by dq (pushes r) = []
left_by dq pops = if (pop dq).1.1 then (pop dq).1.0 ∷ [] else []
left_by dq clears = dq.elements

pub all_taken_in : DedupQueue → List Operation → List Text
all_taken_in dq [] = []
all_taken_in dq (op ∷ ops) = taken_in dq op ++ all_taken_in (step dq op) ops

pub all_left : DedupQueue → List Operation → List Text
all_left dq [] = []
all_left dq (op ∷ ops) = left_by dq op ++ all_left (step dq op) ops

step_fifo :
    (dq : DedupQueue) (op : Operation)
    → dq.elements ++ taken_in dq op ≡ left_by dq op ++ (step dq op).elements
unfolding step
step_fifo dq (pushes r) = ground (arith, append-nil dq.elements)
step_fifo dq pops = ground (arith, append-nil dq.elements)
step_fifo dq clears = refl

-- First in, first out: over any history, the elements at the start followed by those accepted are
-- those that Pop handed out or Clear dropped, in the order in which they left the queue, followed
-- by the elements at the end.
pub run_fifo :
    (dq : DedupQueue) (ops : List Operation)
    → dq.elements ++ all_taken_in dq ops ≡ all_left dq ops ++ (run dq ops).elements
unfolding run all_taken_in all_left
run_fifo dq [] = append-nil dq.elements
run_fifo dq (op ∷ ops) =
    sym (append_assoc dq.elements (taken_in dq op) (all_taken_in (step dq op) ops))
    ∙ ap (λ xs. xs ++ all_taken_in (step dq op) ops) (step_fifo dq op)
    ∙ append_assoc (left_by dq op) (step dq op).elements (all_taken_in (step dq op) ops)
    ∙ ap (◌++◌ (left_by dq op)) (run_fifo (step dq op) ops)
    ∙ sym (append_assoc (left_by dq op) (all_left (step dq op) ops) (run (step dq op) ops).elements)
