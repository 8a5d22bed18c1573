-- ===== src/DedupQueue/Tests.antt =====
-- pkg/upload/queue.go at concrete queues.
use co_scout.Prelude.{◌≡◌, refl, [], ◌∷◌, ◌++◌, List, codes, text_eq, arith}
use co_scout.DedupQueue.{DedupQueue, contains, push, step, run, Operation, pushes, pops}
use co_scout.DedupQueue.Invariant.{IsValid}
use co_scout.DedupQueue.Fifo.{all_taken_in, all_left, run_fifo}

abbrev two_left : DedupQueue
two_left = record { elements = codes "a" ∷ []; capacity = 3 }

abbrev history : List Operation
history = pushes (codes "b") ∷ pushes (codes "a") ∷ pops ∷ pushes (codes "a") ∷ pops ∷ []

history_runs : (run two_left history).elements ≡ codes "a" ∷ []
unfolding run step push contains text_eq
history_runs = refl

two_left-IsValid : IsValid two_left
unfolding contains
two_left-IsValid = record { bounded = omega arith; distinct = (λ e. cc, refl, tt) }

run_fifo_example :
    two_left.elements ++ all_taken_in two_left history
    ≡ all_left two_left history ++ (run two_left history).elements
run_fifo_example = run_fifo two_left history
