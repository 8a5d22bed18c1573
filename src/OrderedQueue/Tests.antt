-- ===== src/OrderedQueue/Tests.antt =====
-- internal/log_reader/ordered_queue.go on small windows.
use co_scout.Prelude.{◌≡◌, refl, List, [], ◌∷◌, ◌++◌, none, some, map, codes}
use co_scout.Prelude.Int.{pos}
use co_scout.OrderedQueue.{StampedLog, OrderedQueue, new_ordered_queue, consume_all, dump_remaining}
use co_scout.OrderedQueue.Conserved.{text, emitted, all_undropped, consume_all-text}
use co_scout.OrderedQueue.Window.{InOrder, dump_remaining_lem}

-- Three stamped lines, the second earlier than the first, and one without a time stamp.
abbrev logs : List StampedLog
logs =
    record { pointer = 1; timestamp = some (pos 20); line = codes "b" }
    ∷ record { pointer = 2; timestamp = some (pos 10); line = codes "a" }
    ∷ record { pointer = 3; timestamp = none; line = codes "x" }
    ∷ record { pointer = 4; timestamp = some (pos 30); line = codes "c" }
    ∷ []

abbrev window : OrderedQueue
unfolding consume_all new_ordered_queue
window = (consume_all (new_ordered_queue 2) logs).0

merged : map StampedLog.line (consume_all (new_ordered_queue 2) logs).1 ≡ codes "ba\nx" ∷ []
unfolding consume_all new_ordered_queue
merged = refl

left_over : map StampedLog.line (dump_remaining window).1 ≡ codes "c" ∷ []
unfolding dump_remaining window
left_over = refl

consume_all-text_example :
    emitted (consume_all (new_ordered_queue 2) logs).1
      ++ text (consume_all (new_ordered_queue 2) logs).0.queue
    ≡ text (new_ordered_queue 2).queue ++ all_undropped (new_ordered_queue 2) logs
consume_all-text_example = consume_all-text (new_ordered_queue 2) logs

dump_remaining_lem_example :
    (emitted (dump_remaining window).1 ≡ text window.queue)
    × (((dump_remaining window).0.queue ≡ []) × InOrder (dump_remaining window).1)
dump_remaining_lem_example = dump_remaining_lem window
