-- ===== src/OrderedQueue.antt =====
-- internal/log_reader/ordered_queue.go: log lines put in the order of their time stamps over a
-- sliding window. A log's pointer is its number `pointer`; the heap of container/heap holds the
-- pointers with their time stamps, since its order reads nothing else and no time stamp changes.
pub mod Conserved
pub mod Window
mod Fuel
mod Tests
use co_scout.Prelude.{
  ℕ, zero, suc, ◌+◌, ◌-◌, ◌*◌, ◌/◌, Bool, true, false, not, ◌&&◌, ◌||◌, List, [], ◌∷◌, ◌++◌, Option,
  none, some, ltb, leb, ◌==◌, if◌then◌else◌, length, get_elem?, set, take, Text, codes,
}
use co_scout.Prelude.Int.{ℤ, ltb_ℤ}

pub record StampedLog : Type 0 where
  pub pointer : ℕ
  pub timestamp : Option ℤ
  pub line : Text

-- A log that has a time stamp.
pub record Queued : Type 0 where
  pub pointer : ℕ
  pub time : ℤ
  pub line : Text

-- An element of TimestampHeap.
pub record Entry : Type 0 where
  pub pointer : ℕ
  pub time : ℤ

pub record OrderedQueue : Type 0 where
  pub size : ℕ
  pub k : ℕ
  pub queue : List Queued
  pub sorted_logs : List Entry

entries_less : Option Entry → Option Entry → Bool
entries_less (some a) (some b) = ltb_ℤ a.time b.time
entries_less none b = false
entries_less (some a) none = false

-- TimestampHeap's `Less` and `Swap`, at indices within the heap.
unfoldable pub less : List Entry → ℕ → ℕ → Bool
unfolding entries_less
less h i j = entries_less (get_elem? h i) (get_elem? h j)

swap_entries : List Entry → ℕ → ℕ → Option Entry → Option Entry → List Entry
swap_entries h i j (some a) (some b) = set (set h i b) j a
swap_entries h i j none b = h
swap_entries h i j (some a) none = h

unfoldable pub swap : List Entry → ℕ → ℕ → List Entry
unfolding swap_entries
swap h i j = swap_entries h i j (get_elem? h i) (get_elem? h j)

-- container/heap's `up` and `down`. The index falls, or rises below the length, in each round, so
-- the length of the heap is fuel enough.
up : ℕ → List Entry → ℕ → List Entry
unfolding less swap
up zero h j = h
up (suc fuel) h j =
    let parent = (j - 1) / 2 in
    let rest = up fuel (swap h parent j) parent in
    if parent == j || not (less h j parent) then h else rest

-- The heap, and whether the element moved.
down : ℕ → List Entry → ℕ → ℕ → List Entry × Bool
unfolding less swap
down zero h i n = (h, false)
down (suc fuel) h i n =
    let left = 2 * i + 1 in
    let child = if ltb (left + 1) n && less h (left + 1) left then left + 1 else left in
    let rest : List Entry × Bool = ((down fuel (swap h i child) child n).0, true) in
    if leb n left || not (less h child i) then (h, false) else rest

unfoldable pub heap_push : List Entry → Entry → List Entry
unfolding up
heap_push h e = up (suc (length h)) (h ++ e ∷ []) (length h)

unfoldable pub heap_remove : List Entry → ℕ → List Entry
unfolding up down
heap_remove h i =
    let n = length h - 1 in
    let moved = down (length h) (swap h i n) i n in
    take n (if n == i then h else if moved.1 then moved.0 else up (length h) moved.0 i)

unfoldable pub new_ordered_queue : ℕ → OrderedQueue
new_ordered_queue size = record { size = size + 1; k = 1; queue = []; sorted_logs = [] }

-- The index of a pointer in the heap, if it is there.
position : List Entry → ℕ → Option ℕ
position [] p = none
position (e ∷ es) p =
    if e.pointer == p
    then some 0
    else (elim (position es p) [ none ↦ none | some i ↦ some (suc i) ])

index_or_zero : Option ℕ → ℕ
index_or_zero none = 0
index_or_zero (some i) = i

remove_if_found : List Entry → Option ℕ → List Entry
unfolding heap_remove
remove_if_found h none = h
remove_if_found h (some i) = heap_remove h i

-- The loop that merges the logs behind with earlier time stamps into `sl`.
pub merge_earlier : Queued → List Queued → List Entry → Queued × (List Queued × List Entry)
unfolding position remove_if_found
merge_earlier sl [] h = (sl, ([], h))
merge_earlier sl (next ∷ queue) h =
    let rest =
      merge_earlier (record sl { line = sl.line ++ next.line }) queue
        (remove_if_found h (position h next.pointer)) in
    if ltb_ℤ next.time sl.time then rest else (sl, (next ∷ queue, h))

-- What both `Consume` and `DumpRemaining` do with the oldest log: the log that comes out, and the
-- queue and heap behind it. A log far from its place comes out as a new one without a time stamp,
-- which is shown with the old one's pointer and is in no queue.
unfoldable pub pop_oldest :
    ℕ → Queued → List Queued → List Entry → StampedLog × (List Queued × List Entry)
unfolding merge_earlier position index_or_zero heap_remove
pop_oldest k sl queue h =
    let pos = index_or_zero (position h sl.pointer) in
    let h' = heap_remove h pos in
    if ltb k pos
    then (record { pointer = sl.pointer; timestamp = none; line = sl.line }, (queue, h'))
    else let (merged, rest) = merge_earlier sl queue h' in
      (record { pointer = merged.pointer; timestamp = some merged.time; line = merged.line }, rest)

-- A line without a time stamp is added to the last log, and is dropped if there is none.
add_to_last : List Queued → Text → List Queued
add_to_last [] line = []
add_to_last (q ∷ []) line = record q { line = q.line ++ (codes "\n" ++ line) } ∷ []
add_to_last (q ∷ p ∷ queue) line = q ∷ add_to_last (p ∷ queue) line

pop_full : OrderedQueue → List Queued → List Entry → OrderedQueue × Option StampedLog
unfolding pop_oldest
pop_full oq [] h = (record oq { queue = []; sorted_logs = h }, none)
pop_full oq (sl ∷ queue) h =
    let (out, (queue', h')) = pop_oldest oq.k sl queue h in
    (record oq { queue = queue'; sorted_logs = h' }, some out)

consume_stamped : OrderedQueue → Queued → OrderedQueue × Option StampedLog
unfolding pop_full heap_push
consume_stamped oq q =
    let queue = oq.queue ++ q ∷ [] in
    let h = heap_push oq.sorted_logs (record { pointer = q.pointer; time = q.time }) in
    if length queue == oq.size
    then pop_full oq queue h
    else (record oq { queue = queue; sorted_logs = h }, none)

-- `Consume`: the queue after it, and the log that comes out, if one does.
unfoldable pub consume : OrderedQueue → StampedLog → OrderedQueue × Option StampedLog
unfolding consume_stamped add_to_last
consume oq log = elim log.timestamp [
  | none ↦ (record oq { queue = add_to_last oq.queue log.line }, none)
  | some t ↦ consume_stamped oq (record { pointer = log.pointer; time = t; line = log.line })
]

-- The loop of `DumpRemaining`. Each round takes a log from the queue, so the queue's length is fuel
-- enough.
dump_loop : ℕ → ℕ → List Queued → List Entry → List StampedLog × (List Queued × List Entry)
unfolding pop_oldest
dump_loop zero k queue h = ([], (queue, h))
dump_loop (suc fuel) k [] h = ([], ([], h))
dump_loop (suc fuel) k (sl ∷ queue) h =
    let (out, (queue', h')) = pop_oldest k sl queue h in
    let (outs, rest) = dump_loop fuel k queue' h' in (out ∷ outs, rest)

unfoldable pub dump_remaining : OrderedQueue → OrderedQueue × List StampedLog
unfolding dump_loop
dump_remaining oq =
    let (outs, (queue, h)) = dump_loop (length oq.queue) oq.k oq.queue oq.sorted_logs in
    (record oq { queue = queue; sorted_logs = h }, outs)

-- All logs of a file, and then what is left: the logs that come out, in order.
unfoldable pub consume_all : OrderedQueue → List StampedLog → OrderedQueue × List StampedLog
unfolding consume
consume_all oq [] = (oq, [])
consume_all oq (log ∷ logs) =
    let (oq', out) = consume oq log in
    let (end, outs) = consume_all oq' logs in (end, elim out [ none ↦ outs | some o ↦ o ∷ outs ])
