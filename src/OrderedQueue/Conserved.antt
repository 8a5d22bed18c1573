-- ===== src/OrderedQueue/Conserved.antt =====
-- internal/log_reader/ordered_queue.go: what the reordering window does to the text of the logs.
use co_scout.Prelude.{
  ℕ, ◌≤◌, ◌≡◌, refl, List, [], ◌∷◌, ◌++◌, Option, none, some, inl, inr, ltb, ◌==◌, Bool-cases,
  Option-cases, ◌∙◌, length, Text, codes, arith, append_assoc, append-nil,
}
use co_scout.Prelude.Int.{ltb_ℤ}
use co_scout.OrderedQueue.{
  StampedLog, Queued, Entry, OrderedQueue, heap_push, heap_remove, position, index_or_zero,
  remove_if_found, merge_earlier, pop_oldest, add_to_last, pop_full, consume_stamped, consume,
  consume_all,
}

-- The text of the logs in a queue, in their order.
abbrev pub text : List Queued → Text
text [] = []
text (q ∷ queue) = q.line ++ text queue

-- The text of the logs that come out.
abbrev pub emitted : List StampedLog → Text
emitted [] = []
emitted (o ∷ outs) = o.line ++ emitted outs

-- The text of a log that is not dropped. A line without a time stamp is dropped where the queue is
-- empty, and otherwise stands on a line of its own.
abbrev pub undropped : OrderedQueue → StampedLog → Text
undropped oq log = elim log.timestamp [
  | some t ↦ log.line
  | none ↦ elim oq.queue [ [] ↦ [] | q ∷ queue ↦ codes "\n" ++ log.line ]
]

-- The text of all logs of a file that are not dropped.
abbrev pub all_undropped : OrderedQueue → List StampedLog → Text
all_undropped oq [] = []
all_undropped oq (log ∷ logs) = undropped oq log ++ all_undropped (consume oq log).0 logs

text-append : (xs ys : List Queued) → text (xs ++ ys) ≡ text xs ++ text ys
text-append [] ys = refl
text-append (x ∷ xs) ys = rw (text-append xs ys, append_assoc x.line (text xs) (text ys)) refl

pub merge_earlier-text :
    (sl : Queued) (queue : List Queued) (h : List Entry)
    → (merge_earlier sl queue h).0.line ++ text (merge_earlier sl queue h).1.0
      ≡ sl.line ++ text queue
unfolding merge_earlier
merge_earlier-text sl [] h = refl
merge_earlier-text sl (next ∷ queue) h = elim (Bool-cases (ltb_ℤ next.time sl.time)) [
  | inl e ↦
      rw
        (
          e,
          merge_earlier-text (record sl { line = sl.line ++ next.line }) queue
              (remove_if_found h (position h next.pointer)),
          append_assoc sl.line next.line (text queue),
        )
        refl
  | inr e ↦ rw e refl
]

pub merge_earlier-length :
    (sl : Queued) (queue : List Queued) (h : List Entry)
    → length (merge_earlier sl queue h).1.0 ≤ length queue
unfolding merge_earlier
merge_earlier-length sl [] h = omega arith
merge_earlier-length sl (next ∷ queue) h = elim (Bool-cases (ltb_ℤ next.time sl.time)) [
  | inl e ↦ rw e (
      omega (
        arith,
        merge_earlier-length (record sl { line = sl.line ++ next.line }) queue
            (remove_if_found h (position h next.pointer)),
      ))
  | inr e ↦ rw e (omega arith)
]

pub pop_oldest-text :
    (k : ℕ) (sl : Queued) (queue : List Queued) (h : List Entry)
    → (pop_oldest k sl queue h).0.line ++ text (pop_oldest k sl queue h).1.0 ≡ sl.line ++ text queue
unfolding pop_oldest
pop_oldest-text k sl queue h = elim (Bool-cases (ltb k (index_or_zero (position h sl.pointer)))) [
  | inl e ↦ rw e refl
  | inr e ↦
      rw e (merge_earlier-text sl queue (heap_remove h (index_or_zero (position h sl.pointer))))
]

pub pop_oldest-length :
    (k : ℕ) (sl : Queued) (queue : List Queued) (h : List Entry)
    → length (pop_oldest k sl queue h).1.0 ≤ length queue
unfolding pop_oldest
pop_oldest-length k sl queue h = elim (Bool-cases (ltb k (index_or_zero (position h sl.pointer)))) [
  | inl e ↦ rw e (omega arith)
  | inr e ↦
      rw e (merge_earlier-length sl queue (heap_remove h (index_or_zero (position h sl.pointer))))
]

came_out : Option StampedLog → Text
came_out none = []
came_out (some o) = o.line

add_to_last-text :
    (q : Queued) (queue : List Queued) (line : Text)
    → text (add_to_last (q ∷ queue) line) ≡ text (q ∷ queue) ++ (codes "\n" ++ line)
unfolding add_to_last
add_to_last-text q [] line =
    rw (append-nil (q.line ++ (codes "\n" ++ line)), append-nil q.line) refl
add_to_last-text q (p ∷ queue) line =
    rw (add_to_last-text p queue line, append_assoc q.line (text (p ∷ queue)) (codes "\n" ++ line))
      refl

pop_full-text :
    (oq : OrderedQueue) (queue : List Queued) (h : List Entry)
    → came_out (pop_full oq queue h).1 ++ text (pop_full oq queue h).0.queue ≡ text queue
unfolding pop_full came_out
pop_full-text oq [] h = refl
pop_full-text oq (sl ∷ queue) h = pop_oldest-text oq.k sl queue h

consume_stamped-text :
    (oq : OrderedQueue) (q : Queued)
    → came_out (consume_stamped oq q).1 ++ text (consume_stamped oq q).0.queue
      ≡ text oq.queue ++ q.line
unfolding consume_stamped came_out
consume_stamped-text oq q =
    let queue = oq.queue ++ q ∷ [] in
    let h = heap_push oq.sorted_logs (record { pointer = q.pointer; time = q.time }) in
    let e : text queue ≡ text oq.queue ++ q.line =
      rw (text-append oq.queue (q ∷ []), append-nil q.line) refl in
    elim (Bool-cases (length queue == oq.size)) [
      | inl b ↦ rw b (pop_full-text oq queue h ∙ e)
      | inr b ↦ rw b e
    ]

consume-text :
    (oq : OrderedQueue) (log : StampedLog)
    → came_out (consume oq log).1 ++ text (consume oq log).0.queue
      ≡ text oq.queue ++ undropped oq log
unfolding consume came_out add_to_last
consume-text oq log = elim (Option-cases log.timestamp) [
  | inl e ↦ rw e (unstamped oq.queue refl)
  | inr (t, e) ↦
      rw e (consume_stamped-text oq (record { pointer = log.pointer; time = t; line = log.line }))
]
  where
    unstamped :
        (queue : List Queued)
        → oq.queue ≡ queue
        → text (add_to_last oq.queue log.line)
          ≡ text oq.queue ++ elim oq.queue [ [] ↦ [] | q ∷ rest ↦ codes "\n" ++ log.line ]
    unstamped [] e = rw e refl
    unstamped (q ∷ rest) e = rw e (add_to_last-text q rest log.line)

emitted-came_out :
    (out : Option StampedLog) (outs : List StampedLog)
    → emitted (elim out [ none ↦ outs | some o ↦ o ∷ outs ]) ≡ came_out out ++ emitted outs
unfolding came_out
emitted-came_out none outs = refl
emitted-came_out (some o) outs = refl

-- Over any run of logs through the window, the text that was in the queue followed by the text of
-- the logs that are not dropped is the text of the logs that came out followed by the text that is
-- still in the queue: of that text nothing is lost or doubled, and the characters keep their order.
-- A log is dropped just if it has no time stamp and meets an empty queue; one without a time stamp
-- that meets a queue with logs stands on a line of its own.
pub consume_all-text :
    (oq : OrderedQueue) (logs : List StampedLog)
    → emitted (consume_all oq logs).1 ++ text (consume_all oq logs).0.queue
      ≡ text oq.queue ++ all_undropped oq logs
unfolding consume_all
consume_all-text oq [] = rw (append-nil (text oq.queue)) refl
consume_all-text oq (log ∷ logs) =
    let oq' = (consume oq log).0 in
    let out = (consume oq log).1 in
    let end = (consume_all oq' logs).0.queue in
    let outs = (consume_all oq' logs).1 in
    rw
      (
        emitted-came_out out outs,
        append_assoc (came_out out) (emitted outs) (text end),
        consume_all-text oq' logs,
        ← append_assoc (came_out out) (text oq'.queue) (all_undropped oq' logs),
        consume-text oq log,
        append_assoc (text oq.queue) (undropped oq log) (all_undropped oq' logs),
      )
      refl
