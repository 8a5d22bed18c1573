-- ===== src/OrderedQueue/Window.antt =====
-- internal/log_reader/ordered_queue.go: the bound of the window, what `DumpRemaining` empties it
-- into, and the order of the time stamps that come out.
use co_scout.Prelude.{
  ℕ, zero, suc, ◌≤◌, ◌<◌, ◌≡◌, ◌⊎◌, refl, ap, false, List, [], ◌∷◌, ◌++◌, Option, none, some, inl,
  inr, ltb, ◌==◌, Bool-cases, Option-cases, length, length-append, Text, arith, ◌∙◌,
}
use co_scout.Prelude.Int.{ℤ, ltb_ℤ}
use co_scout.OrderedQueue.{
  StampedLog, Queued, Entry, OrderedQueue, heap_push, heap_remove, position, index_or_zero,
  remove_if_found, merge_earlier, pop_oldest, add_to_last, pop_full, consume_stamped, consume,
  dump_loop, dump_remaining, consume_all, new_ordered_queue,
}
use co_scout.OrderedQueue.Conserved.{text, emitted, pop_oldest-text, pop_oldest-length}

-- The window is not full: `Consume` takes a log out as soon as it would be.
pub IsOpen : OrderedQueue → Type 0
IsOpen oq = length oq.queue < oq.size

length-add_to_last :
    (queue : List Queued) (line : Text) → length (add_to_last queue line) ≡ length queue
unfolding add_to_last
length-add_to_last [] line = refl
length-add_to_last (q ∷ []) line = refl
length-add_to_last (q ∷ p ∷ queue) line = ap suc (length-add_to_last (p ∷ queue) line)

pop_full-IsOpen :
    (oq : OrderedQueue) (queue : List Queued) (h : List Entry)
    → length queue ≤ oq.size
    → 0 < oq.size
    → IsOpen (pop_full oq queue h).0
unfolding pop_full IsOpen
pop_full-IsOpen oq [] h b p = p
pop_full-IsOpen oq (sl ∷ queue) h b p = omega (arith, pop_oldest-length oq.k sl queue h)

pub consume-IsOpen : (oq : OrderedQueue) (log : StampedLog) → IsOpen oq → IsOpen (consume oq log).0
unfolding consume consume_stamped IsOpen
consume-IsOpen oq log open_window = elim (Option-cases log.timestamp) [
  | inl e ↦ rw (e, length-add_to_last oq.queue log.line) open_window
  | inr (t, e) ↦ rw e (stamped (record { pointer = log.pointer; time = t; line = log.line }))
]
  where
    stamped : (q : Queued) → length (consume_stamped oq q).0.queue < (consume_stamped oq q).0.size
    stamped q =
        let queue = oq.queue ++ q ∷ [] in
        let h = heap_push oq.sorted_logs (record { pointer = q.pointer; time = q.time }) in
        elim (Bool-cases (length queue == oq.size)) [
          | inl b ↦ rw b (
              pop_full-IsOpen oq queue h (ground (arith, length-append oq.queue (q ∷ [])))
                (omega arith))
          | inr b ↦ rw b (ground (arith, length-append oq.queue (q ∷ [])))
        ]

pub consume_all-IsOpen :
    (oq : OrderedQueue) (logs : List StampedLog) → IsOpen oq → IsOpen (consume_all oq logs).0
unfolding consume_all
consume_all-IsOpen oq [] h = h
consume_all-IsOpen oq (log ∷ logs) h =
    consume_all-IsOpen (consume oq log).0 logs (consume-IsOpen oq log h)

pop_full-size :
    (oq : OrderedQueue) (queue : List Queued) (h : List Entry)
    → (pop_full oq queue h).0.size ≡ oq.size
unfolding pop_full
pop_full-size oq [] h = refl
pop_full-size oq (sl ∷ queue) h = refl

consume-size : (oq : OrderedQueue) (log : StampedLog) → (consume oq log).0.size ≡ oq.size
unfolding consume consume_stamped
consume-size oq log = elim (Option-cases log.timestamp) [
  | inl e ↦ rw e refl
  | inr (t, e) ↦ rw e (stamped (record { pointer = log.pointer; time = t; line = log.line }))
]
  where
    stamped : (q : Queued) → (consume_stamped oq q).0.size ≡ oq.size
    stamped q =
        let queue = oq.queue ++ q ∷ [] in
        let h = heap_push oq.sorted_logs (record { pointer = q.pointer; time = q.time }) in
        elim (Bool-cases (length queue == oq.size)) [
          | inl b ↦ rw b (pop_full-size oq queue h)
          | inr b ↦ rw b refl
        ]

consume_all-size :
    (oq : OrderedQueue) (logs : List StampedLog) → (consume_all oq logs).0.size ≡ oq.size
unfolding consume_all
consume_all-size oq [] = refl
consume_all-size oq (log ∷ logs) = consume_all-size (consume oq log).0 logs ∙ consume-size oq log

-- However many logs a new window is given, it never holds more than the number of logs it was made
-- for.
pub consume_all_bounded :
    (size : ℕ) (logs : List StampedLog)
    → length (consume_all (new_ordered_queue size) logs).0.queue ≤ size
unfolding new_ordered_queue IsOpen
consume_all_bounded size logs = omega (
  arith,
  consume_all-IsOpen (new_ordered_queue size) logs (omega arith),
  consume_all-size (new_ordered_queue size) logs,
)

-- The head of the queue, if there is one, is not before `t`.
NotBefore : ℤ → List Queued → Type 0
NotBefore t [] = Unit
NotBefore t (q ∷ queue) = ltb_ℤ q.time t ≡ false

-- A property of the time stamp, if there is one.
abbrev Stamped : (ℤ → Type 0) → Option ℤ → Type 0
Stamped P none = Unit
Stamped P (some t) = P t

-- The first log that comes out, if it has a time stamp, is not before `t`.
FirstNotBefore : ℤ → List StampedLog → Type 0
FirstNotBefore t [] = Unit
FirstNotBefore t (o ∷ outs) = Stamped (λ u. ltb_ℤ u t ≡ false) o.timestamp

-- No time stamp is later than that of the log that comes out next.
pub InOrder : List StampedLog → Type 0
unfolding FirstNotBefore
InOrder [] = Unit
InOrder (o ∷ outs) = Stamped (λ t. FirstNotBefore t outs) o.timestamp × InOrder outs

merge_earlier-NotBefore :
    (sl : Queued) (queue : List Queued) (h : List Entry)
    → NotBefore (merge_earlier sl queue h).0.time (merge_earlier sl queue h).1.0
unfolding merge_earlier NotBefore
merge_earlier-NotBefore sl [] h = tt
merge_earlier-NotBefore sl (next ∷ queue) h = elim (Bool-cases (ltb_ℤ next.time sl.time)) [
  | inl e ↦ rw e (
      merge_earlier-NotBefore (record sl { line = sl.line ++ next.line }) queue
        (remove_if_found h (position h next.pointer)))
  | inr e ↦ rw e e
]

merge_earlier-time :
    (sl : Queued) (queue : List Queued) (h : List Entry)
    → (merge_earlier sl queue h).0.time ≡ sl.time
unfolding merge_earlier
merge_earlier-time sl [] h = refl
merge_earlier-time sl (next ∷ queue) h = elim (Bool-cases (ltb_ℤ next.time sl.time)) [
  | inl e ↦ rw e (
      merge_earlier-time (record sl { line = sl.line ++ next.line }) queue
        (remove_if_found h (position h next.pointer)))
  | inr e ↦ rw e refl
]

-- A log with a time stamp has that of the head of the queue.
pop_oldest-timestamp :
    (k : ℕ) (sl : Queued) (queue : List Queued) (h : List Entry)
    → ((pop_oldest k sl queue h).0.timestamp ≡ none)
      ⊎ ((pop_oldest k sl queue h).0.timestamp ≡ some sl.time)
unfolding pop_oldest
pop_oldest-timestamp k sl queue h =
    elim (Bool-cases (ltb k (index_or_zero (position h sl.pointer)))) [
      | inl e ↦ rw e (inl refl)
      | inr e ↦ rw e (
          inr (
            ap some (
              merge_earlier-time sl queue (heap_remove h (index_or_zero (position h sl.pointer))))))
    ]

pop_oldest-NotBefore :
    (k : ℕ) (sl : Queued) (queue : List Queued) (h : List Entry)
    → Stamped (λ t. NotBefore t (pop_oldest k sl queue h).1.0) (pop_oldest k sl queue h).0.timestamp
unfolding pop_oldest
pop_oldest-NotBefore k sl queue h =
    elim (Bool-cases (ltb k (index_or_zero (position h sl.pointer)))) [
      | inl e ↦ rw e tt
      | inr e ↦
          rw e (
            merge_earlier-NotBefore sl queue
              (heap_remove h (index_or_zero (position h sl.pointer))))
    ]

dump_loop-FirstNotBefore :
    (t : ℤ) (fuel k : ℕ) (queue : List Queued) (h : List Entry)
    → NotBefore t queue
    → FirstNotBefore t (dump_loop fuel k queue h).0
unfolding dump_loop FirstNotBefore NotBefore
dump_loop-FirstNotBefore t zero k queue h b = tt
dump_loop-FirstNotBefore t (suc fuel) k [] h b = tt
dump_loop-FirstNotBefore t (suc fuel) k (sl ∷ queue) h b =
    elim (pop_oldest-timestamp k sl queue h) [
      | inl e ↦ rw (FirstNotBefore, e) tt
      | inr e ↦ rw (FirstNotBefore, e) b
    ]

dump_loop-InOrder :
    (fuel k : ℕ) (queue : List Queued) (h : List Entry) → InOrder (dump_loop fuel k queue h).0
unfolding dump_loop InOrder
dump_loop-InOrder zero k queue h = tt
dump_loop-InOrder (suc fuel) k [] h = tt
dump_loop-InOrder (suc fuel) k (sl ∷ queue) h =
    let out = pop_oldest k sl queue h in
    (first (out.0.timestamp) refl, dump_loop-InOrder fuel k out.1.0 out.1.1)
  where
    first :
        (stamp : Option ℤ)
        → (pop_oldest k sl queue h).0.timestamp ≡ stamp
        → Stamped
            (λ t.
              FirstNotBefore t
                (dump_loop fuel k (pop_oldest k sl queue h).1.0 (pop_oldest k sl queue h).1.1).0)
            (pop_oldest k sl queue h).0.timestamp
    first none e = rw e tt
    first (some t) e =
        let b : NotBefore t (pop_oldest k sl queue h).1.0 =
          rw e at (pop_oldest-NotBefore k sl queue h) in
        rw e (
          dump_loop-FirstNotBefore t fuel k (pop_oldest k sl queue h).1.0
            (pop_oldest k sl queue h).1.1 b)

dump_loop-text :
    (fuel k : ℕ) (queue : List Queued) (h : List Entry)
    → length queue ≤ fuel
    → (emitted (dump_loop fuel k queue h).0 ≡ text queue) × ((dump_loop fuel k queue h).1.0 ≡ [])
unfolding dump_loop
dump_loop-text zero k [] h b = (refl, refl)
dump_loop-text zero k (sl ∷ queue) h b = absurd (omega arith)
dump_loop-text (suc fuel) k [] h b = (refl, refl)
dump_loop-text (suc fuel) k (sl ∷ queue) h b =
    let out = pop_oldest k sl queue h in
    let rest =
      dump_loop-text fuel k out.1.0 out.1.1 (omega (arith, pop_oldest-length k sl queue h)) in
    (rw rest.0 (pop_oldest-text k sl queue h), rest.1)

-- `DumpRemaining` empties the queue; what comes out has the queue's text, each character in its
-- place; and of two logs that come out one after the other, both with a time stamp, the second is
-- not before the first.
pub dump_remaining_lem :
    (oq : OrderedQueue)
    → (emitted (dump_remaining oq).1 ≡ text oq.queue)
      × (((dump_remaining oq).0.queue ≡ []) × InOrder (dump_remaining oq).1)
unfolding dump_remaining
dump_remaining_lem oq =
    let all = dump_loop-text (length oq.queue) oq.k oq.queue oq.sorted_logs (omega arith) in
    (all.0, (all.1, dump_loop-InOrder (length oq.queue) oq.k oq.queue oq.sorted_logs))
