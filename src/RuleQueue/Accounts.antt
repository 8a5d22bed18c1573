-- ===== src/RuleQueue/Accounts.antt =====
-- The bytes that messages in the channel of internal/mod/rule/handler.go hold in the budget.
use co_scout.Prelude.{
  ◌≡◌, refl, ap, Bool, true, false, List, [], ◌∷◌, ◌++◌, Option, none, some, Text, arith,
  Bool-cases, inl, inr, All, All-append,
}
use co_scout.Prelude.Int.{
  ℤ, pos, ◌+ℤ◌, ◌-ℤ◌, ◌≤ℤ◌, +ℤ_parts, -ℤ_parts, eq_of_parts, parts_of_eq, int_laws,
}
use co_scout.Budget.{Budget, claim_message, admit_message, abort_message, release}
use co_scout.Rule.Engine.Consume.{RuleItem}
use co_scout.RuleQueue.{
  RuleHandler, QueuedRuleMessage, Claimed, Payload, Step, receives, sends, cancels, consumes,
  enqueues, step, run, receive, receive_in, claim, send, send_in, cancel, cancel_in, consume,
  receive_from, enqueue, enqueue_file_rule_item, has_room, consume_rule_message, release_message,
  release_in, release_all, release_queued_rule_messages,
}

owes_in : Option Text → ℤ → ℤ
owes_in none n = pos 0
owes_in (some payload) n = n

-- The bytes that a message holds: none, if it came from a file.
unfoldable pub owes : QueuedRuleMessage → ℤ
unfolding owes_in
owes m = owes_in m.payload m.reserved_bytes

unfoldable pub owes_all : List QueuedRuleMessage → ℤ
owes_all [] = pos 0
owes_all (m ∷ ms) = owes m +ℤ owes_all ms

unfoldable pub owes_claimed : Option Claimed → ℤ
owes_claimed none = pos 0
owes_claimed (some c) = c.reserved_bytes

release_lem :
    (b : Budget) (n : ℤ) → pos 0 ≤ℤ n → n ≤ℤ b.queued → (release b n).0.queued +ℤ n ≡ b.queued
unfolding release
release_lem b n h g = ground (
  arith,
  -ℤ_parts b.queued n,
  +ℤ_parts (b.queued -ℤ n) n,
  +ℤ_parts b.queued n,
  eq_of_parts ((b.queued -ℤ n) +ℤ n) b.queued,
  eq_of_parts (b.queued +ℤ n) b.queued,
)

claim-queued : (b : Budget) (m : Text) → (claim_message b m).0.queued ≡ b.queued
unfolding claim_message
claim-queued b m = ground arith

admit-queued : (b : Budget) (m : Text) → (admit_message b m).0.queued ≡ b.queued
unfolding admit_message
admit-queued b m = ground arith

abort-queued : (b : Budget) (m : Text) → (abort_message b m).0.queued ≡ b.queued
unfolding abort_message
abort-queued b m = ground arith

owes-append :
    (ms : List QueuedRuleMessage) (m : QueuedRuleMessage)
    → owes_all (ms ++ m ∷ []) ≡ owes_all ms +ℤ owes m
unfolding owes_all
owes-append [] m = omega int_laws
owes-append (k ∷ ms) m = omega (int_laws, parts_of_eq (owes-append ms m))

abbrev pub IsNonneg : QueuedRuleMessage → Type 0
IsNonneg m = pos 0 ≤ℤ owes m

owes_all-nonneg : (ms : List QueuedRuleMessage) → All IsNonneg ms → pos 0 ≤ℤ owes_all ms
unfolding owes_all
owes_all-nonneg [] h = omega arith
owes_all-nonneg (m ∷ ms) h = omega (int_laws, owes_all-nonneg ms h.1, h.0)

module _ {Engine : Type 0} (consume_next : RuleItem → Engine → Engine)
    (decode : Text → Payload) where
  -- All the bytes that are in the hands of the handler.
  unfoldable pub owed : RuleHandler Engine → ℤ
  owed h = owes_claimed h.claimed +ℤ owes_all h.rule_message_chan

  taken_in : Option Claimed → ℤ × Bool → ℤ
  taken_in (some c) r = pos 0
  taken_in none (n, false) = pos 0
  taken_in none (n, true) = n

  -- The bytes that a step takes over from a publisher.
  unfoldable pub taken : Step → RuleHandler Engine → ℤ
  unfolding taken_in
  taken (receives uuid payload) h = taken_in h.claimed (claim_message h.queued_bytes uuid).1
  taken sends h = pos 0
  taken cancels h = pos 0
  taken consumes h = pos 0
  taken (enqueues item) h = pos 0

  unfoldable pub all_taken : List Step → RuleHandler Engine → ℤ
  all_taken [] h = pos 0
  all_taken (s ∷ ss) h = taken s h +ℤ all_taken ss (step consume_next decode s h)

  abbrev pub queued : RuleHandler Engine → ℤ
  queued h = h.queued_bytes.queued

  -- No amount is negative, and the counter covers them together.
  pub record IsCovered (h : RuleHandler Engine) : Type 0 where
    pub claimed : pos 0 ≤ℤ owes_claimed h.claimed
    pub messages : All IsNonneg h.rule_message_chan
    pub covered : owed h ≤ℤ queued h

  -- What a step leaves: the counter has fallen by what the handler has given back.
  abbrev Balanced : Step → RuleHandler Engine → RuleHandler Engine → Type 0
  Balanced s h h' =
      (queued h' +ℤ (owed h +ℤ taken s h) ≡ queued h +ℤ owed h')
      × (pos 0 ≤ℤ owes_claimed h'.claimed)
      × All IsNonneg h'.rule_message_chan

  claim-Balanced :
      (uuid payload : Text) (r : Budget × (ℤ × Bool)) (h : RuleHandler Engine)
      → IsCovered h
      → r.0.queued ≡ queued h
      → owes_claimed h.claimed ≡ pos 0
      → pos 0 ≤ℤ taken_in none r.1
      → let h' = claim consume_next decode uuid payload r h in
        (queued h' +ℤ (owed h +ℤ taken_in none r.1) ≡ queued h +ℤ owed h')
        × (pos 0 ≤ℤ owes_claimed h'.claimed)
        × All IsNonneg h'.rule_message_chan
  unfolding claim owed owes_claimed taken_in
  claim-Balanced uuid payload (b, (n, false)) h c same none_yet t =
      (omega (int_laws, parts_of_eq same), c.claimed, c.messages)
  claim-Balanced uuid payload (b, (n, true)) h c same none_yet t =
      (omega (int_laws, parts_of_eq same, parts_of_eq none_yet), t, c.messages)

  receive_in-Balanced :
      (o : Option Claimed) (uuid payload : Text) (h : RuleHandler Engine)
      → IsCovered h
      → owes_claimed h.claimed ≡ owes_claimed o
      → pos 0 ≤ℤ taken_in o (claim_message h.queued_bytes uuid).1
      → let h' = receive_in consume_next decode o uuid payload h in
        (queued h' +ℤ (owed h +ℤ taken_in o (claim_message h.queued_bytes uuid).1)
          ≡ queued h +ℤ owed h')
        × (pos 0 ≤ℤ owes_claimed h'.claimed)
        × All IsNonneg h'.rule_message_chan
  unfolding receive_in owed owes_claimed taken_in
  receive_in-Balanced none uuid payload h c same t =
      claim-Balanced uuid payload (claim_message h.queued_bytes uuid) h c
        (claim-queued h.queued_bytes uuid) same t
  receive_in-Balanced (some d) uuid payload h c same t = (omega int_laws, c.claimed, c.messages)

  send_in-Balanced :
      (o : Option Claimed) (h : RuleHandler Engine)
      → IsCovered h
      → owes_claimed h.claimed ≡ owes_claimed o
      → Balanced sends h (send_in consume_next decode o h)
  unfolding send_in enqueue taken owed owes_claimed owes
  send_in-Balanced none h c same = (omega int_laws, c.claimed, c.messages)
  send_in-Balanced (some d) h c same =
      let m : QueuedRuleMessage = record {
        item = none;
        payload = some d.payload;
        reserved_bytes = d.reserved_bytes;
      } in
      let full = parts_of_eq (owes-append h.rule_message_chan m) in
      let still = parts_of_eq (admit-queued h.queued_bytes d.uuid) in
      let was = parts_of_eq same in
      let nonneg : pos 0 ≤ℤ d.reserved_bytes = omega (int_laws, c.claimed) in
      (
        omega int_laws,
        omega arith,
        All-append IsNonneg h.rule_message_chan (m ∷ []) c.messages (nonneg, tt),
      )

  cancel_in-Balanced :
      (o : Option Claimed) (h : RuleHandler Engine)
      → IsCovered h
      → owes_claimed h.claimed ≡ owes_claimed o
      → Balanced cancels h (cancel_in consume_next decode o h)
  unfolding cancel_in taken owed owes_claimed
  cancel_in-Balanced none h c same = (omega int_laws, c.claimed, c.messages)
  cancel_in-Balanced (some d) h c same =
      let was = parts_of_eq same in
      let still = parts_of_eq (abort-queued h.queued_bytes d.uuid) in
      let rest = owes_all-nonneg h.rule_message_chan c.messages in
      let most = c.covered in
      let given = parts_of_eq (
        release_lem (abort_message h.queued_bytes d.uuid).0 d.reserved_bytes
          (omega (int_laws, c.claimed)) (omega int_laws)) in
      (omega int_laws, omega arith, c.messages)

  released_in :
      (payload : Option Text) (n : ℤ) (b : Budget)
      → pos 0 ≤ℤ owes_in payload n
      → owes_in payload n ≤ℤ b.queued
      → (release_in payload n b).queued +ℤ owes_in payload n ≡ b.queued
  unfolding release_in owes_in
  released_in none n b h g = omega int_laws
  released_in (some payload) n b h g = release_lem b n h g

  receive_from-Balanced :
      (chan : List QueuedRuleMessage) (h : RuleHandler Engine)
      → IsCovered h
      → owes_all h.rule_message_chan ≡ owes_all chan
      → All IsNonneg chan
      → Balanced consumes h (receive_from consume_next decode chan h)
  unfolding receive_from consume_rule_message release_message taken owed owes_all owes
  receive_from-Balanced [] h c same ok = (omega int_laws, c.claimed, c.messages)
  receive_from-Balanced (m ∷ ms) h c same ok =
      let was = parts_of_eq same in
      let rest = owes_all-nonneg ms ok.1 in
      let most = c.covered in
      let first = c.claimed in
      let given =
        parts_of_eq
          (released_in m.payload m.reserved_bytes h.queued_bytes ok.0 (omega (int_laws, ok.0))) in
      (omega int_laws, c.claimed, ok.1)

  enqueue-Balanced :
      (item : RuleItem) (h : RuleHandler Engine)
      → IsCovered h
      → Balanced (enqueues item) h (
          enqueue consume_next decode
            (record { item = some item; payload = none; reserved_bytes = pos 0 })
            h)
  unfolding enqueue taken owed owes
  enqueue-Balanced item h c =
      let m : QueuedRuleMessage = record {
        item = some item;
        payload = none;
        reserved_bytes = pos 0;
      } in
      let full = parts_of_eq (owes-append h.rule_message_chan m) in
      (
        omega int_laws,
        c.claimed,
        All-append IsNonneg h.rule_message_chan (m ∷ []) c.messages (omega arith, tt),
      )

  step-Balanced :
      (s : Step) (h : RuleHandler Engine)
      → IsCovered h
      → pos 0 ≤ℤ taken s h
      → Balanced s h (step consume_next decode s h)
  unfolding step taken receive send cancel consume enqueue_file_rule_item owed
  step-Balanced (receives uuid payload) h c t =
      receive_in-Balanced h.claimed uuid payload h c refl t
  step-Balanced sends h c t = elim (Bool-cases (has_room consume_next decode h)) [
    | inl e ↦ rw (send, e) (send_in-Balanced h.claimed h c refl)
    | inr e ↦ rw (send, e) (omega int_laws, c.claimed, c.messages)
  ]
  step-Balanced cancels h c t = cancel_in-Balanced h.claimed h c refl
  step-Balanced consumes h c t = receive_from-Balanced h.rule_message_chan h c refl c.messages
  step-Balanced (enqueues item) h c t = elim (Bool-cases (has_room consume_next decode h)) [
    | inl e ↦ rw e (enqueue-Balanced item h c)
    | inr e ↦ rw e (omega int_laws, c.claimed, c.messages)
  ]

  -- The bytes that a step takes over were reserved, on top of those that the handler owes already.
  abbrev pub IsBacked : List Step → RuleHandler Engine → Type 0
  IsBacked [] h = Unit {0}
  IsBacked (s ∷ ss) h =
      (pos 0 ≤ℤ taken s h)
      × (owed h +ℤ taken s h ≤ℤ queued h)
      × IsBacked ss (step consume_next decode s h)

  run-Balanced :
      (ss : List Step) (h : RuleHandler Engine)
      → IsCovered h
      → IsBacked ss h
      → let h' = run consume_next decode ss h in
        (queued h' +ℤ (owed h +ℤ all_taken ss h) ≡ queued h +ℤ owed h') × IsCovered h'
  unfolding run all_taken
  run-Balanced [] h c b = (omega int_laws, c)
  run-Balanced (s ∷ ss) h c b =
      let next = step consume_next decode s h in
      let one = step-Balanced s h c b.0 in
      let moved = parts_of_eq one.0 in
      let room = b.1 in
      let rest =
        run-Balanced ss next
          (record { claimed = one.1; messages = one.2; covered = omega int_laws }) b.2 in
      let all = parts_of_eq rest.0 in (omega int_laws, rest.1)

  release_all_lem :
      (ms : List QueuedRuleMessage) (b : Budget)
      → All IsNonneg ms
      → owes_all ms ≤ℤ b.queued
      → (release_all ms b).queued +ℤ owes_all ms ≡ b.queued
  unfolding release_all release_message owes_all owes
  release_all_lem [] b ok g = omega int_laws
  release_all_lem (m ∷ ms) b ok g =
      let rest = owes_all-nonneg ms ok.1 in
      let one = parts_of_eq (released_in m.payload m.reserved_bytes b ok.0 (omega int_laws)) in
      let all = parts_of_eq (release_all_lem ms (release_message m b) ok.1 (omega int_laws)) in
      omega int_laws

  -- Every byte that is taken over from a publisher is given back exactly once, whatever the order
  -- in which the goroutines claim, send, give up, consume and enqueue items of files: when the
  -- subscriber is done and the channel is drained, the counter has fallen by what the handler owed
  -- at the start and what it took over since, provided that these bytes were reserved.
  pub release_queued_rule_messages-run :
      (ss : List Step) (h : RuleHandler Engine)
      → IsCovered h
      → IsBacked ss h
      → (run consume_next decode ss h).claimed ≡ none
      → (release_queued_rule_messages consume_next decode
            (run consume_next decode ss h)).queued_bytes.queued
          +ℤ (owed h +ℤ all_taken ss h)
        ≡ h.queued_bytes.queued
  unfolding release_queued_rule_messages owed owes_claimed
  release_queued_rule_messages-run ss h c b idle =
      let h' = run consume_next decode ss h in
      let ended = run-Balanced ss h c b in
      let moved = parts_of_eq ended.0 in
      let none_left = parts_of_eq (ap owes_claimed idle) in
      let room = ended.1.covered in
      let drained =
        parts_of_eq (
          release_all_lem h'.rule_message_chan h'.queued_bytes ended.1.messages (omega int_laws)) in
      omega int_laws
