-- ===== src/RuleQueue.antt =====
-- internal/mod/rule/handler.go: the channel between the goroutines that bring rule messages, over
-- HTTP and from files, and the one that hands them to the engine. The engine's ConsumeNext and
-- the JSON decoder are parameters. What a goroutine does between two operations on the channel or
-- on a context is one step.
pub mod Accounts
pub mod Order
mod Tests
use co_scout.Prelude.{
  ℕ, Bool, true, false, ◌&&◌, List, [], ◌∷◌, ◌++◌, Option, none, some, if◌then◌else◌, Text, codes,
  ltb, length,
}
use co_scout.Prelude.Int.{ℤ, pos}
use co_scout.Budget.{Budget, claim_message, admit_message, abort_message, release}
use co_scout.Rule.Engine.Consume.{RuleItem}

-- A message with a payload came over HTTP.
pub record QueuedRuleMessage : Type 0 where
  pub item : Option RuleItem
  pub payload : Option Text
  pub reserved_bytes : ℤ

-- A payload for the JSON decoder: an array gives the items before the first one that does not
-- decode, or all.
pub data Payload : Type 0 where
  not_json not_array : Payload
  array : List RuleItem → Bool → Payload

abbrev pub channel_capacity : ℕ
channel_capacity = 1000

-- The claimed message that the subscriber wants to send: its id, its payload and its bytes.
pub record Claimed : Type 0 where
  pub uuid : Text
  pub payload : Text
  pub reserved_bytes : ℤ

pub record RuleHandler (Engine : Type 0) : Type 0 where
  pub queued_bytes : Budget
  pub rule_message_chan : List QueuedRuleMessage
  pub engine : Engine
  pub claimed : Option Claimed

unfoldable pub release_in : Option Text → ℤ → Budget → Budget
release_in none n b = b
release_in (some payload) n b = (release b n).0

unfoldable pub release_message : QueuedRuleMessage → Budget → Budget
unfolding release_in
release_message message b = release_in message.payload message.reserved_bytes b

unfoldable pub release_all : List QueuedRuleMessage → Budget → Budget
unfolding release_message
release_all [] b = b
release_all (m ∷ ms) b = release_all ms (release_message m b)

module _ {Engine : Type 0} (consume_next : RuleItem → Engine → Engine)
    (decode : Text → Payload) where
  -- Whether there was no error, with the engine.
  unfoldable pub consume_items : List RuleItem → Engine → Engine
  consume_items [] e = e
  consume_items (item ∷ items) e =
      consume_items items (consume_next (record item { source = codes "http" }) e)

  unfoldable pub consume_payload : Payload → Engine → Engine × Bool
  unfolding consume_items
  consume_payload not_json e = (e, false)
  consume_payload not_array e = (e, false)
  consume_payload (array items ends) e = (consume_items items e, ends)

  unfoldable pub consume_http_rule_batch : Text → Engine → Engine × Bool
  unfolding consume_payload
  consume_http_rule_batch payload e = consume_payload (decode payload) e

  -- The item of a file, if the message has one.
  unfoldable pub consume_file : Option RuleItem → Engine → Engine
  consume_file none e = e
  consume_file (some item) e = consume_next item e

  unfoldable pub consume_in : Option Text → QueuedRuleMessage → Engine → Engine
  unfolding consume_http_rule_batch consume_file
  consume_in none message e = consume_file message.item e
  consume_in (some payload) message e = (consume_http_rule_batch payload e).0

  -- What a message does to the engine.
  unfoldable pub consume_message : QueuedRuleMessage → Engine → Engine
  unfolding consume_in
  consume_message message e = consume_in message.payload message e

  unfoldable pub consume_rule_message : QueuedRuleMessage → RuleHandler Engine → RuleHandler Engine
  unfolding consume_message release_message
  consume_rule_message message h = record h {
    engine = consume_message message h.engine;
    queued_bytes = release_message message h.queued_bytes;
  }

  -- handleRuleMessage up to its select.
  claim : Text → Text → Budget × (ℤ × Bool) → RuleHandler Engine → RuleHandler Engine
  claim uuid payload (b, (n, false)) h = record h { queued_bytes = b }
  claim uuid payload (b, (n, true)) h = record h {
    queued_bytes = b;
    claimed = some (record { uuid = uuid; payload = payload; reserved_bytes = n });
  }

  -- The subscriber takes a message only when it has sent the one before.
  receive_in : Option Claimed → Text → Text → RuleHandler Engine → RuleHandler Engine
  unfolding claim
  receive_in (some c) uuid payload h = h
  receive_in none uuid payload h = claim uuid payload (claim_message h.queued_bytes uuid) h

  unfoldable pub has_room : RuleHandler Engine → Bool
  has_room h = ltb (length h.rule_message_chan) channel_capacity

  enqueue : QueuedRuleMessage → RuleHandler Engine → RuleHandler Engine
  enqueue message h = record h { rule_message_chan = h.rule_message_chan ++ message ∷ [] }

  -- The select of handleRuleMessage, where it sends.
  send_in : Option Claimed → RuleHandler Engine → RuleHandler Engine
  unfolding enqueue
  send_in none h = h
  send_in (some c) h =
      enqueue (record { item = none; payload = some c.payload; reserved_bytes = c.reserved_bytes })
        (record h { queued_bytes = (admit_message h.queued_bytes c.uuid).0; claimed = none })

  -- The same, where the context is done; the bytes are released on the way out.
  cancel_in : Option Claimed → RuleHandler Engine → RuleHandler Engine
  cancel_in none h = h
  cancel_in (some c) h = record h {
    queued_bytes = (release (abort_message h.queued_bytes c.uuid).0 c.reserved_bytes).0;
    claimed = none;
  }

  receive_from : List QueuedRuleMessage → RuleHandler Engine → RuleHandler Engine
  unfolding consume_rule_message
  receive_from [] h = h
  receive_from (m ∷ ms) h = consume_rule_message m (record h { rule_message_chan = ms })

  unfoldable pub release_queued_rule_messages : RuleHandler Engine → RuleHandler Engine
  unfolding release_all
  release_queued_rule_messages h = record h {
    queued_bytes = release_all h.rule_message_chan h.queued_bytes;
    rule_message_chan = [];
  }

  -- A message from another goroutine that waits for room changes nothing.
  unfoldable pub enqueue_file_rule_item : RuleItem → RuleHandler Engine → RuleHandler Engine
  unfolding enqueue has_room
  enqueue_file_rule_item item h =
      if has_room h
      then enqueue (record { item = some item; payload = none; reserved_bytes = pos 0 }) h
      else h

  unfoldable pub receive : Text → Text → RuleHandler Engine → RuleHandler Engine
  unfolding receive_in
  receive uuid payload h = receive_in h.claimed uuid payload h

  unfoldable pub send : RuleHandler Engine → RuleHandler Engine
  unfolding send_in has_room
  send h = if has_room h then send_in h.claimed h else h

  unfoldable pub cancel : RuleHandler Engine → RuleHandler Engine
  unfolding cancel_in
  cancel h = cancel_in h.claimed h

  unfoldable pub consume : RuleHandler Engine → RuleHandler Engine
  unfolding receive_from
  consume h = receive_from h.rule_message_chan h

-- What the goroutines do, in some order.
pub data Step : Type 0 where
  receives : Text → Text → Step
  sends cancels consumes : Step
  enqueues : RuleItem → Step

module _ {Engine : Type 0} (consume_next : RuleItem → Engine → Engine)
    (decode : Text → Payload) where
  unfoldable pub step : Step → RuleHandler Engine → RuleHandler Engine
  unfolding receive send cancel consume enqueue_file_rule_item
  step (receives uuid payload) h = receive consume_next decode uuid payload h
  step sends h = send consume_next decode h
  step cancels h = cancel consume_next decode h
  step consumes h = consume consume_next decode h
  step (enqueues item) h = enqueue_file_rule_item consume_next decode item h

  unfoldable pub run : List Step → RuleHandler Engine → RuleHandler Engine
  unfolding step
  run [] h = h
  run (s ∷ ss) h = run ss (step s h)
