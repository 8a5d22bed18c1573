-- ===== src/RuleQueue/Order.antt =====
-- The order in which the engine gets the messages of internal/mod/rule/handler.go.
use co_scout.Prelude.{List, [], ◌∷◌, ◌++◌, Option, none, some, if◌then◌else◌, Text, codes, map}
use co_scout.Prelude.Int.{pos}
use co_scout.Rule.Engine.Consume.{RuleItem}
use co_scout.RuleQueue.{
  RuleHandler, QueuedRuleMessage, Claimed, Payload, Step, receives, sends, cancels, consumes,
  enqueues, step, has_room, array, not_json, not_array,
}

-- The message that the subscriber or the reader of a file is to send.
unfoldable pub http_message : Claimed → QueuedRuleMessage
http_message c = record { item = none; payload = some c.payload; reserved_bytes = c.reserved_bytes }

unfoldable pub file_message : RuleItem → QueuedRuleMessage
file_message item = record { item = some item; payload = none; reserved_bytes = pos 0 }

module _ {Engine : Type 0} (consume_next : RuleItem → Engine → Engine)
    (decode : Text → Payload) where
  from_http : RuleItem → RuleItem
  from_http item = record item { source = codes "http" }

  unfoldable pub items_in : Payload → List RuleItem
  unfolding from_http
  items_in not_json = []
  items_in not_array = []
  items_in (array items ends) = map from_http items

  unfoldable pub items_of : Option RuleItem → Option Text → List RuleItem
  unfolding items_in
  items_of item (some payload) = items_in (decode payload)
  items_of (some item) none = item ∷ []
  items_of none none = []

  -- The items that messages bring: the item of a file as it is, and the items of an HTTP payload,
  -- up to one that does not decode, with the live source.
  unfoldable pub all_items : List QueuedRuleMessage → List RuleItem
  unfolding items_of
  all_items [] = []
  all_items (m ∷ ms) = items_of m.item m.payload ++ all_items ms

  -- The engine after ConsumeNext for each of some items, in their order.
  unfoldable pub deliver : List RuleItem → Engine → Engine
  deliver [] e = e
  deliver (item ∷ items) e = deliver items (consume_next item e)

  -- The engine after the items of some messages.
  abbrev pub feed : List QueuedRuleMessage → Engine → Engine
  feed ms e = deliver (all_items ms) e

  sent_in : Option Claimed → List QueuedRuleMessage
  sent_in none = []
  sent_in (some c) = http_message c ∷ []

  -- What a step puts into the channel.
  unfoldable pub sent : Step → RuleHandler Engine → List QueuedRuleMessage
  unfolding sent_in
  sent (receives uuid payload) h = []
  sent sends h = if has_room consume_next decode h then sent_in h.claimed else []
  sent cancels h = []
  sent consumes h = []
  sent (enqueues item) h = if has_room consume_next decode h then file_message item ∷ [] else []

  unfoldable pub all_sent : List Step → RuleHandler Engine → List QueuedRuleMessage
  unfolding sent
  all_sent [] h = []
  all_sent (s ∷ ss) h = sent s h ++ all_sent ss (step consume_next decode s h)

  abbrev outlook : RuleHandler Engine → Engine
  outlook h = feed h.rule_message_chan h.engine
