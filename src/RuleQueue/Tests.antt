-- ===== src/RuleQueue/Tests.antt =====
-- One batch over HTTP and one item of a file (internal/mod/rule/handler.go).
use co_scout.Prelude.{
  ◌≡◌, refl, true, List, [], ◌∷◌, ◌++◌, none, some, if◌then◌else◌, Text, text_eq, codes, arith, put,
}
use co_scout.Prelude.Int.{pos, ◌+ℤ◌, ◌-ℤ◌}
use co_scout.Budget.{Budget, reservation_open, claim_message, admit_message, release}
use co_scout.Rule.Engine.Consume.{RuleItem}
use co_scout.RuleQueue.{
  RuleHandler, Payload, array, Step, receives, sends, consumes, enqueues, run,
  release_queued_rule_messages,
}
use co_scout.RuleQueue.Accounts.{
  owed, owes, owes_all, owes_claimed, taken, all_taken, release_queued_rule_messages-run,
}

abbrev item : Text → RuleItem
item msg = record { msg = msg; topic = codes "t"; ts = pos 1; source = codes "file" }

-- An engine that remembers the messages.
abbrev log_item : RuleItem → List Text → List Text
log_item i log = log ++ i.msg ∷ []

abbrev decode : Text → Payload
decode payload = array (item payload ∷ []) true

abbrev budget : Budget
budget = record {
  limit = pos 100;
  queued = pos 30;
  reservations = λ k.
      if text_eq k (codes "m")
      then some (record { size = pos 30; state = reservation_open })
      else none;
}

abbrev handler : RuleHandler (List Text)
handler = record { queued_bytes = budget; rule_message_chan = []; engine = []; claimed = none }

abbrev steps : List Step
steps = receives (codes "m") (codes "p") ∷ enqueues (item (codes "f")) ∷ sends ∷ consumes ∷ []

in_order :
    (run log_item decode (steps ++ consumes ∷ []) handler).engine ≡ codes "f" ∷ codes "p" ∷ []
unfolding run claim_message admit_message release put text_eq ◌-ℤ◌ ◌+ℤ◌
in_order = refl

release_queued_rule_messages-run_example :
    (release_queued_rule_messages log_item decode
        (run log_item decode steps handler)).queued_bytes.queued
      +ℤ (owed log_item decode handler +ℤ all_taken log_item decode steps handler)
    ≡ pos 30
unfolding run claim_message admit_message put text_eq owed owes_all owes_claimed taken ◌+ℤ◌ owes
release_queued_rule_messages-run_example =
    release_queued_rule_messages-run log_item decode steps handler
      (record { claimed = omega arith; messages = tt; covered = omega arith })
      (
        omega arith,
        omega arith,
        (omega arith, omega arith, (omega arith, omega arith, (omega arith, omega arith, tt))),
      )
      refl
