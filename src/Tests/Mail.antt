-- ===== src/Tests/Mail.antt =====
-- The theorems on the mailbox at concrete inputs.
use vaws_coordinator.Prelude.{◌≡◌, false, refl, none, some, [], ◌∷◌, here, there, In, arith}
use vaws_coordinator.Host.State.{Message, Db}
use vaws_coordinator.Host.Result.{ok}
use vaws_coordinator.Host.Messages.{
  MessageRequest, message_body, new_message, add_message, events_body, read_inbox,
}
use vaws_coordinator.Host.Messages.Retry.{message_retry}
use vaws_coordinator.Host.Messages.Reading.{no_message_skipped}
use vaws_coordinator.Host.Run.{fresh_db}

abbrev letter : MessageRequest
letter = record {
  user = "alice";
  session_id = "session-a";
  text = "may I have device 0?";
  message_id = "message-1";
  reply_to = none;
  recipient = some "bob";
  recipient_session = some "session-b";
}

abbrev mail_db : Db
mail_db = record (fresh_db "epoch") {
  peers = record { user = "bob"; session_id = "session-b"; seen_at = 1 } ∷ [];
}

abbrev sent : Message
sent = new_message 1 10 letter ("bob", "session-b", "message-1")

abbrev sent_db : Db
sent_db = add_message sent mail_db

message_retry_example : message_body 2 20 letter sent_db ≡ ok (sent, sent_db)
unfolding message_body
message_retry_example = message_retry 1 10 2 20 letter mail_db sent sent_db refl

-- A second message stands before the first one in the table.
abbrev shuffled_db : Db
shuffled_db = record sent_db {
  messages = record sent { cursor = 2; message_id = "message-2" } ∷ sent ∷ [];
}

no_message_skipped_example : In sent (read_inbox "bob" "session-b" 0 1 shuffled_db.messages)
unfolding events_body new_message add_message
no_message_skipped_example =
    no_message_skipped 30 "bob" "session-b" 0 1 false shuffled_db _ _ sent refl refl (there here)
      refl (omega arith)
