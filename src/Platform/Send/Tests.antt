-- ===== src/Platform/Send/Tests.antt =====
-- Witnesses of the theorems on sending.
use chatterloop_developer_se.Common.{true, false, some, [], ◌∷◌, codes, found, List, Text}
use chatterloop_developer_se.Platform.Membership.{granted, answered, Receiver}
use chatterloop_developer_se.Platform.Bson.{text}
use chatterloop_developer_se.Platform.Send.{Setting, SendRequest, StoredMessage}

abbrev ana : Receiver
ana = record { entity_id = codes "e1"; username = codes "ana" }

abbrev bo : Receiver
bo = record { entity_id = codes "e2"; username = codes "bo" }

abbrev setting : Setting
setting = record {
  access = granted;
  fresh_id = some (codes "123");
  receivers = answered (found (ana ∷ bo ∷ []));
  stored_type = codes "group";
  realm_type = [];
  realm_name = codes "Server | General";
  sender_handle = codes "ana";
  default_pending_id = codes "api-1";
  sent_at = codes "1700000000000";
  inserts = true;
  lock = some true;
  to_lower = λ t. t;
}

abbrev send_request : SendRequest
send_request = record {
  conversation_id = codes "c1";
  content = codes " hi @bo ";
  message_type = [];
  conversation_type = codes "single";
  replying_to = [];
  pending_id = [];
}

abbrev a_stored : StoredMessage
a_stored = record {
  message_id = codes "123";
  conversation_id = codes "c1";
  pending_id = codes "api-1";
  sender = codes "e1";
  content = codes "hi @bo";
  is_reply = false;
  replying_to = text [];
  message_type = codes "text";
  conversation_type = codes "group";
}

abbrev two_ids : List Text
two_ids = codes "e1" ∷ codes "e2" ∷ []
