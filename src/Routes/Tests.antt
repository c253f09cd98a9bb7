-- ===== src/Routes/Tests.antt =====
-- Witnesses of the theorems on routes.
use chatterloop_developer_se.Common.{
  ℕ, ltb, ◌+◌, true, false, none, some, List, [], ◌∷◌, Text, codes, if◌then◌else◌, found, missing,
  exhausted, refl, trim_space,
}
use chatterloop_developer_se.Auth.Token.{Token, accepted}
use chatterloop_developer_se.Auth.Authorize.{decided}
use chatterloop_developer_se.Auth.RateLimit.{allowed, exceeded}
use chatterloop_developer_se.Platform.Bson.{text}
use chatterloop_developer_se.Platform.Membership.{
  Queries, granted, answered, assert_member, assert_messaging_capability, assert_direct_member,
  receivers, query_receivers,
}
use chatterloop_developer_se.Platform.Messages.{stored_replying_to}
use chatterloop_developer_se.Platform.Sanitize.{sanitize_for_storage}
use chatterloop_developer_se.Auth.Middleware.{require_scope}
use chatterloop_developer_se.Endpoints.Writes.{send_message_handler}
use chatterloop_developer_se.Platform.Send.{
  Setting, SendRequest, StoredMessage, Effect, inserted, resolve_conversation_type,
}
use chatterloop_developer_se.Routes.{Door, serve_route}
use chatterloop_developer_se.Routes.Sending.{Sender, send_route, send_route-Sender}

abbrev token : Token
token = record {
  id = codes "t1";
  entity_id = codes "e1";
  realm_id = none;
  name = codes "bot";
  scopes = codes "messages.send" ∷ [];
  prefix = codes "0123456789ab";
  rate_limit_int = none;
  rate_limit_type = none;
}

-- A limiter that counts its calls and allows three.
abbrev door : Door ℕ
door = record {
  fields = λ _. codes "Bearer" ∷ codes "clt_x" ∷ [];
  equal_fold = λ _ _. true;
  verify = λ _. accepted token;
  limiter = some (λ _ calls. (if ltb calls 3 then allowed else exceeded 5, calls + 1));
  authorize = λ _ _. decided true;
}

abbrev queries : Queries
queries = record {
  blocked = λ _ _. found false;
  conversation = λ _. missing;
  any_community = λ _. found false;
  realm = λ _. missing;
  member = λ _ _. missing;
  connection = λ _ _. found 1;
  conversations = λ _ _. found 0;
  by_connection = λ _. found exhausted;
  by_membership = λ _. found exhausted;
  by_ids = λ _. found exhausted;
}

abbrev setting : Text → SendRequest → Setting
setting _ _ = record {
  access = granted;
  fresh_id = some (codes "123");
  receivers = answered (found []);
  stored_type = codes "group";
  realm_type = [];
  realm_name = codes "General";
  sender_handle = codes "ana";
  default_pending_id = codes "api-1";
  sent_at = codes "1700000000000";
  inserts = true;
  lock = some true;
  to_lower = λ t. t;
}

abbrev body : SendRequest
body = record {
  conversation_id = codes "c1";
  content = codes "hi";
  message_type = [];
  conversation_type = codes "single";
  replying_to = [];
  pending_id = [];
}

abbrev stored : StoredMessage
stored = record {
  message_id = codes "123";
  conversation_id = codes "c1";
  pending_id = codes "api-1";
  sender = codes "e1";
  content = codes "hi";
  is_reply = false;
  replying_to = text [];
  message_type = codes "text";
  conversation_type = codes "group";
}

abbrev tail_of : List Effect → List Effect
tail_of [] = []
tail_of (e ∷ es) = es

send_route-Sender_example :
    Sender door queries setting (some body) (codes "Bearer clt_x") 0 (inserted stored)
unfolding serve_route require_scope send_message_handler sanitize_for_storage trim_space
    assert_member assert_messaging_capability assert_direct_member receivers query_receivers
    stored_replying_to resolve_conversation_type
send_route-Sender_example =
    send_route-Sender door queries setting (some body) (codes "Bearer clt_x") 0 (inserted stored)
      (tail_of (send_route door queries setting (some body) (codes "Bearer clt_x") 0).0.1) refl
