-- ===== src/Endpoints/Tests.antt =====
-- Witnesses of internal/endpoints's theorems.
use chatterloop_developer_se.Common.{
  true, false, none, some, List, [], ◌∷◌, Text, Option, codes, ℤ, pos, found, missing, broken,
  exhausted, rows_of, contains, Distinct, ◌≡◌, refl,
}
use chatterloop_developer_se.Auth.Token.{Token}
use chatterloop_developer_se.Platform.Membership.{Queries, granted, answered}
use chatterloop_developer_se.Platform.Send.{Setting, SendRequest}
use chatterloop_developer_se.Endpoints.Rooms.{
  Conversations, conversation_messages, conversation_thread, conversation_replies,
}
use chatterloop_developer_se.Endpoints.Writes.{send_message_handler}
use chatterloop_developer_se.Platform.Comments as Comments
use chatterloop_developer_se.Platform.Comments.{Recipients, pinged, tell_owner}
use chatterloop_developer_se.Platform.Mentionable.Reachable.{sides}
use chatterloop_developer_se.Endpoints.Writes.{FanOut, recipients_of}
use chatterloop_developer_se.Endpoints.Telling.{pinged-Unblocked}
use chatterloop_developer_se.Endpoints.Refusing.{
  Answered, Joined, conversation_routes-Joined, Posted, send_message_handler-Posted,
}

abbrev token : Token
token = record {
  id = codes "t1";
  entity_id = codes "e1";
  realm_id = none;
  name = codes "bot";
  scopes = [];
  prefix = codes "0123456789ab";
  rate_limit_int = none;
  rate_limit_type = none;
}

abbrev queries : Queries
queries = record {
  blocked = λ _ _. found false;
  conversation = λ _. missing;
  any_community = λ _. found false;
  realm = λ _. missing;
  member = λ _ _. missing;
  connection = λ _ _. found 1;
  conversations = λ _ _. found 0;
  by_connection = λ _. found exhausted;
  by_membership = λ _. found exhausted;
  by_ids = λ _. found exhausted;
}

abbrev conversations : Conversations
conversations = record {
  membership = queries;
  document = λ _. missing;
  newest = λ _ _. found [];
  senders = λ _. found [];
  handles = λ _. found exhausted;
  anchor = λ _ _. missing;
  segment = λ _ _ _. broken;
  replies = λ _ _. found [];
  authored = λ _ _. found [];
  epoch_millis = λ _. pos 0;
}

abbrev parses : Text → Option ℤ
parses _ = some (pos 10)

conversation_routes-Joined_example :
    (Answered (conversation_messages parses conversations (some token) (codes "c1") [])
      → Joined conversations (codes "c1") token)
    × (Answered (conversation_thread parses conversations (some token) (codes "c1") (codes "m1") [])
        → Joined conversations (codes "c1") token)
    × (Answered (conversation_replies parses conversations (some token) (codes "c1") [])
        → Joined conversations (codes "c1") token)
conversation_routes-Joined_example =
    conversation_routes-Joined parses conversations token (codes "c1") (codes "m1") []

abbrev setting : Text → SendRequest → Setting
setting _ _ = record {
  access = granted;
  fresh_id = some (codes "123");
  receivers = answered (found (record { entity_id = codes "e2"; username = codes "bo" } ∷ []));
  stored_type = codes "group";
  realm_type = [];
  realm_name = codes "Server | General";
  sender_handle = codes "ana";
  default_pending_id = codes "api-1";
  sent_at = codes "1700000000000";
  inserts = true;
  lock = some true;
  to_lower = λ t. t;
}

abbrev body : SendRequest
body = record {
  conversation_id = codes "c1";
  content = codes " hi @bo ";
  message_type = [];
  conversation_type = codes "single";
  replying_to = [];
  pending_id = [];
}

send_message_handler-Posted_example :
    Posted queries setting
      (some token)
      (some body)
      (send_message_handler queries setting (some token) (some body))
send_message_handler-Posted_example =
    send_message_handler-Posted queries setting (some token) (some body)

abbrev block_pairs : List (Text × Text)
block_pairs = (codes "e3", codes "e1") ∷ []

abbrev comment_row : Comments.CommentRow
comment_row = record {
  comment_id = codes "c3";
  parent_comment_id = [];
  post_id = codes "p1";
  text = codes "hi @ana and @bo";
  entity_id = codes "e1";
  is_deleted = false;
  is_anonymous = false;
}

abbrev comment_post : Comments.PostRow
comment_post = record {
  post_id = codes "p1";
  entity_id = codes "e4";
  community_count = 0;
  community_realm = [];
}

abbrev recipients : Recipients
recipients = record {
  author_handle = codes "@e1";
  mentioned = missing;
  quoted = λ t. t;
  runes = λ t. t;
  string = λ t. t;
  delivers = λ _. true;
}

abbrev fan_out_setting : FanOut
fan_out_setting = record {
  actor = λ _. missing;
  interests = λ _. found exhausted;
  handles = λ _. found exhausted;
  recipients = λ _. recipients;
  lower = λ t. t;
  entities = λ _. found (rows_of ((codes "e2", codes "ana") ∷ (codes "e3", codes "bo") ∷ []));
  blocks = λ _. found (rows_of block_pairs);
}

pinged-Unblocked_example :
    Distinct (pinged (recipients_of fan_out_setting comment_row) comment_row comment_post none)
    × (contains
          (codes "e1")
          (pinged (recipients_of fan_out_setting comment_row) comment_row comment_post none)
        ≡ false)
    × ((e : Text)
        → contains e
            (pinged (recipients_of fan_out_setting comment_row) comment_row comment_post none)
          ≡ true
        → contains e
            (tell_owner (recipients_of fan_out_setting comment_row) comment_row comment_post none)
          ≡ false
        → contains e (sides block_pairs) ≡ false)
pinged-Unblocked_example =
    pinged-Unblocked fan_out_setting comment_row comment_post none block_pairs refl
