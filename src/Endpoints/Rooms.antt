-- ===== src/Endpoints/Rooms.antt =====
-- internal/endpoints/endpoints.go: the handlers that read conversations.
use chatterloop_developer_se.Common.{
  ℕ, Option, List, Text, ℤ, Fetched, found, missing, broken, Rows,
}
use chatterloop_developer_se.Endpoints.{
  Reply, refused, answered, with_token, read_limit, resolve_handles, Named,
}
use chatterloop_developer_se.Auth.Token.{Token}
use chatterloop_developer_se.Platform.Bson.{Value, Fields}
use chatterloop_developer_se.Platform.Membership.{
  Queries, Assertion, assert_member, granted, no_access, failed,
}
use chatterloop_developer_se.Platform.Messages.{resolve_reply_parents, Message, replies_to}
use chatterloop_developer_se.Platform.Thread as Thread
use chatterloop_developer_se.Platform.Thread.{reply_thread}
use chatterloop_developer_se.Platform.Thread.Segments.{ancestor_segment}
use chatterloop_developer_se.Platform.Conversation.{
  LoadedConversation, load_conversation, recent_messages, find_messages,
}
use chatterloop_developer_se.Endpoints.Reads.{limit_in}

-- What the conversation routes ask: the membership queries, the document of a conversation, its newest
-- messages up to a limit, the senders of messages, handles, the anchor and the segments of a walk, the
-- newest replies up to a limit, and which ids an entity wrote.
pub record Conversations : Type 0 where
  pub membership : Queries
  pub document : Text → Fetched Fields
  pub newest : Text → ℤ → Fetched (List Fields)
  pub senders : List Text → Fetched (List (Text × Text))
  pub handles : List Text → Fetched (Rows (Text × Text))
  pub anchor : Text → Text → Fetched Fields
  pub segment : Text → Text → ℕ → Fetched (List Fields)
  pub replies : Text → ℤ → Fetched (List Fields)
  pub authored : List Text → Text → Fetched (List Text)
  pub epoch_millis : Value → ℤ

pub record Transcript : Type 0 where
  pub conversation_id : Text
  pub conversation_type : Text
  pub messages : List Named

abbrev pub in_conversation {ℓ} :
    {A : Type ℓ} → Fetched LoadedConversation → (LoadedConversation → Reply A) → Reply A
in_conversation (found conversation) handle = handle conversation
in_conversation missing handle = refused 404
in_conversation broken handle = refused 500

abbrev pub loaded_for : Conversations → Text → Token → Fetched LoadedConversation
loaded_for c conversation_id token =
    load_conversation (assert_member c.membership conversation_id token.entity_id) c.document
      conversation_id

abbrev pub transcript_of :
    Conversations → Text → LoadedConversation → Fetched (List Message) → Reply Transcript
transcript_of c conversation_id conversation (found messages) = answered 200 (record {
  conversation_id = conversation_id;
  conversation_type = conversation.conversation_type;
  messages = resolve_handles c.handles messages;
})
transcript_of c conversation_id conversation missing = refused 500
transcript_of c conversation_id conversation broken = refused 500

unfoldable pub conversation_messages :
    (Text → Option ℤ) → Conversations → Option Token → Text → Text → Reply Transcript
unfolding read_limit resolve_handles load_conversation assert_member
conversation_messages parse c context conversation_id limit = with_token context λ token.
    in_conversation (loaded_for c conversation_id token) λ conversation.
      transcript_of c conversation_id conversation (
        recent_messages c.epoch_millis c.senders
          (c.newest conversation_id (limit_in parse limit 50 200)) conversation_id)

pub record ThreadReply : Type 0 where
  pub conversation : LoadedConversation
  pub thread : Thread.Thread
  pub messages : List Named

abbrev pub thread_reply : Conversations → LoadedConversation → Thread.Outcome → Reply ThreadReply
thread_reply c conversation (Thread.thread t) = answered 200 (record {
  conversation = conversation;
  thread = t;
  messages = resolve_handles c.handles t.messages;
})
thread_reply c conversation Thread.message_not_found = refused 404
thread_reply c conversation Thread.failed = refused 500

unfoldable pub conversation_thread :
    (Text → Option ℤ) → Conversations → Option Token → Text → Text → Text → Reply ThreadReply
unfolding read_limit resolve_handles load_conversation assert_member
conversation_thread parse c context conversation_id message_id limit = with_token context λ token.
    in_conversation (loaded_for c conversation_id token) λ conversation.
      thread_reply c conversation (
        reply_thread c.epoch_millis (c.anchor conversation_id)
          (λ start budget. ancestor_segment (c.segment conversation_id start budget))
          (resolve_reply_parents c.senders) conversation_id message_id
          (read_limit parse limit 20 50))

abbrev pub replies_reply : Conversations → Fetched (List Message) → Reply (List Named)
replies_reply c (found replies) = answered 200 (resolve_handles c.handles replies)
replies_reply c missing = refused 500
replies_reply c broken = refused 500

abbrev pub for_member {ℓ} : {A : Type ℓ} → Assertion → Reply A → Reply A
for_member granted r = r
for_member no_access r = refused 404
for_member failed r = refused 500

unfoldable pub conversation_replies :
    (Text → Option ℤ) → Conversations → Option Token → Text → Text → Reply (List Named)
unfolding read_limit resolve_handles assert_member
conversation_replies parse c context conversation_id limit = with_token context λ token.
    for_member (assert_member c.membership conversation_id token.entity_id) (
      replies_reply c (
        replies_to
          (find_messages c.epoch_millis (c.replies conversation_id (limit_in parse limit 25 100))
            conversation_id)
          c.authored token.entity_id))
