-- ===== src/Platform/Messages.antt =====
-- internal/platform/messages.go: the Message record, decodeReplyingTo, decodeMessage, findMessages,
-- selectRepliesTo, RepliesTo and resolveReplyParents. `epoch_millis` (ToEpochMillis, whose date
-- layouts are package time's) is a parameter.
pub mod Decoding
pub mod Replies
use chatterloop_developer_se.Common.{
  Bool, true, false, ◌||◌, ◌&&◌, not, Option, none, some, List, [], ◌∷◌, ◌++◌, Text, text_eq,
  contains, if◌then◌else◌, ◌≡◌, refl, codes, lookup, is_empty, is_some, reverse, ℤ, Fetched, found,
  missing, broken, or_else,
}
use chatterloop_developer_se.Platform.Bson.{
  Value, null, text, boolean, object, ordered, Fields, get, get_last, as_text, as_bool, field, end,
}
use chatterloop_developer_se.Platform.Identity.{dedupe}

pub record ReplyTarget : Type 0 where
  pub kind : Text
  pub id : Text

pub record Message : Type 0 where
  pub message_id : Text
  pub conversation_id : Text
  pub sender_entity_id : Text
  pub content : Text
  pub created_at : ℤ
  pub message_type : Text
  pub is_reply : Bool
  pub replying_to : Text
  pub replying_to_sender : Text
  pub reply_target : Option ReplyTarget

abbrev pub reply_target_message : Text
reply_target_message = codes "message"

-- The object shape of `replyingTo`, by its two fields.
abbrev target_of : Text → Text → Text × Option ReplyTarget
target_of target_type target_id =
    let target : ReplyTarget = record { kind = target_type; id = target_id } in
    if is_empty target_type || is_empty target_id
    then ([], none)
    else if text_eq target_type reply_target_message
    then (target_id, some target)
    else ([], some target)

unfoldable pub decode_replying_to : Value → Text × Option ReplyTarget
decode_replying_to (text stored) =
    if is_empty stored
    then ([], none)
    else (stored, some (record { kind = reply_target_message; id = stored }))
decode_replying_to (object stored) =
    target_of (as_text (get (codes "type") stored)) (as_text (get (codes "id") stored))
decode_replying_to (ordered stored) =
    target_of (as_text (get_last (codes "type") stored)) (as_text (get_last (codes "id") stored))
decode_replying_to _ = ([], none)

-- storedReplyingTo of internal/platform/send.go.
unfoldable pub stored_replying_to : Text → Value
stored_replying_to [] = text []
stored_replying_to (c ∷ message_id) = object (
    field (codes "type") (text reply_target_message)
      (field (codes "id") (text (c ∷ message_id)) end))

abbrev pub if_blank : Text → Text → Text
if_blank t fallback = if is_empty t then fallback else t

module _ (epoch_millis : Value → ℤ) where
  abbrev decode_text : Fields → Text → Value → Option Message
  decode_text raw conversation_id (text content) =
      let (replying_to, target) = decode_replying_to (get (codes "replyingTo") raw) in
      some (record {
        message_id = as_text (get (codes "messageID") raw);
        conversation_id = if_blank (as_text (get (codes "conversationID") raw)) conversation_id;
        sender_entity_id = as_text (get (codes "sender") raw);
        content = content;
        created_at = epoch_millis (get (codes "messageDate") raw);
        message_type = if_blank (as_text (get (codes "messageType") raw)) (codes "text");
        is_reply = as_bool (get (codes "isReply") raw);
        replying_to = replying_to;
        replying_to_sender = [];
        reply_target = target;
      })
  decode_text raw conversation_id _ = none

  unfoldable pub decode_message : Fields → Text → Option Message
  decode_message raw conversation_id =
      if is_empty (as_text (get (codes "messageID") raw))
        || is_empty (as_text (get (codes "sender") raw))
      then none
      else decode_text raw conversation_id (get (codes "content") raw)

  -- The reversing loop of findMessages over the newest-first rows.
  unfoldable pub oldest_first : Text → List Fields → List Message → List Message
  oldest_first conversation_id [] messages = messages
  oldest_first conversation_id (raw ∷ raws) messages =
      oldest_first conversation_id raws
        (elim (decode_message raw conversation_id) [ none ↦ messages | some m ↦ m ∷ messages ])

-- `own` is the map of the parents that the entity wrote.
unfoldable pub select_replies_to : List Message → List Text → List Message
select_replies_to [] own = []
select_replies_to (m ∷ messages) own =
    if is_empty m.replying_to || not (contains m.replying_to own)
    then select_replies_to messages own
    else m ∷ select_replies_to messages own

abbrev pub parent_ids : List Message → List Text
parent_ids [] = []
parent_ids (m ∷ messages) =
    if is_empty m.replying_to then parent_ids messages else m.replying_to ∷ parent_ids messages

-- The query of messagesAuthoredBy: which of these ids the entity wrote.
unfoldable pub messages_authored_by :
    (List Text → Text → Fetched (List Text)) → List Text → Text → Fetched (List Text)
messages_authored_by query ids entity_id = elim (dedupe ids) [
  | [] ↦ found []
  | first ∷ others ↦ query (first ∷ others) entity_id
]

abbrev pub with_sender : Text → List Message → List Message
with_sender entity_id [] = []
with_sender entity_id (m ∷ ms) =
    record m { replying_to_sender = entity_id } ∷ with_sender entity_id ms

-- `candidates` answers the window of replies of the conversation.
unfoldable pub replies_to :
    Fetched (List Message)
    → (List Text → Text → Fetched (List Text))
    → Text
    → Fetched (List Message)
replies_to candidates query [] = found []
replies_to candidates query (c ∷ entity) = elim candidates [
  | found messages ↦ elim (messages_authored_by query (parent_ids messages) (c ∷ entity)) [
    | found own ↦ found (with_sender (c ∷ entity) (select_replies_to messages own))
    | _ ↦ broken
  ]
  | _ ↦ broken
]

-- `senders` answers the batch lookup of the parents.
unfoldable pub resolve_parents : List (Text × Text) → List Message → List Message
resolve_parents senders [] = []
resolve_parents senders (m ∷ ms) =
    record m { replying_to_sender = or_else [] (lookup m.replying_to senders) }
    ∷ resolve_parents senders ms

abbrev read_parents : List Message → Fetched (List (Text × Text)) → Fetched (List Message)
read_parents messages (found senders) = found (resolve_parents senders messages)
read_parents messages _ = broken

unfoldable pub resolve_reply_parents :
    (List Text → Fetched (List (Text × Text))) → List Message → Fetched (List Message)
unfolding resolve_parents
resolve_reply_parents query messages = elim (dedupe (parent_ids messages)) [
  | [] ↦ found messages
  | first ∷ others ↦ read_parents messages (query (first ∷ others))
]
