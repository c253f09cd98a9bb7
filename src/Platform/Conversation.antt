-- ===== src/Platform/Conversation.antt =====
-- internal/platform/messages.go: LoadConversation, RecentMessages, ToEpochMillis and their helpers.
-- AssertMember is that of Platform/Membership; the queries and time.Parse are parameters.
use chatterloop_developer_se.Common.{
  Option, none, some, List, [], ◌∷◌, Text, codes, Fetched, found, missing, broken, ℤ, pos,
}
use chatterloop_developer_se.Platform.Bson.{
  Value, text, int64, int32, double, date_time, object, array, Items, nil, item, Fields, get,
  as_text,
}
use chatterloop_developer_se.Platform.Membership.{Assertion, granted, no_access, failed}
use chatterloop_developer_se.Platform.Messages.{Message, oldest_first, resolve_reply_parents}

abbrev prepend_text : Value → List Text → List Text
prepend_text (text []) out = out
prepend_text (text (c ∷ t)) out = (c ∷ t) ∷ out
prepend_text _ out = out

abbrev texts_of : Items → List Text
texts_of nil = []
texts_of (item v items) = prepend_text v (texts_of items)

unfoldable pub string_slice : Value → List Text
string_slice (array items) = texts_of items
string_slice _ = []

abbrev layouts : List Text
layouts = codes "2006-01-02T15:04:05Z07:00" ∷ codes "2006-01-02T15:04:05" ∷ codes "2006-01-02" ∷ []

abbrev first_parse : (Text → Text → Option ℤ) → Text → List Text → ℤ
first_parse parse raw [] = pos 0
first_parse parse raw (layout ∷ others) =
    let rest = first_parse parse raw others in elim (parse layout raw) [ some t ↦ t | none ↦ rest ]

-- `parse` is time.Parse with UnixMilli.
unfoldable pub parse_date_string : (Text → Text → Option ℤ) → Value → ℤ
parse_date_string parse (text []) = pos 0
parse_date_string parse (text (c ∷ raw)) = first_parse parse (c ∷ raw) layouts
parse_date_string parse _ = pos 0

unfoldable pub to_epoch_millis : (Text → Text → Option ℤ) → Value → ℤ
unfolding parse_date_string get
to_epoch_millis parse (date_time t) = t
to_epoch_millis parse (int64 n) = n
to_epoch_millis parse (int32 n) = n
to_epoch_millis parse (double n) = n
to_epoch_millis parse (object m) = parse_date_string parse (get (codes "date") m)
to_epoch_millis parse _ = pos 0

pub record LoadedConversation : Type 0 where
  pub conversation_id : Text
  pub conversation_type : Text
  pub participant_ids : List Text

abbrev type_or_single : Text → Text
type_or_single [] = codes "single"
type_or_single (c ∷ t) = c ∷ t

abbrev pub conversation_of : Text → Fetched Fields → Fetched LoadedConversation
conversation_of conversation_id (found raw) = found (record {
  conversation_id = conversation_id;
  conversation_type = type_or_single (as_text (get (codes "conversationType") raw));
  participant_ids = string_slice (get (codes "participant_ids") raw);
})
conversation_of conversation_id missing = found (record {
  conversation_id = conversation_id;
  conversation_type = codes "group";
  participant_ids = [];
})
conversation_of conversation_id broken = broken

-- `missing` is ErrNotAParticipant.
unfoldable pub load_conversation :
    Assertion → (Text → Fetched Fields) → Text → Fetched LoadedConversation
unfolding get string_slice
load_conversation granted document conversation_id =
    conversation_of conversation_id (document conversation_id)
load_conversation no_access document conversation_id = missing
load_conversation failed document conversation_id = broken

-- findMessages: `query` answers the documents, the newest first.
unfoldable pub find_messages : (Value → ℤ) → Fetched (List Fields) → Text → Fetched (List Message)
find_messages epoch_millis documents conversation_id = elim documents [
  | found raws ↦ found (oldest_first epoch_millis conversation_id raws [])
  | missing ↦ broken
  | broken ↦ broken
]

abbrev pub or_same : List Message → Fetched (List Message) → List Message
or_same messages (found resolved) = resolved
or_same messages missing = messages
or_same messages broken = messages

-- A failed read of the parents leaves the messages as they are.
unfoldable pub recent_messages :
    (Value → ℤ)
    → (List Text → Fetched (List (Text × Text)))
    → Fetched (List Fields)
    → Text
    → Fetched (List Message)
unfolding find_messages resolve_reply_parents
recent_messages epoch_millis senders documents conversation_id =
    elim (find_messages epoch_millis documents conversation_id) [
      | found messages ↦ found (or_same messages (resolve_reply_parents senders messages))
      | missing ↦ broken
      | broken ↦ broken
    ]
