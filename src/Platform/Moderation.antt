-- ===== src/Platform/Moderation.antt =====
-- internal/platform/moderation.go: distinct, permittedMessages, ModerationForMessages, the post and
-- comment reads, conversationsOf, findModeration and decodeModeration. The Mongo queries are
-- parameters.
pub mod Access
pub mod Reading
use chatterloop_developer_se.Common.{
  Bool, true, false, ◌||◌, ◌&&◌, not, Option, none, some, List, [], ◌∷◌, ◌++◌, Text, text_eq,
  contains, if◌then◌else◌, ◌≡◌, refl, codes, lookup, insert, is_empty, is_some, keep, Fetched,
  found, missing, broken, Rows, row, exhausted, cut_short, unreadable,
}
use chatterloop_developer_se.Platform.Community.{PostAccess, permits, AccessRow, load_post_access}
use chatterloop_developer_se.Platform.Membership.{Assertion, granted, no_access, failed}
use chatterloop_developer_se.Platform.Bson.{Value, Fields, get, as_text, boolean, object}

unfoldable pub distinct_into : List Text → List Text → List Text
distinct_into out [] = out
distinct_into out (value ∷ values) =
    distinct_into (if text_eq value [] || contains value out then out else out ++ value ∷ []) values

unfoldable pub distinct : List Text → List Text
unfolding distinct_into
distinct values = distinct_into [] values

-- The result of permittedMessages, `none` being its error, and the conversations that `isMember` was
-- asked about, in order.
pub record Permitted : Type 0 where
  pub result : Option (List Text)
  pub asked : List Text

abbrev stop : List Text → Permitted
stop asked = record { result = none; asked = asked }

abbrev append_if : Bool → List Text → Text → List Text
append_if permitted allowed id = if permitted then allowed ++ id ∷ [] else allowed

module _ (conversations : List (Text × Text)) (is_member : Text → Option Bool) where
  -- The loop over the ids, with the map `decided`, `allowed`, and the questions so far.
  unfoldable pub permitted_from : List (Text × Bool) → List Text → List Text → List Text → Permitted
  permitted_from decided allowed asked [] = record { result = some allowed; asked = asked }
  permitted_from decided allowed asked (message_id ∷ ids) = elim (lookup message_id conversations) [
    | none ↦ permitted_from decided allowed asked ids
    | some conversation_id ↦ elim (lookup conversation_id decided) [
      | some permitted ↦ permitted_from decided (append_if permitted allowed message_id) asked ids
      | none ↦ elim (is_member conversation_id) [
        | none ↦ stop (asked ++ conversation_id ∷ [])
        | some permitted ↦
            permitted_from (insert conversation_id permitted decided)
              (append_if permitted allowed message_id) (asked ++ conversation_id ∷ []) ids
      ]
    ]
  ]

  unfoldable pub permitted_messages : List Text → Permitted
  unfolding permitted_from
  permitted_messages ids = permitted_from [] [] [] ids

pub record ModerationRecord : Type 0 where
  pub target_id : Text
  pub source_type : Text
  pub content_type : Text
  pub media_url : Text
  pub status : Text
  pub text : Text
  pub transcription : Text
  pub caption : Text
  pub shown_text : Text
  pub language : Text
  pub is_music : Option Bool

abbrev music : Value → Option Bool
music (boolean b) = some b
music _ = none

abbrev music_of : Value → Option Bool
music_of (object audio) = music (get (codes "isMusic") audio)
music_of _ = none

abbrev pub pending : Text
pending = codes "pending"

abbrev status_of : Text → Text
status_of [] = pending
status_of (c ∷ status) = c ∷ status

unfoldable pub decode_moderation : Fields → ModerationRecord
decode_moderation raw = record {
  target_id = as_text (get (codes "targetID") raw);
  source_type = as_text (get (codes "sourceType") raw);
  content_type = as_text (get (codes "contentType") raw);
  media_url = as_text (get (codes "mediaURL") raw);
  status = status_of (as_text (get (codes "status") raw));
  text = as_text (get (codes "text") raw);
  transcription = as_text (get (codes "transcription") raw);
  caption = as_text (get (codes "caption") raw);
  shown_text = as_text (get (codes "shownText") raw);
  language = as_text (get (codes "language") raw);
  is_music = music_of (get (codes "audio") raw);
}

-- The cursor loop of findModeration: a document that does not decode is skipped.
unfoldable pub read_moderation : Rows Fields → Fetched (List ModerationRecord)
unfolding decode_moderation
read_moderation exhausted = found []
read_moderation cut_short = broken
read_moderation (unreadable rows) = read_moderation rows
read_moderation (row raw rows) = elim (read_moderation rows) [
  | found records ↦ found (decode_moderation raw ∷ records)
  | missing ↦ broken
  | broken ↦ broken
]

unfoldable pub find_moderation :
    (List Text → List Text → Fetched (Rows Fields))
    → List Text
    → List Text
    → Fetched (List ModerationRecord)
find_moderation query ids sources = elim (query ids sources) [
  | found rows ↦ read_moderation rows
  | missing ↦ broken
  | broken ↦ broken
]

abbrev conversation_entry : Text → Text → List (Text × Text) → List (Text × Text)
conversation_entry message_id conversation_id conversations =
    if not (is_empty message_id) && not (is_empty conversation_id)
    then insert message_id conversation_id conversations
    else conversations

-- The cursor loop of conversationsOf.
unfoldable pub read_conversations : List (Text × Text) → Rows Fields → Fetched (List (Text × Text))
read_conversations conversations exhausted = found conversations
read_conversations conversations cut_short = broken
read_conversations conversations (unreadable rows) = read_conversations conversations rows
read_conversations conversations (row raw rows) =
    read_conversations
      (conversation_entry (as_text (get (codes "messageID") raw))
        (as_text (get (codes "conversationID") raw)) conversations)
      rows

unfoldable pub conversations_of :
    (List Text → Fetched (Rows Fields)) → List Text → Fetched (List (Text × Text))
conversations_of query message_ids = elim (query message_ids) [
  | found rows ↦ read_conversations [] rows
  | missing ↦ broken
  | broken ↦ broken
]

abbrev pub message_sources : List Text
message_sources = codes "message" ∷ codes "message_attachment" ∷ []

abbrev pub post_sources : List Text
post_sources = codes "post" ∷ codes "post_attachment" ∷ []

abbrev pub comment_sources : List Text
comment_sources = codes "comment" ∷ codes "comment_attachment" ∷ []

-- The answer of AssertMember as the filter reads it.
abbrev pub member_answer : Assertion → Option Bool
member_answer granted = some true
member_answer no_access = some false
member_answer failed = none

-- The documents of the ids that were let through: no query where there are none.
abbrev pub cleared :
    (List Text → List Text → Fetched (Rows Fields))
    → List Text
    → List Text
    → Fetched (List ModerationRecord)
cleared query sources [] = found []
cleared query sources (id ∷ ids) = find_moderation query (id ∷ ids) sources

abbrev pub filtered :
    (List Text → List Text → Fetched (Rows Fields))
    → (Text → Assertion)
    → List Text
    → Fetched (List (Text × Text))
    → Fetched (List ModerationRecord)
filtered documents assert_member ids (found conversations) =
    elim (permitted_messages conversations (λ c. member_answer (assert_member c)) ids).result [
      | none ↦ broken
      | some allowed ↦ cleared documents message_sources allowed
    ]
filtered documents assert_member ids missing = broken
filtered documents assert_member ids broken = broken

-- What follows for the distinct ids.
abbrev pub moderation_of_ids :
    (List Text → Fetched (Rows Fields))
    → (List Text → List Text → Fetched (Rows Fields))
    → (Text → Assertion)
    → List Text
    → Fetched (List ModerationRecord)
moderation_of_ids conversations documents assert_member [] = found []
moderation_of_ids conversations documents assert_member (id ∷ ids) =
    filtered documents assert_member (id ∷ ids) (conversations_of conversations (id ∷ ids))

-- `assert_member` is AssertMember for the caller, as Platform/Membership models it.
unfoldable pub moderation_for_messages :
    (List Text → Fetched (Rows Fields))
    → (List Text → List Text → Fetched (Rows Fields))
    → (Text → Assertion)
    → List Text
    → Fetched (List ModerationRecord)
moderation_for_messages conversations documents assert_member message_ids =
    moderation_of_ids conversations documents assert_member (distinct message_ids)

-- `missing` is ErrPostNotFound.
abbrev readable_post :
    (List Text → List Text → Fetched (Rows Fields))
    → Text
    → Text
    → Fetched PostAccess
    → Fetched (List ModerationRecord)
readable_post documents post_id viewer (found access) =
    if not (permits access viewer false)
    then missing
    else find_moderation documents (post_id ∷ []) post_sources
readable_post documents post_id viewer missing = missing
readable_post documents post_id viewer broken = broken

unfoldable pub moderation_for_post_for_viewer :
    (Text → Text → Fetched AccessRow)
    → (List Text → List Text → Fetched (Rows Fields))
    → Text
    → Text
    → Fetched (List ModerationRecord)
moderation_for_post_for_viewer access documents [] viewer = missing
moderation_for_post_for_viewer access documents (c ∷ post_id) viewer =
    readable_post documents (c ∷ post_id) viewer (load_post_access access (c ∷ post_id) viewer)

abbrev pub known_comments : List Text → List Text → List Text
known_comments comments [] = []
known_comments comments (id ∷ ids) =
    if contains id comments then id ∷ known_comments comments ids else known_comments comments ids

-- `comment_rows` is commentRowsForViewer, by the ids it has a row for.
unfoldable pub moderation_for_comments_for_viewer :
    (List Text → Text → Fetched (List Text))
    → (List Text → List Text → Fetched (Rows Fields))
    → List Text
    → Text
    → Fetched (List ModerationRecord)
unfolding distinct
moderation_for_comments_for_viewer comment_rows documents comment_ids viewer =
    elim (distinct comment_ids) [
      | [] ↦ found []
      | id ∷ ids ↦ elim (comment_rows (id ∷ ids) viewer) [
        | found comments ↦ cleared documents comment_sources (known_comments comments (id ∷ ids))
        | missing ↦ broken
        | broken ↦ broken
      ]
    ]
