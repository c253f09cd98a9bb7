-- ===== src/Platform/Tests.antt =====
-- Witnesses of internal/platform: its theorems at concrete inputs.
use chatterloop_developer_se.Common.{
  Bool, true, false, Option, none, some, List, [], ◌∷◌, Text, ◌≡◌, refl, codes, ◌↔◌, ℤ, pos, Rows,
  row, map, if◌then◌else◌, exhausted, rows_of, text_eq, Fetched, found, missing, lookup, contains,
  arith, keep, ◌≤◌,
}
use chatterloop_developer_se.Platform.Bson.{Value, Fields, field, end, text, null, get}
use chatterloop_developer_se.Platform.Mentions.{extract_mentions}
use chatterloop_developer_se.Platform.Mentions.Positions.{Mentions, extract_mentions_iff}
use chatterloop_developer_se.Platform.Sanitize.{sanitize_for_storage}
use chatterloop_developer_se.Platform.Sanitize.Laws.{Stripped, sanitize_iff}
use chatterloop_developer_se.Platform.Moderation.{
  permitted_messages, cleared, message_sources, member_answer, distinct, decode_moderation,
  conversations_of, read_conversations, moderation_for_messages, find_moderation, read_moderation,
}
use chatterloop_developer_se.Platform.Moderation.Access.{may_read}
use chatterloop_developer_se.Platform.Membership.{
  Queries, Realm, Receiver, Assertion, granted, no_access, assert_member, RealmNames, realm_name,
}
use chatterloop_developer_se.Platform.Membership.Access.{MayMessage, IsParty, assert_member_iff}
use chatterloop_developer_se.Platform.Membership.Naming.{root, under, realm_name-joined}
use chatterloop_developer_se.Platform.Messages.{Message, decode_message, decode_replying_to}
use chatterloop_developer_se.Platform.Moderation.Reading.{moderation_for_messages-cleared}
use chatterloop_developer_se.Platform.Thread.{thread, reply_thread, at_least_1, enrich}
use chatterloop_developer_se.Platform.Thread.Walk.{Segments, lineage_thread, reply_thread-lineage}
use chatterloop_developer_se.Platform.Thread.Roots.{reply_thread-unreadable_root}

abbrev a_content : Text
a_content = codes "hi @ana. and @bo, @ana!"

extract_mentions_iff_example :
    (contains (codes "ana") (extract_mentions a_content) ≡ true)
    ↔ Mentions (codes "ana") none a_content
extract_mentions_iff_example = extract_mentions_iff a_content (codes "ana")

abbrev a_markup : Text
a_markup = codes "a <b>bold</b> <script"

sanitize_iff_example :
    (sanitize_for_storage a_markup ≡ codes "a bold ") ↔ Stripped a_markup (codes "a bold ")
sanitize_iff_example = sanitize_iff a_markup (codes "a bold ")

abbrev conversations : List (Text × Text)
conversations = (codes "m1", codes "c1") ∷ (codes "m2", codes "c2") ∷ (codes "m3", codes "c1") ∷ []

-- A member of c1 and of no other conversation.
abbrev is_member : Text → Option Bool
is_member c = some (contains c (codes "c1" ∷ []))

abbrev three_ids : List Text
three_ids = codes "m3" ∷ codes "m2" ∷ codes "m9" ∷ codes "m1" ∷ []

abbrev any_time : Value → ℤ
any_time _ = pos 0

abbrev a_message : Text → Text → Fields
a_message id parent = field (codes "messageID") (text id) (
    field (codes "sender") (text (codes "e1")) (
      field (codes "content") (text (codes "hello"))
        (field (codes "replyingTo") (text parent) end)))

abbrev an_image : Fields
an_image =
    field (codes "messageID") (text (codes "m1"))
      (field (codes "sender") (text (codes "e1")) (field (codes "content") null end))

abbrev stored : List (Text × Fields)
stored = (codes "m1", an_image) ∷ (codes "m2", a_message (codes "m2") (codes "m1")) ∷ []

abbrev anchor_of : Text → Text → Message
anchor_of id parent = record {
  message_id = id;
  conversation_id = codes "c1";
  sender_entity_id = codes "e1";
  content = codes "hello";
  created_at = pos 0;
  message_type = codes "text";
  is_reply = false;
  replying_to = parent;
  replying_to_sender = [];
  reply_target = some (record { kind = codes "message"; id = parent });
}

abbrev whole_segments : Segments stored
whole_segments = record {
  documents = λ _ _. stored;
  within = λ _ _ _ _ e. e;
  starts = λ _ _ _ _ e. e;
}

abbrev a_query : Text → Fetched Fields
a_query _ = found (a_message (codes "m3") (codes "m2"))

reply_thread-lineage_example :
    let t =
      lineage_thread any_time
        (codes "c1")
        stored
        whole_segments
        (anchor_of (codes "m3") (codes "m2"))
        5 in
    (reply_thread any_time a_query (λ _ _. found stored) found (codes "c1") (codes "m3") 5
      ≡ thread (enrich found t))
    × (t.depth ≤ at_least_1 5)
unfolding decode_message decode_replying_to get text_eq
reply_thread-lineage_example =
    reply_thread-lineage any_time (codes "c1") stored whole_segments a_query found (codes "m3") 5
      (a_message (codes "m3") (codes "m2")) (anchor_of (codes "m3") (codes "m2")) refl refl refl
      readable
  where
    readable :
        decode_message any_time (a_message (codes "m3") (codes "m2")) (codes "c1")
        ≡ some (anchor_of (codes "m3") (codes "m2"))
    readable = refl

abbrev reply_query : Text → Fetched Fields
reply_query _ = found (a_message (codes "m2") (codes "m1"))

reply_thread-unreadable_root_example :
    reply_thread any_time reply_query (λ _ _. found stored) found (codes "c1") (codes "m2") 5
    ≡ thread (
        enrich found (record {
          messages = anchor_of (codes "m2") (codes "m1") ∷ [];
          depth = 0;
          truncated = false;
          root_message_id = codes "m2";
        }))
unfolding decode_message decode_replying_to get lookup text_eq
reply_thread-unreadable_root_example =
    reply_thread-unreadable_root any_time (codes "c1") stored whole_segments reply_query found
      (codes "m2") 5 (a_message (codes "m2") (codes "m1")) (anchor_of (codes "m2") (codes "m1"))
      b'm' (codes "1") an_image refl refl refl readable refl held unreadable refl
  where
    readable :
        decode_message any_time (a_message (codes "m2") (codes "m1")) (codes "c1")
        ≡ some (anchor_of (codes "m2") (codes "m1"))
    readable = refl

    held : lookup (codes "m1") stored ≡ some an_image
    held = refl

    unreadable : decode_message any_time an_image (codes "c1") ≡ none
    unreadable = refl

abbrev channel_realm : Realm
channel_realm = record { entity = none; realm_type = codes "channel"; is_private = true }

abbrev receiver_1 : Receiver
receiver_1 = record { entity_id = codes "e1"; username = codes "ana" }

-- A channel of a server, and an entity that is a member of the channel.
abbrev queries : Queries
queries = record {
  blocked = λ _ _. found false;
  conversation = λ _. missing;
  any_community = λ _. found false;
  realm = λ c. if text_eq c (codes "r1") then found channel_realm else missing;
  member = λ e r. if text_eq e (codes "e1") then found (codes "m1") else missing;
  connection = λ _ _. missing;
  conversations = λ _ _. found 0;
  by_connection = λ _. found exhausted;
  by_membership = λ _. found (rows_of (receiver_1 ∷ []));
  by_ids = λ _. found exhausted;
}

assert_member_iff_example :
    (assert_member queries (codes "r1") (codes "e1") ≡ granted)
    ↔ (MayMessage queries (codes "r1") (codes "e1") × IsParty queries (codes "r1") (codes "e1"))
assert_member_iff_example = assert_member_iff queries (codes "r1") (codes "e1")

-- A channel below a server.
abbrev realm_names : RealmNames
realm_names id =
    if text_eq id (codes "r1")
    then found (codes "General", some (codes "r0"))
    else if text_eq id (codes "r0")
    then found (codes "Server", none)
    else missing

realm_name-joined_example : realm_name 3 realm_names (codes "r1") ≡ some (codes "Server | General")
unfolding text_eq
realm_name-joined_example =
    realm_name-joined realm_names (codes "r1") (codes "General" ∷ codes "Server" ∷ []) 3
      (under refl (root refl)) (omega arith)

abbrev window : List Message
window = anchor_of (codes "m2") (codes "m1") ∷ anchor_of (codes "m3") (codes "m2") ∷ []

-- The entity wrote m1 and nothing else.
abbrev wrote_m1 : List Text → Text → Fetched (List Text)
wrote_m1 _ _ = found (codes "m1" ∷ [])

-- A record of each message that is asked for.
abbrev moderation_documents : List Text → List Text → Fetched (Rows Fields)
moderation_documents ids _ =
    found (rows_of (map (λ id. field (codes "targetID") (text id) end) ids))

abbrev conversation_rows : List Text → Fetched (Rows Fields)
conversation_rows _ = found (
    row
      (field (codes "messageID") (text (codes "m1"))
        (field (codes "conversationID") (text (codes "c1")) end))
      exhausted)

abbrev member_of_c1 : Text → Assertion
member_of_c1 c = if text_eq c (codes "c1") then granted else no_access

moderation_for_messages-cleared_example :
    cleared moderation_documents message_sources (
      keep
        (may_read ((codes "m1", codes "c1") ∷ []) (λ c. member_answer (member_of_c1 c)))
        (distinct (codes "m1" ∷ codes "m2" ∷ [])))
    ≡ found (decode_moderation (field (codes "targetID") (text (codes "m1")) end) ∷ [])
unfolding conversations_of read_conversations distinct text_eq contains get lookup
    moderation_for_messages permitted_messages find_moderation read_moderation
moderation_for_messages-cleared_example =
    moderation_for_messages-cleared conversation_rows moderation_documents member_of_c1
      ((codes "m1", codes "c1") ∷ [])
      (decode_moderation (field (codes "targetID") (text (codes "m1")) end) ∷ [])
      (codes "m1" ∷ codes "m2" ∷ []) refl refl
