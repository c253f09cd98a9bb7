-- ===== src/Platform/Send.antt =====
-- internal/platform/send.go: SendMessage and its fan-out, as the effects they have in order. What the
-- checks, queries, clock and random source answer are fields of `Setting`; ToLower is package
-- strings'.
pub mod Refusals
pub mod Pushes
mod Tests
use chatterloop_developer_se.Common.{
  ℕ, Bool, true, false, ◌&&◌, ◌||◌, not, Option, none, some, List, [], ◌∷◌, ◌++◌, Text, ◌==◌,
  text_eq, contains, length, if◌then◌else◌, is_empty, Fetched, found, missing, broken, codes,
  trim_space, lookup, insert, map,
}
use chatterloop_developer_se.Platform.Sanitize.{sanitize_for_storage}
use chatterloop_developer_se.Platform.Mentions.{extract_mentions}
use chatterloop_developer_se.Platform.Membership.{
  Assertion, granted, no_access, Answer, answered, Receiver,
}
use chatterloop_developer_se.Platform.Membership as Membership
use chatterloop_developer_se.Platform.Messages.{stored_replying_to, if_blank}
use chatterloop_developer_se.Platform.Bson.{Value}

pub record SendRequest : Type 0 where
  pub conversation_id : Text
  pub content : Text
  pub message_type : Text
  pub conversation_type : Text
  pub replying_to : Text
  pub pending_id : Text

pub record SendResult : Type 0 where
  pub message_id : Text
  pub pending_id : Text
  pub receivers : ℕ

pub data SendError : Type 0 where
  empty_content access_refused failed : SendError

-- The stored message, by the fields that are not constants; `messageDate` is the time of the call.
pub record StoredMessage : Type 0 where
  pub message_id : Text
  pub conversation_id : Text
  pub pending_id : Text
  pub sender : Text
  pub content : Text
  pub is_reply : Bool
  pub replying_to : Value
  pub message_type : Text
  pub conversation_type : Text

pub record Mentioner : Type 0 where
  pub entity_id : Text
  pub username : Text
  pub realm_name : Option Text
  pub is_single : Bool

-- A job of the send_push queue.
pub record Push : Type 0 where
  pub entity_ids : List Text
  pub channel : Text
  pub title : Text
  pub body : Text
  pub tag : Text
  pub data_of : List (Text × Text)

pub data Effect : Type 0 where
  inserted : StoredMessage → Effect
  unarchived : Text → Effect
  -- The conversation's preview, with its type if it is new and its participants if there are any.
  previewed : Text → Text → Option (List Text) → Effect
  framed : Text → Option Mentioner → Effect
  scored : Text → List Text → Effect
  pushed : Push → Effect

pub record Setting : Type 0 where
  pub access : Assertion
  pub fresh_id : Option Text
  pub receivers : Answer
  -- The stored type of the conversation and the type of its realm, blank where there is none.
  pub stored_type : Text
  pub realm_type : Text
  pub realm_name : Text
  pub sender_handle : Text
  pub default_pending_id : Text
  pub sent_at : Text
  pub inserts : Bool
  -- SETNX of the score's lock.
  pub lock : Option Bool
  pub to_lower : Text → Text

unfoldable pub normalize_conversation_type : (Text → Text) → Text → Text
normalize_conversation_type to_lower [] = codes "single"
normalize_conversation_type to_lower (c ∷ conversation_type) =
    let parsed = to_lower (c ∷ conversation_type) in
    if text_eq parsed (codes "server") then codes "channel" else parsed

unfoldable pub resolve_conversation_type : Setting → Text → Text
unfolding normalize_conversation_type
resolve_conversation_type w claimed =
    if not (is_empty w.stored_type)
    then w.stored_type
    else if not (is_empty w.realm_type)
    then normalize_conversation_type w.to_lower w.realm_type
    else normalize_conversation_type w.to_lower claimed

-- The map of the receivers by their handle, in which the last one of a handle counts.
abbrev by_username : (Text → Text) → List (Text × Text) → List Receiver → List (Text × Text)
by_username to_lower entries [] = entries
by_username to_lower entries (r ∷ rs) =
    by_username to_lower (insert (to_lower r.username) r.entity_id entries) rs

abbrev resolve_handles : (Text → Text) → List (Text × Text) → List Text → List Text
resolve_handles to_lower entries [] = []
resolve_handles to_lower entries (handle ∷ handles) =
    let rest = resolve_handles to_lower entries handles in
    elim (lookup (to_lower handle) entries) [ none ↦ rest | some e ↦ e ∷ rest ]

-- The keys of the map `mentioned`.
unfoldable pub mentioned_in : (Text → Text) → List Receiver → Text → List Text
mentioned_in to_lower receivers content =
    resolve_handles to_lower (by_username to_lower [] receivers) (extract_mentions content)

abbrev pub single : Text
single = codes "single"

-- The partition of the recipients of a push: those told plainly, and those mentioned.
unfoldable pub plain_targets : Text → List Text → List Text → List Text
plain_targets sender mentioned [] = []
plain_targets sender mentioned (e ∷ es) =
    let rest = plain_targets sender mentioned es in
    if text_eq e sender then rest else if contains e mentioned then rest else e ∷ rest

unfoldable pub mention_targets : Text → List Text → List Text → List Text
mention_targets sender mentioned [] = []
mention_targets sender mentioned (e ∷ es) =
    let rest = mention_targets sender mentioned es in
    if text_eq e sender then rest else if contains e mentioned then e ∷ rest else rest

abbrev format_bool : Bool → Text
format_bool true = codes "true"
format_bool false = codes "false"

unfoldable pub message_push_data :
    Text → Text → Text → Text → Text → Text → Text → Text → List (Text × Text)
message_push_data conversation name sender sender_name body message_id conversation_type sent_at =
    (codes "type", codes "message")
    ∷ (codes "conversationId", conversation)
    ∷ (codes "conversationName", name)
    ∷ (codes "isGroup", format_bool (not (text_eq conversation_type single)))
    ∷ (codes "senderId", sender)
    ∷ (codes "senderName", sender_name)
    ∷ (codes "body", body)
    ∷ (codes "sentAt", sent_at)
    ∷ (codes "messageId", message_id)
    ∷ []

unfoldable pub mention_push_data : Text → Text → Text → Text → Text → List (Text × Text)
mention_push_data conversation sender title body message_id =
    (codes "type", codes "mention")
    ∷ (codes "conversationId", conversation)
    ∷ (codes "title", title)
    ∷ (codes "body", body)
    ∷ (codes "senderId", sender)
    ∷ (codes "messageId", message_id)
    ∷ (codes "route", codes "/conversation/" ++ conversation)
    ∷ []

abbrev pub push_if : List Text → Push → List Effect
push_if [] p = []
push_if (e ∷ es) p = pushed p ∷ []

unfoldable pub bump_chat_score : Option Bool → Text → List Text → List Effect
bump_chat_score lock actor [] = []
bump_chat_score (some true) actor (m ∷ members) = scored actor (m ∷ members) ∷ []
bump_chat_score (some false) actor (m ∷ members) = []
bump_chat_score none actor (m ∷ members) = []

unfoldable pub save_conversation : Text → Text → List Text → Effect
save_conversation conversation conversation_type [] = previewed conversation conversation_type none
save_conversation conversation conversation_type (p ∷ ps) =
    previewed conversation conversation_type (some (p ∷ ps))

abbrev pub frames : List Text → Mentioner → List Text → List Effect
frames mentioned mentioner [] = []
frames mentioned mentioner (e ∷ es) =
    framed e (if contains e mentioned then some mentioner else none) ∷ frames mentioned mentioner es

abbrev ids_of : List Receiver → List Text
ids_of [] = []
ids_of (r ∷ rs) = r.entity_id ∷ ids_of rs

abbrev pub mentioner_of : Setting → StoredMessage → Text → Mentioner
mentioner_of w m realm_name = record {
  entity_id = m.sender;
  username = b'@' ∷ w.sender_handle;
  realm_name = if is_empty realm_name then none else some realm_name;
  is_single = text_eq m.conversation_type single;
}

abbrev title_of : Setting → StoredMessage → Text → Text
title_of w m realm_name =
    if text_eq m.conversation_type single || is_empty realm_name
    then b'@' ∷ w.sender_handle
    else realm_name

abbrev body_of : StoredMessage → Text
body_of m = if text_eq m.message_type (codes "text") then m.content else codes "Sent an attachment"

abbrev pub plain_push : Setting → StoredMessage → Text → List Text → Push
plain_push w m realm_name plain = record {
  entity_ids = plain;
  channel = codes "chatterloop_messages_v2";
  title = title_of w m realm_name;
  body = body_of m;
  tag = m.conversation_id;
  data_of =
      message_push_data m.conversation_id realm_name m.sender (b'@' ∷ w.sender_handle) (body_of m)
        m.message_id m.conversation_type w.sent_at;
}

abbrev mention_body : Setting → StoredMessage → Text
mention_body w m = (b'@' ∷ w.sender_handle) ++ codes " mentioned you: " ++ body_of m

abbrev pub mention_push : Setting → StoredMessage → Text → List Text → Push
mention_push w m realm_name told = record {
  entity_ids = told;
  channel = codes "chatterloop_activity_v2";
  title = title_of w m realm_name;
  body = mention_body w m;
  tag = m.conversation_id;
  data_of =
      mention_push_data m.conversation_id m.sender (title_of w m realm_name) (mention_body w m)
        m.message_id;
}

-- The pushes of fanOut.
unfoldable pub pushes : Setting → StoredMessage → Text → List Text → List Text → List Effect
pushes w m realm_name mentioned ids =
    let plain = plain_targets m.sender mentioned ids in
    let told = mention_targets m.sender mentioned ids in
    push_if plain (plain_push w m realm_name plain)
    ++ push_if told (mention_push w m realm_name told)

unfoldable pub fan_out : Setting → StoredMessage → Text → List Text → List Text → List Effect
fan_out w m realm_name mentioned ids =
    unarchived m.conversation_id
    ∷ save_conversation m.conversation_id m.conversation_type ids
    ∷ (frames mentioned (mentioner_of w m realm_name) ids
        ++ (bump_chat_score w.lock m.sender ids ++ pushes w m realm_name mentioned ids))

pub data Sent : Type 0 where
  sent : SendResult → Sent
  refused : SendError → Sent

abbrev pub message_of : Setting → Text → SendRequest → Text → Text → StoredMessage
message_of w sender req content id = record {
  message_id = id;
  conversation_id = req.conversation_id;
  pending_id = if_blank req.pending_id w.default_pending_id;
  sender = sender;
  content = content;
  is_reply = not (is_empty req.replying_to);
  replying_to = stored_replying_to req.replying_to;
  message_type = if_blank req.message_type (codes "text");
  conversation_type = resolve_conversation_type w req.conversation_type;
}

abbrev pub stored : Setting → StoredMessage → List Receiver → Sent × List Effect
stored w m receivers =
    let realm_name = if text_eq m.conversation_type single then [] else w.realm_name in
    if w.inserts
    then (
      sent (record {
        message_id = m.message_id;
        pending_id = m.pending_id;
        receivers = length receivers;
      }),
      inserted m
          ∷ fan_out w m realm_name (mentioned_in w.to_lower receivers m.content) (ids_of receivers),
    )
    else (refused failed, [])

abbrev pub addressed : Setting → StoredMessage → Answer → Sent × List Effect
addressed w m (answered (found receivers)) = stored w m receivers
addressed w m (answered missing) = (refused failed, [])
addressed w m (answered broken) = (refused failed, [])
addressed w m Membership.refused = (refused access_refused, [])

abbrev pub identified : Setting → Text → SendRequest → Text → Option Text → Sent × List Effect
identified w sender req content none = (refused failed, [])
identified w sender req content (some id) =
    addressed w (message_of w sender req content id) w.receivers

abbrev pub admitted : Setting → Text → SendRequest → Text → Assertion → Sent × List Effect
admitted w sender req content granted = identified w sender req content w.fresh_id
admitted w sender req content no_access = (refused access_refused, [])
admitted w sender req content Membership.failed = (refused failed, [])

unfoldable pub send_message : Setting → Text → SendRequest → Sent × List Effect
send_message w sender req =
    let content = sanitize_for_storage (trim_space req.content) in
    if is_empty content then (refused empty_content, []) else admitted w sender req content w.access
