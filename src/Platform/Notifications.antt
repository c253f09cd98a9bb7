-- ===== src/Platform/Notifications.antt =====
-- internal/platform/notifications.go: WriteNotification, communityNotification and the minting of
-- ids, with uniqueMessageID and randomDigits of internal/platform/send.go. The collection and what is
-- published are the state; the random source, the clock and the queries are parameters.
pub mod Delivery
pub mod Minting
use chatterloop_developer_se.Common.{
  ℕ, zero, suc, ◌+◌, Bool, true, false, ◌&&◌, ◌||◌, not, Option, none, some, List, [], ◌∷◌, ◌++◌,
  Text, ◌==◌, text_eq, if◌then◌else◌, is_empty, Fetched, found, missing, broken, codes, decimal,
}
use chatterloop_developer_se.Platform.Community.{
  PostAccess, permits, AccessRow, load_post_access, Community,
}

pub record Notification : Type 0 where
  pub to_entity_id : Text
  pub from_entity_id : Text
  pub reference_id : Text
  pub kind : Text
  pub headline : Text
  pub details : Text
  pub target_type : Text
  pub target_id : Text
  pub target_anchor : Text
  pub is_anonymous : Bool
  pub community_entity_id : Text

abbrev pub anonymous_details : Text
anonymous_details = codes "Someone contributed anonymously in your community."

abbrev scoped : Notification → Community → Bool → Notification
scoped n c anonymous = record n {
  community_entity_id = c.entity_id;
  from_entity_id = c.entity_id;
  is_anonymous = anonymous;
  details = if anonymous then anonymous_details else n.details;
}

unfoldable pub community_notification : Notification → PostAccess → Bool → Option Notification
unfolding permits
community_notification n access anonymous = elim access.community [
  | none ↦ none
  | some c ↦
      if not (permits access n.to_entity_id false) || not access.community_member
      then none
      else some (scoped n c anonymous)
]

-- The loop over the attempts: `draw` is the candidate of an attempt, `none` if the random source
-- fails, and `count` how many documents have the id.
unfoldable pub unique_id : ℕ → (ℕ → Option Text) → (Text → Fetched ℕ) → ℕ → Option Text
unique_id zero draw count attempt = none
unique_id (suc left) draw count attempt = elim (draw attempt) [
  | none ↦ none
  | some candidate ↦ elim (count candidate) [
    | missing ↦ none
    | broken ↦ none
    | found n ↦
        let next = unique_id left draw count (suc attempt) in
        if n == 0 then some candidate else next
  ]
]

-- The loop of randomDigits over `i`, with the rounds left; `random` answers a number below ten or
-- fails.
unfoldable pub random_digits : (ℕ → Option ℕ) → ℕ → ℕ → Option Text
random_digits random i zero = some []
random_digits random i (suc left) = elim (random i) [
  | none ↦ none
  | some n ↦ elim (random_digits random (suc i) left) [
    | none ↦ none
    | some out ↦ some ((b'0' + n) ∷ out)
  ]
]

unfoldable pub unique_message_id : (ℕ → ℕ → Option ℕ) → (Text → Fetched ℕ) → Option Text
unfolding unique_id random_digits
unique_message_id random count =
    unique_id 5 (λ attempt. random_digits (random attempt) 0 30) count 0

-- `random` answers a number below 9 * 10^19 or fails.
unfoldable pub random_notification_digits : Option ℕ → Option Text
unfolding decimal
random_notification_digits none = none
random_notification_digits (some offset) = some (decimal (offset + 10000000000000000000))

-- `draw` is randomNotificationDigits.
abbrev with_prefix : Option Text → Option Text
with_prefix none = none
with_prefix (some digits) = some (codes "NTF_" ++ digits)

unfoldable pub unique_notification_id : (ℕ → Option Text) → (Text → Fetched ℕ) → Option Text
unfolding unique_id
unique_notification_id draw count = unique_id 5 (λ attempt. with_prefix (draw attempt)) count 0

pub record Document : Type 0 where
  pub notification_id : Text
  pub reference_id : Text
  pub reference_status : Bool
  pub to_user_id : Text
  pub from_user_id : Text
  pub headline : Text
  pub details : Text
  pub date : Text
  pub kind : Text
  pub is_read : Bool
  -- `is_anonymous` and `community_entity_id`, where they are written.
  pub community : Option (Bool × Text)
  -- `type`, `supportingID` and `anchor`, where they are written.
  pub target : Option (Text × Text × Text)

-- A realtime frame: its channel, its sentence, and its `result`, where that is no empty string.
pub record Frame : Type 0 where
  pub channel : Text
  pub message : Text
  pub result : Option (Text × Text × Bool)

pub record Delivered : Type 0 where
  pub documents : List Document
  pub frames : List Frame

abbrev pub document_of : Text → Text → Notification → Document
document_of id date n = record {
  notification_id = id;
  reference_id = n.reference_id;
  reference_status = true;
  to_user_id = n.to_entity_id;
  from_user_id = n.from_entity_id;
  headline = n.headline;
  details = n.details;
  date = date;
  kind = n.kind;
  is_read = false;
  community =
      if is_empty n.community_entity_id then none else some (n.is_anonymous, n.community_entity_id);
  target =
      if not (is_empty n.target_type) && not (is_empty n.target_id)
      then some (n.target_type, n.target_id, n.target_anchor)
      else none;
}

abbrev pub frame_of : Notification → Frame
frame_of n = record {
  channel = codes "events_" ++ n.to_entity_id;
  message = n.details;
  result =
      if is_empty n.community_entity_id
      then none
      else some (n.target_id, n.community_entity_id, n.is_anonymous);
}

-- What WriteNotification asks: the access of a viewer to a post, whether a comment of a post is
-- anonymous, a fresh id (uniqueNotificationID), the date, and whether an insert succeeds. A frame that
-- Redis refuses is only logged, so `frames` are those that are handed over.
pub record Backend : Type 0 where
  pub access : Text → Text → Fetched AccessRow
  pub anonymous : Text → Text → Fetched Bool
  pub fresh_id : Option Text
  pub date : Text
  pub inserts : Document → Bool

abbrev pub told : Backend → Notification → PostAccess → Option Notification
told b n access =
    if not (permits access n.to_entity_id false)
    then none
    else if access.community_count == 0
    then some n
    else elim (b.anonymous n.reference_id n.target_id) [
      | found anonymous ↦ community_notification n access anonymous
      | missing ↦ none
      | broken ↦ none
    ]

abbrev pub post_scope : Backend → Notification → Fetched PostAccess → Option Notification
post_scope b n (found access) = told b n access
post_scope b n missing = none
post_scope b n broken = none

-- The scope of a notification about a post, `none` where it must not be delivered.
unfoldable pub resolve_scope : Backend → Notification → Option Notification
resolve_scope b n =
    if text_eq n.target_type (codes "post")
    then post_scope b n (load_post_access b.access n.target_id n.to_entity_id)
    else some n

abbrev pub deliver : Backend → Delivered → Notification → Text → Bool × Delivered
deliver b s n id =
    if b.inserts (document_of id b.date n)
    then (
      true,
      record { documents = document_of id b.date n ∷ s.documents; frames = frame_of n ∷ s.frames },
    )
    else (false, s)

unfoldable pub write_notification : Backend → Notification → Delivered → Bool × Delivered
write_notification b n s = elim (resolve_scope b n) [
  | none ↦ (false, s)
  | some scoped' ↦ elim b.fresh_id [ none ↦ (false, s) | some id ↦ deliver b s scoped' id ]
]
