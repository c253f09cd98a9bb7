-- ===== src/Platform/PostActivity.antt =====
-- internal/platform/post_activity.go, and in internal/platform/comments.go the order of commentFanOut with
-- postInterestIDs, handleOr and newCommentID. The query for an actor is a parameter; what is published is the result, in order.
pub mod Anonymity
use chatterloop_developer_se.Common.{
  ◌≡◌, refl, ℕ, ◌+◌, ◌/◌, ◌%◌, Bool, true, false, not, Option, none, some, List, [], ◌∷◌, ◌++◌,
  Text, if◌then◌else◌, is_empty, codes, Fetched, found, missing, broken, take, drop, ltb, ℤ, Rows,
  exhausted, cut_short, row, unreadable, lookup,
}
use chatterloop_developer_se.Platform.Identity.{handles_for}
use chatterloop_developer_se.Platform.Comments.{
  CommentRow, PostRow, ParentComment, Recipients, notified_of, stored_parent_for,
}

pub record PostActor : Type 0 where
  pub entity_id : Text
  pub handle : Text
  pub name : Text
  pub kind : Text

abbrev or_id : Text → Text → Text
or_id [] entity_id = entity_id
or_id (c ∷ t) entity_id = c ∷ t

unfoldable pub normalize_actor : Text → Text → Text → Text → PostActor
normalize_actor entity_id handle name kind = record {
  entity_id = entity_id;
  handle = or_id handle entity_id;
  name = or_id name entity_id;
  kind = kind;
}

-- `query` answers the type, the handle and the name; a failed read still names an actor.
unfoldable pub resolve_actor : (Text → Fetched (Text × Text × Text)) → Text → Option PostActor
unfolding normalize_actor
resolve_actor query [] = none
resolve_actor query (c ∷ entity_id) = elim (query (c ∷ entity_id)) [
  | found (kind, handle, name) ↦ some (normalize_actor (c ∷ entity_id) handle name kind)
  | missing ↦ some (normalize_actor (c ∷ entity_id) [] [] [])
  | broken ↦ some (normalize_actor (c ∷ entity_id) [] [] [])
]

-- `parent_id` is `none` for null; `is_anonymous` is `none` where the key is missing.
pub record ActivityFields : Type 0 where
  pub comment_id : Text
  pub parent_id : Option Text
  pub is_anonymous : Option Bool

unfoldable pub comment_activity_fields : Text → Text → ActivityFields
comment_activity_fields comment_id stored_parent_id = record {
  comment_id = comment_id;
  parent_id = if is_empty stored_parent_id then none else some stored_parent_id;
  is_anonymous = none;
}

-- The key `entity` of a body.
pub data Entity : Type 0 where
  omitted null : Entity
  actor : PostActor → Entity

-- The `result` of a frame; its `message` is the event type again.
pub record Activity : Type 0 where
  pub post_id : Text
  pub event_type : Text
  pub fields : ActivityFields
  pub entity : Entity

abbrev entity_of : Option Bool → Option PostActor → Entity
entity_of (some true) a = null
entity_of (some false) none = omitted
entity_of (some false) (some a) = actor a
entity_of none none = omitted
entity_of none (some a) = actor a

unfoldable pub post_activity_message : Text → Text → Option PostActor → ActivityFields → Activity
post_activity_message post_id event_type by fields = record {
  post_id = post_id;
  event_type = event_type;
  fields = fields;
  entity = entity_of fields.is_anonymous by;
}

unfoldable pub post_activity_channel : Text → Text
post_activity_channel post_id = codes "post_" ++ post_id

-- The frames: a channel with its message.
unfoldable pub publish_post_activity :
    Text → Text → Option PostActor → ActivityFields → List (Text × Activity)
unfolding post_activity_message post_activity_channel
publish_post_activity post_id event_type by fields =
    if is_empty post_id
    then []
    else (post_activity_channel post_id, post_activity_message post_id event_type by fields) ∷ []

abbrev pub activity_comment : Text
activity_comment = codes "comment"

unfoldable pub publish_comment_created :
    (Text → Fetched (Text × Text × Text)) → Text → Text → Text → Text → List (Text × Activity)
unfolding resolve_actor comment_activity_fields publish_post_activity
publish_comment_created query post_id comment_id stored_parent_id author =
    publish_post_activity post_id activity_comment (resolve_actor query author)
      (comment_activity_fields comment_id stored_parent_id)

-- The loop of postInterestIDs.
unfoldable pub read_interests : Rows ℤ → Fetched (List ℤ)
read_interests exhausted = found []
read_interests cut_short = broken
read_interests (unreadable rows) = broken
read_interests (row id rows) = elim (read_interests rows) [
  | found ids ↦ found (id ∷ ids)
  | missing ↦ broken
  | broken ↦ broken
]

unfoldable pub post_interest_ids : (Text → Fetched (Rows ℤ)) → Text → Fetched (List ℤ)
unfolding read_interests
post_interest_ids query post_id = elim (query post_id) [
  | found rows ↦ read_interests rows
  | missing ↦ broken
  | broken ↦ broken
]

abbrev or_id_of : Text → Option Text → Text
or_id_of entity_id none = entity_id
or_id_of entity_id (some handle) = or_id handle entity_id

unfoldable pub handle_or : (List Text → Fetched (Rows (Text × Text))) → Text → Text
handle_or query entity_id = elim (handles_for query (entity_id ∷ [])) [
  | found handles ↦ or_id_of entity_id (lookup entity_id handles)
  | missing ↦ entity_id
  | broken ↦ entity_id
]

-- What commentFanOut hands over besides notifications, in order.
pub data Effect : Type 0 where
  activity : Text → Activity → Effect
  ranking_job : (post_id : Text) → Effect
  interest_job : (entity_id : Text) → List ℤ → Effect

abbrev pub as_effects : List (Text × Activity) → List Effect
as_effects [] = []
as_effects ((channel, a) ∷ frames) = activity channel a ∷ as_effects frames

abbrev pub interest_effects : Text → Fetched (List ℤ) → List Effect
interest_effects author (found ids) = interest_job author ids ∷ []
interest_effects author missing = []
interest_effects author broken = []

abbrev pub fan_out_frames :
    (Text → Fetched (Text × Text × Text))
    → CommentRow
    → Option ParentComment
    → List (Text × Activity)
fan_out_frames query c replied_to =
    publish_post_activity c.post_id activity_comment
      (if c.is_anonymous then none else resolve_actor query c.entity_id)
      (record (comment_activity_fields c.comment_id (stored_parent_for replied_to)) {
        is_anonymous = some c.is_anonymous;
      })

-- The effects, and the `notified` of the response. `interests` is the query of postInterestIDs.
unfoldable pub comment_fan_out :
    (Text → Fetched (Text × Text × Text))
    → (Text → Fetched (Rows ℤ))
    → Recipients
    → CommentRow
    → PostRow
    → Option ParentComment
    → List Effect × List Text
unfolding resolve_actor comment_activity_fields publish_post_activity post_interest_ids
comment_fan_out query interests t c post replied_to = (
  as_effects (fan_out_frames query c replied_to)
      ++ (ranking_job c.post_id
          ∷ interest_effects c.entity_id (post_interest_ids interests c.post_id)),
  notified_of t c post replied_to,
)

abbrev hex_digit : ℕ → ℕ
hex_digit d = if ltb d 10 then b'0' + d else 87 + d

-- `%x` of a slice of bytes.
unfoldable pub hex : Text → Text
hex [] = []
hex (b ∷ bytes) = hex_digit (b / 16) ∷ hex_digit (b % 16) ∷ hex bytes

abbrev set_version : Text → Text
set_version [] = []
set_version (b ∷ bytes) = (b % 16 + 64) ∷ bytes

abbrev set_variant : Text → Text
set_variant [] = []
set_variant (b ∷ bytes) = (b % 64 + 128) ∷ bytes

abbrev stamped : Text → Text
stamped bytes = take 6 bytes ++ (take 2 (set_version (drop 6 bytes)) ++ set_variant (drop 8 bytes))

abbrev grouped : Text → Text
grouped bytes =
    hex (take 4 bytes)
    ++ (b'-'
        ∷ (hex (take 2 (drop 4 bytes))
            ++ (b'-'
                ∷ (hex (take 2 (drop 6 bytes))
                    ++ (b'-'
                        ∷ (hex (take 2 (drop 8 bytes))
                            ++ (b'-' ∷ hex (take 6 (drop 10 bytes)))))))))

-- `random` is the sixteen bytes that are read, `none` where that fails.
unfoldable pub new_comment_id : Option Text → Option Text
unfolding hex
new_comment_id none = none
new_comment_id (some bytes) = some (grouped (stamped bytes))

all_ones :
    new_comment_id (
      some (
        255 ∷ 255 ∷ 255 ∷ 255 ∷ 255 ∷ 255 ∷ 255 ∷ 255 ∷ 255 ∷ 255 ∷ 255 ∷ 255 ∷ 255 ∷ 255 ∷ 255
        ∷ 255 ∷ []))
    ≡ some (codes "ffffffff-ffff-4fff-bfff-ffffffffffff")
unfolding new_comment_id
all_ones = refl
