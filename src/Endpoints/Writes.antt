-- ===== src/Endpoints/Writes.antt =====
-- internal/endpoints/endpoints.go: SendMessage, CreateComment and Events, with what they leave behind.
use chatterloop_developer_se.Common.{
  ℕ, Bool, true, false, Option, none, some, List, [], ◌∷◌, Text, is_empty, if◌then◌else◌, ltb,
  length, text_eq, codes, Fetched, Rows, ℤ, found, missing, broken,
}
use chatterloop_developer_se.Endpoints.{Reply, refused, answered}
use chatterloop_developer_se.Auth.Token.{Token}
use chatterloop_developer_se.Platform.Community.{PostAccess, Scoped, community_frame_allowed}
use chatterloop_developer_se.Platform.Membership.{Queries, assert_member, receivers}
use chatterloop_developer_se.Platform.Mentionable.{MentionedEntity, ids_of, resolve_mentions}
use chatterloop_developer_se.Platform.Send as Send
use chatterloop_developer_se.Platform.Send.{SendRequest, SendResult, Setting, send_message}
use chatterloop_developer_se.Platform.Comments as Comments
use chatterloop_developer_se.Platform.Comments.{
  CommentRequest, CommentRow, PostRow, ParentComment, Recipients, create_comment,
}
use chatterloop_developer_se.Platform.PostActivity as PostActivity
use chatterloop_developer_se.Platform.PostActivity.{comment_fan_out, handle_or}
use chatterloop_developer_se.Presence as Presence
use chatterloop_developer_se.Presence.{World}
use chatterloop_developer_se.Stream as Stream
use chatterloop_developer_se.Stream.{Input, Served, serve}

abbrev pub max_content_length : ℕ
max_content_length = 5000

abbrev pub max_comment_length : ℕ
max_comment_length = 5000

abbrev pub sent_reply : Send.Sent × List Send.Effect → Reply SendResult × List Send.Effect
sent_reply (Send.sent r, effects) = (answered 201 r, effects)
sent_reply (Send.refused Send.empty_content, effects) = (refused 400, effects)
sent_reply (Send.refused Send.access_refused, effects) = (refused 404, effects)
sent_reply (Send.refused Send.failed, effects) = (refused 500, effects)

-- What SendMessage asks for a request of a sender: its membership and its receivers by the queries, the
-- rest by `w`.
abbrev pub setting_for : Queries → (Text → SendRequest → Setting) → Text → SendRequest → Setting
setting_for q w sender req = record (w sender req) {
  access = assert_member q req.conversation_id sender;
  receivers = receivers q req.conversation_id;
}

abbrev pub checked_send :
    Queries
    → (Text → SendRequest → Setting)
    → Token
    → Option SendRequest
    → Reply SendResult × List Send.Effect
checked_send q w token none = (refused 400, [])
checked_send q w token (some req) =
    if is_empty req.conversation_id
    then (refused 400, [])
    else if ltb max_content_length (length req.content)
    then (refused 400, [])
    else sent_reply (send_message (setting_for q w token.entity_id req) token.entity_id req)

-- `body` is the decoded body, `none` where it is no JSON.
unfoldable pub send_message_handler :
    Queries
    → (Text → SendRequest → Setting)
    → Option Token
    → Option SendRequest
    → Reply SendResult × List Send.Effect
unfolding send_message
send_message_handler q w none body = (refused 401, [])
send_message_handler q w (some token) body = checked_send q w token body

-- UnmarshalJSON of strictBoolean, on the raw value.
unfoldable pub strict_boolean : Text → Option Bool
strict_boolean raw =
    if text_eq raw (codes "true")
    then some true
    else if text_eq raw (codes "false")
    then some false
    else none

pub record CommentResult : Type 0 where
  pub comment_id : Text
  pub post_id : Text
  pub parent_comment_id : Text
  pub replied_to : Text
  pub notified : List Text
  pub is_anonymous : Bool

abbrev pub status_of : Comments.CommentError → ℕ
status_of Comments.anonymous_outside_community = 400
status_of Comments.empty_comment = 400
status_of Comments.post_not_found = 404
status_of Comments.parent_not_found = 404
status_of Comments.failed = 500

-- What the fan-out of a comment asks; `recipients` answers for the quoting
-- and the delivery.
pub record FanOut : Type 0 where
  pub actor : Text → Fetched (Text × Text × Text)
  pub interests : Text → Fetched (Rows ℤ)
  pub handles : List Text → Fetched (Rows (Text × Text))
  pub recipients : CommentRow → Recipients
  pub lower : Text → Text
  pub entities : List Text → Fetched (Rows (Text × Text))
  pub blocks : Text → Fetched (Rows (Text × Text))

abbrev pub mentioned_ids : Fetched (List MentionedEntity) → Fetched (List Text)
mentioned_ids (found ms) = found (ids_of ms)
mentioned_ids missing = missing
mentioned_ids broken = broken

-- The recipients of a comment, its author's handle by handleOr, those it mentions by ResolveMentions.
abbrev pub recipients_of : FanOut → CommentRow → Recipients
recipients_of f c = record (f.recipients c) {
  author_handle = b'@' ∷ handle_or f.handles c.entity_id;
  mentioned = mentioned_ids (resolve_mentions f.lower f.entities f.blocks c.text c.entity_id);
}

abbrev pub comment_reply :
    FanOut → CommentRequest → Comments.Outcome → Reply CommentResult × List PostActivity.Effect
comment_reply f req (Comments.refused e) = (refused (status_of e), [])
comment_reply f req (Comments.created c post replied_to) =
    let (effects, notified) =
      comment_fan_out f.actor f.interests (recipients_of f c) c post replied_to in
    (
      answered 201 (record {
        comment_id = c.comment_id;
        post_id = req.post_id;
        parent_comment_id = c.parent_comment_id;
        replied_to = req.parent_id;
        notified = notified;
        is_anonymous = req.is_anonymous;
      }),
      effects,
    )

abbrev pub checked_comment :
    Comments.Backend
    → FanOut
    → Token
    → Option CommentRequest
    → Reply CommentResult × List PostActivity.Effect
checked_comment b f token none = (refused 400, [])
checked_comment b f token (some req) =
    if is_empty req.post_id
    then (refused 400, [])
    else if ltb max_comment_length (length req.text)
    then (refused 400, [])
    else comment_reply f req (create_comment b token.entity_id req)

-- `body` is the decoded body, `none` where it is no JSON or `is_anonymous` no boolean.
unfoldable pub create_comment_handler :
    Comments.Backend
    → FanOut
    → Option Token
    → Option CommentRequest
    → Reply CommentResult × List PostActivity.Effect
unfolding create_comment comment_fan_out
create_comment_handler b f none body = (refused 401, [])
create_comment_handler b f (some token) body = checked_comment b f token body

-- What a stream receives, a frame with the access to posts as it is then.
pub data Received : Type 0 where
  done closed : Received
  frame : (Text → Fetched PostAccess) → (written : Bool) → Text → Received
  heartbeat : (written : Bool) → Received

abbrev pub input_of : (Text → Option Scoped) → Text → Received → Input
input_of decode viewer done = Stream.done
input_of decode viewer closed = Stream.closed
input_of decode viewer (frame find written payload) =
    Stream.message (community_frame_allowed decode find payload viewer) written payload
input_of decode viewer (heartbeat written) = Stream.heartbeat written

abbrev pub inputs_of : (Text → Option Scoped) → Text → List Received → List Input
inputs_of decode viewer [] = []
inputs_of decode viewer (r ∷ rs) = input_of decode viewer r ∷ inputs_of decode viewer rs

-- How the JSON of a frame decodes: its scope, its event, and the quoting of %q.
pub record Codec : Type 0 where
  pub scope_in : Text → Option Scoped
  pub event_in : Text → Option Text
  pub quote : Text → Text

-- Events up to the return of Disconnected's first half: the stream with what Connected and
-- Disconnected leave; `opened` and `closed` are whether their writes succeed, with their times.
unfoldable pub events :
    Codec
    → (flushes : Bool) → (opened : Bool × ℕ) → (ended : Bool × ℕ) → Token
    → List Received
    → World
    → Served × World
unfolding serve community_frame_allowed Presence.connected Presence.disconnected
events codec flushes (opened, start) (ended, end) token received w =
    let live = Presence.connected opened start token.entity_id token.prefix token.name w in
    (
      serve codec.quote codec.event_in flushes token.entity_id
          (inputs_of codec.scope_in token.entity_id received),
      (Presence.disconnected ended end token.entity_id token.prefix live).1,
    )
