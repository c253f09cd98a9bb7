-- ===== src/Platform/Comments.antt =====
-- internal/platform/comments.go: CreateComment with the parent it loads and the rule that flattens
-- threads, and who is told. Queries, the random source, the quoting of `%q` and the conversion between
-- strings and runes are parameters.
pub mod Flattening
pub mod Telling
pub mod Permitted
use chatterloop_developer_se.Common.{
  ℕ, Bool, true, false, ◌&&◌, ◌||◌, not, Option, none, some, List, [], ◌∷◌, ◌++◌, Text, ◌==◌,
  text_eq, contains, leb, length, take, if◌then◌else◌, is_empty, Fetched, found, missing, broken,
  codes, trim_space, or_else,
}
use chatterloop_developer_se.Platform.Community.{
  PostAccess, permits, AccessRow, load_post_access, validate_comment_anonymity,
}
use chatterloop_developer_se.Platform.Notifications.{Notification}
use chatterloop_developer_se.Platform.Sanitize.{sanitize_for_storage}

pub record CommentRequest : Type 0 where
  pub post_id : Text
  pub parent_id : Text
  pub text : Text
  pub is_anonymous : Bool

-- A row of `newsfeed_comment`; a NULL parent is an empty text.
pub record CommentRow : Type 0 where
  pub comment_id : Text
  pub parent_comment_id : Text
  pub post_id : Text
  pub text : Text
  pub entity_id : Text
  pub is_deleted : Bool
  pub is_anonymous : Bool

pub record PostRow : Type 0 where
  pub post_id : Text
  pub entity_id : Text
  pub community_count : ℕ
  pub community_realm : Text

pub record ParentComment : Type 0 where
  pub comment_id : Text
  pub entity_id : Text
  pub parent_comment_id : Text
  pub text : Text

pub data CommentError : Type 0 where
  empty_comment post_not_found parent_not_found anonymous_outside_community failed : CommentError

unfoldable pub stored_parent_for : Option ParentComment → Text
stored_parent_for none = []
stored_parent_for (some p) =
    if is_empty p.parent_comment_id then p.comment_id else p.parent_comment_id

-- `missing` is ErrPostNotFound.
unfoldable pub load_post_for_viewer :
    (Text → Text → Fetched AccessRow) → Text → Text → Fetched PostRow
unfolding permits load_post_access
load_post_for_viewer query post_id viewer = elim (load_post_access query post_id viewer) [
  | missing ↦ missing
  | broken ↦ broken
  | found a ↦
      if not (permits a viewer true)
      then missing
      else found (record {
        post_id = post_id;
        entity_id = a.author_entity_id;
        community_count = a.community_count;
        community_realm = elim a.community [ none ↦ [] | some c ↦ c.realm_id ];
      })
]

abbrev pub on_post : Text → Text → Fetched CommentRow → Fetched ParentComment
on_post parent_id post_id missing = missing
on_post parent_id post_id broken = broken
on_post parent_id post_id (found r) =
    if not (text_eq r.post_id post_id)
    then missing
    else found (record {
      comment_id = parent_id;
      entity_id = r.entity_id;
      parent_comment_id = r.parent_comment_id;
      text = r.text;
    })

-- `query` answers the row of a comment that is not deleted; `missing` is ErrParentCommentNotFound.
unfoldable pub load_parent_comment :
    (Text → Fetched CommentRow) → Text → Text → Fetched ParentComment
load_parent_comment query parent_id post_id = on_post parent_id post_id (query parent_id)

-- What CreateComment asks: the access row, the row of a comment, a fresh id (newCommentID), and what
-- the conditional insert answers, an error or whether it inserted its row.
pub record Backend : Type 0 where
  pub access : Text → Text → Fetched AccessRow
  pub comment : Text → Fetched CommentRow
  pub fresh_id : Option Text
  pub inserts : CommentRow → Text → Fetched Bool

pub data Outcome : Type 0 where
  refused : CommentError → Outcome
  created : CommentRow → PostRow → Option ParentComment → Outcome

abbrev pub insert_row : Backend → PostRow → Option ParentComment → CommentRow → Outcome
insert_row b post replied_to r = elim (b.inserts r post.community_realm) [
  | broken ↦ refused failed
  | missing ↦ refused failed
  | found inserted ↦ if inserted then created r post replied_to else refused post_not_found
]

abbrev pub under_parent :
    Backend → Text → CommentRequest → Text → PostRow → Option ParentComment → Outcome
under_parent b author req text post replied_to = elim b.fresh_id [
  | none ↦ refused failed
  | some id ↦ insert_row b post replied_to (record {
    comment_id = id;
    parent_comment_id = stored_parent_for replied_to;
    post_id = req.post_id;
    text = text;
    entity_id = author;
    is_deleted = false;
    is_anonymous = req.is_anonymous;
  })
]

abbrev pub with_parent :
    Backend → Text → CommentRequest → Text → PostRow → Fetched ParentComment → Outcome
with_parent b author req text post (found p) = under_parent b author req text post (some p)
with_parent b author req text post missing = refused parent_not_found
with_parent b author req text post broken = refused failed

abbrev pub on_loaded_post : Backend → Text → CommentRequest → Text → Fetched PostRow → Outcome
on_loaded_post b author req text missing = refused post_not_found
on_loaded_post b author req text broken = refused failed
on_loaded_post b author req text (found post) =
    if not (validate_comment_anonymity req.is_anonymous post.community_count)
    then refused anonymous_outside_community
    else if is_empty req.parent_id
    then under_parent b author req text post none
    else with_parent b author req text post
        (load_parent_comment b.comment req.parent_id req.post_id)

-- CreateComment up to the insert.
unfoldable pub create_comment : Backend → Text → CommentRequest → Outcome
create_comment b author req =
    let text = sanitize_for_storage (trim_space req.text) in
    if is_empty text
    then refused empty_comment
    else on_loaded_post b author req text (load_post_for_viewer b.access req.post_id author)

abbrev preview : ℕ
preview = 30

-- `runes` and `string` convert a text to its runes and back.
unfoldable pub truncate_for_preview : (Text → List ℕ) → (List ℕ → Text) → Text → Text
truncate_for_preview runes string text =
    if leb (length (runes text)) preview
    then text
    else string (take preview (runes text)) ++ codes "..."

-- A comment's notification, by its recipient, headline, type and sentence.
abbrev notification_of : Text → CommentRow → Text → Text → Text → Notification
notification_of to c kind headline details = record {
  to_entity_id = to;
  from_entity_id = c.entity_id;
  reference_id = c.comment_id;
  kind = kind;
  headline = headline;
  details = details;
  target_type = codes "post";
  target_id = c.post_id;
  target_anchor = c.comment_id;
  is_anonymous = false;
  community_entity_id = [];
}

-- What commentFanOut asks besides: the author's handle (`"@" + handleOr`), who is mentioned
-- (ResolveMentions), the quoting, and whether WriteNotification delivers.
pub record Recipients : Type 0 where
  pub author_handle : Text
  pub mentioned : Fetched (List Text)
  pub quoted : Text → Text
  pub runes : Text → List ℕ
  pub string : List ℕ → Text
  pub delivers : Notification → Bool

abbrev reply_details : Recipients → ParentComment → Text
reply_details t p =
    t.author_handle
    ++ codes " replied to your comment "
    ++ t.quoted (truncate_for_preview t.runes t.string p.text)

abbrev told_if : Recipients → Notification → List Text
told_if t n = if t.delivers n then n.to_entity_id ∷ [] else []

-- The person replied to, or the post's author, where they are told.
unfoldable pub tell_owner : Recipients → CommentRow → PostRow → Option ParentComment → List Text
tell_owner t c post (some p) =
    if not (text_eq p.entity_id c.entity_id) && not (text_eq post.entity_id c.entity_id)
    then told_if t (
        notification_of p.entity_id c (codes "post_comment") (codes "Replied Comment")
          (reply_details t p))
    else []
tell_owner t c post none =
    if not (text_eq post.entity_id c.entity_id)
    then told_if t (
        notification_of post.entity_id c (codes "post_comment") (codes "Post Comment")
          (t.author_handle ++ codes " commented on your post."))
    else []

-- The loop of notifyCommentMentions, with the map `skip`.
unfoldable pub tell_mentioned : Recipients → CommentRow → List Text → List Text → List Text
tell_mentioned t c skip [] = []
tell_mentioned t c skip (e ∷ mentioned) =
    let skipped = tell_mentioned t c skip mentioned in
    let others = tell_mentioned t c (e ∷ skip) mentioned in
    let n =
      notification_of e c (codes "comment_mention") (codes "Comment Mention")
        (t.author_handle ++ codes " mentioned you in a comment.") in
    if contains e skip then skipped else if t.delivers n then e ∷ others else others

unfoldable pub notify_comment_mentions : Recipients → CommentRow → List Text → List Text
unfolding tell_mentioned
notify_comment_mentions t c already = elim t.mentioned [
  | found mentioned ↦ tell_mentioned t c (c.entity_id ∷ already) mentioned
  | missing ↦ []
  | broken ↦ []
]

-- Everyone who was told.
unfoldable pub pinged : Recipients → CommentRow → PostRow → Option ParentComment → List Text
pinged t c post replied_to =
    let owner = tell_owner t c post replied_to in owner ++ notify_comment_mentions t c owner

-- The `notified` of the response.
unfoldable pub notified_of : Recipients → CommentRow → PostRow → Option ParentComment → List Text
notified_of t c post replied_to =
    if post.community_count == 0 then pinged t c post replied_to else []
