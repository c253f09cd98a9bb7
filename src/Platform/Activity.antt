-- ===== src/Platform/Activity.antt =====
-- internal/platform/mentions.go: CommentMentions and CommentReplies, which are commentActivity, and
-- commentRowsForViewer. The stores' queries are parameters; a loop over a Go map runs in the order of the list
-- that stands for it.
pub mod Visible
pub mod Answerable
pub mod Anonymous
use chatterloop_developer_se.Common.{
  ℕ, ◌*◌, Bool, true, false, ◌&&◌, ◌||◌, not, Option, none, some, List, [], ◌∷◌, ◌++◌, Text,
  text_eq, contains, if◌then◌else◌, is_empty, codes, lookup, put, or_else, Fetched, found, missing,
  broken, Rows, exhausted, cut_short, row, unreadable, ℤ,
}
use chatterloop_developer_se.Platform.Bson.{Value, Fields, get, as_text, object, object_id}
use chatterloop_developer_se.Platform.Identity.{dedupe, handles_for}
use chatterloop_developer_se.Platform.Community.{PostAccess, permits, AccessRow, load_post_access}

pub record CommentRow : Type 0 where
  pub text : Text
  pub has_parent : Bool
  pub post_id : Text
  pub entity_id : Text
  pub anonymous : Bool

abbrev pub Comments : Type 0
Comments = List (Text × CommentRow)

-- The loop of commentRowsForViewer over its rows.
unfoldable pub read_comments : Comments → Rows (Text × CommentRow) → Fetched Comments
read_comments comments exhausted = found comments
read_comments comments cut_short = broken
read_comments comments (unreadable rows) = broken
read_comments comments (row (id, comment) rows) = read_comments (put id comment comments) rows

-- The keys of `postIDs`.
unfoldable pub post_ids : Comments → List Text
post_ids [] = []
post_ids ((id, comment) ∷ comments) =
    let others = post_ids comments in
    if contains comment.post_id others then others else comment.post_id ∷ others

abbrev pub readable_with : Text → Fetched PostAccess → Option Bool
readable_with viewer (found access) = some (permits access viewer false)
readable_with viewer missing = some false
readable_with viewer broken = none

-- The loop that asks for the access to each post.
unfoldable pub post_answers :
    (Text → Text → Fetched AccessRow) → Text → List Text → Option (List (Text × Bool))
unfolding permits load_post_access
post_answers access viewer [] = some []
post_answers access viewer (post_id ∷ posts) =
    elim (readable_with viewer (load_post_access access post_id viewer)) [
      | none ↦ none
      | some readable ↦ elim (post_answers access viewer posts) [
        | none ↦ none
        | some answers ↦ some ((post_id, readable) ∷ answers)
      ]
    ]

-- The loop that deletes the comments of the other posts.
unfoldable pub keep_readable : List (Text × Bool) → Comments → Comments
keep_readable answers [] = []
keep_readable answers ((id, comment) ∷ comments) =
    let rest = keep_readable answers comments in
    if or_else false (lookup comment.post_id answers) then (id, comment) ∷ rest else rest

abbrev pub visible_of :
    (Text → Text → Fetched AccessRow) → Text → Fetched Comments → Fetched Comments
visible_of access viewer (found comments) = elim (post_answers access viewer (post_ids comments)) [
  | none ↦ broken
  | some answers ↦ found (keep_readable answers comments)
]
visible_of access viewer missing = broken
visible_of access viewer broken = broken

abbrev pub rows_read : Fetched (Rows (Text × CommentRow)) → Fetched Comments
rows_read (found rows) = read_comments [] rows
rows_read missing = broken
rows_read broken = broken

unfoldable pub comment_rows_for_viewer :
    (List Text → Fetched (Rows (Text × CommentRow)))
    → (Text → Text → Fetched AccessRow)
    → List Text
    → Text
    → Fetched Comments
unfolding dedupe read_comments post_answers keep_readable
comment_rows_for_viewer query access comment_ids viewer = elim (dedupe comment_ids) [
  | [] ↦ found []
  | id ∷ ids ↦ visible_of access viewer (rows_read (query (id ∷ ids)))
]

pub record Mention : Type 0 where
  pub notification_id : Text
  pub comment_id : Text
  pub post_id : Text
  pub author_entity_id : Text
  pub text : Text
  pub author_handle : Text
  pub is_anonymous : Bool
  pub kind : Text
  pub created_at : ℕ

abbrev pub kind_mention : Text
kind_mention = codes "mention"

abbrev pub kind_reply : Text
kind_reply = codes "reply"

abbrev post_of : Value → Text
post_of (object target) = as_text (get (codes "supportingID") target)
post_of _ = []

abbrev written_at : Value → ℕ
written_at (object_id seconds) = seconds * 1000
written_at _ = 0

abbrev pub pending_mention : Text → Fields → Mention
pending_mention kind raw = record {
  notification_id = as_text (get (codes "notificationID") raw);
  comment_id = as_text (get (codes "referenceID") raw);
  post_id = post_of (get (codes "target") raw);
  author_entity_id = as_text (get (codes "fromUserID") raw);
  text = [];
  author_handle = [];
  is_anonymous = false;
  kind = kind;
  created_at = written_at (get (codes "_id") raw);
}

-- The first loop of commentActivity.
unfoldable pub pending_mentions : Text → List Fields → List Mention
unfolding get
pending_mentions kind [] = []
pending_mentions kind (raw ∷ raws) =
    let rest = pending_mentions kind raws in
    if is_empty (as_text (get (codes "referenceID") raw))
    then rest
    else pending_mention kind raw ∷ rest

abbrev pub comment_ids : List Mention → List Text
comment_ids [] = []
comment_ids (m ∷ ms) = m.comment_id ∷ comment_ids ms

-- The authors whose handles are looked up.
unfoldable pub author_ids : Comments → List Text
author_ids [] = []
author_ids ((id, comment) ∷ comments) =
    let rest = author_ids comments in if comment.anonymous then rest else comment.entity_id ∷ rest

abbrev pub author_of : CommentRow → Text
author_of comment = if comment.anonymous then [] else comment.entity_id

abbrev pub resolved_mention : List (Text × Text) → CommentRow → Mention → Mention
resolved_mention handles comment m = record m {
  text = comment.text;
  post_id = comment.post_id;
  author_entity_id = author_of comment;
  is_anonymous = comment.anonymous;
  author_handle = or_else [] (lookup (author_of comment) handles);
}

abbrev pub unanswerable : Text → CommentRow → Bool
unanswerable kind comment =
    is_empty comment.text || (text_eq kind kind_reply && not comment.has_parent)

-- The last loop of commentActivity.
unfoldable pub resolve_activity : Text → Comments → List (Text × Text) → List Mention → List Mention
resolve_activity kind comments handles [] = []
resolve_activity kind comments handles (m ∷ ms) =
    let rest = resolve_activity kind comments handles ms in
    elim (lookup m.comment_id comments) [
      | none ↦ rest
      | some comment ↦
          if unanswerable kind comment then rest else resolved_mention handles comment m ∷ rest
    ]

-- What commentActivity reads: the notifications of an entity with a type, up to a limit, the comments
-- of some ids, the access of a viewer to a post, and the handles of some entities.
pub record Stores : Type 0 where
  pub notifications : Text → Text → ℤ → Fetched (List Fields)
  pub comments : List Text → Fetched (Rows (Text × CommentRow))
  pub access : Text → Text → Fetched AccessRow
  pub handles : List Text → Fetched (Rows (Text × Text))

abbrev pub found_handles : Fetched (List (Text × Text)) → List (Text × Text)
found_handles (found handles) = handles
found_handles missing = []
found_handles broken = []

abbrev pub activity_of : Stores → Text → List Mention → Fetched Comments → Fetched (List Mention)
activity_of s kind ms (found comments) =
    let handles = found_handles (handles_for s.handles (author_ids comments)) in
    found (resolve_activity kind comments handles ms)
activity_of s kind ms missing = broken
activity_of s kind ms broken = broken

abbrev pub pending_activity : Stores → Text → Text → List Mention → Fetched (List Mention)
pending_activity s viewer kind [] = found []
pending_activity s viewer kind (m ∷ ms) =
    activity_of s kind (m ∷ ms)
      (comment_rows_for_viewer s.comments s.access (comment_ids (m ∷ ms)) viewer)

abbrev pub notification_type : Text → Text
notification_type kind =
    if text_eq kind kind_reply then codes "post_comment" else codes "comment_mention"

unfoldable pub comment_activity : Stores → Text → ℤ → Text → Fetched (List Mention)
unfolding pending_mentions comment_rows_for_viewer
comment_activity s entity_id limit kind =
    elim (s.notifications entity_id (notification_type kind) limit) [
      | found raws ↦ pending_activity s entity_id kind (pending_mentions kind raws)
      | missing ↦ broken
      | broken ↦ broken
    ]

abbrev pub comment_mentions : Stores → Text → ℤ → Fetched (List Mention)
comment_mentions s entity_id limit = comment_activity s entity_id limit kind_mention

abbrev pub comment_replies : Stores → Text → ℤ → Fetched (List Mention)
comment_replies s entity_id limit = comment_activity s entity_id limit kind_reply
