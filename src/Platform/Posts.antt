-- ===== src/Platform/Posts.antt =====
-- internal/platform/posts.go: LoadPostThread and LoadPostThreadForViewer, with the MarshalJSON methods of
-- internal/platform/community.go. The queries are parameters; times are milliseconds after 1970.
pub mod Hiding
pub mod Reading
use chatterloop_developer_se.Common.{
  ℕ, Bool, true, false, not, Option, none, some, List, [], ◌∷◌, Text, text_eq, ltb, if◌then◌else◌,
  is_empty, lookup, or_else, reverse, Fetched, found, missing, broken, Rows, exhausted, cut_short,
  row, unreadable, ℤ, pos, negsuc,
}
use chatterloop_developer_se.Platform.Identity.{handles_for}
use chatterloop_developer_se.Platform.Community.{
  Community, PostAccess, permits, AccessRow, load_post_access,
}
use chatterloop_developer_se.Platform.Activity.{Mention}

pub record PostComment : Type 0 where
  pub comment_id : Text
  pub parent_comment_id : Text
  pub author_entity_id : Text
  pub author_handle : Text
  pub text : Text
  pub created_at : ℕ
  pub is_anonymous : Bool

pub record PostThread : Type 0 where
  pub post_id : Text
  pub author_entity_id : Text
  pub author_handle : Text
  pub caption : Text
  pub created_at : ℕ
  pub comments : List PostComment
  pub is_anonymous : Bool
  pub is_owner : Bool
  pub community : Option Community

-- The rows of the two queries.
pub record PostRow : Type 0 where
  pub entity_id : Text
  pub caption : Text
  pub date_posted : ℕ
  pub is_anonymous : Bool

pub record ThreadRow : Type 0 where
  pub comment_id : Text
  pub parent : Option Text
  pub entity_id : Text
  pub text : Text
  pub created_at : ℕ
  pub is_anonymous : Bool

-- `limit` once it is held between 1 and 200.
unfoldable pub clamp_limit : ℤ → ℕ
clamp_limit (negsuc n) = 1
clamp_limit (pos n) = if ltb n 1 then 1 else if ltb 200 n then 200 else n

abbrev pub comment_of : ThreadRow → PostComment
comment_of r = record {
  comment_id = r.comment_id;
  parent_comment_id = or_else [] r.parent;
  author_entity_id = if r.is_anonymous then [] else r.entity_id;
  author_handle = [];
  text = r.text;
  created_at = r.created_at;
  is_anonymous = r.is_anonymous;
}

-- The loop over the rows.
unfoldable pub collect_comments : Rows ThreadRow → Fetched (List PostComment)
collect_comments exhausted = found []
collect_comments cut_short = broken
collect_comments (unreadable rows) = broken
collect_comments (row r rows) = elim (collect_comments rows) [
  | found collected ↦ found (comment_of r ∷ collected)
  | missing ↦ broken
  | broken ↦ broken
]

abbrev pub shown_author : PostRow → Text
shown_author p = if p.is_anonymous then [] else p.entity_id

-- The thread before the handles are known.
abbrev pub thread_of : Text → Text → PostAccess → PostRow → List PostComment → PostThread
thread_of post_id viewer access p comments = record {
  post_id = post_id;
  author_entity_id = shown_author p;
  author_handle = [];
  caption = p.caption;
  created_at = p.date_posted;
  comments = comments;
  is_anonymous = p.is_anonymous;
  is_owner = text_eq p.entity_id viewer;
  community = access.community;
}

abbrev pub author_ids : List PostComment → List Text
author_ids [] = []
author_ids (c ∷ cs) = c.author_entity_id ∷ author_ids cs

abbrev pub with_handle : List (Text × Text) → PostComment → PostComment
with_handle handles c = record c { author_handle = or_else [] (lookup c.author_entity_id handles) }

abbrev pub with_handles : List (Text × Text) → List PostComment → List PostComment
with_handles handles [] = []
with_handles handles (c ∷ cs) = with_handle handles c ∷ with_handles handles cs

-- A failed read of the handles leaves the thread without them.
abbrev pub named_thread : Fetched (List (Text × Text)) → PostThread → PostThread
named_thread (found handles) t = record t {
  author_handle = or_else [] (lookup t.author_entity_id handles);
  comments = with_handles handles t.comments;
}
named_thread missing t = t
named_thread broken t = t

-- The queries: the access to a post, its row, its newest comments up to a limit, and the handles.
pub record Database : Type 0 where
  pub access : Text → Text → Fetched AccessRow
  pub post : Text → Fetched PostRow
  pub comments : Text → ℕ → Fetched (Rows ThreadRow)
  pub handles : List Text → Fetched (Rows (Text × Text))

abbrev pub rows_read : Fetched (Rows ThreadRow) → Fetched (List PostComment)
rows_read (found rows) = collect_comments rows
rows_read missing = broken
rows_read broken = broken

abbrev pub finished : Database → PostThread → PostThread
finished db t = named_thread (handles_for db.handles (t.author_entity_id ∷ author_ids t.comments)) t

abbrev pub thread_with :
    Database → Text → Text → PostAccess → PostRow → Fetched (List PostComment) → Fetched PostThread
thread_with db post_id viewer access p (found collected) =
    found (finished db (thread_of post_id viewer access p (reverse collected)))
thread_with db post_id viewer access p missing = broken
thread_with db post_id viewer access p broken = broken

abbrev pub read_thread :
    Database → Text → ℤ → Text → PostAccess → Fetched PostRow → Fetched PostThread
read_thread db post_id limit viewer access (found p) =
    thread_with db post_id viewer access p (rows_read (db.comments post_id (clamp_limit limit)))
read_thread db post_id limit viewer access missing = missing
read_thread db post_id limit viewer access broken = broken

abbrev pub permitted_thread : Database → Text → ℤ → Text → Fetched PostAccess → Fetched PostThread
permitted_thread db post_id limit viewer (found access) =
    if not (permits access viewer false)
    then missing
    else read_thread db post_id limit viewer access (db.post post_id)
permitted_thread db post_id limit viewer missing = missing
permitted_thread db post_id limit viewer broken = broken

-- `missing` is ErrPostNotFound.
unfoldable pub load_post_thread_for_viewer : Database → Text → ℤ → Text → Fetched PostThread
unfolding load_post_access permits clamp_limit collect_comments
load_post_thread_for_viewer db [] limit viewer = missing
load_post_thread_for_viewer db (c ∷ post_id) limit viewer =
    permitted_thread db (c ∷ post_id) limit viewer (load_post_access db.access (c ∷ post_id) viewer)

abbrev pub load_post_thread : Database → Text → ℤ → Fetched PostThread
load_post_thread db post_id limit = load_post_thread_for_viewer db post_id limit []

-- What the three MarshalJSON methods hand to the encoder.
abbrev pub marshalled_comment : PostComment → PostComment
marshalled_comment c =
    if c.is_anonymous then record c { author_entity_id = []; author_handle = [] } else c

abbrev pub marshalled_thread : PostThread → PostThread
marshalled_thread t =
    if t.is_anonymous then record t { author_entity_id = []; author_handle = [] } else t

abbrev pub marshalled_mention : Mention → Mention
marshalled_mention m =
    if m.is_anonymous then record m { author_entity_id = []; author_handle = [] } else m
