-- ===== src/Platform/ReadTests.antt =====
-- Witnesses of internal/platform's theorems on the reading of posts and comments.
use chatterloop_developer_se.Common.{
  ℕ, true, false, none, List, [], ◌∷◌, Text, codes, text_eq, ◌≡◌, refl, found, rows_of, Rows, row,
  exhausted, Fetched, pos, All, length, ◌≤◌, arith, remove, lookup,
}
use chatterloop_developer_se.Platform.Bson.{text, field, end, Fields, object_id}
use chatterloop_developer_se.Platform.Community.{AccessRow, PostAccess, permits, load_post_access}
use chatterloop_developer_se.Platform.Identity.{handles_for}
use chatterloop_developer_se.Platform.Activity.{
  CommentRow, Stores, Mention, comment_activity, kind_reply, post_ids, resolve_activity, author_ids,
}
use chatterloop_developer_se.Platform.Activity.Answerable.{Backed, comment_activity-Backed}
use chatterloop_developer_se.Platform.Activity.Anonymous.{with_comments, comment_activity-anonymous}
use chatterloop_developer_se.Platform.Posts.{
  Database, PostRow, ThreadRow, PostThread, PostComment, clamp_limit, load_post_thread_for_viewer,
}
use chatterloop_developer_se.Platform.Posts.Hiding.{with_rows, load_post_thread-anonymous}
use chatterloop_developer_se.Platform.Posts.Reading.{OldestFirst, load_post_thread-OldestFirst}

abbrev open_post : AccessRow
open_post = record {
  entity_id = codes "author";
  readable = true;
  total = 0;
  active = false;
  private = false;
  member = false;
  scope_realm_id = [];
  scope_entity_id = [];
}

abbrev notification : Fields
notification = field (codes "_id") (object_id 7) (
    field (codes "referenceID") (text (codes "c1"))
      (field (codes "notificationID") (text (codes "NTF_1")) end))

-- A comment by an entity that hides it.
abbrev hidden_by : Text → CommentRow
hidden_by entity_id = record {
  text = codes "hello";
  has_parent = true;
  post_id = codes "p1";
  entity_id = entity_id;
  anonymous = true;
}

abbrev comment_table : Text → List Text → Fetched (Rows (Text × CommentRow))
comment_table entity_id _ = found (row (codes "c1", hidden_by entity_id) exhausted)

abbrev stores : Stores
stores = record {
  notifications = λ _ _ _. found (notification ∷ []);
  comments = comment_table (codes "e2");
  access = λ _ _. found open_post;
  handles = λ _. found exhausted;
}

abbrev a_reply : Mention
a_reply = record {
  notification_id = codes "NTF_1";
  comment_id = codes "c1";
  post_id = codes "p1";
  author_entity_id = [];
  text = codes "hello";
  author_handle = [];
  is_anonymous = true;
  kind = kind_reply;
  created_at = 7000;
}

comment_activity-Backed_example :
    (ids : List Text) × All
      (Backed stores
        (row (codes "c1", hidden_by (codes "e2")) exhausted)
        ids
        (codes "e1")
        kind_reply)
      (a_reply ∷ [])
unfolding comment_activity load_post_access permits text_eq post_ids remove resolve_activity lookup
    handles_for author_ids
comment_activity-Backed_example =
    comment_activity-Backed stores (notification ∷ [])
      (row (codes "c1", hidden_by (codes "e2")) exhausted) (codes "e1") (pos 25) kind_reply
      (a_reply ∷ []) refl refl refl

comment_activity-anonymous_example :
    comment_activity stores (codes "e1") (pos 25) kind_reply
    ≡ comment_activity
        (with_comments stores (comment_table (codes "e3")))
        (codes "e1")
        (pos 25)
        kind_reply
comment_activity-anonymous_example =
    comment_activity-anonymous stores (comment_table (codes "e3")) (codes "e1") (pos 25) kind_reply
      (λ ids. refl)

abbrev thread_row : Text → Text → ℕ → ThreadRow
thread_row comment_id entity_id created_at = record {
  comment_id = comment_id;
  parent = none;
  entity_id = entity_id;
  text = codes "hello";
  created_at = created_at;
  is_anonymous = true;
}

abbrev thread_rows : Text → List ThreadRow
thread_rows entity_id =
    thread_row (codes "c2") entity_id 20 ∷ thread_row (codes "c1") (codes "e4") 10 ∷ []

abbrev post_by : Text → Text → Fetched PostRow
post_by entity_id _ = found (record {
  entity_id = entity_id;
  caption = codes "a post";
  date_posted = 5;
  is_anonymous = true;
})

abbrev open_post_by : Text → AccessRow
open_post_by author = record open_post { entity_id = author }

abbrev database : Database
database = record {
  access = λ _ _. found (open_post_by (codes "e5"));
  post = post_by (codes "e5");
  comments = λ _ _. found (rows_of (thread_rows (codes "e2")));
  handles = λ _. found exhausted;
}

load_post_thread-anonymous_example :
    load_post_thread_for_viewer database (codes "p1") (pos 50) (codes "e1")
    ≡ load_post_thread_for_viewer
        (with_rows database
          (λ _ _. found (open_post_by (codes "e6")))
          (post_by (codes "e6"))
          (λ _ _. found (rows_of (thread_rows (codes "e3")))))
        (codes "p1")
        (pos 50)
        (codes "e1")
unfolding text_eq
load_post_thread-anonymous_example =
    load_post_thread-anonymous database (λ _ _. found (open_post_by (codes "e6")))
      (post_by (codes "e6")) (λ _ _. found (rows_of (thread_rows (codes "e3")))) (codes "p1")
      (pos 50) (codes "e1") refl refl (λ n. refl)

abbrev shown_comment : Text → ℕ → PostComment
shown_comment comment_id created_at = record {
  comment_id = comment_id;
  parent_comment_id = [];
  author_entity_id = [];
  author_handle = [];
  text = codes "hello";
  created_at = created_at;
  is_anonymous = true;
}

abbrev shown_thread : PostThread
shown_thread = record {
  post_id = codes "p1";
  author_entity_id = [];
  author_handle = [];
  caption = codes "a post";
  created_at = 5;
  comments = shown_comment (codes "c1") 10 ∷ shown_comment (codes "c2") 20 ∷ [];
  is_anonymous = true;
  is_owner = false;
  community = none;
}

load_post_thread-OldestFirst_example :
    OldestFirst shown_thread.comments
    × (length shown_thread.comments ≤ 200)
    × ((a : PostAccess) × ((load_post_access database.access (codes "p1") (codes "e1") ≡ found a)
          × (permits a (codes "e1") false ≡ true)))
unfolding load_post_thread_for_viewer clamp_limit text_eq handles_for lookup
load_post_thread-OldestFirst_example =
    load_post_thread-OldestFirst database (codes "p1") (pos 50) (codes "e1")
      (thread_rows (codes "e2")) shown_thread refl ((omega arith, tt), (tt, tt)) (omega arith) refl
