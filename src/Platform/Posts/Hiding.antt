-- ===== src/Platform/Posts/Hiding.antt =====
-- An anonymous post or comment does not give its author away.
use chatterloop_developer_se.Common.{
  ℕ, Bool, false, not, List, [], ◌∷◌, Text, text_eq, if◌then◌else◌, reverse, Fetched, found,
  missing, broken, Rows, exhausted, cut_short, row, unreadable, ℤ, ◌≡◌, refl, sym, ◌∙◌, ap, arith,
  query_cases, inl, inr,
}
use chatterloop_developer_se.Platform.Community.{
  PostAccess, AccessRow, access_of, permits, load_post_access,
}
use chatterloop_developer_se.Platform.Posts.{
  PostComment, PostThread, PostRow, ThreadRow, Database, load_post_thread_for_viewer,
  permitted_thread, read_thread, rows_read, collect_comments, comment_of, clamp_limit, shown_author,
  finished,
}

-- A row without the author it hides.
abbrev erase : ThreadRow → ThreadRow
erase r = record r { entity_id = if r.is_anonymous then [] else r.entity_id }

abbrev erase_rows : Rows ThreadRow → Rows ThreadRow
erase_rows exhausted = exhausted
erase_rows cut_short = cut_short
erase_rows (unreadable rows) = unreadable (erase_rows rows)
erase_rows (row r rows) = row (erase r) (erase_rows rows)

abbrev pub erase_answer : Fetched (Rows ThreadRow) → Fetched (Rows ThreadRow)
erase_answer (found rows) = found (erase_rows rows)
erase_answer missing = missing
erase_answer broken = broken

-- What a viewer may know of the row of a post: its author only if the post is not anonymous, and
-- whether that is the viewer.
abbrev pub seen_post : Text → PostRow → Text × Text × ℕ × Bool × Bool
seen_post viewer p =
    (shown_author p, p.caption, p.date_posted, p.is_anonymous, text_eq p.entity_id viewer)

abbrev pub seen_answer : Text → Fetched PostRow → Fetched (Text × Text × ℕ × Bool × Bool)
seen_answer viewer (found p) = found (seen_post viewer p)
seen_answer viewer missing = missing
seen_answer viewer broken = broken

comment_of-erase : (r : ThreadRow) → comment_of (erase r) ≡ comment_of r
comment_of-erase r = ground arith

collect_comments-erase :
    (rows : Rows ThreadRow) → collect_comments (erase_rows rows) ≡ collect_comments rows
unfolding collect_comments
collect_comments-erase exhausted = refl
collect_comments-erase cut_short = refl
collect_comments-erase (unreadable rows) = refl
collect_comments-erase (row r rows) = elim (query_cases (collect_comments rows)) [
  | inl (cs, held) ↦
      rw (collect_comments, collect_comments-erase rows, held)
        (ap (λ c. found (c ∷ cs)) (comment_of-erase r))
  | inr (inl none') ↦ rw (collect_comments, collect_comments-erase rows, none')
  | inr (inr failed) ↦ rw (collect_comments, collect_comments-erase rows, failed)
]

rows_read-erase : (q : Fetched (Rows ThreadRow)) → rows_read (erase_answer q) ≡ rows_read q
rows_read-erase (found rows) = collect_comments-erase rows
rows_read-erase missing = refl
rows_read-erase broken = refl

-- The thread, from what the viewer may know of the post.
abbrev seen_thread :
    Database
    → Text
    → PostAccess
    → Fetched (List PostComment)
    → Fetched (Text × Text × ℕ × Bool × Bool)
    → Fetched PostThread
seen_thread db post_id access (found collected) (found (author, caption, date, anonymous, own)) =
    found (
      finished db (record {
        post_id = post_id;
        author_entity_id = author;
        author_handle = [];
        caption = caption;
        created_at = date;
        comments = reverse collected;
        is_anonymous = anonymous;
        is_owner = own;
        community = access.community;
      }))
seen_thread db post_id access missing (found s) = broken
seen_thread db post_id access broken (found s) = broken
seen_thread db post_id access q missing = missing
seen_thread db post_id access q broken = broken

read_thread-seen :
    (db : Database) (post_id : Text) (limit : ℤ) (viewer : Text) (access : PostAccess)
    (p : Fetched PostRow)
    → read_thread db post_id limit viewer access p
      ≡ seen_thread db post_id access
          (rows_read (db.comments post_id (clamp_limit limit)))
          (seen_answer viewer p)
read_thread-seen db post_id limit viewer access (found p) =
    elim (query_cases (rows_read (db.comments post_id (clamp_limit limit)))) [
      | inl (collected, held) ↦ rw (read_thread, held)
      | inr (inl none') ↦ rw (read_thread, none')
      | inr (inr failed) ↦ rw (read_thread, failed)
    ]
read_thread-seen db post_id limit viewer access missing = refl
read_thread-seen db post_id limit viewer access broken = refl

-- An access to a post without its author, and the same of a row of the query.
abbrev hide : Fetched PostAccess → Fetched PostAccess
hide (found a) = found (record a { author_entity_id = [] })
hide missing = missing
hide broken = broken

abbrev pub seen_access : Fetched AccessRow → Fetched AccessRow
seen_access (found r) = found (record r { entity_id = [] })
seen_access missing = missing
seen_access broken = broken

abbrev access_to : Fetched AccessRow → Fetched PostAccess
access_to (found r) = found (access_of r)
access_to missing = missing
access_to broken = broken

load_post_access-seen :
    (access : Text → Text → Fetched AccessRow) (c : ℕ) (post_id viewer : Text)
    → hide (load_post_access access (c ∷ post_id) viewer)
      ≡ access_to (seen_access (access (c ∷ post_id) viewer))
unfolding load_post_access
load_post_access-seen access c post_id viewer = elim (query_cases (access (c ∷ post_id) viewer)) [
  | inl (r, held) ↦ rw (load_post_access, held)
  | inr (inl none') ↦ rw (load_post_access, none')
  | inr (inr failed) ↦ rw (load_post_access, failed)
]

permitted_thread-hide :
    (db : Database) (post_id : Text) (limit : ℤ) (viewer : Text) (access : Fetched PostAccess)
    → permitted_thread db post_id limit viewer access
      ≡ permitted_thread db post_id limit viewer (hide access)
unfolding permits
permitted_thread-hide db post_id limit viewer (found access) =
    ap (λ t. if not (permits access viewer false) then missing else t)
      (read_thread-seen db post_id limit viewer access (db.post post_id)
        ∙ sym (
            read_thread-seen db post_id limit viewer (record access { author_entity_id = [] })
              (db.post post_id)))
permitted_thread-hide db post_id limit viewer missing = refl
permitted_thread-hide db post_id limit viewer broken = refl

-- The database with other rows of posts, in both queries that read them, and of comments.
abbrev pub with_rows :
    Database
    → (Text → Text → Fetched AccessRow)
    → (Text → Fetched PostRow)
    → (Text → ℕ → Fetched (Rows ThreadRow))
    → Database
with_rows db access post comments = record db { access = access; post = post; comments = comments }

module _ (db : Database) (other_access : Text → Text → Fetched AccessRow)
    (post : Text → Fetched PostRow) (comments : Text → ℕ → Fetched (Rows ThreadRow)) where
  abbrev other : Database
  other = with_rows db other_access post comments

  permitted_thread-seen :
      (post_id : Text) (limit : ℤ) (viewer : Text) (access : Fetched PostAccess)
      → seen_answer viewer (db.post post_id) ≡ seen_answer viewer (post post_id)
      → ((n : ℕ) → erase_answer (db.comments post_id n) ≡ erase_answer (comments post_id n))
      → permitted_thread db post_id limit viewer access
        ≡ permitted_thread other post_id limit viewer access
  permitted_thread-seen post_id limit viewer (found access) same_post same_rows =
      let n = clamp_limit limit in
      let same_read : rows_read (db.comments post_id n) ≡ rows_read (comments post_id n) =
        sym (rows_read-erase (db.comments post_id n))
        ∙ ap rows_read (same_rows n)
        ∙ rows_read-erase (comments post_id n) in
      ap (λ t. if not (permits access viewer false) then missing else t)
        (read_thread-seen db post_id limit viewer access (db.post post_id)
          ∙ ap (λ q. seen_thread db post_id access q (seen_answer viewer (db.post post_id)))
              same_read
          ∙ ap (seen_thread db post_id access (rows_read (comments post_id n))) same_post
          ∙ sym (read_thread-seen other post_id limit viewer access (post post_id)))
  permitted_thread-seen post_id limit viewer missing same_post same_rows = refl
  permitted_thread-seen post_id limit viewer broken same_post same_rows = refl

  -- Nobody learns who wrote an anonymous post or comment: two databases give a viewer the same thread of
  -- a post if they differ only in the authors of anonymous comments and, where the post is anonymous and
  -- the viewer wrote it in both or in neither and may read it in both or in neither, in the author of
  -- the post, both where the access to the post is read and where the post is.
  pub load_post_thread-anonymous :
      (post_id : Text) (limit : ℤ) (viewer : Text)
      → seen_access (db.access post_id viewer) ≡ seen_access (other_access post_id viewer)
      → seen_answer viewer (db.post post_id) ≡ seen_answer viewer (post post_id)
      → ((n : ℕ) → erase_answer (db.comments post_id n) ≡ erase_answer (comments post_id n))
      → load_post_thread_for_viewer db post_id limit viewer
        ≡ load_post_thread_for_viewer other post_id limit viewer
  unfolding load_post_thread_for_viewer
  load_post_thread-anonymous [] limit viewer same_access same_post same_rows = refl
  load_post_thread-anonymous (c ∷ post_id) limit viewer same_access same_post same_rows =
      let id = c ∷ post_id in
      let here = load_post_access db.access id viewer in
      let there = load_post_access other_access id viewer in
      let same_hidden : hide here ≡ hide there =
        load_post_access-seen db.access c post_id viewer
        ∙ ap access_to same_access
        ∙ sym (load_post_access-seen other_access c post_id viewer) in
      permitted_thread-hide db id limit viewer here
      ∙ ap (permitted_thread db id limit viewer) same_hidden
      ∙ sym (permitted_thread-hide db id limit viewer there)
      ∙ permitted_thread-seen id limit viewer there same_post same_rows
