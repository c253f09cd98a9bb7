-- ===== src/Platform/Posts/Reading.antt =====
-- Which posts are read, and in which order their comments come.
use mathlib.Core.List.{reverse_aux}
use chatterloop_developer_se.Common.{
  ◌≤◌, true, false, List, [], ◌∷◌, Text, All, length, length-reverse, reverse, Fetched, found,
  missing, broken, found-injective, rows_of, ℤ, ◌≡◌, refl, ◌∙◌, ap, arith, query_cases, inl, inr,
  Bool-cases, pos, negsuc, suc,
}
use chatterloop_developer_se.Platform.Identity.{handles_for}
use chatterloop_developer_se.Platform.Community.{PostAccess, permits, load_post_access}
use chatterloop_developer_se.Platform.Posts.{
  PostComment, PostThread, PostRow, ThreadRow, Database, load_post_thread_for_viewer,
  permitted_thread, read_thread, rows_read, collect_comments, comment_of, clamp_limit, finished,
  thread_of, with_handles, author_ids,
}

-- What the ORDER BY of the query promises.
abbrev pub NewestFirst : List ThreadRow → Type 0
NewestFirst [] = Unit
NewestFirst (r ∷ rs) = All (λ (s : ThreadRow). s.created_at ≤ r.created_at) rs × NewestFirst rs

abbrev pub OldestFirst : List PostComment → Type 0
OldestFirst [] = Unit
OldestFirst (c ∷ cs) = All (λ (d : PostComment). c.created_at ≤ d.created_at) cs × OldestFirst cs

abbrev comments_of : List ThreadRow → List PostComment
comments_of [] = []
comments_of (r ∷ rs) = comment_of r ∷ comments_of rs

collect_comments-rows :
    (rs : List ThreadRow) → collect_comments (rows_of rs) ≡ found (comments_of rs)
unfolding collect_comments
collect_comments-rows [] = refl
collect_comments-rows (r ∷ rs) = rw (collect_comments, collect_comments-rows rs)

-- Every row is older than every comment that is already in place.
abbrev Before : List ThreadRow → List PostComment → Type 0
Before [] acc = Unit
Before (r ∷ rs) acc = All (λ (d : PostComment). r.created_at ≤ d.created_at) acc × Before rs acc

Before-cons :
    (r : ThreadRow) (rs : List ThreadRow) (acc : List PostComment)
    → All (λ (s : ThreadRow). s.created_at ≤ r.created_at) rs
    → Before rs acc
    → Before rs (comment_of r ∷ acc)
Before-cons r [] acc older b = tt
Before-cons r (s ∷ rs) acc (le, older) (here, b) = ((le, here), Before-cons r rs acc older b)

reverse_aux-OldestFirst :
    (rs : List ThreadRow) (acc : List PostComment)
    → NewestFirst rs
    → OldestFirst acc
    → Before rs acc
    → OldestFirst (reverse_aux (comments_of rs) acc)
reverse_aux-OldestFirst [] acc n o b = o
reverse_aux-OldestFirst (r ∷ rs) acc (older, n) o (here, b) =
    reverse_aux-OldestFirst rs (comment_of r ∷ acc) n (here, o) (Before-cons r rs acc older b)

Before-nil : (rs : List ThreadRow) → Before rs []
Before-nil [] = tt
Before-nil (r ∷ rs) = (tt, Before-nil rs)

with_handles-OldestFirst :
    (handles : List (Text × Text)) (cs : List PostComment)
    → OldestFirst cs
    → OldestFirst (with_handles handles cs)
with_handles-OldestFirst handles [] o = tt
with_handles-OldestFirst handles (c ∷ cs) (here, o) =
    (all_handles cs here, with_handles-OldestFirst handles cs o)
  where
    all_handles :
        (ds : List PostComment)
        → All (λ (d : PostComment). c.created_at ≤ d.created_at) ds
        → All (λ (d : PostComment). c.created_at ≤ d.created_at) (with_handles handles ds)
    all_handles [] h = tt
    all_handles (d ∷ ds) (le, h) = (le, all_handles ds h)

length-with_handles :
    (handles : List (Text × Text)) (cs : List PostComment)
    → length (with_handles handles cs) ≡ length cs
length-with_handles handles [] = refl
length-with_handles handles (c ∷ cs) = ap suc (length-with_handles handles cs)

length-comments_of : (rs : List ThreadRow) → length (comments_of rs) ≡ length rs
length-comments_of [] = refl
length-comments_of (r ∷ rs) = ap suc (length-comments_of rs)

clamp_limit-bound : (limit : ℤ) → clamp_limit limit ≤ 200
unfolding clamp_limit
clamp_limit-bound (negsuc n) = omega arith
clamp_limit-bound (pos n) = ground arith

-- A thread as its reader gets it, of the `rs` that the query found.
abbrev InOrder : List ThreadRow → PostThread → Type 0
InOrder rs t = OldestFirst t.comments × (length t.comments ≡ length rs)

finished-InOrder :
    (db : Database) (t : PostThread) (rs : List ThreadRow)
    → InOrder rs t
    → InOrder rs (finished db t)
finished-InOrder db t rs (o, l) =
    elim (query_cases (handles_for db.handles (t.author_entity_id ∷ author_ids t.comments))) [
      | inl (handles, held) ↦ rw held (
        with_handles-OldestFirst handles t.comments o,
        length-with_handles handles t.comments ∙ l,
      )
      | inr (inl none') ↦ rw none' (o, l)
      | inr (inr failed) ↦ rw failed (o, l)
    ]

read_thread-InOrder :
    (db : Database) (post_id : Text) (limit : ℤ) (viewer : Text) (rs : List ThreadRow)
    (access : PostAccess) (p : Fetched PostRow) (t : PostThread)
    → db.comments post_id (clamp_limit limit) ≡ found (rows_of rs)
    → NewestFirst rs
    → read_thread db post_id limit viewer access p ≡ found t
    → InOrder rs t
read_thread-InOrder db post_id limit viewer rs access missing t q n e = cc
read_thread-InOrder db post_id limit viewer rs access broken t q n e = cc
read_thread-InOrder db post_id limit viewer rs access (found p) t q n e =
    let whole = thread_of post_id viewer access p (reverse (comments_of rs)) in
    let same : finished db whole ≡ t =
      found-injective (rw (read_thread, q, rows_read, collect_comments-rows rs) at e) in
    rw (← same) (
      finished-InOrder db whole rs (
        reverse_aux-OldestFirst rs [] n tt (Before-nil rs),
        length-reverse (comments_of rs) ∙ length-comments_of rs,
      ))

permitted_thread-InOrder :
    (db : Database) (post_id : Text) (limit : ℤ) (viewer : Text) (rs : List ThreadRow)
    (t : PostThread)
    → db.comments post_id (clamp_limit limit) ≡ found (rows_of rs)
    → NewestFirst rs
    → (access : Fetched PostAccess) → permitted_thread db post_id limit viewer access ≡ found t
    → InOrder rs t × ((a : PostAccess) × ((access ≡ found a) × (permits a viewer false ≡ true)))
permitted_thread-InOrder db post_id limit viewer rs t q n missing e = cc
permitted_thread-InOrder db post_id limit viewer rs t q n broken e = cc
permitted_thread-InOrder db post_id limit viewer rs t q n (found a) e =
    elim (Bool-cases (permits a viewer false)) [
      | inl may ↦ (
        read_thread-InOrder db post_id limit viewer rs a (db.post post_id) t q n
            (rw (permitted_thread, may) at e),
        (a, (refl, may)),
      )
      | inr refused ↦ cc (rw (permitted_thread, refused) at e)
    ]

-- Where the query for comments keeps to its ORDER BY and its LIMIT, a thread that is read is of a
-- post that its viewer may read, and shows at most 200 comments, the oldest first, whether or not the
-- handles can be read.
pub load_post_thread-OldestFirst :
    (db : Database) (post_id : Text) (limit : ℤ) (viewer : Text) (rs : List ThreadRow)
    (t : PostThread)
    → db.comments post_id (clamp_limit limit) ≡ found (rows_of rs)
    → NewestFirst rs
    → length rs ≤ clamp_limit limit
    → load_post_thread_for_viewer db post_id limit viewer ≡ found t
    → OldestFirst t.comments
      × (length t.comments ≤ 200)
      × ((a : PostAccess) × ((load_post_access db.access post_id viewer ≡ found a)
            × (permits a viewer false ≡ true)))
unfolding load_post_thread_for_viewer
load_post_thread-OldestFirst db [] limit viewer rs t q n fits e = cc
load_post_thread-OldestFirst db (c ∷ post_id) limit viewer rs t q n fits e =
    let ((order, count), may) =
      permitted_thread-InOrder db (c ∷ post_id) limit viewer rs t q n
        (load_post_access db.access (c ∷ post_id) viewer) e in
    (order, omega (arith, count, fits, clamp_limit-bound limit), may)
