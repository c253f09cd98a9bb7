-- ===== src/Platform/Activity/Anonymous.antt =====
-- An anonymous comment does not give its author away.
use chatterloop_developer_se.Common.{
  Bool, Option, none, some, List, [], ◌∷◌, Text, text_eq, lookup, put, remove, Fetched, found,
  missing, broken, Rows, exhausted, cut_short, row, unreadable, ℤ, ◌≡◌, refl, arith, sym, ◌∙◌, ap,
  Bool-cases, inl, inr, query_cases, Option-cases,
}
use mathlib.Core.Path.{fun_ext}
use chatterloop_developer_se.Platform.Identity.{dedupe}
use chatterloop_developer_se.Platform.Community.{AccessRow}
use chatterloop_developer_se.Platform.Activity.{
  CommentRow, Comments, Stores, Mention, comment_activity, pending_activity,
  comment_rows_for_viewer, comment_ids, visible_of, rows_read, read_comments, post_ids,
  post_answers, keep_readable, author_ids, author_of, resolve_activity, activity_of,
  pending_mentions, notification_type,
}

-- A comment without the author it hides.
abbrev pub erase : CommentRow → CommentRow
erase c = record c { entity_id = author_of c }

abbrev erase_all : Comments → Comments
erase_all [] = []
erase_all ((id, c) ∷ cs) = (id, erase c) ∷ erase_all cs

abbrev erase_rows : Rows (Text × CommentRow) → Rows (Text × CommentRow)
erase_rows exhausted = exhausted
erase_rows cut_short = cut_short
erase_rows (unreadable rows) = unreadable (erase_rows rows)
erase_rows (row (id, c) rows) = row (id, erase c) (erase_rows rows)

abbrev pub erase_answer : Fetched (Rows (Text × CommentRow)) → Fetched (Rows (Text × CommentRow))
erase_answer (found rows) = found (erase_rows rows)
erase_answer missing = missing
erase_answer broken = broken

abbrev erase_found : Fetched Comments → Fetched Comments
erase_found (found cs) = found (erase_all cs)
erase_found missing = missing
erase_found broken = broken

author_of-erase : (c : CommentRow) → author_of (erase c) ≡ author_of c
author_of-erase c = ground arith

remove-erase : (id : Text) (cs : Comments) → remove id (erase_all cs) ≡ erase_all (remove id cs)
unfolding remove
remove-erase id [] = refl
remove-erase id ((j, c) ∷ cs) = elim (Bool-cases (text_eq j id)) [
  | inl same ↦ rw (remove, same) (remove-erase id cs)
  | inr other ↦ rw (remove, other) (ap (λ r. (j, erase c) ∷ r) (remove-erase id cs))
]

read_comments-erase :
    (cs : Comments) (rows : Rows (Text × CommentRow))
    → read_comments (erase_all cs) (erase_rows rows) ≡ erase_found (read_comments cs rows)
unfolding read_comments
read_comments-erase cs exhausted = refl
read_comments-erase cs cut_short = refl
read_comments-erase cs (unreadable rows) = refl
read_comments-erase cs (row (id, c) rows) =
    rw (read_comments, remove-erase id cs) (read_comments-erase (put id c cs) rows)

rows_read-erase :
    (q : Fetched (Rows (Text × CommentRow)))
    → rows_read (erase_answer q) ≡ erase_found (rows_read q)
rows_read-erase (found rows) = read_comments-erase [] rows
rows_read-erase missing = refl
rows_read-erase broken = refl

post_ids-erase : (cs : Comments) → post_ids (erase_all cs) ≡ post_ids cs
unfolding post_ids
post_ids-erase [] = refl
post_ids-erase ((id, c) ∷ cs) = rw (post_ids-erase cs)

keep_readable-erase :
    (answers : List (Text × Bool)) (cs : Comments)
    → keep_readable answers (erase_all cs) ≡ erase_all (keep_readable answers cs)
unfolding keep_readable
keep_readable-erase answers [] = refl
keep_readable-erase answers ((id, c) ∷ cs) = ground (arith, keep_readable-erase answers cs)

visible_of-erase :
    (access : Text → Text → Fetched AccessRow) (viewer : Text) (q : Fetched Comments)
    → visible_of access viewer (erase_found q) ≡ erase_found (visible_of access viewer q)
visible_of-erase access viewer (found cs) =
    rw (visible_of, post_ids-erase cs)
      (elim (Option-cases (post_answers access viewer (post_ids cs))) [
        | inl failed ↦ rw (visible_of, failed)
        | inr (answers, held) ↦ rw (visible_of, held) (ap found (keep_readable-erase answers cs))
      ])
visible_of-erase access viewer missing = refl
visible_of-erase access viewer broken = refl

comment_rows-erase :
    (query : List Text → Fetched (Rows (Text × CommentRow)))
    (access : Text → Text → Fetched AccessRow) (ids : List Text) (viewer : Text)
    → comment_rows_for_viewer (λ i. erase_answer (query i)) access ids viewer
      ≡ erase_found (comment_rows_for_viewer query access ids viewer)
comment_rows-erase query access ids viewer = unfold comment_rows_for_viewer in go (dedupe ids)
  where
    go :
        (unique : List Text)
        → elim unique [
          | [] ↦ found []
          | id ∷ rest ↦ visible_of access viewer (rows_read (erase_answer (query (id ∷ rest))))
        ]
          ≡ erase_found (elim unique [
            | [] ↦ found []
            | id ∷ rest ↦ visible_of access viewer (rows_read (query (id ∷ rest)))
          ])
    go [] = refl
    go (id ∷ rest) =
        rw (rows_read-erase (query (id ∷ rest)))
          (visible_of-erase access viewer (rows_read (query (id ∷ rest))))

author_ids-erase : (cs : Comments) → author_ids (erase_all cs) ≡ author_ids cs
unfolding author_ids
author_ids-erase [] = refl
author_ids-erase ((id, c) ∷ cs) = ground (arith, author_ids-erase cs)

abbrev erase_option : Option CommentRow → Option CommentRow
erase_option none = none
erase_option (some c) = some (erase c)

lookup-erase : (id : Text) (cs : Comments) → lookup id (erase_all cs) ≡ erase_option (lookup id cs)
unfolding lookup
lookup-erase id [] = refl
lookup-erase id ((j, c) ∷ cs) = ground (arith, lookup-erase id cs)

resolve_activity-erase :
    (kind : Text) (cs : Comments) (handles : List (Text × Text)) (ms : List Mention)
    → resolve_activity kind (erase_all cs) handles ms ≡ resolve_activity kind cs handles ms
unfolding resolve_activity
resolve_activity-erase kind cs handles [] = refl
resolve_activity-erase kind cs handles (m ∷ ms) = elim (Option-cases (lookup m.comment_id cs)) [
  | inl unknown ↦
      rw (resolve_activity, lookup-erase m.comment_id cs, unknown)
        (resolve_activity-erase kind cs handles ms)
  | inr (c, held) ↦ rw (
    resolve_activity,
    lookup-erase m.comment_id cs,
    held,
    author_of-erase c,
    resolve_activity-erase kind cs handles ms,
  )
]

activity_of-erase :
    (s : Stores) (kind : Text) (ms : List Mention) (q : Fetched Comments)
    → activity_of s kind ms (erase_found q) ≡ activity_of s kind ms q
activity_of-erase s kind ms (found cs) =
    rw (author_ids-erase cs) (ap found (resolve_activity-erase kind cs _ ms))
activity_of-erase s kind ms missing = refl
activity_of-erase s kind ms broken = refl

-- The stores with another table of comments.
abbrev pub with_comments : Stores → (List Text → Fetched (Rows (Text × CommentRow))) → Stores
with_comments s query = record s { comments = query }

pending_activity-erase :
    (s : Stores) (viewer kind : Text) (ms : List Mention)
    → pending_activity (with_comments s (λ i. erase_answer (s.comments i))) viewer kind ms
      ≡ pending_activity s viewer kind ms
pending_activity-erase s viewer kind [] = refl
pending_activity-erase s viewer kind (m ∷ ms) =
    rw (comment_rows-erase s.comments s.access (comment_ids (m ∷ ms)) viewer)
      (activity_of-erase s kind (m ∷ ms) _)

comment_activity-erase :
    (s : Stores) (entity_id : Text) (limit : ℤ) (kind : Text)
    → comment_activity (with_comments s (λ i. erase_answer (s.comments i))) entity_id limit kind
      ≡ comment_activity s entity_id limit kind
unfolding comment_activity
comment_activity-erase s entity_id limit kind =
    elim (query_cases (s.notifications entity_id (notification_type kind) limit)) [
      | inl (raws, held) ↦
          rw (comment_activity, held)
            (pending_activity-erase s entity_id kind (pending_mentions kind raws))
      | inr (inl none') ↦ rw (comment_activity, none')
      | inr (inr failed) ↦ rw (comment_activity, failed)
    ]

-- Nobody learns who wrote an anonymous comment: two tables of comments that differ only in the
-- authors of anonymous ones give every reader the same mentions and the same replies.
pub comment_activity-anonymous :
    (s : Stores) (query : List Text → Fetched (Rows (Text × CommentRow))) (entity_id : Text)
    (limit : ℤ) (kind : Text)
    → ((ids : List Text) → erase_answer (s.comments ids) ≡ erase_answer (query ids))
    → comment_activity s entity_id limit kind
      ≡ comment_activity (with_comments s query) entity_id limit kind
comment_activity-anonymous s query entity_id limit kind same =
    sym (comment_activity-erase s entity_id limit kind)
    ∙ ap (λ q. comment_activity (with_comments s q) entity_id limit kind) (fun_ext same)
    ∙ comment_activity-erase (with_comments s query) entity_id limit kind
