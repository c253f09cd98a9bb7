-- ===== src/Platform/Activity/Answerable.antt =====
-- Which mentions and replies are returned.
use chatterloop_developer_se.Common.{
  true, false, List, [], ◌∷◌, Text, All, if◌then◌else◌, is_empty, lookup, or_else, contains, ◌||◌,
  text_eq_refl, found, Rows, found-injective, ℤ, ◌≡◌, refl, arith, Bool-cases, inl, inr,
  query_cases, Option-cases, text_eq_iff,
}
use chatterloop_developer_se.Platform.Bson.{Fields}
use chatterloop_developer_se.Platform.Identity.{dedupe, handles_for}
use chatterloop_developer_se.Platform.Activity.{
  CommentRow, Comments, Stores, Mention, comment_activity, pending_activity,
  comment_rows_for_viewer, comment_ids, visible_of, rows_read, read_comments, post_ids,
  post_answers, keep_readable, resolve_activity, pending_mentions, notification_type, unanswerable,
  kind_reply, found_handles, author_ids,
}
use chatterloop_developer_se.Platform.Activity.Visible.{
  RowOf, Entry, lookup-Entry, read_comments-RowOf, keep_readable-Entry, Readable,
  post_answers-Readable,
}

-- The handles that the store has for some entities, none where it cannot be read.
abbrev pub handles_of : Stores → List Text → List (Text × Text)
handles_of s ids = found_handles (handles_for s.handles ids)

-- The comment behind a mention: a row of its id, on a post that the viewer may read, that is not empty,
-- and that is a reply where replies are asked for. The mention shows its words and, unless it is
-- anonymous, its author, who is then among the entities whose handles are read; its handle is the one
-- that was read for the author shown.
abbrev pub Backed : Stores → Rows (Text × CommentRow) → List Text → Text → Text → Mention → Type 0
Backed s rows ids viewer kind m =
    (c : CommentRow) × (RowOf m.comment_id c rows
      × Readable s.access viewer c.post_id
      × (m.text ≡ c.text)
      × (is_empty c.text ≡ false)
      × (kind ≡ kind_reply → c.has_parent ≡ true)
      × (m.post_id ≡ c.post_id)
      × (m.author_entity_id ≡ (if c.anonymous then [] else c.entity_id))
      × ((c.anonymous || contains c.entity_id ids) ≡ true)
      × (m.author_handle
          ≡ or_else [] (lookup (if c.anonymous then [] else c.entity_id) (handles_of s ids)))
      × (m.is_anonymous ≡ c.anonymous))

abbrev BackedIn : Stores → Rows (Text × CommentRow) → Text → Comments → Type 0
BackedIn s rows viewer cs =
    (id : Text) (c : CommentRow)
    → Entry id c cs
    → RowOf id c rows × Readable s.access viewer c.post_id

-- The handle of every author who may be shown is asked for.
author_ids-contains :
    (id : Text) (c : CommentRow) (cs : Comments)
    → Entry id c cs
    → (c.anonymous || contains c.entity_id (author_ids cs)) ≡ true
unfolding author_ids contains
author_ids-contains id c [] nowhere = elim nowhere [ ]
author_ids-contains id c ((j, d) ∷ cs) (inl (same, it)) =
    rw (← it) (ground (arith, text_eq_refl d.entity_id))
author_ids-contains id c ((j, d) ∷ cs) (inr later) =
    ground (arith, author_ids-contains id c cs later)

resolve_activity-Backed :
    (s : Stores) (rows : Rows (Text × CommentRow)) (viewer kind : Text) (cs : Comments)
    (ids : List Text) (ms : List Mention)
    → BackedIn s rows viewer cs
    → ((id : Text) (c : CommentRow)
        → Entry id c cs
        → (c.anonymous || contains c.entity_id ids) ≡ true)
    → All (Backed s rows ids viewer kind) (resolve_activity kind cs (handles_of s ids) ms)
unfolding resolve_activity
resolve_activity-Backed s rows viewer kind cs ids [] b asks = tt
resolve_activity-Backed s rows viewer kind cs ids (m ∷ ms) b asks =
    let rest = resolve_activity-Backed s rows viewer kind cs ids ms b asks in
    elim (Option-cases (lookup m.comment_id cs)) [
      | inl unknown ↦ rw (resolve_activity, unknown) rest
      | inr (c, held) ↦ elim (Bool-cases (unanswerable kind c)) [
        | inl dropped ↦ rw (resolve_activity, held, dropped) rest
        | inr kept ↦
            let entry = lookup-Entry m.comment_id c cs held in
            let (in_rows, readable) = b m.comment_id c entry in
            rw (resolve_activity, held, kept)
              (
                (
                  c,
                  (
                    in_rows,
                    readable,
                    refl,
                    ground arith,
                    λ reply. ground (arith, text_eq_iff kind kind_reply),
                    refl,
                    refl,
                    asks m.comment_id c entry,
                    refl,
                    refl,
                  ),
                ),
                rest,
              )
      ]
    ]

visible_of-BackedIn :
    (s : Stores) (rows : Rows (Text × CommentRow)) (viewer : Text) (read visible : Comments)
    → read_comments [] rows ≡ found read
    → visible_of s.access viewer (found read) ≡ found visible
    → BackedIn s rows viewer visible
visible_of-BackedIn s rows viewer read visible r v id c entry =
    elim (Option-cases (post_answers s.access viewer (post_ids read))) [
      | inl failed ↦ cc (rw (visible_of, failed) at v)
      | inr (answers, held) ↦
          let kept : keep_readable answers read ≡ visible =
            found-injective (rw (visible_of, held) at v) in
          let (n, ok) = keep_readable-Entry id c answers read (rw kept entry) in
          (
            elim (read_comments-RowOf id c [] rows read r n) [
              | inl nowhere ↦ elim nowhere [ ]
              | inr in_rows ↦ in_rows
            ],
            post_answers-Readable s.access viewer (post_ids read) answers c.post_id held ok,
          )
    ]

comment_rows-BackedIn :
    (s : Stores) (rows : Rows (Text × CommentRow)) (viewer : Text) (ids : List Text)
    (visible : Comments)
    → s.comments (dedupe ids) ≡ found rows
    → comment_rows_for_viewer s.comments s.access ids viewer ≡ found visible
    → BackedIn s rows viewer visible
comment_rows-BackedIn s rows viewer ids visible q v =
    go (dedupe ids) q (unfold comment_rows_for_viewer in v)
  where
    go :
        (unique : List Text)
        → s.comments unique ≡ found rows
        → elim unique [
          | [] ↦ found []
          | id ∷ rest ↦ visible_of s.access viewer (rows_read (s.comments (id ∷ rest)))
        ]
          ≡ found visible
        → BackedIn s rows viewer visible
    go [] q v = rw (← found-injective v) (λ id c entry. elim entry [ ])
    go (id ∷ rest) q v = elim (query_cases (read_comments [] rows)) [
      | inl (read, r) ↦ visible_of-BackedIn s rows viewer read visible r (rw (q, rows_read, r) at v)
      | inr (inl none') ↦ cc (rw (q, rows_read, none') at v)
      | inr (inr failed) ↦ cc (rw (q, rows_read, failed) at v)
    ]

pending_activity-Backed :
    (s : Stores) (rows : Rows (Text × CommentRow)) (viewer kind : Text) (ms answer : List Mention)
    → s.comments (dedupe (comment_ids ms)) ≡ found rows
    → pending_activity s viewer kind ms ≡ found answer
    → (ids : List Text) × All (Backed s rows ids viewer kind) answer
pending_activity-Backed s rows viewer kind [] answer q e = rw (← found-injective e) ([], tt)
pending_activity-Backed s rows viewer kind (m ∷ ms) answer q e =
    elim (query_cases (comment_rows_for_viewer s.comments s.access (comment_ids (m ∷ ms)) viewer)) [
      | inl (cs, held) ↦ (
        author_ids cs,
        rw (← found-injective (rw (pending_activity, held) at e)) (
            resolve_activity-Backed s rows viewer kind cs (author_ids cs) (m ∷ ms)
              (comment_rows-BackedIn s rows viewer (comment_ids (m ∷ ms)) cs q held)
              (λ id c. author_ids-contains id c cs)),
      )
      | inr (inl none') ↦ cc (rw (pending_activity, none') at e)
      | inr (inr failed) ↦ cc (rw (pending_activity, failed) at e)
    ]

-- Every mention and every reply that is returned is backed by a row that the store has for its
-- comment: it stands on a post that the caller may read, has words, and, where replies are asked for, a
-- parent. Its author is shown exactly where the comment is not anonymous. The handles of some entities
-- are read, every author shown among them, and the handle of a mention is the one that was read for the
-- author shown, which is the blank id where the comment is anonymous.
pub comment_activity-Backed :
    (s : Stores) (raws : List Fields) (rows : Rows (Text × CommentRow)) (viewer : Text) (limit : ℤ)
    (kind : Text) (answer : List Mention)
    → s.notifications viewer (notification_type kind) limit ≡ found raws
    → s.comments (dedupe (comment_ids (pending_mentions kind raws))) ≡ found rows
    → comment_activity s viewer limit kind ≡ found answer
    → (ids : List Text) × All (Backed s rows ids viewer kind) answer
unfolding comment_activity
comment_activity-Backed s raws rows viewer limit kind answer n q e =
    pending_activity-Backed s rows viewer kind (pending_mentions kind raws) answer q
      (rw (comment_activity, n) at e)
