-- ===== src/Platform/Comments/Flattening.antt =====
-- Threads stay two levels deep, and a reply stands on the post of what it replies to.
use chatterloop_developer_se.Common.{
  true, false, none, some, Option, List, [], ◌∷◌, Text, text_eq, text_eq_iff, ◌≡◌, refl, inl, inr,
  Bool-cases, Fetched, found, missing, broken, query_cases, is_empty, ◌⊎◌, ap, trim_space,
  Option-cases, sym, ◌∙◌,
}
use mathlib.Core.List.{Memᴰ}
use chatterloop_developer_se.Platform.Sanitize.{sanitize_for_storage}
use chatterloop_developer_se.Platform.Community.{validate_comment_anonymity}
use chatterloop_developer_se.Platform.Comments.{
  Backend, CommentRequest, CommentRow, PostRow, ParentComment, Outcome, created, refused,
  create_comment, load_parent_comment, on_post, stored_parent_for, on_loaded_post, under_parent,
  with_parent, insert_row,
}

-- The parent of a row is none, or a top-level comment of the table on the same post.
abbrev pub Flat : List CommentRow → CommentRow → Type 0
Flat table r =
    (r.parent_comment_id ≡ [])
    ⊎ ((p : CommentRow) × Memᴰ p table
        × (p.comment_id ≡ r.parent_comment_id)
        × (p.parent_comment_id ≡ [])
        × (p.post_id ≡ r.post_id))

-- Every row of the table is flat.
abbrev pub TwoLevels : List CommentRow → Type 0
TwoLevels table = (r : CommentRow) → Memᴰ r table → Flat table r

-- What the parent query answers of a table: a row of it that is not deleted, with the id asked for.
abbrev pub ReadsTable : (Text → Fetched CommentRow) → List CommentRow → Type 0
ReadsTable query table =
    (id : Text) (r : CommentRow) → query id ≡ found r → Memᴰ r table × (r.comment_id ≡ id)

-- The table after a comment was created.
abbrev pub table_after : Outcome → List CommentRow → List CommentRow
table_after (created r _ _) table = r ∷ table
table_after (refused _) table = table

Flat-weaken : (table : List CommentRow) (r s : CommentRow) → Flat table r → Flat (s ∷ table) r
Flat-weaken table r s (inl e) = inl e
Flat-weaken table r s (inr (p, m, a, b, c)) = inr (p, Memᴰ.tail m, a, b, c)

-- The row of an outcome, if there is one.
abbrev row_of : Outcome → Option CommentRow
row_of (created r _ _) = some r
row_of (refused _) = none

some-injective : {r s : CommentRow} → some r ≡ some s → r ≡ s
some-injective {r} e = ap (λ (o : Option CommentRow). elim o [ none ↦ r | some x ↦ x ]) e

insert-row :
    (b : Backend) (post : PostRow) (replied_to : Option ParentComment) (s r : CommentRow)
    → row_of (insert_row b post replied_to s) ≡ some r
    → r ≡ s
insert-row b post replied_to s r e = elim (query_cases (b.inserts s post.community_realm)) [
  | inl (true, held) ↦ sym (some-injective (rw (row_of, held) at e))
  | inl (false, held) ↦ cc (rw (row_of, held) at e)
  | inr (inl none') ↦ cc (rw (row_of, none') at e)
  | inr (inr failed) ↦ cc (rw (row_of, failed) at e)
]

under_parent-row :
    (b : Backend) (author : Text) (req : CommentRequest) (text : Text) (post : PostRow)
    (replied_to : Option ParentComment) (r : CommentRow)
    → row_of (under_parent b author req text post replied_to) ≡ some r
    → (r.parent_comment_id ≡ stored_parent_for replied_to) × (r.post_id ≡ req.post_id)
under_parent-row b author req text post replied_to r e = elim (Option-cases b.fresh_id) [
  | inl none' ↦ cc (rw none' at e)
  | inr (id, minted) ↦
      let same = insert-row b post replied_to _ r (rw minted at e) in
      (ap (λ (s : CommentRow). s.parent_comment_id) same, ap (λ (s : CommentRow). s.post_id) same)
]

abbrev parent_of : Fetched ParentComment → Text × Text
parent_of (found p) = (p.comment_id, p.parent_comment_id)
parent_of missing = ([], [])
parent_of broken = ([], [])

on_post-facts :
    (parent_id post_id : Text) (r : CommentRow) (p : ParentComment)
    → on_post parent_id post_id (found r) ≡ found p
    → (r.post_id ≡ post_id)
      × (p.comment_id ≡ parent_id)
      × (p.parent_comment_id ≡ r.parent_comment_id)
on_post-facts parent_id post_id r p e = elim (Bool-cases (text_eq r.post_id post_id)) [
  | inr other ↦ cc (rw other at e)
  | inl same ↦
      let e' = ap parent_of (rw same at e) in
      (
        (text_eq_iff r.post_id post_id).0 same,
        sym (ap (λ (x : Text × Text). x.0) e'),
        sym (ap (λ (x : Text × Text). x.1) e'),
      )
]

is_empty-nil : (t : Text) → is_empty t ≡ true → t ≡ []
is_empty-nil [] e = refl
is_empty-nil (c ∷ t) e = cc

module _ (b : Backend) (table : List CommentRow) (reads : ReadsTable b.comment table)
    (flat : TwoLevels table) where
  -- Where a reply to a loaded parent is stored.
  abbrev Lands : Text → Text → Type 0
  Lands parent post_id =
      (p : CommentRow) × (Memᴰ p table
        × (p.comment_id ≡ parent)
        × (p.parent_comment_id ≡ [])
        × (p.post_id ≡ post_id))

  stored_parent-Lands :
      (parent_id post_id : Text) (p : ParentComment)
      → load_parent_comment b.comment parent_id post_id ≡ found p
      → Lands (stored_parent_for (some p)) post_id
  unfolding load_parent_comment stored_parent_for
  stored_parent-Lands parent_id post_id p e = elim (query_cases (b.comment parent_id)) [
    | inr (inl none') ↦ cc (rw (load_parent_comment, none') at e)
    | inr (inr failed) ↦ cc (rw (load_parent_comment, failed) at e)
    | inl (r, held) ↦
        let (member, named) = reads parent_id r held in
        let (here, aimed, above) =
          on_post-facts parent_id post_id r p (rw (load_parent_comment, held) at e) in
        elim (Bool-cases (is_empty r.parent_comment_id)) [
          | inl top ↦
              rw (above, top)
                (r, (member, named ∙ sym aimed, is_empty-nil r.parent_comment_id top, here))
          | inr nested ↦ elim (flat r member) [
            | inl root ↦ cc (rw root at nested)
            | inr (q, member', named', top', same) ↦
                rw (above, nested) (q, (member', named', top', same ∙ here))
          ]
        ]
  ]

  under_parent-Flat :
      (author : Text) (req : CommentRequest) (text : Text) (post : PostRow) (p : ParentComment)
      (r : CommentRow)
      → load_parent_comment b.comment req.parent_id req.post_id ≡ found p
      → row_of (under_parent b author req text post (some p)) ≡ some r
      → Flat table r
  under_parent-Flat author req text post p r loaded e =
      let (lands, on) = under_parent-row b author req text post (some p) r e in
      let (q, (member, named, top, same)) =
        stored_parent-Lands req.parent_id req.post_id p loaded in
      inr (q, member, named ∙ sym lands, top, same ∙ sym on)

  with_parent-Flat :
      (author : Text) (req : CommentRequest) (text : Text) (post : PostRow)
      (o : Fetched ParentComment) (r : CommentRow)
      → load_parent_comment b.comment req.parent_id req.post_id ≡ o
      → row_of (with_parent b author req text post o) ≡ some r
      → Flat table r
  with_parent-Flat author req text post missing r loaded e = cc
  with_parent-Flat author req text post broken r loaded e = cc
  with_parent-Flat author req text post (found p) r loaded e =
      under_parent-Flat author req text post p r loaded e

  on_loaded-Flat :
      (author : Text) (req : CommentRequest) (text : Text) (o : Fetched PostRow) (r : CommentRow)
      → row_of (on_loaded_post b author req text o) ≡ some r
      → Flat table r
  on_loaded-Flat author req text missing r e = cc
  on_loaded-Flat author req text broken r e = cc
  on_loaded-Flat author req text (found post) r e =
      elim (Bool-cases (validate_comment_anonymity req.is_anonymous post.community_count)) [
        | inr outside ↦ cc (rw outside at e)
        | inl fine ↦ elim (Bool-cases (is_empty req.parent_id)) [
          | inl top ↦ inl (
              (under_parent-row b author req text post none r (rw (fine, top) at e)).0
              ∙ unfold stored_parent_for in refl)
          | inr reply ↦ with_parent-Flat author req text post _ r refl (rw (fine, reply) at e)
        ]
      ]

  created-Flat :
      (author : Text) (req : CommentRequest) (r : CommentRow)
      → row_of (create_comment b author req) ≡ some r
      → Flat table r
  unfolding create_comment
  created-Flat author req r e =
      let text = sanitize_for_storage (trim_space req.text) in
      elim (Bool-cases (is_empty text)) [
        | inl blank ↦ cc (rw (create_comment, blank) at e)
        | inr said ↦ on_loaded-Flat author req text _ r (rw (create_comment, said) at e)
      ]

  after-TwoLevels :
      (o : Outcome)
      → ((r : CommentRow) → row_of o ≡ some r → Flat table r)
      → TwoLevels (table_after o table)
  after-TwoLevels (refused _) h r m = flat r m
  after-TwoLevels (created s post p) h r (Memᴰ.head e) = rw e (Flat-weaken table s s (h s refl))
  after-TwoLevels (created s post p) h r (Memᴰ.tail m) = Flat-weaken table r s (flat r m)

  -- A comment that is created leaves every thread with two levels: the parent of each row is none,
  -- or a top-level comment of the same post.
  pub create_comment-TwoLevels :
      (author : Text) (req : CommentRequest)
      → TwoLevels (table_after (create_comment b author req) table)
  create_comment-TwoLevels author req =
      after-TwoLevels (create_comment b author req) (created-Flat author req)
