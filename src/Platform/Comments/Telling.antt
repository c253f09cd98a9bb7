-- ===== src/Platform/Comments/Telling.antt =====
-- Who is told of a comment: each person once, and never its author.
use chatterloop_developer_se.Common.{
  true, false, none, some, Option, List, [], ◌∷◌, ◌++◌, Text, text_eq_iff, text_eq_refl, contains,
  contains-append, Distinct, ◌≡◌, refl, arith, inl, inr, query_cases,
}
use chatterloop_developer_se.Platform.Comments.{
  Recipients, CommentRow, PostRow, ParentComment, tell_owner, tell_mentioned,
  notify_comment_mentions, pinged,
}

tell_mentioned-skip :
    (t : Recipients) (c : CommentRow) (skip mentioned : List Text) (e : Text)
    → contains e skip ≡ true
    → contains e (tell_mentioned t c skip mentioned) ≡ false
unfolding tell_mentioned contains
tell_mentioned-skip t c skip [] e h = refl
tell_mentioned-skip t c skip (m ∷ mentioned) e h = ground (
  arith,
  tell_mentioned-skip t c skip mentioned e h,
  tell_mentioned-skip t c (m ∷ skip) mentioned e (unfold contains in ground arith),
  text_eq_iff m e,
  text_eq_iff e m,
)

tell_mentioned-Distinct :
    (t : Recipients) (c : CommentRow) (skip mentioned : List Text)
    → Distinct (tell_mentioned t c skip mentioned)
unfolding tell_mentioned contains
tell_mentioned-Distinct t c skip [] = tt
tell_mentioned-Distinct t c skip (m ∷ mentioned) = ground (
  arith,
  tell_mentioned-Distinct t c skip mentioned,
  tell_mentioned-Distinct t c (m ∷ skip) mentioned,
  tell_mentioned-skip t c (m ∷ skip) mentioned m
      (unfold contains in ground (arith, text_eq_refl m)),
)

-- At most one owner is told, and it is not the author.
owner-alone :
    (t : Recipients) (c : CommentRow) (post : PostRow) (replied_to : Option ParentComment)
    → Distinct (tell_owner t c post replied_to)
      × (contains c.entity_id (tell_owner t c post replied_to) ≡ false)
unfolding tell_owner contains
owner-alone t c post none = ground (arith, text_eq_iff post.entity_id c.entity_id)
owner-alone t c post (some p) = ground (arith, text_eq_iff p.entity_id c.entity_id)

Distinct-append :
    (xs ys : List Text)
    → Distinct xs
    → Distinct ys
    → ((e : Text) → contains e xs ≡ true → contains e ys ≡ false)
    → Distinct (xs ++ ys)
unfolding contains
Distinct-append [] ys d d' h = d'
Distinct-append (x ∷ xs) ys (fresh, d) d' h = (
  ground (arith, contains-append x xs ys, h x (unfold contains in ground (arith, text_eq_refl x))),
  Distinct-append xs ys d d' (λ e p. h e (unfold contains in ground arith)),
)

mentions-Distinct :
    (t : Recipients) (c : CommentRow) (already : List Text)
    → Distinct (notify_comment_mentions t c already)
unfolding notify_comment_mentions
mentions-Distinct t c already = elim (query_cases t.mentioned) [
  | inl (m, held) ↦
      rw (notify_comment_mentions, held) (tell_mentioned-Distinct t c (c.entity_id ∷ already) m)
  | inr (inl none') ↦ rw (notify_comment_mentions, none') tt
  | inr (inr failed) ↦ rw (notify_comment_mentions, failed) tt
]

mentions-skip :
    (t : Recipients) (c : CommentRow) (already : List Text) (e : Text)
    → contains e (c.entity_id ∷ already) ≡ true
    → contains e (notify_comment_mentions t c already) ≡ false
unfolding notify_comment_mentions
mentions-skip t c already e h = elim (query_cases t.mentioned) [
  | inl (m, held) ↦
      rw (notify_comment_mentions, held) (tell_mentioned-skip t c (c.entity_id ∷ already) m e h)
  | inr (inl none') ↦ rw (notify_comment_mentions, none') (unfold contains in refl)
  | inr (inr failed) ↦ rw (notify_comment_mentions, failed) (unfold contains in refl)
]

-- Nobody is told twice of one comment, and its author is never told.
pub pinged-Distinct :
    (t : Recipients) (c : CommentRow) (post : PostRow) (replied_to : Option ParentComment)
    → Distinct (pinged t c post replied_to)
      × (contains c.entity_id (pinged t c post replied_to) ≡ false)
unfolding pinged
pinged-Distinct t c post replied_to =
    let owner = tell_owner t c post replied_to in
    let (alone, other) = owner-alone t c post replied_to in
    let in_skip : (e : Text) → contains e owner ≡ true → contains e (c.entity_id ∷ owner) ≡ true =
      λ e p. unfold contains in ground arith in
    let author_skip : contains c.entity_id (c.entity_id ∷ owner) ≡ true =
      unfold contains in ground (arith, text_eq_refl c.entity_id) in
    (
      Distinct-append owner (notify_comment_mentions t c owner) alone (mentions-Distinct t c owner)
          (λ e p. mentions-skip t c owner e (in_skip e p)),
      ground (
        arith,
        contains-append c.entity_id owner (notify_comment_mentions t c owner),
        mentions-skip t c owner c.entity_id author_skip,
      ),
    )
