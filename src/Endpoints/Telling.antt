-- ===== src/Endpoints/Telling.antt =====
-- Whom a new comment reaches by name, with the mentions resolved.
use chatterloop_developer_se.Common.{
  true, false, Option, List, [], ◌∷◌, Text, contains, contains-append, Distinct, ◌≡◌, arith, inl,
  inr, found, query_cases, rows_of,
}
use chatterloop_developer_se.Platform.Comments.{
  Recipients, CommentRow, PostRow, ParentComment, tell_owner, tell_mentioned,
  notify_comment_mentions, pinged,
}
use chatterloop_developer_se.Platform.Comments.Telling.{pinged-Distinct}
use chatterloop_developer_se.Platform.Mentionable.{ids_of, resolve_mentions}
use chatterloop_developer_se.Platform.Mentionable.Reachable.{sides, resolve_mentions-Reachable}
use chatterloop_developer_se.Endpoints.Writes.{FanOut, recipients_of}

tell_mentioned-contains :
    (t : Recipients) (c : CommentRow) (skip mentioned : List Text) (e : Text)
    → contains e (tell_mentioned t c skip mentioned) ≡ true
    → contains e mentioned ≡ true
unfolding tell_mentioned contains
tell_mentioned-contains t c skip [] e h = h
tell_mentioned-contains t c skip (m ∷ mentioned) e h = ground (
  arith,
  tell_mentioned-contains t c skip mentioned e,
  tell_mentioned-contains t c (m ∷ skip) mentioned e,
)

mentions-Unblocked :
    (f : FanOut) (c : CommentRow) (pairs : List (Text × Text)) (already : List Text) (e : Text)
    → f.blocks c.entity_id ≡ found (rows_of pairs)
    → contains e (notify_comment_mentions (recipients_of f c) c already) ≡ true
    → contains e (sides pairs) ≡ false
unfolding notify_comment_mentions contains
mentions-Unblocked f c pairs already e b h =
    elim (query_cases (resolve_mentions f.lower f.entities f.blocks c.text c.entity_id)) [
      | inl (ms, held) ↦
          let (_, _, reach) =
            resolve_mentions-Reachable f.lower f.entities f.blocks c.text c.entity_id pairs ms b
              held in
          let (_, _, free) = reach e (
            tell_mentioned-contains (recipients_of f c) c (c.entity_id ∷ already) (ids_of ms) e
              (rw (notify_comment_mentions, held) at h)) in
          free
      | inr (inl none') ↦ cc (rw (notify_comment_mentions, none') at h)
      | inr (inr failed) ↦ cc (rw (notify_comment_mentions, failed) at h)
    ]

-- Of a new comment nobody is told twice and its author is not told; whoever is told and is not the one
-- whose post or comment it answers stands in no block with the author, on either side.
pub pinged-Unblocked :
    (f : FanOut) (c : CommentRow) (post : PostRow) (replied_to : Option ParentComment)
    (pairs : List (Text × Text))
    → f.blocks c.entity_id ≡ found (rows_of pairs)
    → Distinct (pinged (recipients_of f c) c post replied_to)
      × (contains c.entity_id (pinged (recipients_of f c) c post replied_to) ≡ false)
      × ((e : Text)
          → contains e (pinged (recipients_of f c) c post replied_to) ≡ true
          → contains e (tell_owner (recipients_of f c) c post replied_to) ≡ false
          → contains e (sides pairs) ≡ false)
unfolding pinged
pinged-Unblocked f c post replied_to pairs b =
    let t = recipients_of f c in
    let owner = tell_owner t c post replied_to in
    let (once, other) = pinged-Distinct t c post replied_to in
    (
      once,
      other,
      λ e told not_owner.
          mentions-Unblocked f c pairs owner e b
            (ground (arith, contains-append e owner (notify_comment_mentions t c owner))),
    )
