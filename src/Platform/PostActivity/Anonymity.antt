-- ===== src/Platform/PostActivity/Anonymity.antt =====
-- What readers of a post learn of a comment's author.
use chatterloop_developer_se.Common.{
  true, Option, List, [], ◌∷◌, ◌++◌, Text, Fetched, ℤ, Rows, found, missing, broken, ◌≡◌, refl, ap,
  sym, ◌∙◌,
}
use chatterloop_developer_se.Platform.Comments.{CommentRow, PostRow, ParentComment, Recipients}
use chatterloop_developer_se.Platform.PostActivity.{
  Activity, Effect, activity, ranking_job, interest_job, comment_fan_out, as_effects,
  interest_effects, fan_out_frames, post_interest_ids,
}

-- The frames that go to the readers of a post.
abbrev pub frames_of : List Effect → List (Text × Activity)
frames_of [] = []
frames_of (activity channel a ∷ effects) = (channel, a) ∷ frames_of effects
frames_of (ranking_job post_id ∷ effects) = frames_of effects
frames_of (interest_job entity_id ids ∷ effects) = frames_of effects

frames_of-as_effects :
    (fs : List (Text × Activity)) (post_id author : Text) (interests : Fetched (List ℤ))
    → frames_of (as_effects fs ++ (ranking_job post_id ∷ interest_effects author interests)) ≡ fs
frames_of-as_effects [] post_id author (found ids) = refl
frames_of-as_effects [] post_id author missing = refl
frames_of-as_effects [] post_id author broken = refl
frames_of-as_effects ((channel, a) ∷ fs) post_id author interests =
    ap (λ r. (channel, a) ∷ r) (frames_of-as_effects fs post_id author interests)

frames_of-fan_out :
    (query : Text → Fetched (Text × Text × Text)) (interests : Text → Fetched (Rows ℤ))
    (t : Recipients) (c : CommentRow) (post : PostRow) (replied_to : Option ParentComment)
    → frames_of (comment_fan_out query interests t c post replied_to).0
      ≡ fan_out_frames query c replied_to
unfolding comment_fan_out
frames_of-fan_out query interests t c post replied_to =
    frames_of-as_effects (fan_out_frames query c replied_to) c.post_id c.entity_id
      (post_interest_ids interests c.post_id)

-- Readers of a post cannot tell who wrote an anonymous comment: the frames are the same whoever wrote
-- it, whatever is known of the author, and whoever else is told.
pub comment_fan_out-anonymous :
    (query query' : Text → Fetched (Text × Text × Text))
    (interests interests' : Text → Fetched (Rows ℤ)) (t t' : Recipients) (c : CommentRow)
    (other : Text) (post : PostRow) (replied_to : Option ParentComment)
    → c.is_anonymous ≡ true
    → frames_of (comment_fan_out query interests t c post replied_to).0
      ≡ frames_of
          (comment_fan_out query' interests' t' (record c { entity_id = other }) post replied_to).0
comment_fan_out-anonymous query query' interests interests' t t' c other post replied_to hidden =
    frames_of-fan_out query interests t c post replied_to
    ∙ same
    ∙ sym (frames_of-fan_out query' interests' t' (record c { entity_id = other }) post replied_to)
  where
    same :
        fan_out_frames query c replied_to
        ≡ fan_out_frames query' (record c { entity_id = other }) replied_to
    same = rw hidden
