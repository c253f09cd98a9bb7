-- ===== src/Platform/Moderation/Reading.antt =====
-- What a caller may read of the moderation of messages.
use chatterloop_developer_se.Common.{
  Bool, Option, Option-cases, List, [], ◌∷◌, Text, ◌≡◌, Fetched, found, keep, inl, inr, Rows,
}
use chatterloop_developer_se.Platform.Bson.{Fields}
use chatterloop_developer_se.Platform.Membership.{Assertion}
use chatterloop_developer_se.Platform.Moderation.{
  moderation_for_messages, filtered, cleared, ModerationRecord, moderation_of_ids, distinct,
  conversations_of, permitted_messages, member_answer, message_sources,
}
use chatterloop_developer_se.Platform.Moderation.Access.{may_read, permitted_messages-keep}

module _ (query : List Text → Fetched (Rows Fields))
    (documents : List Text → List Text → Fetched (Rows Fields)) (assert_member : Text → Assertion)
    (conversations : List (Text × Text)) (records : List ModerationRecord) where
  abbrev is_member : Text → Option Bool
  is_member c = member_answer (assert_member c)

  filtered-cleared :
      (ids : List Text)
      → filtered documents assert_member ids (found conversations) ≡ found records
      → cleared documents message_sources (keep (may_read conversations is_member) ids)
        ≡ found records
  filtered-cleared ids e =
      elim (Option-cases (permitted_messages conversations is_member ids).result) [
        | inl refused ↦ cc (rw (filtered, refused) at e)
        | inr (allowed, let_through) ↦
            rw (← permitted_messages-keep conversations is_member ids allowed let_through)
              (rw (filtered, let_through) at e)
      ]

  -- What a caller reads of messages is what the documents hold of exactly those distinct ids whose
  -- conversation is known and has the caller as a member, in the order asked for: nothing is read of
  -- any other id.
  pub moderation_for_messages-cleared :
      (message_ids : List Text)
      → conversations_of query (distinct message_ids) ≡ found conversations
      → moderation_for_messages query documents assert_member message_ids ≡ found records
      → cleared documents message_sources
          (keep (may_read conversations is_member) (distinct message_ids))
        ≡ found records
  unfolding moderation_for_messages
  moderation_for_messages-cleared message_ids held e = reads (distinct message_ids) held e
    where
      reads :
          (ids : List Text)
          → conversations_of query ids ≡ found conversations
          → moderation_of_ids query documents assert_member ids ≡ found records
          → cleared documents message_sources (keep (may_read conversations is_member) ids)
            ≡ found records
      reads [] held e = e
      reads (id ∷ ids) held e = filtered-cleared (id ∷ ids) (rw held at e)
