-- ===== src/Endpoints/Reads.antt =====
-- internal/endpoints/endpoints.go: the handlers that read, but for those of conversations. Each takes what the platform's functions ask
-- the stores, and the query parameters of the request.
use chatterloop_developer_se.Common.{
  ℕ, Option, List, [], ◌∷◌, Text, ℤ, pos, Fetched, found, missing, broken, Rows,
}
use chatterloop_developer_se.Endpoints.{
  Reply, refused, answered, with_token, read_limit, read_ids, moderation_id_cap, split,
}
use chatterloop_developer_se.Auth.Token.{Token}
use chatterloop_developer_se.Platform.Bson.{Fields}
use chatterloop_developer_se.Platform.Community.{AccessRow}
use chatterloop_developer_se.Platform.Membership.{Queries, assert_member}
use chatterloop_developer_se.Platform.Moderation.{
  ModerationRecord, moderation_for_messages, moderation_for_post_for_viewer,
  moderation_for_comments_for_viewer,
}
use chatterloop_developer_se.Platform.Posts.{PostThread, Database, load_post_thread_for_viewer}
use chatterloop_developer_se.Platform.Activity.{
  CommentRow, Comments, comment_rows_for_viewer, Mention, Stores, comment_mentions, comment_replies,
}
use chatterloop_developer_se.Platform.Entities.{FoundEntity, search_entities, profile_redirect}

-- `missing` is the error that is answered with 404.
abbrev pub reply_of {ℓ} : {A : Type ℓ} → Fetched A → Reply A
reply_of (found a) = answered 200 a
reply_of missing = refused 404
reply_of broken = refused 500

-- The parameter `limit` of a request.
abbrev pub limit_in : (Text → Option ℤ) → Text → ℕ → ℕ → ℤ
limit_in parse raw fallback ceiling = pos (read_limit parse raw fallback ceiling)

unfoldable pub post_comments :
    (Text → Option ℤ) → Database → Option Token → Text → Text → Reply PostThread
unfolding read_limit
post_comments parse db context post_id limit = with_token context λ token.
    reply_of (load_post_thread_for_viewer db post_id (limit_in parse limit 50 200) token.entity_id)

-- The queries of the moderation reads.
pub record Moderations : Type 0 where
  pub conversations : List Text → Fetched (Rows Fields)
  pub documents : List Text → List Text → Fetched (Rows Fields)
  pub access : Text → Text → Fetched AccessRow
  pub comments : List Text → Fetched (Rows (Text × CommentRow))

abbrev pub moderation_reply :
    List Text → Fetched (List ModerationRecord) → Reply (List ModerationRecord)
moderation_reply [] q = refused 400
moderation_reply (id ∷ ids) (found records) = answered 200 records
moderation_reply (id ∷ ids) missing = refused 500
moderation_reply (id ∷ ids) broken = refused 500

unfoldable pub message_moderation :
    Moderations → Queries → Option Token → List Text → Reply (List ModerationRecord)
unfolding read_ids
message_moderation m q context values = with_token context λ token.
    let ids = read_ids values moderation_id_cap in
    moderation_reply ids (
      moderation_for_messages m.conversations m.documents
        (λ conversation_id. assert_member q conversation_id token.entity_id) ids)

unfoldable pub post_moderation : Moderations → Option Token → Text → Reply (List ModerationRecord)
post_moderation m context post_id =
    with_token context λ token.
      reply_of (moderation_for_post_for_viewer m.access m.documents post_id token.entity_id)

abbrev keys_of : Comments → List Text
keys_of [] = []
keys_of ((id, comment) ∷ comments) = id ∷ keys_of comments

abbrev found_keys : Fetched Comments → Fetched (List Text)
found_keys (found comments) = found (keys_of comments)
found_keys missing = missing
found_keys broken = broken

-- The comments that commentRowsForViewer has a row for.
abbrev pub comment_rows : Moderations → List Text → Text → Fetched (List Text)
comment_rows m ids viewer = found_keys (comment_rows_for_viewer m.comments m.access ids viewer)

unfoldable pub comment_moderation :
    Moderations → Option Token → List Text → Reply (List ModerationRecord)
unfolding read_ids
comment_moderation m context values = with_token context λ token.
    let ids = read_ids values moderation_id_cap in
    moderation_reply ids
      (moderation_for_comments_for_viewer (comment_rows m) m.documents ids token.entity_id)

abbrev with_redirects : Text → List FoundEntity → List FoundEntity
with_redirects base [] = []
with_redirects base (e ∷ es) =
    record e { profile_redirect = profile_redirect base e.handle } ∷ with_redirects base es

abbrev kinds_in : Text → List Text
kinds_in [] = []
kinds_in (c ∷ raw) = split b',' (c ∷ raw)

abbrev search_reply : Text → Fetched (List FoundEntity) → Reply (List FoundEntity)
search_reply base (found es) = answered 200 (with_redirects base es)
search_reply base missing = refused 500
search_reply base broken = refused 500

-- `lower`, `find` and `blocks` are the parameters of Platform/Entities.
unfoldable pub search_entities_handler :
    (Text → Option ℤ)
    → (Text → Text)
    → (Text → Text → ℕ → Text → List Text → Fetched (Rows FoundEntity))
    → (Text → Fetched (Rows (Text × Text)))
    → Text
    → Option Token
    → (query kind limit : Text) → Reply (List FoundEntity)
unfolding read_limit split
search_entities_handler parse lower find blocks base context query kind limit =
    with_token context λ token. search_reply base (
      search_entities lower find blocks query (kinds_in kind) (limit_in parse limit 10 25)
        token.entity_id)

abbrev mentions_reply : Fetched (List Mention) → Reply (List Mention)
mentions_reply (found mentions) = answered 200 mentions
mentions_reply missing = refused 500
mentions_reply broken = refused 500

unfoldable pub comment_mentions_handler :
    (Text → Option ℤ) → Stores → Option Token → Text → Reply (List Mention)
unfolding read_limit
comment_mentions_handler parse s context limit =
    with_token context
      λ token. mentions_reply (comment_mentions s token.entity_id (limit_in parse limit 25 100))

unfoldable pub comment_replies_handler :
    (Text → Option ℤ) → Stores → Option Token → Text → Reply (List Mention)
unfolding read_limit
comment_replies_handler parse s context limit =
    with_token context
      λ token. mentions_reply (comment_replies s token.entity_id (limit_in parse limit 25 100))
