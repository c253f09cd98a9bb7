-- ===== src/Platform/ReachTests.antt =====
-- Witnesses of internal/platform's theorems on mentions, searches and activity.
use chatterloop_developer_se.Common.{
  Distinct, length, ◌&&◌, ltb, if◌then◌else◌, true, false, none, List, [], ◌∷◌, Text, codes,
  text_eq, contains, ◌≡◌, refl, found, missing, rows_of, Rows, exhausted, Fetched, pos, keep, not,
  without, trim_space, trim_right,
}
use chatterloop_developer_se.Platform.Mentions.{extract_mentions}
use chatterloop_developer_se.Platform.Mentionable.{
  MentionedEntity, resolve_mentions, add_handles, blocked_entity_ids, keep_unblocked,
}
use chatterloop_developer_se.Platform.Mentionable.Reachable.{
  Reachable, resolve_mentions-Reachable, sides,
}
use chatterloop_developer_se.Platform.Entities.{
  FoundEntity, search_entities, kind_filter, trim_at, kinds_allowed, term_of,
}
use chatterloop_developer_se.Platform.Entities.Searching.{asked, search_entities-keep}
use chatterloop_developer_se.Platform.Comments as Comments
use chatterloop_developer_se.Platform.Comments.{Recipients}
use chatterloop_developer_se.Platform.PostActivity.{comment_fan_out}
use chatterloop_developer_se.Platform.PostActivity.Anonymity.{frames_of, comment_fan_out-anonymous}

abbrev named_rows : List Text → Fetched (Rows (Text × Text))
named_rows _ =
    found (
      rows_of
        ((codes "e2", codes "ana") ∷ (codes "e3", codes "bo") ∷ (codes "e1", codes "me") ∷ []))

abbrev block_pairs : List (Text × Text)
block_pairs = (codes "e3", codes "e1") ∷ []

abbrev block_rows : Text → Fetched (Rows (Text × Text))
block_rows _ = found (rows_of block_pairs)

abbrev as_is : Text → Text
as_is t = t

abbrev ana_mentioned : List MentionedEntity
ana_mentioned = record { entity_id = codes "e2"; handle = codes "ana" } ∷ []

resolve_mentions-Reachable_example : Reachable (codes "e1") block_pairs ana_mentioned
unfolding resolve_mentions blocked_entity_ids contains text_eq without add_handles extract_mentions
    trim_right keep_unblocked
resolve_mentions-Reachable_example =
    resolve_mentions-Reachable as_is named_rows block_rows (codes "hi @ana. and @bo") (codes "e1")
      block_pairs ana_mentioned refl refl

abbrev an_entity : Text → FoundEntity
an_entity entity_id = record {
  entity_id = entity_id;
  kind = codes "user";
  handle = codes "ana";
  name = codes "Ana";
  profile = [];
  profile_redirect = [];
}

abbrev found_entities : List FoundEntity
found_entities = an_entity (codes "e2") ∷ an_entity (codes "e3") ∷ []

search_entities-keep_example :
    (search_entities as_is
        (λ _ _ _ _ _. found (rows_of found_entities))
        block_rows
        (codes "@ana")
        (codes "user" ∷ [])
        (pos 10)
        (codes "e1")
      ≡ found (
          if ltb (length (term_of as_is (codes "@ana"))) 2
          then []
          else keep
              (λ (e : FoundEntity).
                not (contains e.entity_id (without (codes "e1") (sides block_pairs))))
              found_entities))
    × Distinct (kind_filter as_is (codes "user" ∷ []))
    × (contains (codes "user") (kind_filter as_is (codes "user" ∷ [])) ≡ (
        contains (codes "user") kinds_allowed
        && contains (codes "user") (asked as_is (codes "user" ∷ []))))
unfolding trim_at trim_space
search_entities-keep_example =
    search_entities-keep as_is (λ _ _ _ _ _. found (rows_of found_entities)) block_rows
      (codes "@ana") (codes "user" ∷ []) (pos 10) (codes "e1") (codes "user") found_entities
      block_pairs refl refl

abbrev hidden_row : Comments.CommentRow
hidden_row = record {
  comment_id = codes "c3";
  parent_comment_id = [];
  post_id = codes "p1";
  text = codes "hi";
  entity_id = codes "e1";
  is_deleted = false;
  is_anonymous = true;
}

abbrev commented_post : Comments.PostRow
commented_post = record {
  post_id = codes "p1";
  entity_id = codes "e4";
  community_count = 1;
  community_realm = codes "r1";
}

abbrev recipients_by : Text → Recipients
recipients_by handle = record {
  author_handle = handle;
  mentioned = found [];
  quoted = λ t. t;
  runes = λ t. t;
  string = λ t. t;
  delivers = λ _. true;
}

abbrev known_actor : Text → Fetched (Text × Text × Text)
known_actor _ = found (codes "user", codes "ana", codes "Ana")

abbrev unknown_actor : Text → Fetched (Text × Text × Text)
unknown_actor _ = missing

comment_fan_out-anonymous_example :
    frames_of
      (comment_fan_out known_actor
        (λ _. found exhausted)
        (recipients_by (codes "@ana"))
        hidden_row
        commented_post
        none).0
    ≡ frames_of
        (comment_fan_out unknown_actor
          (λ _. missing)
          (recipients_by (codes "@bo"))
          (record hidden_row { entity_id = codes "e2" })
          commented_post
          none).0
comment_fan_out-anonymous_example =
    comment_fan_out-anonymous known_actor unknown_actor (λ _. found exhausted) (λ _. missing)
      (recipients_by (codes "@ana")) (recipients_by (codes "@bo")) hidden_row (codes "e2")
      commented_post none refl
