-- ===== src/Platform/Thread/Roots.antt =====
-- ReplyThread of internal/platform/thread.go on a thread whose root cannot be read.
use chatterloop_developer_se.Common.{
  ℕ, zero, suc, ◌<◌, false, none, some, List, [], ◌∷◌, Text, ◌≡◌, lookup, is_empty, ℤ, Fetched,
  found, arith, ap, ◌∙◌,
}
use chatterloop_developer_se.Platform.Bson.{Value, Fields}
use chatterloop_developer_se.Platform.Messages.{Message, decode_message}
use chatterloop_developer_se.Platform.Thread.{link_of, thread, reply_thread, at_least_1, enrich}
use chatterloop_developer_se.Platform.Thread.Links.{links_found, links_root}
use chatterloop_developer_se.Platform.Thread.Walk.{
  Segments, ask, Lineage, lineage_thread, reply_thread-lineage,
}

module _ (epoch_millis : Value → ℤ) (conversation_id : Text) (whole : List (Text × Fields))
    (segments : Segments whole) where
  lineage_of_unreadable :
      (budget c : ℕ) (parent : Text) (document : Fields)
      → 0 < budget
      → lookup (c ∷ parent) whole ≡ some document
      → decode_message epoch_millis document conversation_id ≡ none
      → link_of document ≡ []
      → Lineage epoch_millis conversation_id whole segments (c ∷ parent) budget
        ≡ record { chain = []; next = []; used = 1 }
  lineage_of_unreadable zero c parent document h held unreadable root = absurd (omega arith)
  lineage_of_unreadable (suc budget) c parent document h held unreadable root =
      links_found epoch_millis conversation_id whole c parent budget document held
      ∙ rw (unreadable, root, links_root epoch_millis conversation_id whole budget)

  lineage_thread-unreadable :
      (anchor : Message) (limit c : ℕ) (parent : Text) (document : Fields)
      → anchor.replying_to ≡ c ∷ parent
      → lookup (c ∷ parent) whole ≡ some document
      → decode_message epoch_millis document conversation_id ≡ none
      → link_of document ≡ []
      → lineage_thread epoch_millis conversation_id whole segments anchor limit ≡ record {
        messages = anchor ∷ [];
        depth = 0;
        truncated = false;
        root_message_id = anchor.message_id;
      }
  lineage_thread-unreadable anchor limit c parent document replies held unreadable root = rw (
    replies,
    lineage_of_unreadable (at_least_1 limit) c parent document (one_or_more limit) held unreadable
        root,
  )
    where
      one_or_more : (n : ℕ) → 0 < at_least_1 n
      one_or_more n = ground arith

  -- Where a readable anchor replies to a message that is no readable text and replies to nothing itself,
  -- ReplyThread, whatever its segments return besides, answers a thread that is called complete and has no
  -- ancestor, and names the anchor, which is a reply, its root.
  pub reply_thread-unreadable_root :
      (anchor_query : Text → Fetched Fields) (resolve : List Message → Fetched (List Message))
      (message_id : Text) (limit : ℕ) (raw : Fields) (anchor : Message) (c : ℕ) (parent : Text)
      (document : Fields)
      → is_empty conversation_id ≡ false
      → is_empty message_id ≡ false
      → anchor_query message_id ≡ found raw
      → decode_message epoch_millis raw conversation_id ≡ some anchor
      → anchor.replying_to ≡ c ∷ parent
      → lookup (c ∷ parent) whole ≡ some document
      → decode_message epoch_millis document conversation_id ≡ none
      → link_of document ≡ []
      → reply_thread epoch_millis anchor_query
          (ask epoch_millis conversation_id whole segments)
          resolve
          conversation_id
          message_id
          limit
        ≡ thread (
            enrich resolve (record {
              messages = anchor ∷ [];
              depth = 0;
              truncated = false;
              root_message_id = anchor.message_id;
            }))
  reply_thread-unreadable_root anchor_query resolve message_id limit raw anchor c parent document hc
        hm queried readable replies held unreadable root =
      (reply_thread-lineage epoch_millis conversation_id whole segments anchor_query resolve
        message_id limit raw anchor hc hm queried readable).0
      ∙ ap (λ t. thread (enrich resolve t))
          (lineage_thread-unreadable anchor limit c parent document replies held unreadable root)
