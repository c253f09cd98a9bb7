-- ===== src/Platform/Messages/Replies.antt =====
-- Which replies are an entity's.
use chatterloop_developer_se.Common.{
  ℕ, Bool, not, ◌&&◌, List, [], ◌∷◌, Text, ◌≡◌, refl, arith, contains, is_empty, keep, Fetched,
  found,
}
use chatterloop_developer_se.Platform.Messages.{
  Message, select_replies_to, replies_to, messages_authored_by, parent_ids, with_sender,
}

-- A message that replies to one of these.
abbrev pub replies_to_one_of : List Text → Message → Bool
replies_to_one_of own m = not (is_empty m.replying_to) && contains m.replying_to own

select-keep :
    (messages : List Message) (own : List Text)
    → select_replies_to messages own ≡ keep (replies_to_one_of own) messages
unfolding select_replies_to
select-keep [] own = refl
select-keep (m ∷ messages) own = ground (arith, select-keep messages own)

-- The replies that are returned are the messages of the window that reply to a message the entity
-- wrote, in the order of the window, and each is marked with the entity as what it replies to.
pub replies_to-keep :
    (window : List Message) (query : List Text → Text → Fetched (List Text)) (c : ℕ) (entity : Text)
    (own : List Text)
    → messages_authored_by query (parent_ids window) (c ∷ entity) ≡ found own
    → replies_to (found window) query (c ∷ entity)
      ≡ found (with_sender (c ∷ entity) (keep (replies_to_one_of own) window))
unfolding replies_to
replies_to-keep window query c entity own held = rw (replies_to, held, select-keep window own)
