-- ===== src/Platform/Messages/Decoding.antt =====
-- What a reader makes of the two stored shapes of a reply.
use chatterloop_developer_se.Common.{[], ◌∷◌, Text, ◌≡◌, refl, text_eq}
use chatterloop_developer_se.Platform.Bson.{text, get}
use chatterloop_developer_se.Platform.Messages.{decode_replying_to, stored_replying_to}

-- What a writer stores for a reply to a message reads back as that message, as does the bare id of an
-- older row; what it stores for no reply reads as none.
pub decode_replying_to-stored :
    (message_id : Text)
    → (decode_replying_to (stored_replying_to message_id) ≡ decode_replying_to (text message_id))
      × ((decode_replying_to (stored_replying_to message_id)).0 ≡ message_id)
unfolding decode_replying_to stored_replying_to get text_eq
decode_replying_to-stored [] = (refl, refl)
decode_replying_to-stored (c ∷ id) = (refl, refl)
