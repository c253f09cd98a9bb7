-- ===== src/Platform/Send/Refusals.antt =====
-- What a send leaves behind, by its result.
use chatterloop_developer_se.Common.{
  false, none, some, Option, List, [], ◌∷◌, Text, trim_space, is_empty, ◌≡◌, refl, found, missing,
  broken, inl, inr, Bool-cases,
}
use chatterloop_developer_se.Platform.Sanitize.{sanitize_for_storage}
use chatterloop_developer_se.Platform.Membership.{
  Assertion, granted, no_access, Answer, answered, Receiver,
}
use chatterloop_developer_se.Platform.Membership as Membership
use chatterloop_developer_se.Platform.Send.{
  Setting, SendRequest, SendResult, SendError, StoredMessage, Effect, inserted, Sent, sent, refused,
  send_message, admitted, identified, addressed, stored, message_of,
}

-- An error comes with no effect at all. A success comes from a caller with access: its first effect
-- is the insert of the caller's message, under a fresh id that the result names, with the sanitized
-- content, which is not empty.
pub data Leaves (w : Setting) (sender : Text) (req : SendRequest)
    : Sent × List Effect → Type 0 where
  nothing : (e : SendError) → Leaves w sender req (refused e, [])
  message :
      (m : StoredMessage) (r : SendResult) (rest : List Effect)
      → w.access ≡ granted
      → w.fresh_id ≡ some r.message_id
      → m.message_id ≡ r.message_id
      → m.sender ≡ sender
      → m.conversation_id ≡ req.conversation_id
      → m.content ≡ sanitize_for_storage (trim_space req.content)
      → is_empty m.content ≡ false
      → Leaves w sender req (sent r, inserted m ∷ rest)

module _ (w : Setting) (sender : Text) (req : SendRequest)
    (said : is_empty (sanitize_for_storage (trim_space req.content)) ≡ false)
    (access : w.access ≡ granted) where
  abbrev content : Text
  content = sanitize_for_storage (trim_space req.content)

  stored-Leaves :
      (id : Text) (receivers : List Receiver)
      → w.fresh_id ≡ some id
      → Leaves w sender req (stored w (message_of w sender req content id) receivers)
  stored-Leaves id receivers fresh = elim (Bool-cases w.inserts) [
    | inr lost ↦ rw (stored, lost) (nothing _)
    | inl kept ↦ rw (stored, kept) (message _ _ _ access fresh refl refl refl refl said)
  ]

  addressed-Leaves :
      (id : Text) (o : Answer)
      → w.fresh_id ≡ some id
      → Leaves w sender req (addressed w (message_of w sender req content id) o)
  addressed-Leaves id (answered (found receivers)) fresh = stored-Leaves id receivers fresh
  addressed-Leaves id (answered missing) fresh = nothing _
  addressed-Leaves id (answered broken) fresh = nothing _
  addressed-Leaves id Membership.refused fresh = nothing _

  identified-Leaves :
      (o : Option Text) → w.fresh_id ≡ o → Leaves w sender req (identified w sender req content o)
  identified-Leaves none fresh = nothing _
  identified-Leaves (some id) fresh = addressed-Leaves id w.receivers fresh

admitted-Leaves :
    (w : Setting) (sender : Text) (req : SendRequest) (a : Assertion)
    → w.access ≡ a
    → is_empty (sanitize_for_storage (trim_space req.content)) ≡ false
    → Leaves w sender req (admitted w sender req (sanitize_for_storage (trim_space req.content)) a)
admitted-Leaves w sender req granted access said =
    identified-Leaves w sender req said access w.fresh_id refl
admitted-Leaves w sender req no_access access said = nothing _
admitted-Leaves w sender req Membership.failed access said = nothing _

-- A send either fails with no effect at all, or it is by a caller with access and stores first the
-- caller's message with the sanitized content, not empty, under the fresh id that it returns.
pub send_message-Leaves :
    (w : Setting) (sender : Text) (req : SendRequest)
    → Leaves w sender req (send_message w sender req)
unfolding send_message
send_message-Leaves w sender req =
    elim (Bool-cases (is_empty (sanitize_for_storage (trim_space req.content)))) [
      | inl blank ↦ rw (send_message, blank) (nothing _)
      | inr said ↦ rw (send_message, said) (admitted-Leaves w sender req w.access refl said)
    ]
