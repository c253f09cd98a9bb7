-- ===== src/Endpoints/Refusing.antt =====
-- Who is answered, and who is refused.
use chatterloop_developer_se.Common.{
  ℕ, ◌≤◌, false, Option, none, some, List, [], ◌∷◌, Text, is_empty, ltb, length, ℤ, ◌≡◌, refl,
  arith, Bool-cases, inl, inr,
}
use chatterloop_developer_se.Auth.Token.{Token}
use chatterloop_developer_se.Endpoints.{Reply, refused, answered}
use chatterloop_developer_se.Endpoints.Rooms.{
  Conversations, conversation_messages, conversation_thread, conversation_replies, in_conversation,
  for_member,
}
use chatterloop_developer_se.Endpoints.Writes.{
  send_message_handler, checked_send, sent_reply, setting_for,
}
use chatterloop_developer_se.Platform.Conversation.{load_conversation, LoadedConversation}
use chatterloop_developer_se.Platform.Membership.{Queries, Assertion, granted, no_access, failed}
use chatterloop_developer_se.Platform.Membership.Access.{MayMessage, IsParty, assert_member_iff}
use chatterloop_developer_se.Platform.Send as Send
use chatterloop_developer_se.Platform.Send.{
  SendRequest, SendResult, StoredMessage, Setting, Sent, Effect, inserted, sent, send_message,
}
use chatterloop_developer_se.Platform.Send.Refusals.{Leaves, nothing, message, send_message-Leaves}

-- A reply that is no refusal.
abbrev pub Answered {ℓ} : {A : Type ℓ} → Reply A → Type ℓ
Answered {A = A} r = (status : ℕ) × ((a : A) × (r ≡ answered status a))

refused-Answered {ℓ} : {A : Type ℓ} (status : ℕ) → ¬ Answered {A = A} (refused status)
refused-Answered status (s, (a, e)) = cc

-- A route that loads the conversation first answers only to a caller that AssertMember lets in.
in_conversation-granted {ℓ} :
    {A : Type ℓ} (a : Assertion) (document : _) (conversation_id : Text)
    (handle : LoadedConversation → Reply A)
    → Answered (in_conversation (load_conversation a document conversation_id) handle)
    → a ≡ granted
unfolding load_conversation
in_conversation-granted granted document conversation_id handle h = refl
in_conversation-granted no_access document conversation_id handle h =
    absurd (refused-Answered 404 h)
in_conversation-granted failed document conversation_id handle h = absurd (refused-Answered 500 h)

for_member-granted {ℓ} :
    {A : Type ℓ} (a : Assertion) (r : Reply A) → Answered (for_member a r) → a ≡ granted
for_member-granted granted r h = refl
for_member-granted no_access r h = absurd (refused-Answered 404 h)
for_member-granted failed r h = absurd (refused-Answered 500 h)

-- A conversation that the caller may message and is party to.
abbrev pub Joined : Conversations → Text → Token → Type 0
Joined c conversation_id token =
    MayMessage c.membership conversation_id token.entity_id
    × IsParty c.membership conversation_id token.entity_id

-- The messages of a conversation, a thread of it and the replies in it are answered only to a token whose
-- entity may message that conversation and is party to it; everybody else is refused.
pub conversation_routes-Joined :
    (parse : Text → Option ℤ) (c : Conversations) (token : Token)
    (conversation_id message_id limit : Text)
    → (Answered (conversation_messages parse c (some token) conversation_id limit)
        → Joined c conversation_id token)
      × (Answered (conversation_thread parse c (some token) conversation_id message_id limit)
          → Joined c conversation_id token)
      × (Answered (conversation_replies parse c (some token) conversation_id limit)
          → Joined c conversation_id token)
unfolding conversation_messages conversation_thread conversation_replies
conversation_routes-Joined parse c token conversation_id message_id limit = (
  λ h.
      (assert_member_iff c.membership conversation_id token.entity_id).0
        (in_conversation-granted _ _ _ _ h),
  λ h.
      (assert_member_iff c.membership conversation_id token.entity_id).0
        (in_conversation-granted _ _ _ _ h),
  λ h.
      (assert_member_iff c.membership conversation_id token.entity_id).0 (for_member-granted _ _ h),
)

-- What SendMessage leaves, by its reply.
pub data Posted (q : Queries) (w : Text → SendRequest → Setting) (context : Option Token)
    (body : Option SendRequest) : Reply SendResult × List Effect → Type 0 where
  left_nothing : (status : ℕ) → Posted q w context body (refused status, [])
  left_message :
      (token : Token) (req : SendRequest) (m : StoredMessage) (r : SendResult) (rest : List Effect)
      → context ≡ some token
      → body ≡ some req
      → length req.content ≤ 5000
      → MayMessage q req.conversation_id token.entity_id
      → IsParty q req.conversation_id token.entity_id
      → m.message_id ≡ r.message_id
      → m.sender ≡ token.entity_id
      → m.conversation_id ≡ req.conversation_id
      → is_empty m.content ≡ false
      → Posted q w context body (answered 201 r, inserted m ∷ rest)

sent_reply-Posted :
    (q : Queries) (w : Text → SendRequest → Setting) (token : Token) (req : SendRequest)
    (s : Sent × List Effect)
    → length req.content ≤ 5000
    → Leaves (setting_for q w token.entity_id req) token.entity_id req s
    → Posted q w (some token) (some req) (sent_reply s)
sent_reply-Posted q w token req s fits (nothing Send.empty_content) = left_nothing 400
sent_reply-Posted q w token req s fits (nothing Send.access_refused) = left_nothing 404
sent_reply-Posted q w token req s fits (nothing Send.failed) = left_nothing 500
sent_reply-Posted q w token req s fits (message m r rest access fresh id by where' content said) =
    let (may, party) = (assert_member_iff q req.conversation_id token.entity_id).0 access in
    left_message token req m r rest refl refl fits may party id by where' said

-- The route for sending either refuses and leaves nothing at all behind, or answers 201 and has stored, as
-- its first effect, one message that is not empty: by the entity of the token, in the conversation that the
-- request names, which that entity may message and is party to, under the id that the reply names.
pub send_message_handler-Posted :
    (q : Queries) (w : Text → SendRequest → Setting) (context : Option Token)
    (body : Option SendRequest)
    → Posted q w context body (send_message_handler q w context body)
unfolding send_message_handler
send_message_handler-Posted q w none body = left_nothing 401
send_message_handler-Posted q w (some token) none = left_nothing 400
send_message_handler-Posted q w (some token) (some req) =
    elim (Bool-cases (is_empty req.conversation_id)) [
      | inl blank ↦ rw (send_message_handler, checked_send, blank) (left_nothing 400)
      | inr named ↦ elim (Bool-cases (ltb 5000 (length req.content))) [
        | inl long ↦ rw (send_message_handler, checked_send, named, long) (left_nothing 400)
        | inr fits ↦
            rw (send_message_handler, checked_send, named, fits)
              (sent_reply-Posted q w token req
                (send_message (setting_for q w token.entity_id req) token.entity_id req)
                (ground arith)
                (send_message-Leaves (setting_for q w token.entity_id req) token.entity_id req))
      ]
    ]
