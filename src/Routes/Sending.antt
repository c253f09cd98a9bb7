-- ===== src/Routes/Sending.antt =====
-- POST /v1/messages/send from the header of the request to the stored message.
use chatterloop_developer_se.Common.{
  ℕ, false, Option, some, List, [], ◌∷◌, Text, ◌≡◌, ◌⊎◌, refl, inl, inr, is_empty, sym,
}
use mathlib.Core.Option.{some-injective}
use chatterloop_developer_se.Auth.Token.{Token}
use chatterloop_developer_se.Auth.Authorize.{messages_send}
use chatterloop_developer_se.Auth.Middleware as Middleware
use chatterloop_developer_se.Auth.Middleware.{gated}
use chatterloop_developer_se.Auth.Middleware.Gate.{Entitled, gated_iff}
use chatterloop_developer_se.Endpoints.{Reply, refused}
use chatterloop_developer_se.Endpoints.Writes.{send_message_handler}
use chatterloop_developer_se.Endpoints.Refusing.{
  Posted, left_nothing, left_message, send_message_handler-Posted,
}
use chatterloop_developer_se.Platform.Membership.{Queries}
use chatterloop_developer_se.Platform.Membership.Access.{MayMessage, IsParty}
use chatterloop_developer_se.Platform.Send.{
  SendRequest, SendResult, StoredMessage, Setting, Effect, inserted,
}
use chatterloop_developer_se.Routes.{Door, with_scope, serve_route, let_through}

first_of : {x y : Effect} {xs ys : List Effect} → x ∷ xs ≡ y ∷ ys → x ≡ y
first_of e = cc

module _ {S : Type 0} (d : Door S) (q : Queries) (w : Text → SendRequest → Setting)
    (body : Option SendRequest) (header : Text) (s : S) where
  abbrev pub refuse : ℕ → Reply SendResult × List Effect
  refuse status = (refused status, [])

  -- The route, as main.go wires it.
  abbrev pub send_route : (Reply SendResult × List Effect) × S
  send_route =
      serve_route refuse (λ context. send_message_handler q w context body) d
        (with_scope messages_send) header s

  abbrev Through : Middleware.Reply × S
  Through = gated d.fields d.equal_fold d.verify d.limiter d.authorize messages_send header s

  -- What lies behind an effect of the route.
  pub record Sender (effect : Effect) : Type 0 where
    pub token : Token
    pub entitled :
        Entitled d.fields d.equal_fold d.verify d.limiter d.authorize messages_send header s token
    pub request : SendRequest
    pub asked : body ≡ some request
    pub may_message : MayMessage q request.conversation_id token.entity_id
    pub party : IsParty q request.conversation_id token.entity_id
    pub stored : StoredMessage
    pub inserts : effect ≡ inserted stored
    pub by : stored.sender ≡ token.entity_id
    pub into : stored.conversation_id ≡ request.conversation_id
    pub not_empty : is_empty stored.content ≡ false

  Posted-Sender :
      {left : Reply SendResult × List Effect} (t : Token) (effect : Effect) (rest : List Effect)
      → Entitled d.fields d.equal_fold d.verify d.limiter d.authorize messages_send header s t
      → Posted q w (some t) body left
      → left.1 ≡ effect ∷ rest
      → Sender effect
  Posted-Sender t effect rest entitled (left_nothing status) e = cc
  Posted-Sender t effect rest entitled
        (left_message token req m r more context asked fits may party id by into said) e =
      record {
        token = token;
        entitled = rw (← some-injective _ _ context) entitled;
        request = req;
        asked = asked;
        may_message = may;
        party = party;
        stored = m;
        inserts = sym (first_of e);
        by = by;
        into = into;
        not_empty = said;
      }

  reply_cases :
      (r : Middleware.Reply)
      → ((status : ℕ) × ((retry : Option ℕ) × (r ≡ Middleware.error_reply status retry)))
        ⊎ ((t : Token) × (r ≡ Middleware.served t))
  reply_cases (Middleware.error_reply status retry) = inl (status, (retry, refl))
  reply_cases (Middleware.served t) = inr (t, refl)

  -- If the route leaves anything behind, the request brought a bearer token that verifies, had room in its
  -- limit, and is granted the permission to send; and the first thing left is a message whose content is
  -- not empty, stored by the entity of that token in the conversation that the body names, which the
  -- entity may message and is party to.
  pub send_route-Sender :
      (effect : Effect) (rest : List Effect) → send_route.0.1 ≡ effect ∷ rest → Sender effect
  unfolding serve_route
  send_route-Sender effect rest e = elim (reply_cases Through.0) [
    | inl (status, (retry, stopped)) ↦ cc (rw (let_through, stopped) at e)
    | inr (t, through) ↦
        Posted-Sender t effect rest
          ((gated_iff d.fields d.equal_fold d.verify d.limiter d.authorize messages_send header s
              t).0
            through)
          (send_message_handler-Posted q w (some t) body) (rw (let_through, through) at e)
  ]
