-- ===== src/Routes.antt =====
-- cmd/developer/main.go: the routes of the service with what guards each, and a guarded call of a handler.
pub mod Sending
mod Tests
use chatterloop_developer_se.Common.{
  ℕ, Bool, true, false, ◌&&◌, Option, none, some, List, [], ◌∷◌, Text, codes, text_eq, take, drop,
  contains, all, ◌≡◌, refl, if◌then◌else◌,
}
use chatterloop_developer_se.Auth.Token.{Token, Verdict}
use chatterloop_developer_se.Auth.Authorize.{
  Decision, gated_permissions, events_subscribe, messages_read, notifications_read, messages_send,
  comments_create,
}
use chatterloop_developer_se.Auth.RateLimit.{Limit}
use chatterloop_developer_se.Auth.Middleware as Middleware
use chatterloop_developer_se.Auth.Middleware.{middleware, gated}

-- `with_scope` is RequireScope within Middleware, `with_token` Middleware alone.
pub data Guard : Type 0 where
  unguarded with_token : Guard
  with_scope : (permission : Text) → Guard

pub record Route : Type 0 where
  pub pattern : Text
  pub guard : Guard

abbrev route : Text → Guard → Route
route pattern guard = record { pattern = pattern; guard = guard }

unfoldable pub routes : List Route
routes =
    route (codes "GET /health") unguarded
    ∷ route (codes "GET /ready") unguarded
    ∷ route (codes "GET /version") unguarded
    ∷ route (codes "GET /v1/whoami") with_token
    ∷ route (codes "GET /v1/events") (with_scope events_subscribe)
    ∷ route (codes "GET /v1/conversations/{conversationID}/messages") (with_scope messages_read)
    ∷ route (codes "GET /v1/conversations/{conversationID}/replies") (with_scope messages_read)
    ∷ route (codes "GET /v1/conversations/{conversationID}/messages/{messageID}/thread")
        (with_scope messages_read)
    ∷ route (codes "GET /v1/entities/search") (with_scope messages_read)
    ∷ route (codes "GET /v1/mentions/comments") (with_scope notifications_read)
    ∷ route (codes "GET /v1/comments/replies") (with_scope notifications_read)
    ∷ route (codes "GET /v1/posts/{postID}/comments") (with_scope notifications_read)
    ∷ route (codes "GET /v1/moderation/messages") (with_scope messages_read)
    ∷ route (codes "GET /v1/moderation/posts/{postID}") (with_scope notifications_read)
    ∷ route (codes "GET /v1/moderation/comments") (with_scope notifications_read)
    ∷ route (codes "POST /v1/messages/send") (with_scope messages_send)
    ∷ route (codes "POST /v1/comments") (with_scope comments_create)
    ∷ []

-- What the middleware works with: Fields, EqualFold, Verify, the limiter and Authorize.
pub record Door (S : Type 0) : Type 0 where
  pub fields : Text → List Text
  pub equal_fold : Text → Text → Bool
  pub verify : Text → Verdict
  pub limiter : Option (Token → S → Limit × S)
  pub authorize : Option Token → Text → Decision

module _ {R : Type 0} (refuse : ℕ → R) (handle : Option Token → R) where
  abbrev pub let_through : Middleware.Reply → R
  let_through (Middleware.error_reply status retry) = refuse status
  let_through (Middleware.served token) = handle (some token)

  abbrev pub let_in : {S : Type 0} → Middleware.Reply × S → R × S
  let_in (reply, s) = (let_through reply, s)

  -- A request of a route with the header `header`, and the state of the limiter.
  unfoldable pub serve_route : {S : Type 0} → Door S → Guard → Text → S → R × S
  unfolding middleware gated
  serve_route d unguarded header s = (handle none, s)
  serve_route d with_token header s =
      let_in (middleware d.fields d.equal_fold d.verify d.limiter header s)
  serve_route d (with_scope permission) header s =
      let_in (gated d.fields d.equal_fold d.verify d.limiter d.authorize permission header s)

-- A permission that a route asks for is one that Authorize knows, and what is open is no part of the API.
abbrev guards : Text → Guard → Bool
guards pattern unguarded = if text_eq (take 7 pattern) (codes "GET /v1") then false else true
guards pattern with_token = true
guards pattern (with_scope permission) = contains permission gated_permissions

routes-guarded : all (λ (r : Route). guards r.pattern r.guard) routes ≡ true
unfolding routes contains text_eq
routes-guarded = refl
