-- ===== src/Auth/Middleware.antt =====
-- internal/auth/middleware.go: Middleware and RequireScope, as the status they answer or the call of
-- the next handler. Fields and EqualFold are package strings', and stand as parameters beside Verify,
-- TouchLastUsed (whose error is only logged) and the limiter.
pub mod Gate
mod Tests
use chatterloop_developer_se.Common.{
  ℕ, suc, ◌/◌, Bool, true, false, not, Option, none, some, List, [], ◌∷◌, Text, if◌then◌else◌,
  codes,
}
use chatterloop_developer_se.Auth.Token.{
  Token, Verdict, accepted, refused, backend_unavailable, invalid_token, unreadable_scopes,
}
use chatterloop_developer_se.Auth.Authorize.{Decision, decided, unknown_permission, unavailable}
use chatterloop_developer_se.Auth.Window.{second_ns}
use chatterloop_developer_se.Auth.RateLimit.{Limit, allowed, exceeded, check_failed}

-- An error status with the Retry-After header, if it is set; or the next handler, with the token.
pub data Reply : Type 0 where
  error_reply : ℕ → Option ℕ → Reply
  served : Token → Reply

-- `int(retryAfter.Seconds()) + 1`, with the whole seconds of the wait cut off exactly, without a float64.
abbrev pub retry_seconds : ℕ → ℕ
retry_seconds wait = suc (wait / second_ns)

abbrev pub limited : Token → Limit → Reply
limited token allowed = served token
limited token (exceeded wait) = error_reply 429 (some (retry_seconds wait))
limited token check_failed = error_reply 503 none

-- A nil limiter lets every request pass.
abbrev pub within_limit : {S : Type 0} → Option (Token → S → Limit × S) → Token → S → Reply × S
within_limit none token s = (served token, s)
within_limit (some check) token s = let (l, s') = check token s in (limited token l, s')

abbrev pub verified : {S : Type 0} → Option (Token → S → Limit × S) → Verdict → S → Reply × S
verified limiter (refused backend_unavailable) s = (error_reply 503 none, s)
verified limiter (refused invalid_token) s = (error_reply 401 none, s)
verified limiter (refused unreadable_scopes) s = (error_reply 401 none, s)
verified limiter (accepted token) s = within_limit limiter token s

-- What follows for the fields of the header.
abbrev pub parsed :
    {S : Type 0}
    → (Text → Text → Bool)
    → (Text → Verdict)
    → Option (Token → S → Limit × S)
    → List Text
    → S
    → Reply × S
parsed equal_fold verify limiter (scheme ∷ raw ∷ []) s =
    if not (equal_fold scheme (codes "bearer"))
    then (error_reply 401 none, s)
    else verified limiter (verify raw) s
parsed equal_fold verify limiter _ s = (error_reply 401 none, s)

unfoldable pub middleware :
    {S : Type 0}
    → (Text → List Text)
    → (Text → Text → Bool)
    → (Text → Verdict)
    → Option (Token → S → Limit × S)
    → Text
    → S
    → Reply × S
middleware fields equal_fold verify limiter header s =
    parsed equal_fold verify limiter (fields header) s

abbrev pub decided_reply : Token → Decision → Reply
decided_reply token (decided true) = served token
decided_reply token (decided false) = error_reply 403 none
decided_reply token unknown_permission = error_reply 500 none
decided_reply token unavailable = error_reply 500 none

-- RequireScope behind the token in the context.
unfoldable pub require_scope : (Option Token → Text → Decision) → Text → Option Token → Reply
require_scope authorize permission none = error_reply 500 none
require_scope authorize permission (some token) =
    decided_reply token (authorize (some token) permission)

abbrev pub scoped_reply : (Option Token → Text → Decision) → Text → Reply → Reply
scoped_reply authorize permission (error_reply status retry) = error_reply status retry
scoped_reply authorize permission (served token) = require_scope authorize permission (some token)

-- A route: RequireScope in the handler that Middleware wraps.
unfoldable pub gated :
    {S : Type 0}
    → (Text → List Text)
    → (Text → Text → Bool)
    → (Text → Verdict)
    → Option (Token → S → Limit × S)
    → (Option Token → Text → Decision)
    → Text
    → Text
    → S
    → Reply × S
gated fields equal_fold verify limiter authorize permission header s =
    let (r, s') = middleware fields equal_fold verify limiter header s in
    (scoped_reply authorize permission r, s')
