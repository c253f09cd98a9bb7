-- ===== src/Auth/Middleware/Tests.antt =====
-- Witnesses of the middleware's theorems.
use chatterloop_developer_se.Common.{
  ltb, ℕ, ◌+◌, true, none, some, List, [], ◌∷◌, Text, codes, text_eq, ◌≡◌, ◌↔◌, if◌then◌else◌,
}
use chatterloop_developer_se.Auth.Token.{Token, Verdict, accepted, refused, invalid_token}
use chatterloop_developer_se.Auth.Authorize.{decided}
use chatterloop_developer_se.Auth.RateLimit.{Limit, allowed, exceeded}
use chatterloop_developer_se.Auth.Middleware.{gated, served}
use chatterloop_developer_se.Auth.Middleware.Gate.{Entitled, gated_iff}

abbrev token : Token
token = record {
  id = codes "t1";
  entity_id = codes "e1";
  realm_id = none;
  name = codes "bot";
  scopes = codes "messages.read" ∷ [];
  prefix = codes "0123456789ab";
  rate_limit_int = none;
  rate_limit_type = none;
}

abbrev two_fields : Text → List Text
two_fields _ = codes "Bearer" ∷ codes "clt_x" ∷ []

abbrev verify_one : Text → Verdict
verify_one raw = if text_eq raw (codes "clt_x") then accepted token else refused invalid_token

-- A limiter that counts its calls and allows three.
abbrev count_calls : Token → ℕ → Limit × ℕ
count_calls _ calls = (if ltb calls 3 then allowed else exceeded 5, calls + 1)

gated_iff_example :
    ((gated two_fields text_eq verify_one
        (some count_calls)
        (λ _ _. decided true)
        (codes "messages.read")
        (codes "Bearer clt_x")
        1).0
      ≡ served token)
    ↔ Entitled two_fields text_eq verify_one
        (some count_calls)
        (λ _ _. decided true)
        (codes "messages.read")
        (codes "Bearer clt_x")
        1
        token
gated_iff_example =
    gated_iff two_fields text_eq verify_one (some count_calls) (λ _ _. decided true)
      (codes "messages.read") (codes "Bearer clt_x") 1 token
