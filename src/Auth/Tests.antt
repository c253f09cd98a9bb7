-- ===== src/Auth/Tests.antt =====
-- Witnesses of internal/auth: its theorems at concrete inputs.
use chatterloop_developer_se.Common.{
  All, ℕ, suc, ◌*◌, ◌+◌, true, false, Option, none, some, List, [], ◌∷◌, Text, text_eq,
  if◌then◌else◌, ◌≡◌, refl, codes, pos, ◌↔◌, Fetched, found, broken, cut_short, rows_of, arith,
  contains, ◌<◌, inl, ◌&&◌, not, ◌-◌, trim_space,
}
use chatterloop_developer_se.Auth.Token.{
  Token, TokenRow, verify, accepted, parse_token, has_scope, token_of, read_scopes, prefix_hex_len,
  secret_hex_len,
}
use chatterloop_developer_se.Auth.Token.Format.{parse_token_iff, token_text, IsHexOf}
use chatterloop_developer_se.Auth.Token.Verifying.{IsLive, verify_iff}
use chatterloop_developer_se.Auth.Authorize.{
  PermissionRow, select_effects, authorize, decided, unknown_permission, messages_read,
  gated_permissions, read_effects,
}
use chatterloop_developer_se.Auth.Authorize.Laws.{
  authorize_iff, has_effect, append_rows, read_effects-append_broken,
}
use chatterloop_developer_se.Auth.Window.{
  minute, month, bounds, second_ns, day_ns, period_of, window_bounds,
}
use chatterloop_developer_se.Auth.Window.Bounds.{Inside, bounds-Inside}
use chatterloop_developer_se.Auth.RateLimit.{RateLimitStore, check_rate_limit, exceeded, allowed}
use chatterloop_developer_se.Auth.RateLimit.Counting.{
  Counts, answers, run_checks, run_checks-answers, check_rate_limit-exceeded,
}

abbrev a_token : Token
a_token = record {
  id = codes "t1";
  entity_id = codes "e1";
  realm_id = none;
  name = codes "bot";
  scopes = messages_read ∷ [];
  prefix = codes "0123456789ab";
  rate_limit_int = some (pos 2);
  rate_limit_type = some (codes "minute");
}

abbrev a_grant : PermissionRow
a_grant = record {
  entity_id = codes "e1";
  codename = messages_read;
  is_active = true;
  scope = codes "global";
  realm_id = none;
  expires_at = none;
  effect = codes "grant";
}

authorize_iff_example :
    ((authorize
          (λ e p. found (rows_of (select_effects (a_grant ∷ []) 5 e p)))
          (some a_token)
          messages_read
        ≡ decided true)
      ↔ ((contains messages_read gated_permissions ≡ true)
          × (has_scope a_token messages_read ≡ true)
          × (has_effect (a_grant ∷ []) 5 a_token.entity_id messages_read (codes "grant") ≡ true)
          × (has_effect (a_grant ∷ []) 5 a_token.entity_id messages_read (codes "deny") ≡ false)))
    × (authorize
          (λ e p. found (rows_of (select_effects (a_grant ∷ []) 5 e p)))
          (some a_token)
          messages_read
        ≡ (if contains messages_read gated_permissions
            then decided (
                has_scope a_token messages_read
                && has_effect (a_grant ∷ []) 5 a_token.entity_id messages_read (codes "grant")
                && not (has_effect (a_grant ∷ []) 5 a_token.entity_id messages_read (codes "deny")))
            else unknown_permission))
    × (authorize (λ e p. found (rows_of (select_effects (a_grant ∷ []) 5 e p))) none messages_read
        ≡ (if contains messages_read gated_permissions then decided false else unknown_permission))
authorize_iff_example = authorize_iff (a_grant ∷ []) 5 a_token messages_read

a_grant_permits :
    authorize
      (λ e p. found (rows_of (select_effects (a_grant ∷ []) 5 e p)))
      (some a_token)
      messages_read
    ≡ decided true
unfolding authorize contains text_eq
a_grant_permits = refl

read_effects-append_broken_example :
    read_effects false (append_rows (codes "grant" ∷ []) cut_short)
    ≡ (if contains (codes "deny") (codes "grant" ∷ []) then found false else broken)
read_effects-append_broken_example =
    read_effects-append_broken false (codes "grant" ∷ []) cut_short (inl refl)

-- A refusal is read before the stream breaks off, and an error is no grant.
read_effects_test :
    (read_effects false (append_rows (codes "deny" ∷ codes "grant" ∷ []) cut_short) ≡ found false)
    × (read_effects false (append_rows (codes "grant" ∷ []) cut_short) ≡ broken)
unfolding read_effects text_eq
read_effects_test = (refl, refl)

abbrev raw_token : Text
raw_token =
    codes " clt_0123456789ab_0123456789abcdef0123456789abcdef0123456789abcdef0123456789abcdef\n"

abbrev secret : Text
secret = codes "0123456789abcdef0123456789abcdef0123456789abcdef0123456789abcdef"

parse_token_iff_example : (parse_token raw_token ≡ some (codes "0123456789ab", secret)) ↔ (
    (trim_space raw_token ≡ token_text (codes "0123456789ab") secret)
    × IsHexOf prefix_hex_len (codes "0123456789ab")
    × IsHexOf secret_hex_len secret)
parse_token_iff_example = parse_token_iff raw_token (codes "0123456789ab") secret

raw_token_parses : parse_token raw_token ≡ some (codes "0123456789ab", secret)
unfolding parse_token
raw_token_parses = refl

abbrev a_row : TokenRow
a_row = record {
  id = codes "t1";
  entity_id = codes "e1";
  realm_id = none;
  name = codes "bot";
  token_hash = raw_token;
  scopes_raw = [];
  is_active = true;
  revoked_at = none;
  expires_at = some 9;
  rate_limit_int = some (pos 2);
  rate_limit_type = some (codes "minute");
}

-- A stand-in for the hash, and one row for every prefix.
abbrev same_text : Text → Text
same_text t = t

abbrev no_json : Text → Option (List Text)
no_json raw = none

abbrev one_row : Text → Fetched TokenRow
one_row prefix = found a_row

abbrev no_rows : Text → Fetched TokenRow
no_rows prefix = broken

verify_iff_example :
    (verify same_text no_json one_row 5 raw_token
      ≡ accepted (token_of a_row (codes "0123456789ab") []))
    ↔ IsLive same_text no_json one_row 5 raw_token (token_of a_row (codes "0123456789ab") [])
verify_iff_example =
    verify_iff same_text no_json one_row 5 raw_token (token_of a_row (codes "0123456789ab") [])

a_row_is_accepted :
    verify same_text no_json one_row 5 raw_token
    ≡ accepted (token_of a_row (codes "0123456789ab") [])
unfolding verify parse_token text_eq read_scopes
a_row_is_accepted = refl

-- 2024-02-29T12:00:00Z and a day later in the month.
abbrev noon : ℕ
noon = 738944 * day_ns + 43200 * second_ns

bounds-Inside_example : Inside noon (bounds month noon)
bounds-Inside_example = bounds-Inside month noon

-- A store that counts: counters and times to live as functions of the key.
pub record Memory : Type 0 where
  counters : Text → ℕ
  times : Text → Option ℕ

abbrev memory : RateLimitStore Memory
memory = record {
  incr = λ k s. (
    some (suc (s.counters k)),
    record s { counters = λ j. if text_eq j k then suc (s.counters k) else s.counters j },
  );
  expire = λ k t s. (true, record s { times = λ j. if text_eq j k then some t else s.times j });
}

abbrev memory_counts : Counts memory
memory_counts = record {
  count = λ k s. s.counters k;
  ttl = λ k s. s.times k;
  incr_result = λ k s. refl;
  incr_count = λ j k s. refl;
  incr_ttl = λ j k s. refl;
  expire_result = λ k t s. refl;
  expire_count = λ j k t s. refl;
  expire_ttl = λ j k t s. refl;
}

abbrev fresh : Memory
fresh = record { counters = λ k. 0; times = λ k. none }

minute_known : period_of (codes "minute") ≡ some minute
unfolding period_of text_eq
minute_known = refl

run_checks-answers_example :
    run_checks memory a_token (noon ∷ (noon + 1) ∷ (noon + 2) ∷ []) fresh
    ≡ answers (pos 2) (bounds minute noon).1 0 (noon ∷ (noon + 1) ∷ (noon + 2) ∷ [])
run_checks-answers_example =
    run_checks-answers memory a_token (pos 2) (codes "minute") minute refl refl minute_known
      memory_counts noon (noon ∷ (noon + 1) ∷ (noon + 2) ∷ []) fresh inside
  where
    inside : All (λ t. Inside t (bounds minute noon)) (noon ∷ (noon + 1) ∷ (noon + 2) ∷ [])
    inside = unfold bounds in omega arith

answers_test :
    answers (pos 2) (bounds minute noon).1 0 (noon ∷ (noon + 1) ∷ (noon + 2) ∷ [])
    ≡ allowed ∷ allowed ∷ exceeded (60 * second_ns - 2) ∷ []
unfolding bounds
answers_test = refl

abbrev a_key : Text
a_key = codes "ratelimit:token:t1:minute:1709208000"

abbrev full : Memory
full = record { counters = λ k. 2; times = λ k. none }

third_request : (check_rate_limit memory noon a_token full).0 ≡ exceeded (60 * second_ns)
unfolding check_rate_limit window_bounds bounds period_of text_eq
third_request = refl

check_rate_limit-exceeded_example :
    (0 < 60 * second_ns) × (noon + 60 * second_ns ≡ (bounds minute noon).1)
check_rate_limit-exceeded_example =
    check_rate_limit-exceeded memory a_token (pos 2) (codes "minute") minute refl refl minute_known
      noon (60 * second_ns) full third_request
