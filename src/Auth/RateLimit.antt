-- ===== src/Auth/RateLimit.antt =====
-- internal/auth/ratelimit.go: RateLimitStore and CheckRateLimit. Redis is a parameter, a record of
-- the two commands as functions of its state; `none` is an error. Times are as in Auth/Window.
pub mod Counting
use chatterloop_developer_se.Common.{
  ℕ, ◌+◌, ◌-◌, ◌/◌, Bool, true, false, Option, none, some, List, [], ◌∷◌, ◌++◌, Text, ◌==◌,
  if◌then◌else◌, ◌≡◌, refl, codes, ℤ, leb_ℤ, decimal,
}
use chatterloop_developer_se.Auth.Token.{Token}
use chatterloop_developer_se.Auth.Window.{window_bounds, second_ns}

pub record RateLimitStore (S : Type 0) : Type 0 where
  pub incr : Text → S → Option ℕ × S
  pub expire : Text → ℕ → S → Bool × S

-- `allowed, 0, nil`; `false, retryAfter, nil`; an error.
pub data Limit : Type 0 where
  allowed : Limit
  exceeded : ℕ → Limit
  check_failed : Limit

-- Seconds from the first instant of year 1 to the Unix epoch.
abbrev pub unix_epoch : ℕ
unix_epoch = 62_135_596_800

-- `fmt.Sprintf("ratelimit:token:%s:%s:%d", token.ID, period, start.Unix())`.
unfoldable pub counter_key : Text → Text → ℕ → Text
counter_key id period start =
    codes "ratelimit:token:"
    ++ id
    ++ b':' ∷ (period ++ b':' ∷ decimal (start / second_ns - unix_epoch))

module _ {S : Type 0} (store : RateLimitStore S) where
  -- `count <= int64(*token.RateLimitInt)`
  abbrev decide : ℕ → ℤ → ℕ → Limit
  decide count limit retry_after = if leb_ℤ count limit then allowed else exceeded retry_after

  unfoldable pub count_request : Text → ℤ → ℕ → S → Limit × S
  count_request key limit remaining s =
      let (counted, s') = store.incr key s in
      elim counted [
        | none ↦ (check_failed, s')
        | some count ↦
            let (expiring, s'') = store.expire key remaining s' in
            if count == 1
            then if expiring then (decide count limit remaining, s'') else (check_failed, s'')
            else (decide count limit remaining, s')
      ]

  unfoldable pub check_rate_limit : ℕ → Token → S → Limit × S
  unfolding count_request
  check_rate_limit now token s = elim token.rate_limit_int [
    | none ↦ (allowed, s)
    | some limit ↦ elim token.rate_limit_type [
      | none ↦ (check_failed, s)
      | some period ↦ elim (window_bounds period now) [
        | none ↦ (check_failed, s)
        | some (start, end) ↦ count_request (counter_key token.id period start) limit (end - now) s
      ]
    ]
  ]
