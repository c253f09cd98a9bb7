-- ===== src/Auth/RateLimit/Counting.antt =====
-- The limit over a sequence of requests, for a store that counts.
use chatterloop_developer_se.Common.{
  ℕ, suc, ◌+◌, ◌-◌, ◌<◌, true, Option, some, List, [], ◌∷◌, Text, text_eq, text_eq_refl, ◌==◌,
  if◌then◌else◌, ◌≡◌, refl, ℤ, leb_ℤ, arith, All, ◌∙◌, ap,
}
use mathlib.Core.Path.{ap₂}
use chatterloop_developer_se.Auth.Token.{Token}
use chatterloop_developer_se.Auth.Window.{window_bounds, RateLimitPeriod, period_of, bounds}
use chatterloop_developer_se.Auth.Window.Bounds.{Inside, bounds-Inside, bounds-same}
use chatterloop_developer_se.Auth.RateLimit.{
  RateLimitStore, Limit, allowed, exceeded, counter_key, count_request, check_rate_limit,
}

-- What INCR and EXPIRE promise while they succeed: counters start at 0, INCR adds one to its
-- counter alone and keeps every time to live, EXPIRE sets the one it names and no counter.
pub record Counts {S : Type 0} (store : RateLimitStore S) : Type 0 where
  pub count : Text → S → ℕ
  pub ttl : Text → S → Option ℕ
  pub incr_result : (k : Text) (s : S) → (store.incr k s).0 ≡ some (suc (count k s))
  pub incr_count :
      (j k : Text) (s : S)
      → count j (store.incr k s).1 ≡ (if text_eq j k then suc (count k s) else count j s)
  pub incr_ttl : (j k : Text) (s : S) → ttl j (store.incr k s).1 ≡ ttl j s
  pub expire_result : (k : Text) (t : ℕ) (s : S) → (store.expire k t s).0 ≡ true
  pub expire_count : (j k : Text) (t : ℕ) (s : S) → count j (store.expire k t s).1 ≡ count j s
  pub expire_ttl :
      (j k : Text) (t : ℕ) (s : S)
      → ttl j (store.expire k t s).1 ≡ (if text_eq j k then some t else ttl j s)

module _ {S : Type 0} (store : RateLimitStore S) (c : Counts store) where
  -- One request counts itself whatever the outcome.
  count_request-count :
      (j key : Text) (limit : ℤ) (remaining : ℕ) (s : S)
      → c.count j (count_request store key limit remaining s).1
        ≡ (if text_eq j key then suc (c.count key s) else c.count j s)
  unfolding count_request
  count_request-count j key limit remaining s = ground (
    arith,
    c.incr_result key s,
    c.incr_count j key s,
    c.expire_result key remaining (store.incr key s).1,
    c.expire_count j key remaining (store.incr key s).1,
  )

  count_request-ttl :
      (key : Text) (limit : ℤ) (remaining : ℕ) (s : S)
      → c.ttl key (count_request store key limit remaining s).1
        ≡ (if c.count key s == 0 then some remaining else c.ttl key s)
  unfolding count_request
  count_request-ttl key limit remaining s = ground (
    arith,
    c.incr_result key s,
    c.incr_ttl key key s,
    c.expire_result key remaining (store.incr key s).1,
    c.expire_ttl key key remaining (store.incr key s).1,
    text_eq_refl key,
  )

  count_request-outcome :
      (key : Text) (limit : ℤ) (remaining : ℕ) (s : S)
      → (count_request store key limit remaining s).0
        ≡ (if leb_ℤ (suc (c.count key s)) limit then allowed else exceeded remaining)
  unfolding count_request
  count_request-outcome key limit remaining s =
      ground (arith, c.incr_result key s, c.expire_result key remaining (store.incr key s).1)

count_request-exceeded :
    {S : Type 0} (store : RateLimitStore S) (key : Text) (limit : ℤ) (remaining r : ℕ) (s : S)
    → (count_request store key limit remaining s).0 ≡ exceeded r
    → r ≡ remaining
unfolding count_request
count_request-exceeded store key limit remaining r s e = ground arith

-- The counter of a token's window.
pub key_of : Token → Text → RateLimitPeriod → ℕ → Text
key_of token period p now = counter_key token.id period (bounds p now).0

-- The answers that a counter gives which has seen `seen` requests of a window that ends at `end`.
abbrev pub answers : ℤ → ℕ → ℕ → List ℕ → List Limit
answers limit end seen [] = []
answers limit end seen (t ∷ ts) =
    (if leb_ℤ (suc seen) limit then allowed else exceeded (end - t))
    ∷ answers limit end (suc seen) ts

module _ {S : Type 0} (store : RateLimitStore S) where
  -- The requests of one token one after the other, at the given times.
  abbrev pub run_checks : Token → List ℕ → S → List Limit
  run_checks token [] s = []
  run_checks token (t ∷ ts) s =
      let (answer, s') = check_rate_limit store t token s in answer ∷ run_checks token ts s'

  module _ (token : Token) (limit : ℤ) (period : Text) (p : RateLimitPeriod)
      (limited : token.rate_limit_int ≡ some limit) (typed : token.rate_limit_type ≡ some period)
      (known : period_of period ≡ some p) where
    check_rate_limit_lem :
        (now : ℕ) (s : S)
        → check_rate_limit store now token s
          ≡ count_request store (key_of token period p now) limit ((bounds p now).1 - now) s
    unfolding check_rate_limit window_bounds key_of
    check_rate_limit_lem now s = rw (limited, typed, window_bounds, known)

    -- A refusal names the time to the end of the window: it is positive, and the window is over
    -- when it has passed.
    pub check_rate_limit-exceeded :
        (now r : ℕ) (s : S)
        → (check_rate_limit store now token s).0 ≡ exceeded r
        → (0 < r) × (now + r ≡ (bounds p now).1)
    check_rate_limit-exceeded now r s e =
        let (lo, hi) = bounds-Inside p now in
        let named : r ≡ (bounds p now).1 - now =
          count_request-exceeded store (key_of token period p now) limit ((bounds p now).1 - now) r
            s (rw (check_rate_limit_lem now s) at e) in
        (omega arith, omega arith)

    module _ (c : Counts store) where
      -- A request adds one to the counter of its window, allowed or not, and to no other counter;
      -- it sets the time to live only if it is the first of the window, to the rest of the window.
      pub check_rate_limit-counts :
          (now : ℕ) (j : Text) (s : S)
          → let s' = (check_rate_limit store now token s).1 in
            (c.count j s' ≡ (
              if text_eq j (key_of token period p now)
              then suc (c.count (key_of token period p now) s)
              else c.count j s))
            × (c.ttl (key_of token period p now) s' ≡ (
                if c.count (key_of token period p now) s == 0
                then some ((bounds p now).1 - now)
                else c.ttl (key_of token period p now) s))
      check_rate_limit-counts now j s = rw (check_rate_limit_lem now s) (
        count_request-count store c j (key_of token period p now) limit ((bounds p now).1 - now) s,
        count_request-ttl store c (key_of token period p now) limit ((bounds p now).1 - now) s,
      )

      same_window :
          (now t : ℕ)
          → Inside t (bounds p now)
          → key_of token period p t ≡ key_of token period p now
      unfolding key_of
      same_window now t here = ap (λ w. counter_key token.id period w.0) (bounds-same p now t here)

      check_rate_limit-answer :
          (now t : ℕ) (s : S)
          → Inside t (bounds p now)
          → (check_rate_limit store t token s).0 ≡ (
              if leb_ℤ (suc (c.count (key_of token period p now) s)) limit
              then allowed
              else exceeded ((bounds p now).1 - t))
      check_rate_limit-answer now t s here = rw (
        check_rate_limit_lem t s,
        count_request-outcome store c (key_of token period p t) limit ((bounds p t).1 - t) s,
        same_window now t here,
        bounds-same p now t here,
      )

      check_rate_limit-seen :
          (now t : ℕ) (s : S)
          → Inside t (bounds p now)
          → c.count (key_of token period p now) (check_rate_limit store t token s).1
            ≡ suc (c.count (key_of token period p now) s)
      check_rate_limit-seen now t s here =
          (check_rate_limit-counts t (key_of token period p now) s).0
          ∙ rw (same_window now t here, text_eq_refl (key_of token period p now))

      -- Requests in one window are allowed as long as their number is within the limit and refused
      -- from then on, however many there are, each refusal with the rest of the window.
      pub run_checks-answers :
          (now : ℕ) (times : List ℕ) (s : S)
          → All (λ t. Inside t (bounds p now)) times
          → run_checks token times s
            ≡ answers limit (bounds p now).1 (c.count (key_of token period p now) s) times
      run_checks-answers now [] s h = refl
      run_checks-answers now (t ∷ ts) s (here, h) =
          ap₂ (λ a as'. a ∷ as') (check_rate_limit-answer now t s here)
            (run_checks-answers now ts (check_rate_limit store t token s).1 h
              ∙ ap (λ n. answers limit (bounds p now).1 n ts) (check_rate_limit-seen now t s here))
