-- ===== src/Auth/Token/Verifying.antt =====
-- Which credentials Verify accepts, and when it reports that it could not judge one.
use chatterloop_developer_se.Common.{
  query_cases, ℕ, true, false, Option, none, some, List, Text, text_eq_iff, ◌≡◌, ◌≢◌, arith, ◌↔◌,
  Fetched, found, broken, Option-cases, inl, inr,
}
use chatterloop_developer_se.Auth.Token.{
  Token, TokenRow, accepted, refused, backend_unavailable, has_expired, read_scopes, token_of,
  verify_row, verify, parse_token,
}

module _ (hash : Text → Text) (decode_scopes : Text → Option (List Text))
    (query : Text → Fetched TokenRow) (now : ℕ) (raw : Text) where
  -- The token is well formed, its prefix names a row, the row holds its hash and is live, and the
  -- token is that row.
  pub record IsLive (t : Token) : Type 0 where
    pub secret : Text
    pub stored : TokenRow
    pub parsed : parse_token raw ≡ some (t.prefix, secret)
    pub queried : query t.prefix ≡ found stored
    pub hashed : stored.token_hash ≡ hash raw
    pub active : stored.is_active ≡ true
    pub not_revoked : stored.revoked_at ≡ none
    pub not_expired : has_expired stored.expires_at now ≡ false
    pub decoded : read_scopes decode_scopes stored.scopes_raw ≡ some t.scopes
    pub same : t ≡ token_of stored t.prefix t.scopes

  verify_row_sound :
      (prefix : Text) (r : TokenRow) (t : Token)
      → verify_row hash decode_scopes now raw prefix r ≡ accepted t
      → (r.token_hash ≡ hash raw)
        × (r.is_active ≡ true)
        × (r.revoked_at ≡ none)
        × (has_expired r.expires_at now ≡ false)
        × (read_scopes decode_scopes r.scopes_raw ≡ some t.scopes)
        × (t ≡ token_of r prefix t.scopes)
        × (prefix ≡ t.prefix)
  unfolding verify_row
  verify_row_sound prefix r t e = ground (arith, text_eq_iff r.token_hash (hash raw))

  stored_IsLive :
      (prefix secret : Text) (r : TokenRow) (t : Token)
      → parse_token raw ≡ some (prefix, secret)
      → query prefix ≡ found r
      → (r.token_hash ≡ hash raw)
        × (r.is_active ≡ true)
        × (r.revoked_at ≡ none)
        × (has_expired r.expires_at now ≡ false)
        × (read_scopes decode_scopes r.scopes_raw ≡ some t.scopes)
        × (t ≡ token_of r prefix t.scopes)
        × (prefix ≡ t.prefix)
      → IsLive t
  stored_IsLive prefix secret r t parsed stored (h, a, n, x, d, s, p) = record {
    secret = secret;
    stored = r;
    parsed = rw (← p) parsed;
    queried = rw (← p) stored;
    hashed = h;
    active = a;
    not_revoked = n;
    not_expired = x;
    decoded = d;
    same = simp (← p) s;
  }

  verify_sound : (t : Token) → verify hash decode_scopes query now raw ≡ accepted t → IsLive t
  unfolding verify
  verify_sound t e = elim (Option-cases (parse_token raw)) [
    | inl malformed ↦ cc (rw (malformed, verify) at e)
    | inr ((prefix, secret), parsed) ↦ elim (query_cases (query prefix)) [
      | inl (r, stored) ↦
          let accepts = verify_row_sound prefix r t (rw (parsed, verify, stored) at e) in
          stored_IsLive prefix secret r t parsed stored accepts
      | inr (inl unknown) ↦ cc (rw (parsed, verify, unknown) at e)
      | inr (inr failed) ↦ cc (rw (parsed, verify, failed) at e)
    ]
  ]

  verify_complete : (t : Token) → IsLive t → verify hash decode_scopes query now raw ≡ accepted t
  unfolding verify verify_row
  verify_complete t l = ground (arith, text_eq_iff l.stored.token_hash (hash raw))

  verify_row-judges :
      (prefix : Text) (r : TokenRow)
      → verify_row hash decode_scopes now raw prefix r ≢ refused backend_unavailable
  unfolding verify_row
  verify_row-judges prefix r = ground arith

  -- Verify accepts a raw token exactly when it is well formed, the row that its prefix names holds
  -- its hash, is active, not revoked and not expired, and the scopes can be read. The token is that
  -- row, with those scopes and that prefix.
  pub verify_iff : (t : Token) → (verify hash decode_scopes query now raw ≡ accepted t) ↔ IsLive t
  verify_iff t = (verify_sound t, verify_complete t)

  -- Verify reports an unavailable store exactly when the token is well formed and the query for its
  -- prefix fails: neither a malformed nor an unknown token is reported so.
  pub verify-unavailable_iff :
      (verify hash decode_scopes query now raw ≡ refused backend_unavailable) ↔ (
        (prefix : Text) × (secret : Text) × (parse_token raw ≡ some (prefix, secret))
        × (query prefix ≡ broken))
  unfolding verify
  verify-unavailable_iff = (
    λ e. elim (Option-cases (parse_token raw)) [
      | inl malformed ↦ cc (rw (malformed, verify) at e)
      | inr ((prefix, secret), parsed) ↦ elim (query_cases (query prefix)) [
        | inl (r, stored) ↦ absurd (verify_row-judges prefix r (rw (parsed, verify, stored) at e))
        | inr (inl unknown) ↦ cc (rw (parsed, verify, unknown) at e)
        | inr (inr failed) ↦ (prefix, secret, parsed, failed)
      ]
    ],
    λ (p, s, parsed, failed). rw (parsed, verify, failed),
  )
