-- ===== src/Auth/Token.antt =====
-- internal/auth/token.go: the Token record, HasScope, ParseToken, and Verify on the row that the
-- prefix names. SHA-256 and the JSON decoder of the scopes are parameters.
pub mod Format
pub mod Verifying
pub mod Touching
use chatterloop_developer_se.Common.{
  ℕ, zero, suc, ◌<◌, Bool, true, false, ◌&&◌, ◌||◌, not, Option, none, some, List, [], ◌∷◌, ◌++◌,
  Text, text_eq, contains, leb, ltb, ◌==◌, if◌then◌else◌, length, all, ◌≡◌, refl, codes, trim_space,
  ◌%◌, Fetched, found, missing, broken, is_some, ℤ,
}

pub record Token : Type 0 where
  pub id : Text
  pub entity_id : Text
  pub realm_id : Option Text
  pub name : Text
  pub scopes : List Text
  pub prefix : Text
  pub rate_limit_int : Option ℤ
  pub rate_limit_type : Option Text

unfoldable pub has_scope_in : List Text → Text → Bool
has_scope_in [] codename = false
has_scope_in (scope ∷ scopes) codename =
    if text_eq scope codename then true else has_scope_in scopes codename

unfoldable pub has_scope : Token → Text → Bool
unfolding has_scope_in
has_scope t codename = has_scope_in t.scopes codename

abbrev pub token_namespace : Text
token_namespace = codes "clt"

abbrev pub prefix_hex_len : ℕ
prefix_hex_len = 12

abbrev pub secret_hex_len : ℕ
secret_hex_len = 64

-- `strings.Split(s, "_")`: at least one part.
unfoldable pub split_from : ℕ → Text → Text → List Text
split_from sep cur [] = cur ∷ []
split_from sep cur (c ∷ s) =
    let closed = cur ∷ split_from sep [] s in
    let longer = split_from sep (cur ++ c ∷ []) s in if c == sep then closed else longer

unfoldable pub split : Text → ℕ → List Text
unfolding split_from
split s sep = split_from sep [] s

abbrev pub is_hex_digit : ℕ → Bool
is_hex_digit c = leb b'0' c && leb c b'9' || leb b'a' c && leb c b'f' || leb b'A' c && leb c b'F'

-- `hex.DecodeString` accepts an even number of hexadecimal digits of either case.
unfoldable pub is_hex : Text → Bool
is_hex value = length value % 2 == 0 && all is_hex_digit value

-- `none` is `"", "", false`.
unfoldable pub parse_parts : List Text → Option (Text × Text)
parse_parts (namespace ∷ prefix ∷ secret ∷ []) =
    if not (text_eq namespace token_namespace)
    then none
    else if not (length prefix == prefix_hex_len) || not (length secret == secret_hex_len)
    then none
    else if not (is_hex prefix) || not (is_hex secret)
    then none
    else some (prefix, secret)
parse_parts _ = none

unfoldable pub parse_token : Text → Option (Text × Text)
unfolding parse_parts split trim_space text_eq is_hex
parse_token raw = parse_parts (split (trim_space raw) b'_')

-- A row of entity_token, as Verify scans it. Times are nanoseconds.
pub record TokenRow : Type 0 where
  pub id : Text
  pub entity_id : Text
  pub realm_id : Option Text
  pub name : Text
  pub token_hash : Text
  pub scopes_raw : Text
  pub is_active : Bool
  pub revoked_at : Option ℕ
  pub expires_at : Option ℕ
  pub rate_limit_int : Option ℤ
  pub rate_limit_type : Option Text

pub data VerifyError : Type 0 where
  invalid_token backend_unavailable unreadable_scopes : VerifyError

pub data Verdict : Type 0 where
  accepted : Token → Verdict
  refused : VerifyError → Verdict

-- `!expiresAt.After(now)`
abbrev pub has_expired : Option ℕ → ℕ → Bool
has_expired none now = false
has_expired (some at) now = not (ltb now at)

-- The scopes column: no bytes are no scopes, and anything else is JSON.
unfoldable pub read_scopes : (Text → Option (List Text)) → Text → Option (List Text)
read_scopes decode_scopes [] = some []
read_scopes decode_scopes (c ∷ raw) = decode_scopes (c ∷ raw)

abbrev pub token_of : TokenRow → Text → List Text → Token
token_of r prefix scopes = record {
  id = r.id;
  entity_id = r.entity_id;
  realm_id = r.realm_id;
  name = r.name;
  scopes = scopes;
  prefix = prefix;
  rate_limit_int = r.rate_limit_int;
  rate_limit_type = r.rate_limit_type;
}

-- What Verify does with the scanned row: `hash` is the hex of SHA-256, `decode_scopes` the JSON
-- decoder.
unfoldable pub verify_row :
    (Text → Text) → (Text → Option (List Text)) → ℕ → Text → Text → TokenRow → Verdict
verify_row hash decode_scopes now raw prefix r =
    if not (text_eq r.token_hash (hash raw))
    then refused invalid_token
    else if not r.is_active || is_some r.revoked_at
    then refused invalid_token
    else if has_expired r.expires_at now
    then refused invalid_token
    else elim (read_scopes decode_scopes r.scopes_raw) [
      | none ↦ refused unreadable_scopes
      | some scopes ↦ accepted (token_of r prefix scopes)
    ]

-- `query` answers the SELECT for a prefix.
unfoldable pub verify :
    (Text → Text) → (Text → Option (List Text)) → (Text → Fetched TokenRow) → ℕ → Text → Verdict
unfolding verify_row
verify hash decode_scopes query now raw = elim (parse_token raw) [
  | none ↦ refused invalid_token
  | some (prefix, secret) ↦ elim (query prefix) [
    | missing ↦ refused invalid_token
    | broken ↦ refused backend_unavailable
    | found r ↦ verify_row hash decode_scopes now raw prefix r
  ]
]
