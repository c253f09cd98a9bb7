-- ===== src/Auth/Authorize.antt =====
-- internal/auth/token.go: Authorize and hasExplicitGrant. The SELECT of hasExplicitGrant is a filter
-- on the table; its rows reach the loop in any order, with `Scan` and `Err` failures.
pub mod Laws
use chatterloop_developer_se.Common.{
  ℕ, Bool, true, false, ◌&&◌, ◌||◌, not, Option, none, some, List, [], ◌∷◌, Text, text_eq, ltb,
  if◌then◌else◌, ◌≡◌, refl, codes, Fetched, found, missing, broken, Rows, exhausted, cut_short, row,
  unreadable, rows_of, is_some, keep, contains,
}
use chatterloop_developer_se.Auth.Token.{Token, has_scope}

abbrev pub events_subscribe : Text
events_subscribe = codes "events.subscribe"

abbrev pub messages_read : Text
messages_read = codes "messages.read"

abbrev pub notifications_read : Text
notifications_read = codes "notifications.read"

abbrev pub messages_send : Text
messages_send = codes "messages.send"

abbrev pub comments_create : Text
comments_create = codes "comments.create"

abbrev pub gated_permissions : List Text
gated_permissions =
    events_subscribe ∷ messages_read ∷ notifications_read ∷ messages_send ∷ comments_create ∷ []

-- A row of entity_permission joined with its catalog row.
pub record PermissionRow : Type 0 where
  pub entity_id : Text
  pub codename : Text
  pub is_active : Bool
  pub scope : Text
  pub realm_id : Option Text
  pub expires_at : Option ℕ
  pub effect : Text

abbrev pub is_unexpired : Option ℕ → ℕ → Bool
is_unexpired none now = true
is_unexpired (some at) now = ltb now at

-- The WHERE clause.
abbrev pub applies : Text → Text → ℕ → PermissionRow → Bool
applies entity_id permission now r =
    text_eq r.entity_id entity_id
    && text_eq r.codename permission
    && r.is_active
    && text_eq r.scope (codes "global")
    && not (is_some r.realm_id)
    && is_unexpired r.expires_at now

abbrev pub effects : List PermissionRow → List Text
effects [] = []
effects (r ∷ rs) = r.effect ∷ effects rs

abbrev pub select_effects : List PermissionRow → ℕ → Text → Text → List Text
select_effects table now entity_id permission =
    effects (keep (applies entity_id permission now) table)

-- The loop over the rows; `broken` is an error.
unfoldable pub read_effects : Bool → Rows Text → Fetched Bool
read_effects granted exhausted = found granted
read_effects granted cut_short = broken
read_effects granted (unreadable rows) = broken
read_effects granted (row effect rows) =
    let rest = read_effects (granted || text_eq effect (codes "grant")) rows in
    if text_eq effect (codes "deny") then found false else rest

unfoldable pub has_explicit_grant : (Text → Text → Fetched (Rows Text)) → Text → Text → Fetched Bool
unfolding read_effects
has_explicit_grant query entity_id permission = elim (query entity_id permission) [
  | found rows ↦ read_effects false rows
  | _ ↦ broken
]

pub data Decision : Type 0 where
  decided : Bool → Decision
  unknown_permission unavailable : Decision

abbrev pub of_fetched : Fetched Bool → Decision
of_fetched (found b) = decided b
of_fetched missing = unavailable
of_fetched broken = unavailable

-- `none` is a nil token.
unfoldable pub authorize : (Text → Text → Fetched (Rows Text)) → Option Token → Text → Decision
unfolding has_explicit_grant has_scope
authorize query none permission =
    if not (contains permission gated_permissions) then unknown_permission else decided false
authorize query (some token) permission =
    if not (contains permission gated_permissions)
    then unknown_permission
    else if not (has_scope token permission)
    then decided false
    else of_fetched (has_explicit_grant query token.entity_id permission)
