-- ===== src/Auth/Authorize/Laws.antt =====
-- Authorization is an intersection: the scope on the token, and a live grant with no live deny.
use chatterloop_developer_se.Common.{
  ℕ, Bool, true, false, ◌&&◌, ◌||◌, not, some, List, [], ◌∷◌, Text, text_eq, text_eq_iff, ◌≡◌, refl,
  codes, found, broken, Rows, cut_short, row, unreadable, rows_of, contains, arith, ◌↔◌, Bool-cases,
  inl, inr, any, ◌⊎◌, ◌∙◌, none, if◌then◌else◌,
}
use chatterloop_developer_se.Auth.Token.{Token, has_scope}
use chatterloop_developer_se.Auth.Authorize.{
  gated_permissions, PermissionRow, applies, select_effects, read_effects, has_explicit_grant,
  decided, unknown_permission, authorize,
}

-- Over rows that all arrive: a deny wins wherever it stands, else a grant is needed.
read_effects-rows :
    (granted : Bool) (es : List Text)
    → read_effects granted (rows_of es)
      ≡ found (not (contains (codes "deny") es) && (granted || contains (codes "grant") es))
unfolding read_effects contains
read_effects-rows granted [] = ground arith
read_effects-rows granted (e ∷ es) = ground (
  arith,
  read_effects-rows (granted || text_eq e (codes "grant")) es,
  text_eq_iff e (codes "grant"),
  text_eq_iff e (codes "deny"),
)

-- Some row of the table applies and has this effect.
abbrev pub has_effect : List PermissionRow → ℕ → Text → Text → Text → Bool
has_effect table now entity_id permission effect =
    any (λ r. applies entity_id permission now r && text_eq r.effect effect) table

contains-select :
    (table : List PermissionRow) (now : ℕ) (entity_id permission effect : Text)
    → contains effect (select_effects table now entity_id permission)
      ≡ has_effect table now entity_id permission effect
unfolding contains
contains-select [] now entity_id permission effect = refl
contains-select (r ∷ table) now entity_id permission effect =
    elim (Bool-cases (applies entity_id permission now r)) [
      | inl yes' ↦ rw (yes', contains-select table now entity_id permission effect)
      | inr no' ↦ rw (no', contains-select table now entity_id permission effect)
    ]

has_explicit_grant_lem :
    (table : List PermissionRow) (now : ℕ) (entity_id permission : Text)
    → has_explicit_grant
        (λ e p. found (rows_of (select_effects table now e p)))
        entity_id
        permission
      ≡ found (
          not (has_effect table now entity_id permission (codes "deny"))
          && has_effect table now entity_id permission (codes "grant"))
unfolding has_explicit_grant
has_explicit_grant_lem table now entity_id permission =
    read_effects-rows false (select_effects table now entity_id permission)
    ∙ rw (
      contains-select table now entity_id permission (codes "deny"),
      contains-select table now entity_id permission (codes "grant"),
    )

-- Where the rows of the grants arrive, a token may exercise a permission exactly when this service gates
-- it, the token carries the scope, the owning entity has an unexpired global grant of it, and no unexpired
-- global deny. Of a gated permission every other token, and no token, is decided false; a permission
-- that is not gated is unknown.
pub authorize_iff :
    (table : List PermissionRow) (now : ℕ) (token : Token) (permission : Text)
    → ((authorize (λ e p. found (rows_of (select_effects table now e p))) (some token) permission
          ≡ decided true)
        ↔ ((contains permission gated_permissions ≡ true)
            × (has_scope token permission ≡ true)
            × (has_effect table now token.entity_id permission (codes "grant") ≡ true)
            × (has_effect table now token.entity_id permission (codes "deny") ≡ false)))
      × (authorize (λ e p. found (rows_of (select_effects table now e p))) (some token) permission
          ≡ (if contains permission gated_permissions
              then decided (
                  has_scope token permission
                  && has_effect table now token.entity_id permission (codes "grant")
                  && not (has_effect table now token.entity_id permission (codes "deny")))
              else unknown_permission))
      × (authorize (λ e p. found (rows_of (select_effects table now e p))) none permission
          ≡ (if contains permission gated_permissions then decided false else unknown_permission))
unfolding authorize
authorize_iff table now token permission = (
  ground (arith, has_explicit_grant_lem table now token.entity_id permission),
  ground (arith, has_explicit_grant_lem table now token.entity_id permission),
  ground arith,
)

-- Rows that arrive before the rest of the stream.
abbrev pub append_rows : List Text → Rows Text → Rows Text
append_rows [] rest = rest
append_rows (e ∷ es) rest = row e (append_rows es rest)

-- Where a row cannot be scanned or the stream breaks off, whatever rows came before: a deny among them
-- decides false, and otherwise there is no decision but an error. A failed read never grants.
pub read_effects-append_broken :
    (granted : Bool) (es : List Text) (rest : Rows Text)
    → (rest ≡ cut_short) ⊎ ((later : Rows Text) × (rest ≡ unreadable later))
    → read_effects granted (append_rows es rest)
      ≡ (if contains (codes "deny") es then found false else broken)
unfolding read_effects contains
read_effects-append_broken granted [] rest b = ground arith
read_effects-append_broken granted (e ∷ es) rest b = ground (
  arith,
  read_effects-append_broken (granted || text_eq e (codes "grant")) es rest b,
  text_eq_iff e (codes "deny"),
)
