-- ===== src/Platform/Entities.antt =====
-- internal/platform/entities.go: ProfileRedirect, SearchEntities and kindFilter. The search query and
-- strings.ToLower are parameters.
pub mod Searching
use chatterloop_developer_se.Common.{
  ℕ, Bool, true, false, ◌&&◌, ◌||◌, not, Option, none, some, List, [], ◌∷◌, ◌++◌, Text, text_eq,
  contains, trim_right, trim_space, ◌==◌, ltb, if◌then◌else◌, is_empty, length, codes, Fetched,
  found, missing, broken, Rows, exhausted, cut_short, row, unreadable, ℤ, pos, negsuc, drop,
}
use chatterloop_developer_se.Platform.Mentionable.{blocked_entity_ids}

-- A row of the query; `profile_redirect` is only set by the endpoint.
pub record FoundEntity : Type 0 where
  pub entity_id : Text
  pub kind : Text
  pub handle : Text
  pub name : Text
  pub profile : Text
  pub profile_redirect : Text

unfoldable pub profile_redirect : Text → Text → Text
profile_redirect base handle =
    let name = trim_space handle in
    if is_empty name || is_empty base then [] else trim_right base b'/' ++ (b'/' ∷ name)

abbrev pub kinds_allowed : List Text
kinds_allowed = codes "user" ∷ codes "realm" ∷ codes "bot" ∷ []

-- The loop of kindFilter; the keys of `seen` are `want`.
unfoldable pub filter_kinds : (Text → Text) → List Text → List Text → List Text
filter_kinds lower want [] = want
filter_kinds lower want (k ∷ kinds) =
    let kind = lower (trim_space k) in
    filter_kinds lower
      (if contains kind kinds_allowed && not (contains kind want) then want ++ kind ∷ [] else want)
      kinds

-- `[]` is nil: no filter.
unfoldable pub kind_filter : (Text → Text) → List Text → List Text
unfolding filter_kinds contains
kind_filter lower kinds = filter_kinds lower [] kinds

unfoldable pub trim_at : Text → Text
trim_at [] = []
trim_at (c ∷ s) = if c == b'@' then s else c ∷ s

abbrev pub term_of : (Text → Text) → Text → Text
term_of lower query = lower (trim_space (trim_at (trim_space query)))

abbrev pub at_least_1 : ℤ → ℕ
at_least_1 (negsuc n) = 1
at_least_1 (pos n) = if ltb n 1 then 1 else n

unfoldable pub read_entities : Rows FoundEntity → Fetched (List FoundEntity)
read_entities exhausted = found []
read_entities cut_short = broken
read_entities (unreadable rows) = broken
read_entities (row e rows) = elim (read_entities rows) [
  | found es ↦ found (e ∷ es)
  | missing ↦ broken
  | broken ↦ broken
]

unfoldable pub drop_blocked : List Text → List FoundEntity → List FoundEntity
drop_blocked blocked [] = []
drop_blocked blocked (e ∷ es) =
    let rest = drop_blocked blocked es in if contains e.entity_id blocked then rest else e ∷ rest

abbrev pub unblocked_of : Fetched (List Text) → List FoundEntity → Fetched (List FoundEntity)
unblocked_of (found blocked) es = found (drop_blocked blocked es)
unblocked_of missing es = broken
unblocked_of broken es = broken

abbrev pub visible_of :
    Fetched (List Text) → Fetched (List FoundEntity) → Fetched (List FoundEntity)
visible_of blocked (found []) = found []
visible_of blocked (found (e ∷ es)) = unblocked_of blocked (e ∷ es)
visible_of blocked missing = broken
visible_of blocked broken = broken

abbrev pub rows_read : Fetched (Rows FoundEntity) → Fetched (List FoundEntity)
rows_read (found rows) = read_entities rows
rows_read missing = broken
rows_read broken = broken

-- `search` is the query, of its two patterns, the limit, the viewer and the kinds.
unfoldable pub search_entities :
    (Text → Text)
    → (Text → Text → ℕ → Text → List Text → Fetched (Rows FoundEntity))
    → (Text → Fetched (Rows (Text × Text)))
    → Text
    → List Text
    → ℤ
    → Text
    → Fetched (List FoundEntity)
unfolding kind_filter trim_at read_entities drop_blocked
search_entities lower search blocks query kinds limit viewer =
    let term = term_of lower query in
    if ltb (length term) 2
    then found []
    else visible_of (blocked_entity_ids blocks viewer) (
        rows_read (
          search (term ++ codes "%") (b'%' ∷ (term ++ codes "%")) (at_least_1 limit) viewer
            (kind_filter lower kinds)))
