-- ===== src/Platform/Identity.antt =====
-- internal/platform/identity.go: dedupe and HandlesFor.
pub mod Dedupe
use chatterloop_developer_se.Common.{
  ◌||◌, List, [], ◌∷◌, ◌++◌, Text, text_eq, contains, if◌then◌else◌, Rows, exhausted, cut_short,
  row, unreadable, Fetched, found, broken, lookup, insert, is_some,
}

-- The loop of dedupe, with the result so far.
unfoldable pub dedupe_into : List Text → List Text → List Text
dedupe_into out [] = out
dedupe_into out (value ∷ values) =
    dedupe_into (if text_eq value [] || contains value out then out else out ++ value ∷ []) values

unfoldable pub dedupe : List Text → List Text
unfolding dedupe_into contains text_eq
dedupe values = dedupe_into [] values

-- The loop of HandlesFor over its rows: the first handle of an entity wins.
unfoldable pub read_handles : List (Text × Text) → Rows (Text × Text) → Fetched (List (Text × Text))
read_handles handles exhausted = found handles
read_handles handles cut_short = broken
read_handles handles (unreadable rows) = broken
read_handles handles (row (entity_id, handle) rows) =
    read_handles
      (if is_some (lookup entity_id handles) then handles else insert entity_id handle handles) rows

-- `query` answers the union over the three tables for a list of entity ids; `broken` is its error.
unfoldable pub handles_for :
    (List Text → Fetched (Rows (Text × Text))) → List Text → Fetched (List (Text × Text))
unfolding dedupe read_handles
handles_for query entity_ids = elim (dedupe entity_ids) [
  | [] ↦ found []
  | first ∷ others ↦ elim (query (first ∷ others)) [
    | found rows ↦ read_handles [] rows
    | _ ↦ broken
  ]
]
