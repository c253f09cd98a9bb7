-- ===== src/Platform/Mentionable.antt =====
-- internal/platform/mentionable.go: ResolveMentions, mentionCandidates and blockedEntityIDs. The two
-- queries and strings.ToLower are parameters; the keys of a map `seen` are a list.
pub mod Reachable
use chatterloop_developer_se.Common.{
  ℕ, Bool, true, false, ◌&&◌, ◌||◌, not, Option, none, some, List, [], ◌∷◌, ◌++◌, Text, text_eq,
  contains, without, trim_right, leb, ◌==◌, if◌then◌else◌, is_empty, length, Fetched, found,
  missing, broken, Rows, exhausted, cut_short, row, unreadable,
}
use chatterloop_developer_se.Platform.Mentions.{extract_mentions}

abbrev pub max_mentions_per_comment : ℕ
max_mentions_per_comment = 20

pub record MentionedEntity : Type 0 where
  pub entity_id : Text
  pub handle : Text

abbrev pub ids_of : List MentionedEntity → List Text
ids_of [] = []
ids_of (m ∷ ms) = m.entity_id ∷ ids_of ms

-- One round of the inner loop; the keys of `seen` are the candidates.
unfoldable pub add_candidate : List Text → Text → List Text
add_candidate candidates candidate =
    if is_empty candidate || contains candidate candidates
    then candidates
    else candidates ++ candidate ∷ []

abbrev add_forms : List Text → Text → List Text
add_forms candidates handle =
    add_candidate (add_candidate candidates handle) (trim_right handle b'.')

-- The outer loop of mentionCandidates.
unfoldable pub add_handles : (Text → Text) → List Text → List Text → List Text
unfolding add_candidate
add_handles lower candidates [] = candidates
add_handles lower candidates (raw ∷ handles) =
    let next = add_forms candidates (lower raw) in
    let rest = add_handles lower next handles in
    if leb max_mentions_per_comment (length next) then next else rest

unfoldable pub mention_candidates : (Text → Text) → Text → List Text
mention_candidates lower text = add_handles lower [] (extract_mentions text)

abbrev pub with_first :
    MentionedEntity → Fetched (List MentionedEntity) → Fetched (List MentionedEntity)
with_first m (found ms) = found (m ∷ ms)
with_first m missing = broken
with_first m broken = broken

abbrev pub passed_over : Text → List Text → Text → Bool
passed_over author seen entity_id =
    is_empty entity_id || text_eq entity_id author || contains entity_id seen

-- The loop of ResolveMentions over its rows.
unfoldable pub read_mentions :
    Text → List Text → Rows (Text × Text) → Fetched (List MentionedEntity)
read_mentions author seen exhausted = found []
read_mentions author seen cut_short = broken
read_mentions author seen (unreadable rows) = broken
read_mentions author seen (row (entity_id, handle) rows) =
    let skip = passed_over author seen entity_id in
    let rest = read_mentions author (if skip then seen else entity_id ∷ seen) rows in
    if skip then rest else with_first (record { entity_id = entity_id; handle = handle }) rest

-- The keys that the loop of blockedEntityIDs sets.
unfoldable pub read_blocks : Rows (Text × Text) → Fetched (List Text)
read_blocks exhausted = found []
read_blocks cut_short = broken
read_blocks (unreadable rows) = broken
read_blocks (row (blocker, target) rows) = elim (read_blocks rows) [
  | found ids ↦ found (blocker ∷ target ∷ ids)
  | missing ↦ broken
  | broken ↦ broken
]

unfoldable pub blocked_entity_ids :
    (Text → Fetched (Rows (Text × Text))) → Text → Fetched (List Text)
unfolding read_blocks without
blocked_entity_ids query entity_id = elim (query entity_id) [
  | found rows ↦ elim (read_blocks rows) [
    | found ids ↦ found (without entity_id ids)
    | missing ↦ broken
    | broken ↦ broken
  ]
  | missing ↦ broken
  | broken ↦ broken
]

-- The last loop, with `kept`.
unfoldable pub keep_unblocked :
    List Text → List MentionedEntity → List MentionedEntity → List MentionedEntity
keep_unblocked blocked kept [] = kept
keep_unblocked blocked kept (m ∷ ms) =
    let skip = contains m.entity_id blocked in
    let next = kept ++ m ∷ [] in
    let rest = keep_unblocked blocked (if skip then kept else next) ms in
    if not skip && length next == max_mentions_per_comment then next else rest

abbrev pub unblocked_of :
    Fetched (List Text) → List MentionedEntity → Fetched (List MentionedEntity)
unblocked_of (found blocked) ms = found (keep_unblocked blocked [] ms)
unblocked_of missing ms = broken
unblocked_of broken ms = broken

-- What follows once the entities that the handles name are read.
abbrev pub reachable_of :
    Fetched (List Text) → Fetched (List MentionedEntity) → Fetched (List MentionedEntity)
reachable_of blocked (found []) = found []
reachable_of blocked (found (m ∷ ms)) = unblocked_of blocked (m ∷ ms)
reachable_of blocked missing = broken
reachable_of blocked broken = broken

abbrev pub rows_for :
    (List Text → Fetched (Rows (Text × Text))) → Text → List Text → Fetched (List MentionedEntity)
rows_for entities author [] = found []
rows_for entities author (c ∷ candidates) = elim (entities (c ∷ candidates)) [
  | found rows ↦ read_mentions author [] rows
  | missing ↦ broken
  | broken ↦ broken
]

-- `entities` is the union over the three namespaces, `blocks` the query of blockedEntityIDs.
unfoldable pub resolve_mentions :
    (Text → Text)
    → (List Text → Fetched (Rows (Text × Text)))
    → (Text → Fetched (Rows (Text × Text)))
    → Text
    → Text
    → Fetched (List MentionedEntity)
unfolding mention_candidates read_mentions
resolve_mentions lower entities blocks text author =
    reachable_of (blocked_entity_ids blocks author)
      (rows_for entities author (mention_candidates lower text))
