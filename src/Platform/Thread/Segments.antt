-- ===== src/Platform/Thread/Segments.antt =====
-- internal/platform/thread.go: how ancestorSegment reads the documents of its aggregation.
use chatterloop_developer_se.Common.{
  Option, none, some, List, [], ◌∷◌, Text, is_empty, if◌then◌else◌, insert, codes, Fetched, found,
  missing, broken,
}
use chatterloop_developer_se.Platform.Bson.{
  Value, object, array, Items, nil, item, Fields, get, as_text,
}

abbrev values_of : Items → List Value
values_of nil = []
values_of (item v items) = v ∷ values_of items

unfoldable pub as_slice : Value → List Value
as_slice (array items) = values_of items
as_slice _ = []

unfoldable pub as_document : Value → Option Fields
as_document (object m) = some m
as_document _ = none

abbrev with_document : Fields → List (Text × Fields) → List (Text × Fields)
with_document document documents =
    let id = as_text (get (codes "messageID") document) in
    if is_empty id then documents else insert id document documents

abbrev with_entries : List Value → List (Text × Fields) → List (Text × Fields)
with_entries [] documents = documents
with_entries (v ∷ vs) documents =
    with_entries vs (elim (as_document v) [ none ↦ documents | some d ↦ with_document d documents ])

-- The loop over the roots: the documents by their id, the root over what its lookups found.
unfoldable pub read_roots : List Fields → List (Text × Fields) → List (Text × Fields)
unfolding get as_slice as_document
read_roots [] documents = documents
read_roots (root ∷ raws) documents =
    let by_object = with_entries (as_slice (get (codes "viaObject") root)) documents in
    let by_string = with_entries (as_slice (get (codes "viaString") root)) by_object in
    read_roots raws (with_document root by_string)

-- `aggregated` is what the pipeline answers.
unfoldable pub ancestor_segment : Fetched (List Fields) → Fetched (List (Text × Fields))
unfolding read_roots
ancestor_segment (found raws) = found (read_roots raws [])
ancestor_segment missing = broken
ancestor_segment broken = broken
