-- ===== src/Platform/Membership.antt =====
-- internal/platform/membership.go: who may read and write a conversation, who receives its messages,
-- and the name of a realm. What a SQL or Mongo query answers is a field of `Queries`.
pub mod Access
pub mod Receiving
pub mod Naming
use chatterloop_developer_se.Common.{
  ℕ, zero, suc, ◌==◌, Bool, true, false, ◌&&◌, not, Option, none, some, List, [], ◌∷◌, ◌++◌, Text,
  text_eq, if◌then◌else◌, ◌≡◌, refl, codes, is_empty, Fetched, found, missing, broken, Rows,
  exhausted, cut_short, row, unreadable,
}

-- The result of an access check: no error, ErrNoAccess, or any other error.
pub data Assertion : Type 0 where
  granted no_access failed : Assertion

-- What a conversation document holds of `conversationType` and `participant_ids`.
pub record Conversation : Type 0 where
  pub conversation_type : Text
  pub participants : List Text

-- The row of `community_realm` that the access check reads.
pub record Realm : Type 0 where
  pub entity : Option Text
  pub realm_type : Text
  pub is_private : Bool

pub record Receiver : Type 0 where
  pub entity_id : Text
  pub username : Text

-- The queries: whether a conversation id or an actor stands for a community; the document of a
-- conversation; whether one of some entities is a community; the realm of an id; a membership of an
-- entity in a realm; a connection of an entity under an id; how many conversation documents list an
-- entity; and the three sources of receivers.
pub record Queries : Type 0 where
  pub blocked : Text → Text → Fetched Bool
  pub conversation : Text → Fetched Conversation
  pub any_community : List Text → Fetched Bool
  pub realm : Text → Fetched Realm
  pub member : Text → Text → Fetched Text
  pub connection : Text → Text → Fetched ℕ
  pub conversations : Text → Text → Fetched ℕ
  pub by_connection : Text → Fetched (Rows Receiver)
  pub by_membership : Text → Fetched (Rows Receiver)
  pub by_ids : List Text → Fetched (Rows Receiver)

abbrev pub community : Text
community = codes "community"

abbrev pub refuse_if : Fetched Bool → Assertion
refuse_if (found blocked) = if blocked then no_access else granted
refuse_if missing = failed
refuse_if broken = failed

abbrev pub among : Queries → List Text → Assertion
among q [] = granted
among q (p ∷ ps) = refuse_if (q.any_community (p ∷ ps))

abbrev pub stored_capability : Queries → Fetched Conversation → Assertion
stored_capability q missing = granted
stored_capability q broken = failed
stored_capability q (found c) =
    if text_eq c.conversation_type community then no_access else among q c.participants

unfoldable pub assert_messaging_capability : Queries → Text → Text → Assertion
assert_messaging_capability q conversation_id actor =
    elim (refuse_if (q.blocked conversation_id actor)) [
      | granted ↦ stored_capability q (q.conversation conversation_id)
      | no_access ↦ no_access
      | failed ↦ failed
    ]

abbrev pub is_entity : Option Text → Text → Bool
is_entity none entity_id = false
is_entity (some e) entity_id = text_eq e entity_id

abbrev pub membership_row : Fetched Text → Assertion
membership_row (found _) = granted
membership_row missing = no_access
membership_row broken = failed

unfoldable pub assert_realm_member : Queries → Text → Text → Realm → Assertion
assert_realm_member q realm_id entity_id r =
    if text_eq r.realm_type community
    then no_access
    else if text_eq r.realm_type (codes "conference") && not r.is_private
    then granted
    else if is_entity r.entity entity_id
    then granted
    else membership_row (q.member entity_id realm_id)

abbrev listed : Fetched ℕ → Assertion
listed (found count) = if count == 0 then no_access else granted
listed missing = failed
listed broken = failed

unfoldable pub assert_direct_member : Queries → Text → Text → Assertion
assert_direct_member q conversation_id entity_id = elim (q.connection conversation_id entity_id) [
  | found _ ↦ granted
  | missing ↦ listed (q.conversations conversation_id entity_id)
  | broken ↦ failed
]

abbrev pub membership : Queries → Text → Text → Fetched Realm → Assertion
membership q conversation_id entity_id (found r) = assert_realm_member q conversation_id entity_id r
membership q conversation_id entity_id missing = assert_direct_member q conversation_id entity_id
membership q conversation_id entity_id broken = failed

unfoldable pub assert_member : Queries → Text → Text → Assertion
assert_member q conversation_id entity_id =
    elim (assert_messaging_capability q conversation_id entity_id) [
      | granted ↦ membership q conversation_id entity_id (q.realm conversation_id)
      | no_access ↦ no_access
      | failed ↦ failed
    ]

-- The row loop of queryReceivers.
unfoldable pub read_receivers : Rows Receiver → Fetched (List Receiver)
read_receivers exhausted = found []
read_receivers cut_short = broken
read_receivers (unreadable rows) = broken
read_receivers (row r rows) = elim (read_receivers rows) [
  | found rs ↦ found (r ∷ rs)
  | missing ↦ broken
  | broken ↦ broken
]

unfoldable pub query_receivers : Fetched (Rows Receiver) → Fetched (List Receiver)
unfolding read_receivers
query_receivers (found rows) = read_receivers rows
query_receivers missing = broken
query_receivers broken = broken

abbrev receivers_by_ids : Queries → List Text → Fetched (List Receiver)
receivers_by_ids q [] = found []
receivers_by_ids q (p ∷ ps) = query_receivers (q.by_ids (p ∷ ps))

-- The third source, read off the conversation document.
abbrev pub by_participants : Queries → Fetched Conversation → Fetched (List Receiver)
by_participants q (found c) = receivers_by_ids q c.participants
by_participants q missing = found []
by_participants q broken = broken

-- A source that answers someone ends the search.
abbrev pub or_next : Fetched (List Receiver) → Fetched (List Receiver) → Fetched (List Receiver)
or_next (found []) next = next
or_next (found (r ∷ rs)) next = found (r ∷ rs)
or_next missing next = broken
or_next broken next = broken

-- The error of Receivers is no_access or failed.
pub data Answer : Type 0 where
  answered : Fetched (List Receiver) → Answer
  refused : Answer

unfoldable pub receivers : Queries → Text → Answer
receivers q conversation_id = elim (assert_messaging_capability q conversation_id []) [
  | granted ↦ answered (
      or_next (query_receivers (q.by_connection conversation_id)) (
        or_next (query_receivers (q.by_membership conversation_id))
          (by_participants q (q.conversation conversation_id))))
  | no_access ↦ refused
  | failed ↦ answered broken
]

-- The name and the parent of a realm, `missing` and `broken` being the errors of the query.
abbrev pub RealmNames : Type 0
RealmNames = Text → Fetched (Text × Option Text)

abbrev pub qualify : Text → Text → Text
qualify [] name = name
qualify (c ∷ parent) name = (c ∷ parent) ++ codes " | " ++ name

-- RealmName with as many nested calls as the fuel allows; `none` is a call that needs more.
unfoldable pub realm_name : ℕ → RealmNames → Text → Option Text
realm_name zero names realm_id = none
realm_name (suc fuel) names realm_id = elim (names realm_id) [
  | missing ↦ some []
  | broken ↦ some []
  | found (name, none) ↦ some name
  | found (name, some []) ↦ some name
  | found (name, some (c ∷ parent)) ↦ elim (realm_name fuel names (c ∷ parent)) [
    | none ↦ none
    | some parent_name ↦ some (qualify parent_name name)
  ]
]
