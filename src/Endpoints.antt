-- ===== src/Endpoints.antt =====
-- internal/endpoints/endpoints.go: what the handlers answer, and the reading of query parameters. A
-- response is its status with, where it is no refusal, what its body is made of.
pub mod Reads
pub mod Rooms
pub mod Writes
pub mod Limits
pub mod Refusing
pub mod Telling
mod Tests
use chatterloop_developer_se.Common.{
  ℕ, zero, suc, Bool, true, false, not, Option, none, some, List, [], ◌∷◌, ◌++◌, Text,
  if◌then◌else◌, is_empty, ltb, ◌==◌, ◌&&◌, length, trim_space, ℤ, pos, negsuc, lookup, or_else,
  Fetched, found, missing, broken, Rows, codes,
}
use chatterloop_developer_se.Auth.Token.{Token}
use chatterloop_developer_se.Platform.Messages.{Message}
use chatterloop_developer_se.Platform.Identity.{handles_for}

pub data Reply {ℓ} (A : Type ℓ) : Type ℓ where
  refused : (status : ℕ) → Reply A
  answered : (status : ℕ) → A → Reply A

-- FromContext: every handler behind the middleware starts with it.
abbrev pub with_token {ℓ} : {A : Type ℓ} → Option Token → (Token → Reply A) → Reply A
with_token none handle = refused 401
with_token (some token) handle = handle token

-- `parse` is strconv.ParseInt in base 10, `none` where it fails.
unfoldable pub read_limit : (Text → Option ℤ) → Text → ℕ → ℕ → ℕ
read_limit parse [] fallback ceiling = fallback
read_limit parse (c ∷ raw) fallback ceiling = elim (parse (c ∷ raw)) [
  | none ↦ fallback
  | some (negsuc n) ↦ 1
  | some (pos n) ↦ if ltb n 1 then 1 else if ltb ceiling n then ceiling else n
]

abbrev push_first : ℕ → List Text → List Text
push_first c [] = (c ∷ []) ∷ []
push_first c (part ∷ parts) = (c ∷ part) ∷ parts

-- `strings.Split` at one byte.
unfoldable pub split : ℕ → Text → List Text
split sep [] = [] ∷ []
split sep (c ∷ s) = let parts = split sep s in if c == sep then [] ∷ parts else push_first c parts

abbrev pub all_parts : List Text → List Text
all_parts [] = []
all_parts (raw ∷ raws) = split b',' raw ++ all_parts raws

-- The two loops of readIDs, over all parts of all values; both end with its `return`.
unfoldable pub take_ids : ℕ → List Text → List Text → List Text
take_ids most ids [] = ids
take_ids most ids (p ∷ parts) =
    let part = trim_space p in
    let next = ids ++ part ∷ [] in
    let rest = take_ids most (if is_empty part then ids else next) parts in
    if not (is_empty part) && length next == most then next else rest

-- `values` are those of the parameter's name.
unfoldable pub read_ids : List Text → ℕ → List Text
unfolding take_ids split
read_ids values most = take_ids most [] (all_parts values)

abbrev pub moderation_id_cap : ℕ
moderation_id_cap = 50

pub record Named : Type 0 where
  pub message : Message
  pub sender_handle : Text
  pub replying_to_sender_handle : Text

abbrev entity_ids : List Message → List Text
entity_ids [] = []
entity_ids (m ∷ ms) = m.sender_entity_id ∷ m.replying_to_sender ∷ entity_ids ms

abbrev pub named_with : List (Text × Text) → List Message → List Named
named_with handles [] = []
named_with handles (m ∷ ms) =
    record {
      message = m;
      sender_handle = or_else [] (lookup m.sender_entity_id handles);
      replying_to_sender_handle = or_else [] (lookup m.replying_to_sender handles);
    }
    ∷ named_with handles ms

-- resolveHandles: a failed read leaves the handles blank.
unfoldable pub resolve_handles :
    (List Text → Fetched (Rows (Text × Text))) → List Message → List Named
resolve_handles query messages = elim (handles_for query (entity_ids messages)) [
  | found handles ↦ named_with handles messages
  | missing ↦ named_with [] messages
  | broken ↦ named_with [] messages
]

abbrev pub ready : (redis postgres : Bool) → Reply Bool
ready redis postgres =
    if not redis then refused 503 else if not postgres then refused 503 else answered 200 true

pub record WhoAmI : Type 0 where
  pub token : Token
  pub handle : Text

abbrev own_handle : Text → Fetched (List (Text × Text)) → Text
own_handle entity_id (found handles) = or_else [] (lookup entity_id handles)
own_handle entity_id missing = []
own_handle entity_id broken = []

unfoldable pub who_am_i : (List Text → Fetched (Rows (Text × Text))) → Option Token → Reply WhoAmI
who_am_i query context = with_token context λ token. answered 200 (record {
  token = token;
  handle = own_handle token.entity_id (handles_for query (token.entity_id ∷ []));
})
