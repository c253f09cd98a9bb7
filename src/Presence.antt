-- ===== src/Presence.antt =====
-- internal/presence: Recorder (presence.go), Scope and HasLiveSession (scope.go), SignFrame (frame.go).
-- The `sessions` collection and the announcements are the state. Disconnected is two steps, before and
-- after its grace period, so that other calls can come between them; the announcement that Connected
-- starts on its own goroutine is logged with the connection.
pub mod Keeping
pub mod Sessions
pub mod Announcing
pub mod Audience
mod Tests
use chatterloop_developer_se.Common.{
  ℕ, ◌+◌, ◌/◌, Bool, true, false, ◌&&◌, ◌||◌, not, Option, none, some, List, [], ◌∷◌, ◌++◌, Text,
  text_eq, contains, without, if◌then◌else◌, is_empty, Fetched, found, missing, broken, Rows,
  exhausted, cut_short, row, unreadable, codes, map,
}
use chatterloop_developer_se.Platform.Identity.{dedupe}

-- A row of `sessions`, without the fields that are null in every row of a bot. Times are seconds.
pub record Session : Type 0 where
  pub entity_id : Text
  pub device_token : Text
  pub session_id : Text
  pub device_type : Text
  pub status : Bool
  pub last_seen : ℕ
  pub user_agent : Text

unfoldable pub user_agent_of : Text → Text
user_agent_of [] = codes "developer_service client"
user_agent_of (c ∷ name) = codes "developer_service client (" ++ ((c ∷ name) ++ codes ")")

-- The filter of a credential's row.
abbrev pub is_row_of : Text → Text → Session → Bool
is_row_of entity_id prefix s = text_eq s.entity_id entity_id && text_eq s.device_token prefix

-- The upsert of sessionUpsert on the collection: the first row that the filter meets takes the `$set`
-- fields, and where there is none a row with all the fields is inserted.
unfoldable pub session_upsert : Text → Text → Text → ℕ → List Session → List Session
unfolding user_agent_of
session_upsert entity_id prefix name now [] =
    record {
      entity_id = entity_id;
      device_token = prefix;
      session_id = codes "SESSION_BOT_" ++ prefix;
      device_type = codes "bot";
      status = true;
      last_seen = now;
      user_agent = user_agent_of name;
    }
    ∷ []
session_upsert entity_id prefix name now (s ∷ rows) =
    let rest = session_upsert entity_id prefix name now rows in
    if is_row_of entity_id prefix s
    then record s { status = true; last_seen = now; user_agent = user_agent_of name } ∷ rows
    else s ∷ rest

-- The update of Disconnected.
unfoldable pub session_close : Text → Text → ℕ → List Session → List Session
session_close entity_id prefix now [] = []
session_close entity_id prefix now (s ∷ rows) =
    let rest = session_close entity_id prefix now rows in
    if is_row_of entity_id prefix s
    then record s { status = false; last_seen = now } ∷ rows
    else s ∷ rest

-- HasLiveSession on the collection.
unfoldable pub has_live_session : Text → List Session → Bool
has_live_session entity_id [] = false
has_live_session entity_id (s ∷ rows) =
    (text_eq s.entity_id entity_id && s.status) || has_live_session entity_id rows

-- A change that is announced: the entity, whether it is online, and when. The latest one comes first.
pub record Announcement : Type 0 where
  pub entity_id : Text
  pub online : Bool
  pub at : ℕ

pub record World : Type 0 where
  pub sessions : List Session
  pub announced : List Announcement

abbrev announcing : Text → Bool → ℕ → World → World
announcing entity_id online at w = record w {
  announced = record { entity_id = entity_id; online = online; at = at } ∷ w.announced;
}

-- Connected; `written` is whether the upsert succeeds.
unfoldable pub connected : Bool → ℕ → Text → Text → Text → World → World
connected written now entity_id prefix name w =
    if is_empty entity_id || is_empty prefix
    then w
    else if written
    then announcing entity_id true now
        (record w { sessions = session_upsert entity_id prefix name now w.sessions })
    else w

-- Disconnected up to the grace period, with whether it goes on after it.
unfoldable pub disconnected : Bool → ℕ → Text → Text → World → Bool × World
disconnected written now entity_id prefix w =
    if is_empty entity_id || is_empty prefix
    then (false, w)
    else if written
    then (true, record w { sessions = session_close entity_id prefix now w.sessions })
    else (false, w)

-- Disconnected after the grace period; `readable` is whether HasLiveSession can count.
unfoldable pub settled : Bool → ℕ → Text → World → World
settled readable now entity_id w =
    if readable && has_live_session entity_id w.sessions
    then w
    else announcing entity_id false now w

-- One call, or one half of one, in the order in which they reach the collection. A `settles` follows
-- a `closes` whose write succeeded.
pub data Event : Type 0 where
  opens : Bool → ℕ → Text → Text → Text → Event
  closes : Bool → ℕ → Text → Text → Event
  settles : Bool → ℕ → Text → Event

unfoldable pub step : Event → World → World
unfolding connected disconnected settled
step (opens written now entity_id prefix name) w = connected written now entity_id prefix name w
step (closes written now entity_id prefix) w = (disconnected written now entity_id prefix w).1
step (settles readable now entity_id) w = settled readable now entity_id w

-- The latest event comes first.
unfoldable pub run : List Event → World → World
run [] w = w
run (e ∷ events) w = step e (run events w)

-- The loop over the contacts: the counterparts read so far, and whether a row or the stream failed.
unfoldable pub read_contacts : Rows (Option Text) → List Text × Bool
read_contacts exhausted = ([], false)
read_contacts cut_short = ([], true)
read_contacts (unreadable _) = ([], true)
read_contacts (row counterpart rows) =
    let (ids, failed) = read_contacts rows in
    (elim counterpart [ none ↦ ids | some id ↦ id ∷ ids ], failed)

abbrev pub contacts_of : Fetched (Rows (Option Text)) → List Text × Bool
contacts_of (found rows) = read_contacts rows
contacts_of missing = ([], true)
contacts_of broken = ([], true)

abbrev pub participants_of : List (List Text) → List Text
participants_of [] = []
participants_of (ids ∷ docs) = ids ++ participants_of docs

-- `All` decodes what it can: the documents, and whether it failed.
abbrev pub conversations_of : Fetched (List (List Text) × Bool) → List Text × Bool
conversations_of (found (docs, failed)) = (participants_of docs, failed)
conversations_of missing = ([], true)
conversations_of broken = ([], true)

-- Scope, with whether it failed in part: the keys of `seen`, which are those of both sources that are
-- not blank, each once, but the entity's own. The code's order is that of a map.
unfoldable pub scope :
    Fetched (Rows (Option Text)) → Fetched (List (List Text) × Bool) → Text → List Text × Bool
unfolding read_contacts
scope contacts conversations entity_id =
    let (near, failed) = contacts_of contacts in
    let (talking, failed') = conversations_of conversations in
    (without entity_id (dedupe (near ++ talking)), failed || failed')

-- What SignFrame signs. `sign` is the JWT library's HS256 under the secret.
pub record Claims : Type 0 where
  pub user : Text
  pub session_status : Bool
  pub issued_at : ℕ
  pub expires_at : ℕ

-- Seven days.
abbrev pub token_lifetime : ℕ
token_lifetime = 604800

unfoldable pub sign_frame : (Text → Claims → Option Text) → Text → Announcement → Option Text
sign_frame sign [] a = none
sign_frame sign (c ∷ secret) a = sign (c ∷ secret) (record {
  user = a.entity_id;
  session_status = a.online;
  issued_at = a.at;
  expires_at = a.at + token_lifetime;
})

abbrev pub frames_to : List Text → Text → List (Text × Text)
frames_to [] body = []
frames_to (id ∷ ids) body = (codes "events_" ++ id, body) ∷ frames_to ids body

-- announce: the channels and the signed frame of each, in the order of the scope.
unfoldable pub announce :
    (Text → Claims → Option Text) → Text → List Text × Bool → Announcement → List (Text × Text)
unfolding sign_frame
announce sign secret ([], failed) a = []
announce sign secret (id ∷ ids, failed) a = elim (sign_frame sign secret a) [
  | none ↦ []
  | some body ↦ frames_to (id ∷ ids) body
]
