-- ===== src/Presence/Tests.antt =====
-- Witnesses of internal/presence: its theorems at concrete inputs.
use chatterloop_developer_se.Common.{
  true, false, ◌&&◌, ◌||◌, not, some, none, List, [], ◌∷◌, Text, codes, contains, text_eq, is_empty,
  Distinct, ◌≡◌, ◌↔◌, found, Option, rows_of, any, ◌<◌, sym, text_eq_iff, text_eq_refl, refl, arith,
}
use chatterloop_developer_se.Presence.{Event, opens, closes, settles, run, has_live_session, scope}
use chatterloop_developer_se.Presence.Keeping.{OneRowEach, has_row}
use chatterloop_developer_se.Presence.Sessions.{
  ever_opened, nobody, last_opened, has_live_session_iff,
}
use chatterloop_developer_se.Presence.Announcing.{settled_while_open, open_streams}
use chatterloop_developer_se.Presence.Audience.{names, scope-contains}

abbrev bot : Text
bot = codes "e1"

abbrev prefix : Text
prefix = codes "0123456789ab"

-- The latest call comes first: the client comes back within the grace period.
abbrev a_reconnect : List Event
a_reconnect =
    opens true 12 bot prefix (codes "rag")
    ∷ closes true 10 bot prefix
    ∷ opens true 1 bot prefix []
    ∷ []

has_live_session_iff_example :
    OneRowEach (run a_reconnect nobody).sessions
    × (has_row bot prefix (run a_reconnect nobody).sessions ≡ ever_opened bot prefix a_reconnect)
    × ((has_live_session bot (run a_reconnect nobody).sessions ≡ true)
        ↔ ((p : Text) × (last_opened bot p a_reconnect ≡ true)))
has_live_session_iff_example = has_live_session_iff a_reconnect bot prefix

abbrev one_closed : List Event
one_closed =
    closes true 10 bot prefix ∷ opens true 2 bot prefix [] ∷ opens true 1 bot prefix [] ∷ []

-- The bot has one credential, and no blank one.
one_credential :
    (p' : Text)
    → last_opened bot p' (opens true 2 bot prefix [] ∷ opens true 1 bot prefix [] ∷ []) ≡ true
    → p' ≡ prefix
one_credential p' on = sym ((text_eq_iff prefix p').0 (ground (arith, text_eq_refl bot)))

settled_while_open_example :
    (0 < open_streams bot prefix one_closed)
    × ((run (settles true 16 bot ∷ one_closed) nobody).announced
        ≡ record { entity_id = bot; online = false; at = 16 }
          ∷ (run (opens true 2 bot prefix [] ∷ opens true 1 bot prefix [] ∷ []) nobody).announced)
settled_while_open_example =
    settled_while_open (opens true 2 bot prefix [] ∷ opens true 1 bot prefix [] ∷ []) 10 16 true bot
      prefix refl refl one_credential two_open
  where
    two_open :
        1 < open_streams bot prefix (opens true 2 bot prefix [] ∷ opens true 1 bot prefix [] ∷ [])
    two_open = unfold text_eq in omega arith

abbrev contact_rows : List (Option Text)
contact_rows = some (codes "e2") ∷ none ∷ some [] ∷ []

abbrev single_chats : List (List Text)
single_chats = (bot ∷ codes "e3" ∷ []) ∷ []

scope-contains_example :
    (contains
        (codes "e3")
        (scope (found (rows_of contact_rows)) (found (single_chats, false)) bot).0
      ≡ ((any (names (codes "e3")) contact_rows
            || any (λ ids. contains (codes "e3") ids) single_chats)
          && (not (is_empty (codes "e3")) && not (text_eq (codes "e3") bot))))
    × Distinct (scope (found (rows_of contact_rows)) (found (single_chats, false)) bot).0
    × ((scope (found (rows_of contact_rows)) (found (single_chats, false)) bot).1 ≡ false)
scope-contains_example = scope-contains contact_rows single_chats false bot (codes "e3")
