-- ===== src/Presence/Announcing.antt =====
-- Which disconnects are announced.
use chatterloop_developer_se.Common.{
  ℕ, ◌+◌, ◌-◌, true, false, ◌&&◌, List, [], ◌∷◌, Text, text_eq, text_eq_refl, if◌then◌else◌, ◌≡◌,
  arith, Bool, false, is_empty, Bool-cases, inl, inr, ◌<◌,
}
use chatterloop_developer_se.Presence.{
  has_live_session, Event, opens, closes, settles, step, run, disconnected, settled,
}
use chatterloop_developer_se.Presence.Sessions.{nobody, last_opened, has_live_session_iff}

-- Between a close and the end of its grace period any calls may come; a client whose last call has
-- opened a stream again by then is not announced offline, where the sessions can be read.
pub settled_reconnected :
    (events : List Event) (now : ℕ) (e p : Text)
    → last_opened e p events ≡ true
    → run (settles true now e ∷ events) nobody ≡ run events nobody
unfolding run step settled
settled_reconnected events now e p on =
    let live = (has_live_session_iff events e p).2.1 (p, on) in ground arith

-- How many streams of a credential are open.
abbrev pub open_streams : Text → Text → List Event → ℕ
open_streams a b [] = 0
open_streams a b (opens written now e p name ∷ events) =
    (if text_eq e a && text_eq p b then 1 else 0) + open_streams a b events
open_streams a b (closes written now e p ∷ events) =
    open_streams a b events - (if text_eq e a && text_eq p b then 1 else 0)
open_streams a b (settles readable now e ∷ events) = open_streams a b events

dead-close :
    (events : List Event) (closed : ℕ) (e p : Text)
    → is_empty e ≡ false
    → is_empty p ≡ false
    → ((p' : Text) → last_opened e p' events ≡ true → p' ≡ p)
    → has_live_session e (run (closes true closed e p ∷ events) nobody).sessions ≡ false
dead-close events closed e p he hp others =
    let history = closes true closed e p ∷ events in
    elim (Bool-cases (has_live_session e (run history nobody).sessions)) [
      | inr dead ↦ dead
      | inl live ↦
          let (p', on) = (has_live_session_iff history e p).2.0 live in
          elim (Bool-cases (text_eq p p')) [
            | inl same ↦ absurd (ground (arith, text_eq_refl e))
            | inr other ↦
                ground (
                  arith,
                  text_eq_refl e,
                  others p' (ground (arith, text_eq_refl e)),
                  text_eq_refl p,
                )
          ]
    ]

announced_offline :
    (events : List Event) (closed later : ℕ) (readable : Bool) (e p : Text)
    → is_empty e ≡ false
    → is_empty p ≡ false
    → has_live_session e (run (closes true closed e p ∷ events) nobody).sessions ≡ false
    → (run (settles readable later e ∷ (closes true closed e p ∷ events)) nobody).announced
      ≡ record { entity_id = e; online = false; at = later } ∷ (run events nobody).announced
unfolding run step settled disconnected
announced_offline events closed later readable e p he hp dead = ground arith

-- Of an entity and a credential that are not blank: after any history in which no other credential of the
-- entity was last opened, a close that is written is announced offline once it settles, though more than
-- one stream of the credential was open and so one still is.
pub settled_while_open :
    (events : List Event) (closed later : ℕ) (readable : Bool) (e p : Text)
    → is_empty e ≡ false
    → is_empty p ≡ false
    → ((p' : Text) → last_opened e p' events ≡ true → p' ≡ p)
    → 1 < open_streams e p events
    → let history = closes true closed e p ∷ events in
      (0 < open_streams e p history)
      × ((run (settles readable later e ∷ history) nobody).announced
          ≡ record { entity_id = e; online = false; at = later } ∷ (run events nobody).announced)
settled_while_open events closed later readable e p he hp others two = (
  ground (arith, text_eq_refl e, text_eq_refl p),
  announced_offline events closed later readable e p he hp
      (dead-close events closed e p he hp others),
)
