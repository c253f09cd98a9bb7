-- ===== src/Presence/Sessions.antt =====
-- The collection of sessions after any history of calls.
use chatterloop_developer_se.Common.{
  Bool, true, false, ◌&&◌, ◌||◌, not, List, [], ◌∷◌, Text, if◌then◌else◌, is_empty, ◌≡◌, refl,
  arith, ◌↔◌, sym, ◌∙◌,
}
use chatterloop_developer_se.Presence.Keeping.{
  has_row, OneRowEach, status_of, same, has_row-upsert, has_row-close, upsert-OneRowEach,
  close-OneRowEach, status-upsert, status-close, live-status, status-live,
}
use chatterloop_developer_se.Presence.{
  has_live_session, World, Event, opens, closes, settles, step, run, connected, disconnected,
  settled,
}

-- A call that reaches the collection.
abbrev reaches : Bool → Text → Text → Bool
reaches written e p = written && (not (is_empty e) && not (is_empty p))

-- Whether the last call for a credential that reached the collection opened its stream.
abbrev pub last_opened : Text → Text → List Event → Bool
last_opened a b [] = false
last_opened a b (opens written now e p name ∷ events) =
    if reaches written e p && same e p a b then true else last_opened a b events
last_opened a b (closes written now e p ∷ events) =
    if reaches written e p && same e p a b then false else last_opened a b events
last_opened a b (settles readable now e ∷ events) = last_opened a b events

abbrev pub nobody : World
nobody = record { sessions = []; announced = [] }

step-OneRowEach : (e : Event) (w : World) → OneRowEach w.sessions → OneRowEach (step e w).sessions
unfolding step connected disconnected settled
step-OneRowEach (opens written now e p name) w h =
    ground (arith, upsert-OneRowEach e p name now w.sessions h)
step-OneRowEach (closes written now e p) w h = ground (arith, close-OneRowEach e p now w.sessions h)
step-OneRowEach (settles readable now e) w h = ground arith

run-OneRowEach : (events : List Event) → OneRowEach (run events nobody).sessions
unfolding run
run-OneRowEach [] = tt
run-OneRowEach (e ∷ events) = step-OneRowEach e (run events nobody) (run-OneRowEach events)

run-status :
    (events : List Event) (a b : Text)
    → status_of a b (run events nobody).sessions ≡ last_opened a b events
unfolding run step connected disconnected settled
run-status [] a b = unfold status_of in refl
run-status (opens written now e p name ∷ events) a b =
    ground
      (arith, status-upsert e p name now (run events nobody).sessions a b, run-status events a b)
run-status (closes written now e p ∷ events) a b =
    ground (arith, status-close e p now (run events nobody).sessions a b, run-status events a b)
run-status (settles readable now e ∷ events) a b = ground (arith, run-status events a b)

-- Whether a call that reached the collection ever opened a stream for a credential.
abbrev pub ever_opened : Text → Text → List Event → Bool
ever_opened a b [] = false
ever_opened a b (opens written now e p name ∷ events) =
    (reaches written e p && same e p a b) || ever_opened a b events
ever_opened a b (closes written now e p ∷ events) = ever_opened a b events
ever_opened a b (settles readable now e ∷ events) = ever_opened a b events

run-has_row :
    (events : List Event) (a b : Text)
    → has_row a b (run events nobody).sessions ≡ ever_opened a b events
unfolding run step connected disconnected settled
run-has_row [] a b = refl
run-has_row (opens written now e p name ∷ events) a b =
    ground
      (arith, has_row-upsert e p name now (run events nobody).sessions a b, run-has_row events a b)
run-has_row (closes written now e p ∷ events) a b =
    ground (arith, has_row-close e p now (run events nobody).sessions a b, run-has_row events a b)
run-has_row (settles readable now e ∷ events) a b = ground (arith, run-has_row events a b)

-- After any history of calls, whatever order their writes come in, no credential has two rows, and it has
-- one exactly when a call that reached the collection ever opened a stream for it, so that a close keeps
-- the row. HasLiveSession finds a live session of an entity exactly when the last call for one of its
-- credentials that reached the collection opened a stream.
pub has_live_session_iff :
    (events : List Event) (e p : Text)
    → OneRowEach (run events nobody).sessions
      × (has_row e p (run events nobody).sessions ≡ ever_opened e p events)
      × ((has_live_session e (run events nobody).sessions ≡ true)
          ↔ ((q : Text) × (last_opened e q events ≡ true)))
has_live_session_iff events e p = (
  run-OneRowEach events,
  run-has_row events e p,
  (
    λ h.
        let (q, on) = live-status e (run events nobody).sessions (run-OneRowEach events) h in
        (q, sym (run-status events e q) ∙ on),
    λ (q, on). status-live e q (run events nobody).sessions (run-status events e q ∙ on),
  ),
)
