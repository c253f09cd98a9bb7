-- ===== src/Stream/Tests.antt =====
-- Witnesses of internal/stream's theorems.
use chatterloop_developer_se.Common.{
  true, false, none, List, [], ◌∷◌, ◌++◌, Text, Option, codes, keep, ◌≡◌,
}
use chatterloop_developer_se.Stream.{Input, message, heartbeat, done, serve, streamed}
use chatterloop_developer_se.Stream.Frames.{chunks_of, shown, until_stop, serve-chunks}

abbrev a_session : List Input
a_session =
    heartbeat true
    ∷ message true true (codes "{}")
    ∷ message false true (codes "secret")
    ∷ done
    ∷ message true true (codes "late")
    ∷ []

abbrev no_event : Text → Option Text
no_event _ = none

abbrev quoted : Text → Text
quoted t = b'"' ∷ (t ++ codes "\"")

serve-chunks_example :
    serve quoted no_event true (codes "e1") a_session
    ≡ streamed (
        (codes "event: ready\ndata: {\"entity_id\":" ++ (quoted (codes "e1") ++ codes "}\n\n"))
        ∷ chunks_of no_event (keep shown (until_stop a_session)))
serve-chunks_example = serve-chunks quoted no_event (codes "e1") a_session
