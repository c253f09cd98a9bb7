-- ===== src/Stream.antt =====
-- internal/stream/sse.go: Serve, frameEvent and ChannelFor. What the loop's select receives is a list,
-- in the order in which it is received; the chunks written are the result.
pub mod Frames
mod Tests
use chatterloop_developer_se.Common.{
  Bool, true, false, Option, none, some, List, [], ◌∷◌, ◌++◌, Text, if◌then◌else◌, codes,
}

unfoldable pub channel_for : Text → Text
channel_for entity_id = codes "events_" ++ entity_id

-- One receive: the end of the context, the end of the subscription, a frame with what AllowFrame
-- answers for it then (true where there is none), or the heartbeat. `written` is whether the write
-- succeeds, if there is one.
pub data Input : Type 0 where
  done closed : Input
  message : (allowed written : Bool) → Text → Input
  heartbeat : (written : Bool) → Input

-- `decode` answers the `event` of a payload that Unmarshal accepts.
unfoldable pub frame_event : (Text → Option Text) → Text → Text
frame_event decode payload = elim (decode payload) [
  | none ↦ codes "message"
  | some [] ↦ codes "message"
  | some (c ∷ event) ↦ c ∷ event
]

abbrev pub keepalive : Text
keepalive = codes ": keepalive\n\n"

abbrev pub frame_text : (Text → Option Text) → Text → Text
frame_text decode payload =
    codes "event: "
    ++ (frame_event decode payload ++ (codes "\ndata: " ++ (payload ++ codes "\n\n")))

-- The loop of Serve.
unfoldable pub serve_loop : (Text → Option Text) → List Input → List Text
unfolding frame_event
serve_loop decode [] = []
serve_loop decode (done ∷ inputs) = []
serve_loop decode (closed ∷ inputs) = []
serve_loop decode (message allowed written payload ∷ inputs) =
    let rest = serve_loop decode inputs in
    if allowed then if written then frame_text decode payload ∷ rest else [] else rest
serve_loop decode (heartbeat written ∷ inputs) =
    let rest = serve_loop decode inputs in if written then keepalive ∷ rest else []

pub data Served : Type 0 where
  unsupported : Served
  streamed : List Text → Served

-- `quote` is the verb %q; the write of the first event is not checked.
unfoldable pub serve :
    (Text → Text) → (Text → Option Text) → (flushes : Bool) → Text → List Input → Served
unfolding serve_loop
serve quote decode false entity_id inputs = unsupported
serve quote decode true entity_id inputs = streamed (
    (codes "event: ready\ndata: {\"entity_id\":" ++ (quote entity_id ++ codes "}\n\n"))
    ∷ serve_loop decode inputs)
