-- ===== src/Stream/Frames.antt =====
-- Which chunks leave a stream.
use chatterloop_developer_se.Common.{
  Bool, true, false, Option, List, [], ◌∷◌, ◌++◌, Text, if◌then◌else◌, codes, not, ◌&&◌, ◌≡◌, refl,
  keep, ap, none, some, is_empty, arith,
}
use chatterloop_developer_se.Stream.{
  Input, message, heartbeat, done, closed, serve_loop, serve, streamed, keepalive, frame_text,
  frame_event,
}

-- The receives that end the loop.
abbrev pub stops : Input → Bool
stops done = true
stops closed = true
stops (message allowed written payload) = allowed && not written
stops (heartbeat written) = not written

abbrev pub until_stop : List Input → List Input
until_stop [] = []
until_stop (i ∷ inputs) = if stops i then [] else i ∷ until_stop inputs

abbrev pub shown : Input → Bool
shown (message allowed written payload) = allowed
shown _ = true

-- The name of a frame's event, `message` where there is none.
abbrev pub name_of : Option Text → Text
name_of none = codes "message"
name_of (some event) = if is_empty event then codes "message" else event

-- What goes over the wire, written out.
abbrev pub chunk_of : (Text → Option Text) → Input → Text
chunk_of decode (message allowed written payload) =
    codes "event: " ++ (name_of (decode payload) ++ (codes "\ndata: " ++ (payload ++ codes "\n\n")))
chunk_of decode _ = codes ": keepalive\n\n"

frame_event_lem :
    (decode : Text → Option Text) (payload : Text)
    → frame_event decode payload ≡ name_of (decode payload)
unfolding frame_event
frame_event_lem decode payload = ground arith

frame_text_lem :
    (decode : Text → Option Text) (payload : Text)
    → frame_text decode payload ≡ chunk_of decode (message true true payload)
frame_text_lem decode payload = rw (frame_event_lem decode payload)

abbrev pub chunks_of : (Text → Option Text) → List Input → List Text
chunks_of decode [] = []
chunks_of decode (i ∷ inputs) = chunk_of decode i ∷ chunks_of decode inputs

serve_loop-chunks :
    (decode : Text → Option Text) (inputs : List Input)
    → serve_loop decode inputs ≡ chunks_of decode (keep shown (until_stop inputs))
unfolding serve_loop
serve_loop-chunks decode [] = refl
serve_loop-chunks decode (done ∷ inputs) = refl
serve_loop-chunks decode (closed ∷ inputs) = refl
serve_loop-chunks decode (message true true payload ∷ inputs) =
    rw (frame_text_lem decode payload, serve_loop-chunks decode inputs)
serve_loop-chunks decode (message true false payload ∷ inputs) = refl
serve_loop-chunks decode (message false written payload ∷ inputs) = serve_loop-chunks decode inputs
serve_loop-chunks decode (heartbeat true ∷ inputs) =
    ap (λ r. keepalive ∷ r) (serve_loop-chunks decode inputs)
serve_loop-chunks decode (heartbeat false ∷ inputs) = refl

-- A client that can be streamed to gets the ready event, and then, in order and up to the first receive
-- that ends the loop, a keepalive comment for each heartbeat and every allowed frame as `event: ` with the
-- name of its event, or `message` where it has none, and `data: ` with its payload verbatim. A frame
-- that is not allowed leaves no trace.
pub serve-chunks :
    (quote : Text → Text) (decode : Text → Option Text) (entity_id : Text) (inputs : List Input)
    → serve quote decode true entity_id inputs
      ≡ streamed (
          (codes "event: ready\ndata: {\"entity_id\":" ++ (quote entity_id ++ codes "}\n\n"))
          ∷ chunks_of decode (keep shown (until_stop inputs)))
unfolding serve
serve-chunks quote decode entity_id inputs =
    ap
      (λ r.
        streamed
          ((codes "event: ready\ndata: {\"entity_id\":" ++ (quote entity_id ++ codes "}\n\n")) ∷ r))
      (serve_loop-chunks decode inputs)
