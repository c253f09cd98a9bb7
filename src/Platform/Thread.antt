-- ===== src/Platform/Thread.antt =====
-- internal/platform/thread.go: linkedAncestors and ReplyThread.
pub mod Links
pub mod Walk
pub mod Roots
pub mod Segments
use chatterloop_developer_se.Common.{
  ℕ, zero, suc, ◌+◌, ◌-◌, ◌≤◌, ◌<◌, Bool, true, false, ◌||◌, ◌&&◌, not, Option, none, some, List,
  [], ◌∷◌, ◌++◌, Text, text_eq, if◌then◌else◌, ◌≡◌, refl, codes, lookup, is_empty, reverse, ℤ,
  Fetched, found, missing, broken, ltb, ◌==◌, length,
}
use chatterloop_developer_se.Platform.Bson.{Value, Fields, get}
use chatterloop_developer_se.Platform.Messages.{Message, decode_message, decode_replying_to}

-- What a segment of the walk returns: the readable messages nearest first, the parent it stopped
-- at, and the links followed.
pub record Segment : Type 0 where
  pub chain : List Message
  pub next : Text
  pub used : ℕ

abbrev pub link_of : Fields → Text
link_of document = (decode_replying_to (get (codes "replyingTo") document)).0

abbrev maybe_cons : Option Message → List Message → List Message
maybe_cons none ms = ms
maybe_cons (some m) ms = m ∷ ms

abbrev follow : Option Message → Segment → Segment
follow m rest = record { chain = maybe_cons m rest.chain; next = rest.next; used = suc rest.used }

abbrev stay : Text → Segment
stay next = record { chain = []; next = next; used = 0 }

pub record Thread : Type 0 where
  pub messages : List Message
  pub depth : ℕ
  pub truncated : Bool
  pub root_message_id : Text

-- The result of ReplyThread: ErrMessageNotFound, or any other error.
pub data Outcome : Type 0 where
  thread : Thread → Outcome
  message_not_found failed : Outcome

-- The variables of ReplyThread's loop that are read after it.
pub record Walked : Type 0 where
  pub nearest_first : List Message
  pub parent : Text

-- The result of ReplyThread. `resolve` is resolveReplyParents, whose errors are dropped.
abbrev pub oldest_id : List Message → Text → Text
oldest_id [] anchor_id = anchor_id
oldest_id (m ∷ ms) anchor_id = m.message_id

abbrev pub thread_of : Message → Walked → Thread
thread_of anchor w =
    let ancestors = reverse w.nearest_first in
    let truncated = not (is_empty w.parent) in
    record {
      messages = ancestors ++ anchor ∷ [];
      depth = length ancestors;
      truncated = truncated;
      root_message_id = if truncated then [] else oldest_id ancestors anchor.message_id;
    }

-- A limit below 1 counts as 1.
abbrev pub at_least_1 : ℕ → ℕ
at_least_1 limit = if ltb limit 1 then 1 else limit

abbrev pub enrich : (List Message → Fetched (List Message)) → Thread → Thread
enrich resolve t = elim (resolve t.messages) [
  | found messages ↦ record t { messages = messages }
  | _ ↦ t
]

abbrev finish : (List Message → Fetched (List Message)) → Message → Fetched Walked → Outcome
finish resolve anchor (found w) = thread (enrich resolve (thread_of anchor w))
finish resolve anchor _ = failed

module _ (epoch_millis : Value → ℤ) where
  -- The loop, on the budget that is left.
  unfoldable pub linked_ancestors : List (Text × Fields) → Text → Text → ℕ → Segment
  linked_ancestors documents parent_id conversation_id zero = stay parent_id
  linked_ancestors documents [] conversation_id (suc budget) = stay []
  linked_ancestors documents (c ∷ parent) conversation_id (suc budget) =
      elim (lookup (c ∷ parent) documents) [
        | none ↦ stay (c ∷ parent)
        | some document ↦
            follow (decode_message epoch_millis document conversation_id)
              (linked_ancestors documents (link_of document) conversation_id budget)
      ]

  -- The loop of ReplyThread, on the budget `limit - hops` that is left. `segment start budget`
  -- answers ancestorSegment. Every round but the last follows a link, so as many rounds as the
  -- budget are enough.
  unfoldable pub walk :
      (Text → ℕ → Fetched (List (Text × Fields)))
      → Text
      → ℕ
      → Text
      → ℕ
      → List Message
      → Fetched Walked
  walk segment conversation_id zero parent budget nearest =
      found (record { nearest_first = nearest; parent = parent })
  walk segment conversation_id (suc rounds) parent budget nearest =
      let here : Walked = record { nearest_first = nearest; parent = parent } in
      let further : Fetched Walked = elim (segment parent budget) [
        | found documents ↦
            let s = linked_ancestors documents parent conversation_id budget in
            let rest : Fetched Walked =
              walk segment conversation_id rounds s.next (budget - s.used) (nearest ++ s.chain) in
            if s.used == 0 then found here else rest
        | _ ↦ broken
      ] in
      if is_empty parent || budget == 0 then found here else further

  abbrev from_anchor :
      (Text → ℕ → Fetched (List (Text × Fields)))
      → (List Message → Fetched (List Message))
      → Text
      → ℕ
      → Option Message
      → Outcome
  from_anchor segment resolve conversation_id limit none = message_not_found
  from_anchor segment resolve conversation_id limit (some anchor) =
      let budget = at_least_1 limit in
      finish resolve anchor (walk segment conversation_id budget anchor.replying_to budget [])

  unfoldable pub reply_thread :
      (Text → Fetched Fields)
      → (Text → ℕ → Fetched (List (Text × Fields)))
      → (List Message → Fetched (List Message))
      → Text
      → Text
      → ℕ
      → Outcome
  unfolding walk
  reply_thread anchor_query segment resolve conversation_id message_id limit =
      if is_empty conversation_id || is_empty message_id
      then message_not_found
      else elim (anchor_query message_id) [
        | missing ↦ message_not_found
        | broken ↦ failed
        | found raw ↦
            from_anchor segment resolve conversation_id limit
              (decode_message epoch_millis raw conversation_id)
      ]
