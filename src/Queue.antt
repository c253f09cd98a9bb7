-- ===== src/Queue.antt =====
-- internal/queue/queue.go: Publisher, as a state with the log of what the broker was told. What the
-- broker answers in one call of Publish is a parameter.
pub mod Declared
pub mod Handing
mod Tests
use chatterloop_developer_se.Common.{
  ℕ, Bool, true, false, not, Option, none, some, List, [], ◌∷◌, Text, contains, if◌then◌else◌,
  is_empty,
}

-- What the broker was told: a queue declared on a channel, a job published on a channel.
pub data Event : Type 0 where
  declared_queue : ℕ → Text → Event
  published : ℕ → Text → Text → Event

-- The latest event of the log comes first.
pub record Publisher : Type 0 where
  pub url : Text
  pub conn : Option ℕ
  pub channel : Option ℕ
  pub declared : List Text
  pub log : List Event

-- `IsClosed` of the connection and of the channel, what Dial and Channel return, and whether
-- QueueDeclare and PublishWithContext succeed.
pub record Broker : Type 0 where
  pub conn_closed : Bool
  pub channel_closed : Bool
  pub dial : Option ℕ
  pub opens : Option ℕ
  pub declares : Bool
  pub accepts : Bool

abbrev pub usable : Option ℕ → Bool → Bool
usable none closed = false
usable (some _) closed = not closed

-- The first step of ensureChannel; `false` is its error.
unfoldable pub ensure_conn : Broker → Publisher → Bool × Publisher
ensure_conn b p = if usable p.conn b.conn_closed then (true, p) else elim b.dial [
  | none ↦ (false, p)
  | some c ↦ (true, record p { conn = some c; channel = none; declared = [] })
]

abbrev pub open_channel : Broker → Publisher → Option ℕ × Publisher
open_channel b p = elim b.opens [
  | none ↦ (none, p)
  | some ch ↦ (some ch, record p { channel = some ch; declared = [] })
]

-- The second step, with the channel it leaves; `none` is its error.
unfoldable pub ensure_open : Broker → Publisher → Option ℕ × Publisher
ensure_open b p = elim p.channel [
  | none ↦ open_channel b p
  | some ch ↦ if b.channel_closed then open_channel b p else (some ch, p)
]

-- The third step, on the channel `ch`.
unfoldable pub ensure_declared : Broker → ℕ → Text → Publisher → Bool × Publisher
ensure_declared b ch queue p =
    if contains queue p.declared
    then (true, p)
    else if b.declares
    then (true, record p { declared = queue ∷ p.declared; log = declared_queue ch queue ∷ p.log })
    else (false, p)

unfoldable pub ensure_channel : Broker → Text → Publisher → Option ℕ × Publisher
ensure_channel b queue p =
    let (connected, q) = ensure_conn b p in
    if not connected
    then (none, q)
    else let (channel, r) = ensure_open b q in
      elim channel [
        | none ↦ (none, r)
        | some ch ↦
            let (ok, t) = ensure_declared b ch queue r in if ok then (some ch, t) else (none, t)
      ]

unfoldable pub reset : Publisher → Publisher
reset p = record p { conn = none; channel = none; declared = [] }

abbrev pub hand_over : Broker → Text → Text → ℕ → Publisher → Bool × Publisher
hand_over b queue body ch p =
    if b.accepts
    then (true, record p { log = published ch queue body ∷ p.log })
    else (false, reset p)

-- Publish; `body` is the payload encoded, `none` where that fails.
unfoldable pub publish : Broker → Text → Option Text → Publisher → Bool × Publisher
publish b queue none p = (false, p)
publish b queue (some body) p =
    if is_empty p.url
    then (false, p)
    else let (channel, q) = ensure_channel b queue p in
      elim channel [ none ↦ (false, q) | some ch ↦ hand_over b queue body ch q ]

abbrev pub new : Text → Publisher
new url = record { url = url; conn = none; channel = none; declared = []; log = [] }

-- A sequence of calls, each with what the broker answers in it.
unfoldable pub publish_all : List (Broker × Text × Option Text) → Publisher → Publisher
publish_all [] p = p
publish_all ((b, queue, body) ∷ calls) p = publish_all calls (publish b queue body p).1
