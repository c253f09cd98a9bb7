-- ===== src/Queue/Handing.antt =====
-- What the result of Publish says of the job.
use chatterloop_developer_se.Common.{
  ℕ, true, false, none, some, List, [], ◌∷◌, Text, ◌≡◌, arith, inl, inr, is_empty, if◌then◌else◌,
  Option-cases, ◌≢◌, ◌∙◌,
}
use chatterloop_developer_se.Queue.{
  Event, declared_queue, published, Publisher, Broker, ensure_conn, ensure_open, ensure_declared,
  ensure_channel, publish, reset,
}

-- The jobs the broker was given, the latest first.
abbrev pub jobs : List Event → List (Text × Text)
jobs [] = []
jobs (declared_queue _ _ ∷ log) = jobs log
jobs (published _ queue body ∷ log) = (queue, body) ∷ jobs log

conn-jobs : (b : Broker) (p : Publisher) → (ensure_conn b p).1.log ≡ p.log
unfolding ensure_conn
conn-jobs b p = ground arith

open-jobs : (b : Broker) (p : Publisher) → (ensure_open b p).1.log ≡ p.log
unfolding ensure_open
open-jobs b p = ground arith

declared-jobs :
    (b : Broker) (ch : ℕ) (queue : Text) (p : Publisher)
    → jobs (ensure_declared b ch queue p).1.log ≡ jobs p.log
unfolding ensure_declared
declared-jobs b ch queue p = ground arith

channel-jobs :
    (b : Broker) (queue : Text) (p : Publisher) → jobs (ensure_channel b queue p).1.log ≡ jobs p.log
unfolding ensure_channel
channel-jobs b queue p =
    let q = (ensure_conn b p).1 in
    elim (Option-cases (ensure_open b q).0) [
      | inl failed ↦ ground (arith, conn-jobs b p, open-jobs b q)
      | inr (ch, held) ↦
          ground (arith, conn-jobs b p, open-jobs b q, declared-jobs b ch queue (ensure_open b q).1)
    ]

-- Publish returns true exactly when the broker was given the job, once; otherwise it was given none.
pub publish-jobs :
    (b : Broker) (queue body : Text) (p : Publisher)
    → jobs (publish b queue (some body) p).1.log
      ≡ (if (publish b queue (some body) p).0 then (queue, body) ∷ jobs p.log else jobs p.log)
unfolding publish reset
publish-jobs b queue body p = ground (arith, channel-jobs b queue p)

conn_healthy :
    (b : Broker) (p : Publisher) (conn : ℕ) → b.dial ≡ some conn → (ensure_conn b p).0 ≡ true
unfolding ensure_conn
conn_healthy b p conn dials = ground arith

open_healthy :
    (b : Broker) (p : Publisher) (channel : ℕ) → b.opens ≡ some channel → (ensure_open b p).0 ≢ none
unfolding ensure_open
open_healthy b p channel opens = ground arith

declared_healthy :
    (b : Broker) (ch : ℕ) (queue : Text) (p : Publisher)
    → b.declares ≡ true
    → (ensure_declared b ch queue p).0 ≡ true
unfolding ensure_declared
declared_healthy b ch queue p declares = ground arith

channel_healthy :
    (b : Broker) (queue : Text) (p : Publisher) (conn channel : ℕ)
    → b.dial ≡ some conn
    → b.opens ≡ some channel
    → b.declares ≡ true
    → (ensure_channel b queue p).0 ≢ none
unfolding ensure_channel
channel_healthy b queue p conn channel dials opens declares =
    let q = (ensure_conn b p).1 in
    elim (Option-cases (ensure_open b q).0) [
      | inl failed ↦ absurd (open_healthy b q channel opens failed)
      | inr (ch, held) ↦
          rw
            (
              ensure_channel,
              conn_healthy b p conn dials,
              held,
              declared_healthy b ch queue (ensure_open b q).1 declares,
            )
            (λ e. cc)
    ]

publish-true :
    (b : Broker) (queue body : Text) (p : Publisher) (conn channel : ℕ)
    → is_empty p.url ≡ false
    → b.dial ≡ some conn
    → b.opens ≡ some channel
    → b.declares ≡ true
    → b.accepts ≡ true
    → (publish b queue (some body) p).0 ≡ true
unfolding publish reset
publish-true b queue body p conn channel on dials opens declares accepts =
    ground (arith, channel_healthy b queue p conn channel dials opens declares)

-- With a broker that dials, opens, declares and accepts, a configured publisher always hands the job
-- over: Publish answers true, and the broker was given the job, once and to its queue, whatever became
-- of the connection and the channel that the publisher held.
pub publish-healthy :
    (b : Broker) (queue body : Text) (p : Publisher) (conn channel : ℕ)
    → is_empty p.url ≡ false
    → b.dial ≡ some conn
    → b.opens ≡ some channel
    → b.declares ≡ true
    → b.accepts ≡ true
    → ((publish b queue (some body) p).0 ≡ true)
      × (jobs (publish b queue (some body) p).1.log ≡ (queue, body) ∷ jobs p.log)
publish-healthy b queue body p conn channel on dials opens declares accepts =
    let handed = publish-true b queue body p conn channel on dials opens declares accepts in
    (handed, publish-jobs b queue body p ∙ rw handed)
