-- ===== src/Queue/Tests.antt =====
-- Witnesses of internal/queue: its theorems at concrete inputs.
use chatterloop_developer_se.Common.{
  true, false, some, Option, List, [], ◌∷◌, Text, codes, ◌≡◌, refl, contains, text_eq,
}
use chatterloop_developer_se.Queue.{
  Publisher, Broker, publish, publish_all, new, ensure_channel, ensure_conn, ensure_open,
  ensure_declared, reset,
}
use chatterloop_developer_se.Queue.Declared.{DeclaredFirst, publish_all-DeclaredFirst}
use chatterloop_developer_se.Queue.Handing.{jobs, publish-healthy}

-- A broker that closed what was open, and takes what it is given; and one that refuses the job.
abbrev reopening : Broker
reopening = record {
  conn_closed = true;
  channel_closed = true;
  dial = some 7;
  opens = some 8;
  declares = true;
  accepts = true;
}

abbrev refusing : Broker
refusing = record reopening { conn_closed = false; channel_closed = false; accepts = false }

abbrev three_calls : List (Broker × Text × Option Text)
three_calls =
    (reopening, codes "send_push", some (codes "{}"))
    ∷ (refusing, codes "send_push", some (codes "{}"))
    ∷ (reopening, codes "bump_chat_score", some (codes "{}"))
    ∷ []

publish_all-DeclaredFirst_example :
    DeclaredFirst (publish_all three_calls (new (codes "amqp://broker"))).log
publish_all-DeclaredFirst_example = publish_all-DeclaredFirst (codes "amqp://broker") three_calls

abbrev after_three : Publisher
after_three = publish_all three_calls (new (codes "amqp://broker"))

publish-healthy_example :
    ((publish reopening (codes "q") (some (codes "{}")) after_three).0 ≡ true)
    × (jobs (publish reopening (codes "q") (some (codes "{}")) after_three).1.log
        ≡ (codes "q", codes "{}") ∷ jobs after_three.log)
unfolding publish_all publish ensure_channel ensure_conn ensure_open ensure_declared contains reset
    text_eq
publish-healthy_example =
    publish-healthy reopening (codes "q") (codes "{}") after_three 7 8 refl refl refl refl refl
