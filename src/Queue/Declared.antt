-- ===== src/Queue/Declared.antt =====
-- No job is published to a queue that was not declared on its channel.
use chatterloop_developer_se.Common.{
  ℕ, ◌&&◌, ◌||◌, Bool, true, false, Option, none, some, List, [], ◌∷◌, Text, text_eq, text_eq_refl,
  contains, ◌≡◌, refl, arith, Bool-cases, inl, inr, is_empty, Option-cases, ap, ◌∙◌, ◌==◌,
}
use mathlib.Core.Path.{subst}
use chatterloop_developer_se.Queue.{
  usable, Event, declared_queue, published, Publisher, Broker, ensure_conn, ensure_open,
  ensure_declared, open_channel, ensure_channel, reset, publish, publish_all, new, hand_over,
}

abbrev is_declaration : ℕ → Text → Event → Bool
is_declaration ch queue (declared_queue c q) = c == ch && text_eq q queue
is_declaration ch queue (published _ _ _) = false

-- The queue was declared on the channel.
abbrev pub was_declared : ℕ → Text → List Event → Bool
was_declared ch queue [] = false
was_declared ch queue (e ∷ log) = is_declaration ch queue e || was_declared ch queue log

-- Every job of the log was published after its queue was declared on its channel.
abbrev pub DeclaredFirst : List Event → Type 0
DeclaredFirst [] = Unit
DeclaredFirst (declared_queue _ _ ∷ log) = DeclaredFirst log
DeclaredFirst (published ch queue _ ∷ log) = (was_declared ch queue log ≡ true) × DeclaredFirst log

-- The state agrees with the log: the queues it holds as declared were declared on its channel, and
-- without a channel there are none.
pub record Agrees (p : Publisher) : Type 0 where
  pub order : DeclaredFirst p.log
  pub held :
      (queue : Text) (ch : ℕ)
      → p.channel ≡ some ch
      → contains queue p.declared ≡ true
      → was_declared ch queue p.log ≡ true

nothing_in : (queue : Text) → contains queue [] ≡ false
unfolding contains
nothing_in queue = refl

-- A state that holds no queue as declared agrees with the log of one that agrees.
forgetting : (p q : Publisher) → q.log ≡ p.log → q.declared ≡ [] → Agrees p → Agrees q
forgetting p q same none' a = record {
  order = rw same a.order;
  held = λ queue ch _ h. cc (nothing_in queue, rw none' at h);
}

ensure_conn-Agrees : (b : Broker) (p : Publisher) → Agrees p → Agrees (ensure_conn b p).1
unfolding ensure_conn
ensure_conn-Agrees b p a = elim (Bool-cases (usable p.conn b.conn_closed)) [
  | inl ready ↦ rw (ensure_conn, ready) a
  | inr gone ↦ elim (Option-cases b.dial) [
    | inl failed ↦ rw (ensure_conn, gone, failed) a
    | inr (c, dialed) ↦ rw (ensure_conn, gone, dialed) (forgetting p _ refl refl a)
  ]
]

open_channel-Agrees :
    (b : Broker) (p : Publisher)
    → Agrees p
    → Agrees (open_channel b p).1
      × ((ch : ℕ) → (open_channel b p).0 ≡ some ch → (open_channel b p).1.channel ≡ some ch)
open_channel-Agrees b p a = elim (Option-cases b.opens) [
  | inl failed ↦ rw failed (a, λ ch e. cc)
  | inr (c, opened) ↦ rw opened (forgetting p _ refl refl a, λ ch e. e)
]

ensure_open-Agrees :
    (b : Broker) (p : Publisher)
    → Agrees p
    → Agrees (ensure_open b p).1
      × ((ch : ℕ) → (ensure_open b p).0 ≡ some ch → (ensure_open b p).1.channel ≡ some ch)
unfolding ensure_open
ensure_open-Agrees b p a = elim (Option-cases p.channel) [
  | inl none' ↦ rw (ensure_open, none') (open_channel-Agrees b p a)
  | inr (c, held) ↦ elim (Bool-cases b.channel_closed) [
    | inl closed ↦ rw (ensure_open, held, closed) (open_channel-Agrees b p a)
    | inr ready ↦ rw (ensure_open, held, ready) (a, λ ch e. held ∙ e)
  ]
]

declaring :
    (b : Broker) (ch : ℕ) (queue : Text) (p : Publisher)
    → p.channel ≡ some ch
    → Agrees p
    → Agrees (record p { declared = queue ∷ p.declared; log = declared_queue ch queue ∷ p.log })
unfolding contains
declaring b ch queue p on a = record {
  order = a.order;
  held = λ q c e h. elim (Bool-cases (text_eq queue q)) [
    | inl same ↦ ground arith
    | inr other ↦ ground (arith, a.held q c e)
  ];
}

ensure_declared-Agrees :
    (b : Broker) (ch : ℕ) (queue : Text) (p : Publisher)
    → p.channel ≡ some ch
    → Agrees p
    → Agrees (ensure_declared b ch queue p).1
      × ((ensure_declared b ch queue p).0 ≡ true
          → was_declared ch queue (ensure_declared b ch queue p).1.log ≡ true)
unfolding ensure_declared
ensure_declared-Agrees b ch queue p on a = elim (Bool-cases (contains queue p.declared)) [
  | inl known ↦ rw (ensure_declared, known) (a, λ _. a.held queue ch on known)
  | inr fresh ↦ elim (Bool-cases b.declares) [
    | inr failed ↦ rw (ensure_declared, fresh, failed) (a, λ e. cc)
    | inl declares ↦
        rw (ensure_declared, fresh, declares)
          (declaring b ch queue p on a, λ e. ground (arith, text_eq_refl queue))
  ]
]

some-injective : {m n : ℕ} → some m ≡ some n → m ≡ n
some-injective {m} e = ap (λ (o : Option ℕ). elim o [ none ↦ m | some x ↦ x ]) e

handing :
    (b : Broker) (queue body : Text) (ch : ℕ) (p : Publisher)
    → was_declared ch queue p.log ≡ true
    → Agrees p
    → Agrees (hand_over b queue body ch p).1
handing b queue body ch p told a = elim (Bool-cases b.accepts) [
  | inr lost ↦ rw lost (forgetting p _ (unfold reset in refl) (unfold reset in refl) a)
  | inl handed ↦
      rw handed
        (record { order = (told, a.order); held = λ q c e h. ground (arith, a.held q c e h) })
]

ensure_channel-Agrees :
    (b : Broker) (queue : Text) (p : Publisher)
    → Agrees p
    → Agrees (ensure_channel b queue p).1
      × ((ch : ℕ)
          → (ensure_channel b queue p).0 ≡ some ch
          → was_declared ch queue (ensure_channel b queue p).1.log ≡ true)
unfolding ensure_channel
ensure_channel-Agrees b queue p a =
    let q = (ensure_conn b p).1 in
    let (opened, on) = ensure_open-Agrees b q (ensure_conn-Agrees b p a) in
    elim (Bool-cases (ensure_conn b p).0) [
      | inr failed ↦ rw (ensure_channel, failed) (ensure_conn-Agrees b p a, λ ch e. cc)
      | inl connected ↦ elim (Option-cases (ensure_open b q).0) [
        | inl failed ↦ rw (ensure_channel, connected, failed) (opened, λ ch e. cc)
        | inr (c, held) ↦
            let r = (ensure_open b q).1 in
            let (agrees, told) = ensure_declared-Agrees b c queue r (on c held) opened in
            elim (Bool-cases (ensure_declared b c queue r).0) [
              | inr failed ↦ rw (ensure_channel, connected, held, failed) (agrees, λ ch e. cc)
              | inl done ↦
                  rw (ensure_channel, connected, held, done)
                    (
                      agrees,
                      λ ch e.
                          subst
                            (λ x. was_declared x queue (ensure_declared b c queue r).1.log ≡ true)
                            (some-injective e) (told done),
                    )
            ]
      ]
    ]

publish-Agrees :
    (b : Broker) (queue : Text) (body : Option Text) (p : Publisher)
    → Agrees p
    → Agrees (publish b queue body p).1
unfolding publish
publish-Agrees b queue none p a = a
publish-Agrees b queue (some body) p a =
    let (agrees, told) = ensure_channel-Agrees b queue p a in
    elim (Bool-cases (is_empty p.url)) [
      | inl off ↦ rw (publish, off) a
      | inr on ↦ elim (Option-cases (ensure_channel b queue p).0) [
        | inl failed ↦ rw (publish, on, failed) agrees
        | inr (ch, ready) ↦
            rw (publish, on, ready) (handing b queue body ch _ (told ch ready) agrees)
      ]
    ]

publish_all-Agrees :
    (calls : List (Broker × Text × Option Text)) (p : Publisher)
    → Agrees p
    → Agrees (publish_all calls p)
unfolding publish_all
publish_all-Agrees [] p a = a
publish_all-Agrees ((b, queue, body) ∷ calls) p a =
    publish_all-Agrees calls (publish b queue body p).1 (publish-Agrees b queue body p a)

-- However the broker answers in each call of a sequence, no job is published on a channel where its
-- queue was not declared before.
pub publish_all-DeclaredFirst :
    (url : Text) (calls : List (Broker × Text × Option Text))
    → DeclaredFirst (publish_all calls (new url)).log
publish_all-DeclaredFirst url calls =
    (publish_all-Agrees calls (new url) (record { order = tt; held = λ queue ch e. cc })).order
